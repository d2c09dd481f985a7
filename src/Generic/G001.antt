-- ===== src/Generic/G001.antt =====
-- kunit/xfstests/generic/001.c, the chain copier: its files and its case bodies.
pub mod Content
pub mod Chain
pub mod Probe
use Prim.Native.String.{◌++◌ as ◌<>◌}
use nfsplayground.Base.{
  ℕ, zero, suc, String, Bool, not, ◌||◌, some, ℤ, nonzero, State, ◌==ℤ◌, e_exist,
}
use nfsplayground.Kernel.{Kernel}
use nfsplayground.Fixture.{Fixture, sys}
use nfsplayground.Settle.{mnt}
use nfsplayground.Paths.{mkdir}
use nfsplayground.Kunit.{Case, ◌>>=◌, ◌>>◌, run, assert}

abbrev pub root : String
root = mnt <> "/kunit-generic001"

-- The third argument of gen001_path: -1 is the file itself, -2 the last link, and else a link's number.
pub data Link : Type 0 where
  original last : Link
  numbered : ℕ → Link

-- Every name of the table fits in the 160 bytes of the buffer.
unfoldable pub path_of : (ℕ → String) → String → Link → String
path_of decimal rel original = (root <> "/") <> rel
path_of decimal rel last = ((root <> "/") <> rel) <> ".last"
path_of decimal rel (numbered n) = ((root <> "/") <> rel) <> ("." <> decimal n)

-- The kernel's pseudo-random numbers and its hash of a name.
pub record Random : Type 1 where
  pub RndState : Type 0
  pub prandom_seed_state : ℕ → RndState
  pub prandom_u32_state : RndState → ℕ × RndState
  pub full_name_hash : String → ℕ

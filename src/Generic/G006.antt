-- ===== src/Generic/G006.antt =====
-- kunit/xfstests/generic/006.c: every name of six letters out of four, in one directory.
pub mod Names
use Prim.Native.String.{◌++◌ as ◌<>◌, [] as nil, ◌∷◌ as ◌<:◌}
use Prim.Native.Char.{Char}
use nfsplayground.Base.{
  ℕ, zero, suc, ◌*◌, ◌+◌, ◌/◌, ◌%◌, ◌^◌, String, Bool, true, false, not, ℤ, nonzero, State, List,
  [], ◌∷◌, call, pos, e_exist, ◌==ℤ◌, some,
}
use nfsplayground.Kernel.{Kernel, OpenFlag, o_wronly, o_creat, o_excl, Pointer, ptr, err_ptr}
use nfsplayground.Fixture.{Fixture, sys}
use nfsplayground.Paths.{mkdir, rmdir, unlink, exists}
use nfsplayground.Settle.{mnt}
use nfsplayground.Lifecycle.{is_mounted}
use nfsplayground.Kunit.{
  Case, pass, ◌>>=◌, ◌>>◌, run, step, assert, abort, expect, times, with_action,
}

abbrev pub root : String
root = mnt <> "/g006"

-- `'a' + digit`, where a digit is below 4
pub letter : ℕ → Char
letter zero = "a"
letter (suc zero) = "b"
letter (suc (suc zero)) = "c"
letter (suc (suc (suc _))) = "d"

-- `left` letters from digit `i` of `idx` on; `>> (2 * i)` and `& 3` are by powers of 4.
pub letters : ℕ → ℕ → ℕ → String
letters zero i idx = nil
letters (suc left) i idx = letter (idx / 4 ^ i % 4) <: letters left (suc i) idx

pub name : ℕ → String
name idx = (root <> "/") <> letters 6 0 idx

abbrev pub total : ℕ
total = 4096

abbrev pub new_flags : List OpenFlag
new_flags = o_wronly ∷ o_creat ∷ o_excl ∷ []

module _ (K : Kernel) where
  open K use {Machine, filp_open, filp_close, kmalloc}

  -- `filp_open` asserted to succeed, and `filp_close`
  unfoldable create : String → Case (Fixture K) (Unit {0})
  create path = do
    opened ← run (sys (filp_open path new_flags 0o666))
    elim opened [ err_ptr e ↦ abort | ptr f ↦ run (sys (call (filp_close f))) ]

  -- the second creation: it must fail, and with -EEXIST
  unfoldable create_again : String → Case (Fixture K) (Unit {0})
  create_again path = do
    opened ← run (sys (filp_open path new_flags 0o666))
    elim opened [ ptr f ↦ abort | err_ptr e ↦ expect (e ==ℤ e_exist) ]

  unfoldable pub unlink_from : ℕ → ℕ → Machine → Machine
  unlink_from zero idx s = s
  unlink_from (suc left) idx s = unlink_from left (suc idx) (unlink K (name idx) s).1

  unfoldable remove_tree : Machine → Machine
  remove_tree s = (rmdir K root (unlink_from total 0 s)).1

  unfoldable permuted_names : Case (Fixture K) (Unit {0})
  permuted_names = do
    up ← λ w n. (some (is_mounted K w), w, n)
    assert up
    err ← run (sys (mkdir K root))
    assert (not (nonzero err))
    granted ← run (sys kmalloc)
    with_action granted (λ w. record w { machine = remove_tree w.machine })
        (do
          times total 0 (λ idx. create (name idx))
          times total 0 (λ idx. run (sys (exists K (name idx))) >>= assert)
          create_again (name (total / 2))
          times total 0
              (λ idx. do err ← run (sys (unlink K (name idx))); assert (not (nonzero err)))
          err ← run (sys (rmdir K root))
          expect (not (nonzero err))
          err ← run (sys (mkdir K root))
          expect (not (nonzero err)))

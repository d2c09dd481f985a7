-- ===== src/Generic/G130.antt =====
-- kunit/xfstests/generic/130.c: buffered and direct writes, holes, truncation and appending. The
-- helpers of its cases.
pub mod Cases
pub mod Ranges
pub mod Zeroing
pub mod Coherent
use Prim.Native.Nat.{min}
use Prim.Native.String.{◌++◌ as ◌<>◌}
use nfsplayground.Base.{
  ℕ, zero, suc, ◌+◌, ◌-◌, ◌*◌, String, Bool, true, false, Option, none, some, List, [], ◌∷◌,
  replicate, ℤ, pos, State, ◌==ℤ◌, ltb, if◌then◌else◌,
}
use nfsplayground.Kernel.{Kernel, OpenFlag, ptr, err_ptr}
use nfsplayground.Paths.{unlink}
use nfsplayground.Files.{direct_write, read_range}
use nfsplayground.Settle.{mnt, rmdir_settled}
use nfsplayground.Fixture.{Fixture}
use nfsplayground.Kunit.{Case, pass, ◌>>=◌, ◌>>◌, run, step, assert, abort, expect}
use nfsplayground.Generic.Steps.{in_root, on_machine}
use nfsplayground.Generic.G075.{matches}

abbrev pub root : String
root = mnt <> "/g130"

abbrev pub most : ℕ
most = 640 * 1024

abbrev pub file_names : List String
file_names =
    "eof-zeroing_direct" ∷ "blackhole" ∷ "buff_direct_coherency" ∷ "direct_io" ∷ "fsb_edge_test"
    ∷ "trunc0" ∷ "append" ∷ "small_vector" ∷ []

abbrev pub path_of : String → String
path_of name = root <> "/" <> name

-- A buffer is an address: `alloc` gives one of a size, and `store` stores bytes at it.
pub record Buffers (K : Kernel) : Type 0 where
  pub alloc : ℕ → State K.Machine (Option ℕ)
  pub store : ℕ → List ℕ → K.Machine → K.Machine

module _ (K : Kernel) (B : Buffers K) where
  open K use {Machine, File, filp_open, kernel_write}
  open B use {alloc, store}

  -- `while (done < len)`; `at_pos` is what the last write made of the position. As many rounds as there
  -- are bytes are enough.
  unfoldable pub fill_from : ℕ → File → Bool → ℕ → ℕ → ℕ → ℕ → ℕ → Case Machine (Unit {0})
  fill_from zero f direct val at_pos len scratch done = pass tt
  fill_from (suc rounds) f direct val at_pos len scratch done = elim (ltb done len) [
    | false ↦ pass tt
    | true ↦ do
      let n = min (len - done) most
      step (store scratch (replicate n val))
      (w, at_pos') ← run (
          if direct
          then direct_write K f scratch n at_pos
          else kernel_write f (replicate n val) at_pos)
      assert (w ==ℤ pos n)
      fill_from rounds f direct val at_pos' len scratch (done + n)
  ]

  unfoldable pub fill : File → Bool → ℕ → ℕ → ℕ → ℕ → Case Machine (Unit {0})
  fill f direct val off len scratch = fill_from len f direct val off len scratch 0

  -- A difference fails and returns.
  pub expect_from : ℕ → String → ℕ → ℕ → ℕ → ℕ → Case Machine (Unit {0})
  expect_from zero path off len val done = pass tt
  expect_from (suc rounds) path off len val done = elim (ltb done len) [
    | false ↦ pass tt
    | true ↦ do
      let n = min (len - done) most
      (r, got) ← run (read_range K path n (off + done))
      assert (r ==ℤ pos n)
      elim (matches (λ _. val) 0 n got) [
        | true ↦ expect_from rounds path off len val (done + n)
        | false ↦ expect false
      ]
  ]

  pub expect_range : String → ℕ → ℕ → ℕ → Case Machine (Unit {0})
  expect_range path off len val = expect_from len path off len val 0

  -- filp_open and kunit_kmalloc, asserted to succeed
  abbrev pub with_open :
      String → List OpenFlag → ℕ → (File → Case Machine (Unit {0})) → Case Machine (Unit {0})
  with_open path flags mode body = do
    opened ← run (filp_open path flags mode)
    elim opened [ err_ptr e ↦ abort | ptr f ↦ body f ]

  abbrev pub with_buffer : (ℕ → Case Machine (Unit {0})) → Case Machine (Unit {0})
  with_buffer body = do
    granted ← run (alloc most)
    elim granted [ none ↦ abort | some buf ↦ body buf ]

  unfoldable pub unlink_all : List String → Machine → Machine
  unlink_all [] s = s
  unlink_all (name ∷ names) s = unlink_all names (unlink K (path_of name) s).1

  unfoldable pub remove_tree : Machine → Machine
  remove_tree s = (rmdir_settled K root (unlink_all file_names s)).1

  -- g130_setup, asserted to return 0, and the case
  unfoldable pub set_up : Case Machine (Unit {0}) → Case (Fixture K) (Unit {0})
  set_up body = in_root K root remove_tree (on_machine K body)

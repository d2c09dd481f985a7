-- ===== src/Generic/G313.antt =====
-- kunit/xfstests/generic/313.c: a truncation updates the times of the file.
pub mod Times
use Prim.Native.String.{◌++◌ as ◌<>◌}
use nfsplayground.Base.{
  ℕ, String, Bool, true, false, not, ◌&&◌, ◌||◌, List, [], ◌∷◌, ◌++◌, ℤ, pos, nonzero, ◌==◌, ◌==ℤ◌,
  gtℤ, ltb, length, codes,
}
use nfsplayground.Kernel.{Kernel, Timespec, o_rdwr, o_creat, o_trunc, ptr, err_ptr}
use nfsplayground.Paths.{unlink, kstat, truncate, ftruncate}
use nfsplayground.Settle.{mnt, rmdir_settled}
use nfsplayground.Fixture.{Fixture}
use nfsplayground.Kunit.{Case, pass, ◌>>=◌, ◌>>◌, run, step, assert, abort, expect}
use nfsplayground.Generic.Steps.{in_root, on_machine}

abbrev pub root : String
root = mnt <> "/g313"

abbrev pub file : String
file = root <> "/f"

-- With its terminator, as `sizeof` counts it.
abbrev pub msg : List ℕ
msg = codes "this is a test string" ++ 0 ∷ []

-- Strictly after.
unfoldable pub after : Timespec → Timespec → Bool
after a b = gtℤ a.tv_sec b.tv_sec || (a.tv_sec ==ℤ b.tv_sec) && ltb b.tv_nsec a.tv_nsec

-- The fields of a kstat that the port reads.
module _ (K : Kernel) (size_of : K.Kstat → ℕ) (mtime ctime : K.Kstat → Timespec) where
  open K use {Machine, File, Kstat, msleep, filp_open, filp_close, kernel_write}

  abbrev pub Body : Type 0 → Type 0
  Body A = Case Machine A

  unfoldable pub resize : Bool → File → ℕ → Machine → ℤ × Machine
  resize true f new_size = ftruncate K f (pos new_size)
  resize false f new_size = truncate K file (pos new_size)

  -- g313_step, which returns what it leaves in `prev`. `st` is what the stack holds.
  unfoldable pub truncate_step : File → Bool → ℕ → Kstat → Kstat → Body Kstat
  truncate_step f use_ftruncate new_size st prev = do
    step (msleep 20)
    err ← run (resize use_ftruncate f new_size)
    assert (not (nonzero err))
    (err, st') ← run (kstat K st file)
    assert (not (nonzero err))
    expect (size_of st' == new_size)
    expect (after (ctime st') (ctime prev))
    expect (after (mtime st') (mtime prev))
    pass st'

  -- Down to nothing, and up.
  unfoldable pub down_and_up : File → Bool → Kstat → Kstat → Body Kstat
  down_and_up f use_ftruncate st prev = do
    st' ← truncate_step f use_ftruncate 0 st prev
    truncate_step f use_ftruncate 123 st st'

  unfoldable do_test : Bool → Kstat → Body (Unit {0})
  do_test use_ftruncate st = do
    opened ← run (filp_open file (o_rdwr ∷ o_creat ∷ o_trunc ∷ []) 0o644)
    elim opened [
      | err_ptr e ↦ abort
      | ptr f ↦ do
        (n, at_pos) ← run (kernel_write f msg 0)
        assert (n ==ℤ pos (length msg))
        (err, st') ← run (kstat K st file)
        assert (not (nonzero err))
        last ← down_and_up f use_ftruncate st st'
        step (filp_close f)
    ]

  unfoldable remove_tree : Machine → Machine
  remove_tree s = (rmdir_settled K root (unlink K file s).1).1

  unfoldable truncate_updates : Kstat → Case (Fixture K) (Unit {0})
  truncate_updates st = in_root K root remove_tree (on_machine K (do_test false st))

  unfoldable ftruncate_updates : Kstat → Case (Fixture K) (Unit {0})
  ftruncate_updates st = in_root K root remove_tree (on_machine K (do_test true st))

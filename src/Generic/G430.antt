-- ===== src/Generic/G430.antt =====
-- kunit/xfstests/generic/430.c: copy_file_range into new files.
use Prim.Native.String.{◌++◌ as ◌<>◌}
use nfsplayground.Base.{
  ℕ, zero, suc, ◌+◌, ◌/◌, ◌%◌, String, false, not, Option, none, some, List, [], ◌∷◌, replicate, ℤ,
  pos, negsuc, nonzero, State, ◌==◌, ◌==ℤ◌,
}
use nfsplayground.Kernel.{Kernel, o_rdonly, o_rdwr, o_creat, o_trunc, ptr, err_ptr}
use nfsplayground.Paths.{unlink, kstat}
use nfsplayground.Files.{read_range}
use nfsplayground.Settle.{mnt, rmdir_settled}
use nfsplayground.Fixture.{Fixture}
use nfsplayground.Kunit.{Case, pass, ◌>>=◌, ◌>>◌, run, step, assert, abort, expect}
use nfsplayground.Generic.Steps.{in_root, on_machine}
use nfsplayground.Generic.G075.{matches}

abbrev pub root : String
root = mnt <> "/g430"

abbrev pub file : String
file = root <> "/file"

abbrev pub file_size : ℕ
file_size = 5000

abbrev pub run_len : ℕ
run_len = 1000

abbrev pub copies : List String
copies = "copy" ∷ "beginning" ∷ "middle" ∷ "end" ∷ "beyond" ∷ "hole" ∷ []

abbrev pub path_of : String → String
path_of name = root <> "/" <> name

-- `'a' + (u8)(off / G430_RUN)`, in a byte
unfoldable pub byte : ℕ → ℕ
byte off = (97 + off / run_len % 256) % 256

-- The byte that is wanted `i` bytes behind an offset of the original, or a zero where there is none.
abbrev pub want_at : Option ℕ → ℕ → ℕ
want_at none i = 0
want_at (some src_off) i = byte (src_off + i)

-- `copy_range from off to off' len` is vfs_copy_file_range, and `size_of` the size in a kstat.
module _ (K : Kernel) (copy_range : K.File → ℕ → K.File → ℕ → ℕ → State K.Machine ℤ)
    (size_of : K.Kstat → ℕ) where
  open K use {Machine, File, Kstat, kmalloc, filp_open, filp_close, kernel_write, vfs_fsync}

  -- A source that does not open ends the case; a target that does not is counted, and -1 returned.
  unfoldable copy_part : String → ℕ → ℕ → ℕ → Case Machine ℤ
  copy_part name src_off dst_off len = do
    opened ← run (filp_open file (o_rdonly ∷ []) 0)
    elim opened [
      | err_ptr e ↦ abort
      | ptr from ↦ do
        opened ← run (filp_open (path_of name) (o_rdwr ∷ o_creat ∷ o_trunc ∷ []) 0o644)
        elim opened [
          | err_ptr e ↦ do step (filp_close from); expect false; pass (negsuc 0)
          | ptr to ↦ do
            n ← run (copy_range from src_off to dst_off len)
            step (filp_close to)
            step (filp_close from)
            pass n
        ]
    ]

  -- A copy that must return a count.
  unfoldable copy_expected : String → ℕ → ℕ → ℕ → ℕ → Case Machine (Unit {0})
  copy_expected name src_off dst_off len count = do
    n ← copy_part name src_off dst_off len
    expect (n ==ℤ pos count)

  unfoldable expect_part : String → ℕ → ℕ → Option ℕ → Case Machine (Unit {0})
  expect_part name off len src_off = do
    (n, buf) ← run (read_range K (path_of name) len off)
    assert (n ==ℤ pos len)
    expect (matches (want_at src_off) 0 len buf)

  -- The runs of the original, over the runs that are left.
  unfoldable write_runs : ℕ → ℕ → File → ℕ → Case Machine (Unit {0})
  write_runs zero i f at_pos = pass tt
  write_runs (suc left) i f at_pos = do
    (n, at_pos') ← run (kernel_write f (replicate run_len (97 + i)) at_pos)
    assert (n ==ℤ pos run_len)
    write_runs left (i + 1) f at_pos'

  unfoldable copy_all : Kstat → Case Machine (Unit {0})
  copy_all st = do
    copy_expected "copy" 0 0 file_size file_size
    expect_part "copy" 0 file_size (some 0)
    copy_expected "beginning" 0 0 run_len run_len
    expect_part "beginning" 0 run_len (some 0)
    copy_expected "middle" 1000 0 3000 3000
    expect_part "middle" 0 3000 (some 1000)
    copy_expected "end" 4000 0 1000 1000
    expect_part "end" 0 1000 (some 4000)
    copy_expected "beyond" 4000 0 2000 1000
    expect_part "beyond" 0 1000 (some 4000)
    (err, st') ← run (kstat K st (path_of "beyond"))
    assert (not (nonzero err))
    expect (size_of st' == 1000)
    copy_expected "hole" 1000 1000 3000 3000
    expect_part "hole" 0 1000 none
    expect_part "hole" 1000 3000 (some 1000)

  unfoldable write_and_copy : Kstat → Case Machine (Unit {0})
  write_and_copy st = do
    granted ← run kmalloc
    assert granted
    opened ← run (filp_open file (o_rdwr ∷ o_creat ∷ o_trunc ∷ []) 0o644)
    elim opened [
      | err_ptr e ↦ abort
      | ptr f ↦ do
        write_runs (file_size / run_len) 0 f 0
        err ← run (vfs_fsync f)
        assert (not (nonzero err))
        step (filp_close f)
        copy_all st
    ]

  unfoldable pub unlink_all : List String → Machine → Machine
  unlink_all [] s = s
  unlink_all (name ∷ names) s = unlink_all names (unlink K (path_of name) s).1

  unfoldable remove_tree : Machine → Machine
  remove_tree s = (rmdir_settled K root (unlink K file (unlink_all copies s)).1).1

  unfoldable copies_into_new_files : Kstat → Case (Fixture K) (Unit {0})
  copies_into_new_files st = in_root K root remove_tree (on_machine K (write_and_copy st))

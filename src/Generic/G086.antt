-- ===== src/Generic/G086.antt =====
-- kunit/xfstests/generic/086.c: a write after an allocation and a drop of the cache keeps what stands
-- beside it.
use Prim.Native.String.{◌++◌ as ◌<>◌}
use nfsplayground.Base.{
  ℕ, ◌+◌, String, not, ◌&&◌, [], ◌∷◌, replicate, ℤ, pos, nonzero, State, ◌==◌, ◌==ℤ◌, ltb, leb,
  if◌then◌else◌,
}
use nfsplayground.Kernel.{Kernel, o_rdwr, o_creat, o_trunc, ptr, err_ptr}
use nfsplayground.Paths.{unlink, kstat}
use nfsplayground.Settle.{mnt, rmdir_settled}
use nfsplayground.Server.{export_dir}
use nfsplayground.Fixture.{Fixture}
use nfsplayground.Kunit.{Case, ◌>>=◌, ◌>>◌, run, step, assert, abort}
use nfsplayground.Generic.Steps.{in_root, on_machine}
use nfsplayground.Generic.Pattern.{verify}

abbrev pub root : String
root = mnt <> "/g086"

abbrev pub file : String
file = root <> "/testfile"

abbrev pub server_file : String
server_file = export_dir <> "/g086/testfile"

abbrev pub file_size : ℕ
file_size = 131072

abbrev pub chunk : ℕ
chunk = 2048

-- The byte that the file is to hold at an offset.
unfoldable pub expected : ℕ → ℕ
expected off =
    if leb 4096 off && ltb off (4096 + chunk)
    then 0xaa
    else if leb 65536 off && ltb off (65536 + chunk)
    then 0xbb
    else if leb 67584 off && ltb off (67584 + chunk)
    then 0xdd
    else 0

-- `fallocate f mode off len` is vfs_fallocate, `invalidate` invalidate_inode_pages2 of the file's
-- mapping, and `size_of` the size in a kstat.
module _ (K : Kernel) (fallocate : K.File → ℕ → ℕ → ℕ → State K.Machine ℤ)
    (invalidate : K.File → State K.Machine ℤ) (size_of : K.Kstat → ℕ) (page_size : ℕ) where
  open K use {Machine, File, Kstat, kmalloc, filp_open, filp_close, kernel_write, vfs_fsync}

  unfoldable write_chunk : File → ℕ → ℕ → Case Machine (Unit {0})
  write_chunk f val off = do
    granted ← run kmalloc
    assert granted
    (n, at_pos) ← run (kernel_write f (replicate chunk val) off)
    assert (n ==ℤ pos chunk)

  unfoldable pub verify_copy : String → Case Machine (Unit {0})
  verify_copy path = do
    granted ← run kmalloc
    assert granted
    verify K path expected file_size page_size

  unfoldable write_all : Kstat → File → Case Machine (Unit {0})
  write_all st f = do
    write_chunk f 0xaa 4096
    err ← run (fallocate f 0 0 file_size)
    assert (not (nonzero err))
    (err, st') ← run (kstat K st file)
    assert (not (nonzero err))
    assert (size_of st' == file_size)
    write_chunk f 0xbb 65536
    err ← run (vfs_fsync f)
    assert (not (nonzero err))
    err ← run (invalidate f)
    assert (not (nonzero err))
    write_chunk f 0xdd 67584

  unfoldable keeps_neighbour : Kstat → Case Machine (Unit {0})
  keeps_neighbour st = do
    opened ← run (filp_open file (o_rdwr ∷ o_creat ∷ o_trunc ∷ []) 0o644)
    elim opened [
      | err_ptr e ↦ abort
      | ptr f ↦ do write_all st f; verify_copy file; step (filp_close f); verify_copy server_file
    ]

  unfoldable remove_tree : Machine → Machine
  remove_tree s = (rmdir_settled K root (unlink K file s).1).1

  unfoldable allocate_and_drop : Kstat → Case (Fixture K) (Unit {0})
  allocate_and_drop st = in_root K root remove_tree (on_machine K (keeps_neighbour st))

-- ===== src/Generic/G708.antt =====
-- kunit/xfstests/generic/708.c: a direct write from a mapping that is faulted in only in part.
use Prim.Native.Nat.{bit_xor}
use Prim.Native.String.{◌++◌ as ◌<>◌}
use nfsplayground.Base.{
  ℕ, zero, suc, ◌+◌, ◌-◌, ◌*◌, ◌/◌, ◌%◌, String, true, false, not, [], ◌∷◌, nonzero, positive, ◌==◌,
  ltb,
}
use nfsplayground.Kernel.{Kernel, o_rdwr, o_creat, o_trunc, o_direct, ptr, err_ptr}
use nfsplayground.Paths.{unlink, kstat}
use nfsplayground.Files.{user_rw}
use nfsplayground.Settle.{mnt, rmdir_settled}
use nfsplayground.Server.{export_dir}
use nfsplayground.Fixture.{Fixture}
use nfsplayground.Kunit.{Case, pass, ◌>>=◌, ◌>>◌, run, step, assert, abort, expect}
use nfsplayground.Generic.Steps.{in_root, on_machine}
use nfsplayground.Generic.Mapped.{UserMemory}
use nfsplayground.Generic.Pattern.{write_pattern, verify}

abbrev pub root : String
root = mnt <> "/g708"

abbrev pub src : String
src = root <> "/dio-buf-fault.src"

abbrev pub dst : String
dst = root <> "/dio-buf-fault.dst"

abbrev pub server_dst : String
server_dst = export_dir <> "/g708/dio-buf-fault.dst"

abbrev pub file_size : ℕ
file_size = 256 * 1024

abbrev pub chunk : ℕ
chunk = 4096

-- `(u8)(off >> 12) ^ (u8)off`
unfoldable pub byte : ℕ → ℕ
byte off = bit_xor (off / 4096 % 256) (off % 256)

module _ (K : Kernel) (U : UserMemory K) (size_of : K.Kstat → ℕ) where
  open K use {Machine, File, Kstat, kmalloc, filp_open, filp_close, vfs_fsync}
  open U use {kunit_vm_mmap, vm_munmap, copy_from_user}

  unfoldable pub verify_copy : String → Case Machine (Unit {0})
  verify_copy path = verify K path byte file_size chunk

  -- `while (pos < G708_SIZE)`. The fuel is the caller's, since the kernel moves the position.
  unfoldable copy_rounds : ℕ → File → ℕ → ℕ → Case Machine (Unit {0})
  copy_rounds zero to addr at_pos = abort
  copy_rounds (suc fuel) to addr at_pos = elim (ltb at_pos file_size) [
    | false ↦ pass tt
    | true ↦ do
      (n, at_pos') ← run (user_rw K to (addr + at_pos) (file_size - at_pos) at_pos true true)
      assert (positive n)
      copy_rounds fuel to addr at_pos'
  ]

  -- With the source file mapped.
  unfoldable copy_mapped : ℕ → Kstat → File → ℕ → Case Machine (Unit {0})
  copy_mapped fuel st from addr = do
    assert (ltb 0 addr)
    (left, first) ← run (copy_from_user addr 1)
    assert (left == 0)
    opened ← run (filp_open dst (o_rdwr ∷ o_creat ∷ o_trunc ∷ o_direct ∷ []) 0o644)
    elim opened [
      | err_ptr e ↦ abort
      | ptr to ↦ do
        copy_rounds fuel to addr 0
        step (filp_close to)
        err ← run (vm_munmap addr file_size)
        expect (not (nonzero err))
        step (filp_close from)
        (err, st') ← run (kstat K st dst)
        assert (not (nonzero err))
        expect (size_of st' == file_size)
        verify_copy dst
        verify_copy server_dst
    ]

  unfoldable write_and_copy : ℕ → Kstat → Case Machine (Unit {0})
  write_and_copy fuel st = do
    granted ← run kmalloc
    assert granted
    opened ← run (filp_open src (o_rdwr ∷ o_creat ∷ o_trunc ∷ []) 0o644)
    elim opened [
      | err_ptr e ↦ abort
      | ptr from ↦ do
        write_pattern K from byte file_size chunk fuel 0
        err ← run (vfs_fsync from)
        assert (not (nonzero err))
        addr ← run (kunit_vm_mmap from file_size true 0)
        copy_mapped fuel st from addr
    ]

  unfoldable remove_tree : Machine → Machine
  remove_tree s = (rmdir_settled K root (unlink K src (unlink K dst s).1).1).1

  unfoldable direct_from_mapping : ℕ → Kstat → Case (Fixture K) (Unit {0})
  direct_from_mapping fuel st = in_root K root remove_tree (on_machine K (write_and_copy fuel st))

-- ===== src/Generic/Mapped.antt =====
-- A mapped file, as the ports in kunit/xfstests/generic use it: calls that are not in the repository.
use nfsplayground.Base.{ℕ, List, Bool, State, ℤ}
use nfsplayground.Kernel.{Kernel}

-- kunit_vm_mmap takes the file, the length, whether the mapping is for writing, too, and the offset,
-- and returns an address or 0; the copies return how many bytes are left.
pub record UserMemory (K : Kernel) : Type 0 where
  pub kunit_vm_mmap : K.File → ℕ → Bool → ℕ → State K.Machine ℕ
  pub vm_munmap : ℕ → ℕ → State K.Machine ℤ
  pub copy_from_user : ℕ → ℕ → State K.Machine (ℕ × List ℕ)
  pub copy_to_user : ℕ → List ℕ → State K.Machine ℕ

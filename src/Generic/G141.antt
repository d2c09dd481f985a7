-- ===== src/Generic/G141.antt =====
-- kunit/xfstests/generic/141.c: a mapping at an offset reads its own bytes.
use Prim.Native.Nat.{bit_xor}
use Prim.Native.String.{◌++◌ as ◌<>◌}
use nfsplayground.Base.{
  ℕ, zero, suc, ◌+◌, ◌*◌, ◌/◌, ◌%◌, String, true, false, not, [], ◌∷◌, nonzero, ◌==◌, ltb,
}
use nfsplayground.Kernel.{Kernel, o_rdwr, o_creat, o_trunc, ptr, err_ptr}
use nfsplayground.Paths.{unlink}
use nfsplayground.Settle.{mnt, rmdir_settled}
use nfsplayground.Fixture.{Fixture}
use nfsplayground.Kunit.{Case, pass, ◌>>=◌, ◌>>◌, run, step, assert, abort, expect}
use nfsplayground.Generic.Steps.{in_root, on_machine}
use nfsplayground.Generic.G075.{matches}
use nfsplayground.Generic.Mapped.{UserMemory}
use nfsplayground.Generic.Pattern.{write_pattern}

abbrev pub root : String
root = mnt <> "/g141"

abbrev pub file : String
file = root <> "/mmap"

abbrev pub file_size : ℕ
file_size = 1024 * 1024

abbrev pub map_off : ℕ
map_off = 64 * 1024

abbrev pub map_len : ℕ
map_len = 64 * 1024

abbrev pub chunk : ℕ
chunk = 4096

-- `(u8)(off / G141_CHUNK) ^ (u8)off`
unfoldable pub byte : ℕ → ℕ
byte off = bit_xor (off / chunk % 256) (off % 256)

module _ (K : Kernel) (U : UserMemory K) where
  open K use {Machine, File, kmalloc, filp_open, filp_close, vfs_fsync}
  open U use {kunit_vm_mmap, vm_munmap, copy_from_user}

  -- `for (pos = G141_MAPLEN - G141_CHUNK; pos >= 0; pos -= G141_CHUNK)`, over the chunks that are left.
  -- A difference fails and goes to `out`.
  unfoldable read_back : ℕ → ℕ → Case Machine (Unit {0})
  read_back zero addr = pass tt
  read_back (suc left) addr = do
    (rest, buf) ← run (copy_from_user (addr + left * chunk) chunk)
    assert (rest == 0)
    elim (matches byte (map_off + left * chunk) chunk buf) [
      | true ↦ read_back left addr
      | false ↦ expect false
    ]

  unfoldable map_and_read : File → Case Machine (Unit {0})
  map_and_read f = do
    addr ← run (kunit_vm_mmap f map_len false map_off)
    assert (ltb 0 addr)
    read_back (map_len / chunk) addr
    err ← run (vm_munmap addr map_len)
    expect (not (nonzero err))
    step (filp_close f)

  unfoldable write_and_map : ℕ → Case Machine (Unit {0})
  write_and_map fuel = do
    granted ← run kmalloc
    assert granted
    opened ← run (filp_open file (o_rdwr ∷ o_creat ∷ o_trunc ∷ []) 0o644)
    elim opened [
      | err_ptr e ↦ abort
      | ptr f ↦ do
        write_pattern K f byte file_size chunk fuel 0
        err ← run (vfs_fsync f)
        assert (not (nonzero err))
        map_and_read f
    ]

  unfoldable remove_tree : Machine → Machine
  remove_tree s = (rmdir_settled K root (unlink K file s).1).1

  unfoldable mapping_reads_its_bytes : ℕ → Case (Fixture K) (Unit {0})
  mapping_reads_its_bytes fuel = in_root K root remove_tree (on_machine K (write_and_map fuel))

-- ===== src/Generic/G214.antt =====
-- kunit/xfstests/generic/214.c: allocated ranges, and writes into, over and around them.
pub mod Allocates
pub mod Passes
use Prim.Native.String.{◌++◌ as ◌<>◌}
use nfsplayground.Base.{
  ℕ, zero, suc, ◌+◌, ◌-◌, ◌*◌, String, Bool, true, false, not, Option, none, some, List, [], ◌∷◌,
  replicate, ℤ, pos, nonzero, State, ◌==◌, ◌==ℤ◌, ltb, leb, if◌then◌else◌,
}
use nfsplayground.Kernel.{
  Kernel, OpenFlag, o_rdonly, o_rdwr, o_creat, o_trunc, o_direct, ptr, err_ptr,
}
use nfsplayground.Paths.{unlink, ftruncate, kstat}
use nfsplayground.Files.{direct_read, read_range}
use nfsplayground.Settle.{mnt, rmdir_settled}
use nfsplayground.Fixture.{Fixture}
use nfsplayground.Kunit.{Case, pass, ◌>>=◌, ◌>>◌, run, step, assert, abort, expect}
use nfsplayground.Generic.Steps.{in_root, on_machine}
use nfsplayground.Generic.G075.{matches}

abbrev pub root : String
root = mnt <> "/g214"

abbrev pub most : ℕ
most = 128 * 1024

abbrev pub path_of : String → String
path_of name = root <> "/test214-" <> name

-- The bytes that are wanted behind the truncation.
abbrev pub want_cut : ℕ → ℕ
want_cut i = if leb 0x12000 i then 0xaa else 0

-- `fallocate f mode off len` is vfs_fallocate. A buffer is an address: `alloc` gives one of a size,
-- and `load` reads the bytes at it.
pub record Allocation (K : Kernel) : Type 0 where
  pub fallocate : K.File → ℕ → ℕ → ℕ → State K.Machine ℤ
  pub alloc : ℕ → K.Machine → Option ℕ × K.Machine
  pub load : ℕ → ℕ → K.Machine → List ℕ

module _ (K : Kernel) (A : Allocation K) where
  open K use {Machine, File, Kstat, filp_open, filp_close, kernel_write, vfs_fsync}
  open A use {fallocate, alloc, load}

  unfoldable pub unlink_all : ℕ → ℕ → Machine → Machine
  unlink_all zero i s = s
  unlink_all (suc left) i s = unlink_all left (suc i) (unlink K (path_of (K.decimal i)) s).1

  unfoldable pub remove_tree : Machine → Machine
  remove_tree s = (rmdir_settled K root (unlink_all 7 1 s)).1

  -- A difference fails and returns.
  unfoldable pub expect_bytes : String → ℕ → ℕ → ℕ → Case Machine (Unit {0})
  expect_bytes path off len val = do
    (n, buf) ← run (read_range K path len off)
    assert (n ==ℤ pos len)
    expect (matches (λ _. val) 0 len buf)

  -- filp_open and kunit_kmalloc, asserted to succeed
  abbrev pub with_open :
      String → List OpenFlag → ℕ → (File → Case Machine (Unit {0})) → Case Machine (Unit {0})
  with_open path flags mode body = do
    opened ← run (filp_open path flags mode)
    elim opened [ err_ptr e ↦ abort | ptr f ↦ body f ]

  abbrev pub with_buffer : (ℕ → Case Machine (Unit {0})) → Case Machine (Unit {0})
  with_buffer body = do
    granted ← run (alloc most)
    elim granted [ none ↦ abort | some buf ↦ body buf ]

  -- A call asserted to return 0, and a write asserted to be whole.
  abbrev pub call_ok : State Machine ℤ → Case Machine (Unit {0})
  call_ok m = do err ← run m; assert (not (nonzero err))

  abbrev pub writes : File → (len val off : ℕ) → Case Machine (Unit {0})
  writes f len val off = do
    (n, _) ← run (kernel_write f (replicate len val) off)
    assert (n ==ℤ pos len)

  -- g214_setup, asserted to return 0, the buffer, and the case
  unfoldable pub set_up : (ℕ → Case Machine (Unit {0})) → Case (Fixture K) (Unit {0})
  set_up body = in_root K root remove_tree (on_machine K (with_buffer body))

  unfoldable pub allocate_only : Case Machine (Unit {0})
  allocate_only = with_open (path_of "1") (o_rdwr ∷ o_creat ∷ o_trunc ∷ []) 0o644 (λ f. do
    call_ok (fallocate f 0 0 4096)
    step (filp_close f)
    expect_bytes (path_of "1") 0 4096 0)

  unfoldable pub allocated_space_reads_as_zeroes : Case (Fixture K) (Unit {0})
  allocated_space_reads_as_zeroes = set_up (λ buf. allocate_only)

  abbrev pub when : Bool → Case Machine (Unit {0}) → Case Machine (Unit {0})
  when b body = if b then body else pass tt

  -- `off` of an allocated range of 512 bytes
  unfoldable pub one_byte : String → ℕ → Case Machine (Unit {0})
  one_byte path off = with_open path (o_rdwr ∷ o_creat ∷ o_trunc ∷ []) 0o644 (λ f. do
    call_ok (fallocate f 0 0 512)
    writes f 1 0x41 off
    step (filp_close f)
    when (not (off == 0)) (expect_bytes path 0 off 0)
    expect_bytes path off 1 0x41
    when (ltb (off + 1) 512) (expect_bytes path (off + 1) (512 - off - 1) 0))

  unfoldable pub three_bytes : Case Machine (Unit {0})
  three_bytes = do one_byte (path_of "2") 0; one_byte (path_of "3") 256; one_byte (path_of "4") 511

  unfoldable pub a_write_leaves_the_rest_alone : Case (Fixture K) (Unit {0})
  a_write_leaves_the_rest_alone = set_up (λ buf. three_bytes)

  -- The direct read, and the comparison of all of it.
  abbrev pub read_back : String → ℕ → (ℕ → ℕ) → ℕ → Case Machine (Unit {0})
  read_back path size want buf = with_open path (o_rdonly ∷ o_direct ∷ []) 0 (λ f. do
    (n, _) ← run (direct_read K f buf size 0)
    assert (n ==ℤ pos size)
    step (filp_close f)
    bytes ← run (λ s. (load buf size s, s))
    expect (matches want 0 size bytes))

  unfoldable pub allocate_write_cut : ℕ → Case Machine (Unit {0})
  allocate_write_cut buf = with_open (path_of "5") (o_rdwr ∷ o_creat ∷ o_trunc ∷ []) 0o644 (λ f. do
    call_ok (fallocate f 0 0 0x65c00)
    writes f 0x10000 0xaa 0x12000
    call_ok (vfs_fsync f)
    call_ok (ftruncate K f (pos 0x16000))
    step (filp_close f)
    read_back (path_of "5") 0x16000 want_cut buf)

  unfoldable pub a_truncate_after_allocate_and_write : Case (Fixture K) (Unit {0})
  a_truncate_after_allocate_and_write = set_up allocate_write_cut

  -- `size_of` is the size in a kstat.
  module _ (size_of : Kstat → ℕ) (st : Kstat) where
    unfoldable pub expect_size : String → ℕ → Case Machine (Unit {0})
    expect_size path size = do
      (err, st') ← run (kstat K st path)
      assert (not (nonzero err))
      expect (size_of st' == size)

    unfoldable pub write_allocate : Case Machine (Unit {0})
    write_allocate = with_open (path_of "6") (o_rdwr ∷ o_creat ∷ o_trunc ∷ []) 0o644 (λ f. do
      writes f 16384 0x36 0
      call_ok (fallocate f 0 0 16384)
      call_ok (vfs_fsync f)
      step (filp_close f)
      expect_size (path_of "6") 16384
      expect_bytes (path_of "6") 0 16384 0x36)

    unfoldable pub allocating_over_a_written_range : Case (Fixture K) (Unit {0})
    allocating_over_a_written_range = set_up (λ buf. write_allocate)

  unfoldable pub scatter : Case Machine (Unit {0})
  scatter = with_open (path_of "7") (o_rdwr ∷ o_creat ∷ o_trunc ∷ []) 0o644 (λ f. do
    call_ok (vfs_fsync f)
    writes f 41182 0x37 551917
    call_ok (fallocate f 0 917633 392230)
    writes f 77718 0x37 285771
    writes f 104115 0x37 1136718
    call_ok (vfs_fsync f)
    step (filp_close f)
    expect_bytes (path_of "7") 285771 77718 0x37
    expect_bytes (path_of "7") 551917 41182 0x37
    expect_bytes (path_of "7") 1136718 104115 0x37
    expect_bytes (path_of "7") 363489 1000 0
    expect_bytes (path_of "7") 917633 1000 0)

  unfoldable pub a_scatter_of_writes_around_an_allocate : Case (Fixture K) (Unit {0})
  a_scatter_of_writes_around_an_allocate = set_up (λ buf. scatter)

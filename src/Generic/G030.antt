-- ===== src/Generic/G030.antt =====
-- kunit/xfstests/generic/030.c: mapped writes into the last page of a file, which is cut and extended.
use Prim.Native.Nat.{min}
use Prim.Native.String.{◌++◌ as ◌<>◌}
use nfsplayground.Base.{
  ℕ, zero, suc, ◌+◌, ◌-◌, ◌*◌, ◌/◌, String, true, false, not, [], ◌∷◌, replicate, pos, nonzero,
  ◌==◌, ◌==ℤ◌, ltb, if◌then◌else◌,
}
use nfsplayground.Kernel.{Kernel, o_rdwr, o_creat, o_excl, ptr, err_ptr}
use nfsplayground.Paths.{unlink, rmdir, truncate, kstat}
use nfsplayground.Files.{read_range}
use nfsplayground.Settle.{mnt}
use nfsplayground.Server.{export_dir}
use nfsplayground.Fixture.{Fixture}
use nfsplayground.Kunit.{Case, pass, ◌>>=◌, ◌>>◌, run, step, assert, abort, expect}
use nfsplayground.Generic.Steps.{in_root, on_machine}
use nfsplayground.Generic.G075.{matches}
use nfsplayground.Generic.Mapped.{UserMemory}

abbrev pub root : String
root = mnt <> "/g030"

abbrev pub file : String
file = root <> "/testfile"

abbrev pub server_file : String
server_file = export_dir <> "/g030/testfile"

abbrev pub small : ℕ
small = 5017 * 1024

abbrev pub large : ℕ
large = 5020 * 1024

abbrev pub tail_len : ℕ
tail_len = large - small

abbrev pub z_off : ℕ
z_off = 5016 * 1024

abbrev pub z_len : ℕ
z_len = 1024

abbrev pub chunk : ℕ
chunk = 64 * 1024

-- PAGE_ALIGN
unfoldable pub page_align : ℕ → ℕ → ℕ
page_align page_size len = (len + (page_size - 1)) / page_size * page_size

module _ (K : Kernel) (U : UserMemory K) (size_of : K.Kstat → ℕ) (page_size : ℕ) where
  open K use {Machine, File, Kstat, kmalloc, filp_open, filp_close, kernel_write}
  open U use {kunit_vm_mmap, vm_munmap, copy_to_user}

  -- `while (done < len)`. As many rounds as there are bytes are enough, here and below.
  unfoldable pub mwrite_from : ℕ → ℕ → ℕ → ℕ → ℕ → ℕ → Case Machine (Unit {0})
  mwrite_from zero addr off len val done = pass tt
  mwrite_from (suc rounds) addr off len val done = elim (ltb done len) [
    | false ↦ pass tt
    | true ↦ do
      let n = min (len - done) chunk
      left ← run (copy_to_user (addr + off + done) (replicate n val))
      assert (left == 0)
      mwrite_from rounds addr off len val (done + n)
  ]

  unfoldable pub mwrite : ℕ → ℕ → ℕ → ℕ → Case Machine (Unit {0})
  mwrite addr off len val = mwrite_from len addr off len val 0

  -- A difference fails and returns.
  unfoldable pub expect_from : ℕ → String → ℕ → ℕ → ℕ → ℕ → Case Machine (Unit {0})
  expect_from zero path off len val done = pass tt
  expect_from (suc rounds) path off len val done = elim (ltb done len) [
    | false ↦ pass tt
    | true ↦ do
      let n = min (len - done) chunk
      (r, got) ← run (read_range K path n (off + done))
      assert (r ==ℤ pos n)
      elim (matches (λ _. val) 0 n got) [
        | true ↦ expect_from rounds path off len val (done + n)
        | false ↦ expect false
      ]
  ]

  unfoldable pub expect_fill : String → ℕ → ℕ → ℕ → Case Machine (Unit {0})
  expect_fill path off len val = do
    granted ← run kmalloc
    assert granted
    expect_from len path off len val 0

  unfoldable pub fill_from : ℕ → File → ℕ → Case Machine (Unit {0})
  fill_from zero f at_pos = pass tt
  fill_from (suc rounds) f at_pos = elim (ltb at_pos small) [
    | false ↦ pass tt
    | true ↦ do
      let n = min (small - at_pos) chunk
      (written, p) ← run (kernel_write f (replicate n 0x58) at_pos)
      assert (written ==ℤ pos n)
      fill_from rounds f (at_pos + n)
  ]

  unfoldable pub truncate_to : ℕ → Case Machine (Unit {0})
  truncate_to size = do err ← run (truncate K file (pos size)); assert (not (nonzero err))

  -- `if (zlen)`
  unfoldable pub if_z : ℕ → Case Machine (Unit {0}) → Case Machine (Unit {0})
  if_z zlen body = elim (zlen == 0) [ true ↦ pass tt | false ↦ body ]

  -- From the mapping to the unmapping; the first byte of the buffer is X there.
  unfoldable pub write_mapped : ℕ → File → ℕ → Case Machine (Unit {0})
  write_mapped zlen f addr = do
    assert (ltb 0 addr)
    assert (page_align page_size small == large)
    left ← run (copy_to_user (addr + large - 1) (0x58 ∷ []))
    assert (left == 0)
    truncate_to large
    mwrite addr small tail_len 0x57
    truncate_to small
    if_z zlen (mwrite addr z_off zlen 0x5a)
    truncate_to large
    expect_fill file small tail_len 0
    if_z zlen (expect_fill file z_off zlen 0x5a)
    mwrite addr small tail_len 0x59
    err ← run (vm_munmap addr large)
    expect (not (nonzero err))
    step (filp_close f)

  unfoldable pub compare_both : Kstat → ℕ → Case Machine (Unit {0})
  compare_both st zlen = do
    (err, st') ← run (kstat K st file)
    assert (not (nonzero err))
    expect (size_of st' == large)
    expect_fill server_file 0 (if zlen == 0 then small else z_off) 0x58
    if_z zlen (expect_fill server_file z_off zlen 0x5a)
    expect_fill server_file small tail_len 0x59
    expect_fill file small tail_len 0x59
    if_z zlen (expect_fill file z_off zlen 0x5a)

  unfoldable pub scenario : Kstat → ℕ → Case Machine (Unit {0})
  scenario st zlen = do
    granted ← run kmalloc
    assert granted
    removed ← run (unlink K file)
    opened ← run (filp_open file (o_rdwr ∷ o_creat ∷ o_excl ∷ []) 0o644)
    elim opened [
      | err_ptr e ↦ abort
      | ptr f ↦ do
        truncate_to small
        fill_from small f 0
        addr ← run (kunit_vm_mmap f small true 0)
        write_mapped zlen f addr
        compare_both st zlen
    ]

  unfoldable pub remove_tree : Machine → Machine
  remove_tree s = (rmdir K root (unlink K file s).1).1

  unfoldable unaligned_mapped_writes : Kstat → Case (Fixture K) (Unit {0})
  unaligned_mapped_writes st =
      in_root K root remove_tree (on_machine K (do scenario st 0; scenario st z_len))

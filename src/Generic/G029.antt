-- ===== src/Generic/G029.antt =====
-- kunit/xfstests/generic/029.c: mapped writes survive that the file is cut and extended again.
pub mod Model
pub mod Run
pub mod Stages
pub mod Lines
use Prim.Native.Nat.{min}
use Prim.Native.String.{◌++◌ as ◌<>◌}
use nfsplayground.Base.{
  ℕ, zero, suc, ◌+◌, ◌-◌, String, true, false, not, List, [], ◌∷◌, replicate, ℤ, pos, nonzero,
  State, ◌==◌, ◌==ℤ◌, ltb, if◌then◌else◌,
}
use nfsplayground.Kernel.{Kernel, o_rdwr, o_creat, o_excl, ptr, err_ptr}
use nfsplayground.Paths.{unlink, rmdir, truncate, kstat}
use nfsplayground.Files.{read_range}
use nfsplayground.Settle.{mnt}
use nfsplayground.Server.{export_dir}
use nfsplayground.Fixture.{Fixture}
use nfsplayground.Kunit.{Case, pass, ◌>>=◌, ◌>>◌, run, step, assert, abort, expect}
use nfsplayground.Generic.Steps.{in_root, on_machine}
use nfsplayground.Generic.G075.{matches, within}
use nfsplayground.Generic.Mapped.{UserMemory}

abbrev pub root : String
root = mnt <> "/g029"

abbrev pub file : String
file = root <> "/testfile"

abbrev pub server_file : String
server_file = export_dir <> "/g029/testfile"

pub record Scenario : Type 0 where
  pub size : ℕ
  pub zoff : ℕ
  pub zlen : ℕ
  pub tdown : ℕ
  pub woff : ℕ
  pub wlen : ℕ
  pub tup : ℕ
  pub yoff : ℕ
  pub ylen : ℕ

-- A line of the table, in the order of the fields.
abbrev pub row : ℕ → ℕ → ℕ → ℕ → ℕ → ℕ → ℕ → ℕ → ℕ → Scenario
row size zoff zlen tdown woff wlen tup yoff ylen = record {
  size = size;
  zoff = zoff;
  zlen = zlen;
  tdown = tdown;
  woff = woff;
  wlen = wlen;
  tup = tup;
  yoff = yoff;
  ylen = ylen;
}

abbrev pub scenarios : List Scenario
scenarios =
    row 5120 2048 3072 2048 0 0 5120 2048 3072
    ∷ row 5120 2048 3072 2048 1024 1024 5120 2048 3072
    ∷ row 5121 2047 3071 2047 513 1025 5121 2047 3071
    ∷ []

-- `memset(want + off, val, len)`
abbrev pub set_range : ℕ → ℕ → ℕ → (ℕ → ℕ) → ℕ → ℕ
set_range val off len want i = if within off len i then val else want i

-- What the case makes of `want` in one scenario: X, Z, W if there is a write while the file is short,
-- the hole, and Y.
abbrev pub want_after : Scenario → (ℕ → ℕ) → ℕ → ℕ
want_after c want =
    let x = set_range 0x58 0 c.size want in
    let z = set_range 0x5a c.zoff c.zlen x in
    let w = if c.wlen == 0 then z else set_range 0x57 c.woff c.wlen z in
    let hole = set_range 0 c.tdown (c.tup - c.tdown) w in set_range 0x59 c.yoff c.ylen hole

module _ (K : Kernel) (U : UserMemory K) (size_of : K.Kstat → ℕ) (page_size : ℕ) where
  open K use {Machine, File, Kstat, kmalloc, filp_open, filp_close, kernel_write}
  open U use {kunit_vm_mmap, vm_munmap, copy_to_user}

  -- `while (done < len)`. As many rounds as there are bytes are enough.
  pub mwrite_from : ℕ → ℕ → ℕ → ℕ → ℕ → ℕ → Case Machine (Unit {0})
  mwrite_from zero addr off len val done = pass tt
  mwrite_from (suc rounds) addr off len val done = elim (ltb done len) [
    | false ↦ pass tt
    | true ↦ do
      let n = min (len - done) page_size
      left ← run (copy_to_user (addr + (off + done)) (replicate n val))
      assert (left == 0)
      mwrite_from rounds addr off len val (done + n)
  ]

  pub mwrite : ℕ → ℕ → ℕ → ℕ → Case Machine (Unit {0})
  mwrite addr off len val = mwrite_from len addr off len val 0

  -- `for (pos = 0; pos < c->size; )`
  unfoldable pub fill_from : ℕ → File → ℕ → ℕ → Case Machine (Unit {0})
  fill_from zero f size at_pos = pass tt
  fill_from (suc rounds) f size at_pos = elim (ltb at_pos size) [
    | false ↦ pass tt
    | true ↦ do
      let n = min (size - at_pos) page_size
      (written, p) ← run (kernel_write f (replicate n 0x58) at_pos)
      assert (written ==ℤ pos n)
      fill_from rounds f size (at_pos + n)
  ]

  pub verify_copy : String → (ℕ → ℕ) → ℕ → Case Machine (Unit {0})
  verify_copy path want size = do
    granted ← run kmalloc
    assert granted
    (n, buf) ← run (read_range K path size 0)
    assert (n ==ℤ pos size)
    expect (matches want 0 size buf)

  pub truncate_to : ℕ → Case Machine (Unit {0})
  truncate_to size = do err ← run (truncate K file (pos size)); assert (not (nonzero err))

  -- `if (c->wlen)`
  pub write_short : Scenario → ℕ → Case Machine (Unit {0})
  write_short c addr = elim (c.wlen == 0) [
    | true ↦ pass tt
    | false ↦ mwrite addr c.woff c.wlen 0x57
  ]

  -- From the mapping to the unmapping.
  pub write_mapped : Scenario → File → ℕ → Case Machine (Unit {0})
  write_mapped c f addr = do
    assert (ltb 0 addr)
    mwrite addr c.zoff c.zlen 0x5a
    truncate_to c.tdown
    write_short c addr
    truncate_to c.tup
    mwrite addr c.yoff c.ylen 0x59
    err ← run (vm_munmap addr c.size)
    expect (not (nonzero err))
    step (filp_close f)

  pub compare_both : Kstat → Scenario → (ℕ → ℕ) → Case Machine (Unit {0})
  compare_both st c want = do
    (err, st') ← run (kstat K st file)
    assert (not (nonzero err))
    expect (size_of st' == c.tup)
    verify_copy server_file want c.tup
    verify_copy file want c.tup

  -- One scenario, with what `want` holds before it.
  unfoldable pub one : Kstat → Scenario → (ℕ → ℕ) → Case Machine (Unit {0})
  one st c want = do
    removed ← run (unlink K file)
    opened ← run (filp_open file (o_rdwr ∷ o_creat ∷ o_excl ∷ []) 0o644)
    elim opened [
      | err_ptr e ↦ abort
      | ptr f ↦ do
        truncate_to c.size
        fill_from c.size f c.size 0
        addr ← run (kunit_vm_mmap f c.size true 0)
        write_mapped c f addr
        compare_both st c (want_after c want)
    ]

  pub all_of : Kstat → List Scenario → (ℕ → ℕ) → Case Machine (Unit {0})
  all_of st [] want = pass tt
  all_of st (c ∷ rest) want = one st c want >> all_of st rest (want_after c want)

  unfoldable remove_tree : Machine → Machine
  remove_tree s = (rmdir K root (unlink K file s).1).1

  -- `want` is what the buffer holds that is allocated.
  unfoldable mapped_writes_survive : Kstat → (ℕ → ℕ) → Case (Fixture K) (Unit {0})
  mapped_writes_survive st want = in_root K root remove_tree (
      on_machine K (do
        granted ← run kmalloc
        granted' ← run kmalloc
        assert granted
        assert granted'
        all_of st scenarios want))

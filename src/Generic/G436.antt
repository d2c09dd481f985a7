-- ===== src/Generic/G436.antt =====
-- kunit/xfstests/generic/436.c: the allocation unit of a file system, found by probing, and seeks over
-- allocated ranges with data in them.
pub mod Unit
use Prim.Native.String.{◌++◌ as ◌<>◌}
use nfsplayground.Base.{
  ℕ, zero, suc, ◌+◌, ◌-◌, ◌*◌, ◌/◌, ◌^◌, String, Bool, true, false, not, ◌&&◌, ◌||◌, Option, none,
  some, List, [], ◌∷◌, replicate, length, ℤ, pos, negsuc, nonzero, negative, count_of, State, ◌==◌,
  ◌==ℤ◌, ltb, if◌then◌else◌,
}
use nfsplayground.Kernel.{Kernel, o_rdwr, o_creat, o_trunc, ptr, err_ptr}
use nfsplayground.Paths.{unlink, ftruncate, kstat}
use nfsplayground.Files.{write_new_file}
use nfsplayground.Settle.{mnt, rmdir_settled}
use nfsplayground.Fixture.{Fixture}
use nfsplayground.Kunit.{Case, pass, ◌>>=◌, ◌>>◌, run, step, assert, abort, expect}
use nfsplayground.Generic.Steps.{in_root, on_machine}
use nfsplayground.Generic.G286.{Seeks}

abbrev pub root : String
root = mnt <> "/g436"

abbrev pub base : String
base = root <> "/seek_sanity_testfile"

abbrev pub file_size : ℕ
file_size = 4 * 2 ^ 20

-- SEEK_DATA and SEEK_HOLE
pub data Origin : Type 0 where
  seek_data_origin : Origin
  seek_hole_origin : Origin

abbrev pub round_up : ℕ → ℕ → ℕ
round_up n unit = (n + unit - 1) / unit * unit

-- kunit_skip ends the case and counts no failure.
abbrev pub skip : {S : Type 0} → Case S (Unit {0})
skip s n = (none, s, n)

-- `blksize` is the block size in a kstat.
module _ (K : Kernel) (S : Seeks K) (blksize : K.Kstat → ℕ) where
  open K use {Machine, File, Kstat, kmalloc, filp_open, filp_close, kernel_write, decimal}
  open S use {seek_data, seek_hole}

  -- The numbers 13 to 16 have two digits.
  abbrev pub path_of : ℕ → String
  path_of testnum = base <> decimal testnum

  unfoldable pub unlink_all : ℕ → ℕ → Machine → Machine
  unlink_all zero i s = s
  unlink_all (suc left) i s = unlink_all left (suc i) (unlink K (path_of i) s).1

  unfoldable pub remove_tree : Machine → Machine
  remove_tree s = (rmdir_settled K root (unlink_all 4 13 (unlink K base s).1)).1

  abbrev pub call_ok : State Machine ℤ → Case Machine (Unit {0})
  call_ok m = do err ← run m; assert (not (nonzero err))

  unfoldable pub pwrite : File → List ℕ → ℕ → Case Machine (Unit {0})
  pwrite f buf off = do (n, _) ← run (kernel_write f buf off); assert (n ==ℤ pos (length buf))

  -- The file is cut to nothing, one byte is written at an offset, and where the data begins is returned.
  unfoldable pub probe : File → ℕ → Case Machine ℕ
  probe f off = do
    call_ok (ftruncate K f (pos 0))
    pwrite f (97 ∷ []) off
    found ← run (seek_data f 0)
    assert (not (negative found))
    pass (count_of found)

  -- `while (pos == 0 && offset < alloc)`; the offset doubles, so `alloc` rounds are enough.
  unfoldable pub grow : ℕ → File → (alloc at_pos off : ℕ) → Case Machine (ℕ × ℕ)
  grow zero f alloc at_pos off = pass (at_pos, off)
  grow (suc rounds) f alloc at_pos off = elim (at_pos == 0 && ltb off alloc) [
    | false ↦ pass (at_pos, off)
    | true ↦ do at_pos' ← probe f (off * 2); grow rounds f alloc at_pos' (off * 2)
  ]

  -- `while (shift && offset < alloc)`; the shift is halved, so as many rounds as it counts are enough.
  unfoldable pub narrow : ℕ → File → (alloc shift at_pos off : ℕ) → Case Machine (ℕ × ℕ × ℕ)
  narrow zero f alloc shift at_pos off = pass (shift, at_pos, off)
  narrow (suc rounds) f alloc shift at_pos off = elim (not (shift == 0) && ltb off alloc) [
    | false ↦ pass (shift, at_pos, off)
    | true ↦ do
      at_pos' ← probe f off
      narrow rounds f alloc (shift / 2) at_pos' (if at_pos' == 0 then off + shift else off - shift)
  ]

  -- What is returned of the shift, the last position found and the offset.
  abbrev pub result : ℕ × ℕ × ℕ → ℕ
  result (shift, at_pos, off) = if shift == 0 then if at_pos == 0 then off + 1 else off else off

  unfoldable pub alloc_size : Kstat → File → Case Machine ℕ
  alloc_size st f = do
    (err, st') ← run (kstat K st base)
    assert (not (nonzero err))
    (at_pos, off) ← grow (blksize st') f (blksize st') 0 1
    found ← narrow (off / 4) f (blksize st') (off / 4) at_pos off
    pass (result found)

  -- `exp` is none for -1, where -ENXIO is expected.
  unfoldable pub lseek : File → ℕ → Origin → ℕ → Option ℕ → Case Machine (Unit {0})
  lseek f filsz seek_data_origin set none = do
    found ← run (seek_data f set)
    expect (found ==ℤ negsuc 5)
  lseek f filsz seek_hole_origin set none = do
    found ← run (seek_hole f set)
    expect (found ==ℤ negsuc 5)
  lseek f filsz seek_data_origin set (some exp) = do
    found ← run (seek_data f set)
    expect (found ==ℤ pos exp || found ==ℤ pos exp)
  lseek f filsz seek_hole_origin set (some exp) = do
    found ← run (seek_hole f set)
    expect (found ==ℤ pos exp || found ==ℤ pos filsz)

  abbrev pub create : ℕ → (File → Case Machine (Unit {0})) → Case Machine (Unit {0})
  create testnum body = do
    opened ← run (filp_open (path_of testnum) (o_rdwr ∷ o_creat ∷ o_trunc ∷ []) 0o644)
    elim opened [ err_ptr e ↦ abort | ptr f ↦ body f ]

  abbrev pub holes : File → ℕ → ℕ → ℕ → Case Machine (Unit {0})
  holes f filsz set exp = lseek f filsz seek_hole_origin set (some exp)

  abbrev pub data_at : File → ℕ → ℕ → ℕ → Case Machine (Unit {0})
  data_at f filsz set exp = lseek f filsz seek_data_origin set (some exp)

  -- The seeks that all four cases begin with.
  abbrev pub at_start : File → ℕ → ℕ → Case Machine (Unit {0})
  at_start f filsz bufsz = do holes f filsz 0 bufsz; holes f filsz 1 bufsz

  -- `fallocate` is vfs_fallocate with mode 0.
  module _ (fallocate : File → ℕ → ℕ → State Machine ℤ) where
    unfoldable pub dirty_page : ℕ → Case Machine (Unit {0})
    dirty_page bufsz = create 13 (λ f. do
      call_ok (fallocate f 0 file_size)
      pwrite f (replicate bufsz 97) 0
      at_start f file_size bufsz
      data_at f file_size 0 0
      data_at f file_size 1 1
      step (filp_close f))

    unfoldable pub two_dirty_runs : ℕ → Case Machine (Unit {0})
    two_dirty_runs bufsz = create 14 (λ f. do
      call_ok (fallocate f 0 file_size)
      pwrite f (replicate bufsz 97) 0
      pwrite f (replicate bufsz 97) (3 * bufsz)
      at_start f file_size bufsz
      holes f file_size (3 * bufsz) (4 * bufsz)
      data_at f file_size 0 0
      data_at f file_size 1 1
      data_at f file_size bufsz (3 * bufsz)
      step (filp_close f))

    unfoldable pub page_behind : ℕ → Case Machine (Unit {0})
    page_behind bufsz = create 15 (λ f. do
      call_ok (fallocate f 0 file_size)
      pwrite f (replicate bufsz 97) 0
      pwrite f (replicate bufsz 97) file_size
      at_start f (file_size + bufsz) bufsz
      data_at f (file_size + bufsz) 0 0
      data_at f (file_size + bufsz) 1 1
      data_at f (file_size + bufsz) bufsz file_size
      step (filp_close f))

    unfoldable pub page_in_the_middle : ℕ → Case Machine (Unit {0})
    page_in_the_middle bufsz = create 16 (λ f. do
      call_ok (fallocate f 0 file_size)
      pwrite f (replicate bufsz 97) 0
      pwrite f (replicate bufsz 97) (file_size / 2)
      at_start f file_size bufsz
      data_at f file_size 0 0
      data_at f file_size 1 1
      data_at f file_size bufsz (file_size / 2)
      holes f file_size (file_size / 2) (file_size / 2 + bufsz)
      step (filp_close f))

    -- test_basic_support: the allocation unit, or a skip where allocated space is data.
    unfoldable pub basic_support : Kstat → (ℕ → Case Machine (Unit {0})) → Case Machine (Unit {0})
    basic_support st cases = do
      err ← run (write_new_file K base [])
      elim err [ none ↦ abort | some e ↦ assert (not (nonzero e)) ]
      opened ← run (filp_open base (o_rdwr ∷ []) 0)
      elim opened [
        | err_ptr e ↦ abort
        | ptr f ↦ do
          alloc ← alloc_size st f
          call_ok (ftruncate K f (pos 0))
          call_ok (fallocate f 0 (alloc * 2))
          found ← run (seek_data f 0)
          step (filp_close f)
          if found ==ℤ pos 0 then skip else cases alloc
      ]

    unfoldable pub four_cases : ℕ → ℕ → Case Machine (Unit {0})
    four_cases page_size alloc = do
      granted ← run kmalloc
      assert granted
      dirty_page (round_up (page_size * 14) alloc)
      two_dirty_runs (round_up (page_size * 14) alloc)
      page_behind (round_up page_size alloc)
      page_in_the_middle (round_up page_size alloc)

    unfoldable pub seek_over_unwritten_extents : ℕ → Kstat → Case (Fixture K) (Unit {0})
    seek_over_unwritten_extents page_size st =
        in_root K root remove_tree (on_machine K (basic_support st (four_cases page_size)))

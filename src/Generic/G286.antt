-- ===== src/Generic/G286.antt =====
-- kunit/xfstests/generic/286.c: a sparse file, copied extent by extent as its seeks report them.
pub mod SeekLaws
pub mod Walk
pub mod Islands
pub mod Compare
pub mod Copies
use Prim.Native.Nat.{min}
use Prim.Native.String.{◌++◌ as ◌<>◌}
use nfsplayground.Base.{
  ℕ, zero, suc, ◌+◌, ◌-◌, ◌*◌, String, true, false, not, List, [], ◌∷◌, replicate, ℤ, pos, negsuc,
  nonzero, State, ◌==◌, ◌==ℤ◌, ltb, same, if◌then◌else◌,
}
use nfsplayground.Kernel.{Kernel, o_rdwr, o_creat, o_excl, ptr, err_ptr}
use nfsplayground.Paths.{unlink, rmdir, truncate}
use nfsplayground.Files.{read_range}
use nfsplayground.Settle.{mnt}
use nfsplayground.Fixture.{Fixture}
use nfsplayground.Kunit.{Case, pass, ◌>>=◌, ◌>>◌, run, step, assert, abort, expect}
use nfsplayground.Generic.Steps.{in_root, on_machine}

abbrev pub root : String
root = mnt <> "/g286"

abbrev pub src_path : String
src_path = root <> "/src"

abbrev pub dst_path : String
dst_path = root <> "/dst"

abbrev pub file_size : ℕ
file_size = 256 * 1024

abbrev pub islands : List ℕ
islands = 0 ∷ 100 * 1024 ∷ 200 * 1024 ∷ []

abbrev pub island_size : ℕ
island_size = 8192

-- vfs_llseek with SEEK_DATA and with SEEK_HOLE
pub record Seeks (K : Kernel) : Type 0 where
  pub seek_data : K.File → ℕ → State K.Machine ℤ
  pub seek_hole : K.File → ℕ → State K.Machine ℤ

-- What the walk does with the data that it finds.
pub data Extent : Type 0 where
  no_data : Extent
  refused : Extent
  found : ℕ → Extent

-- The walk ends at -ENXIO; any other error fails an assertion.
abbrev pub extent_of : ℤ → Extent
extent_of (pos data_off) = found data_off
extent_of (negsuc k) = if k == 5 then no_data else refused

abbrev pub end_of : ℕ → ℤ → Extent
end_of data_off (pos hole) = if ltb data_off hole then found hole else refused
end_of data_off (negsuc k) = refused

module _ (K : Kernel) (S : Seeks K) where
  open K use {Machine, File, kmalloc, filp_open, filp_close, kernel_read, kernel_write, vfs_fsync}
  open S use {seek_data, seek_hole}

  unfoldable pub remove_tree : Machine → Machine
  remove_tree s = (rmdir K root (unlink K dst_path (unlink K src_path s).1).1).1

  abbrev pub call_ok : State Machine ℤ → Case Machine (Unit {0})
  call_ok m = do err ← run m; assert (not (nonzero err))

  -- A write and a read asserted to be whole.
  abbrev pub writes : File → (len : ℕ) → List ℕ → (off : ℕ) → Case Machine (Unit {0})
  writes f len bytes off = do (n, _) ← run (kernel_write f bytes off); assert (n ==ℤ pos len)

  unfoldable pub write_islands : List ℕ → ℕ → File → Case Machine (Unit {0})
  write_islands [] i f = pass tt
  write_islands (off ∷ rest) i f = do
    writes f island_size (replicate island_size (0xb0 + i)) off
    write_islands rest (suc i) f

  -- `while (data < hole)`; as many rounds as there are bytes are enough.
  unfoldable pub copy_extent : ℕ → (from to : File) → (data_off hole : ℕ) → Case Machine (Unit {0})
  copy_extent zero from to data_off hole = pass tt
  copy_extent (suc rounds) from to data_off hole = elim (ltb data_off hole) [
    | false ↦ pass tt
    | true ↦ do
      let chunk = min (hole - data_off) island_size
      (n, buf, _) ← run (kernel_read from chunk data_off)
      assert (n ==ℤ pos chunk)
      writes to chunk buf data_off
      copy_extent rounds from to (data_off + chunk) hole
  ]

  -- The SEEK walk, of as many rounds as there is fuel: the number of extents.
  unfoldable pub walk : ℕ → (from to : File) → (at_pos count : ℕ) → Case Machine ℕ
  walk zero from to at_pos count = pass count
  walk (suc fuel) from to at_pos count = do
    data_off ← run (seek_data from at_pos)
    elim (extent_of data_off) [
      | no_data ↦ pass count
      | refused ↦ abort
      | found data_off ↦ do
        hole ← run (seek_hole from data_off)
        elim (end_of data_off hole) [
          | no_data ↦ abort
          | refused ↦ abort
          | found hole ↦ do
            copy_extent (hole - data_off) from to data_off hole
            walk fuel from to hole (count + 1)
        ]
    ]

  -- Both files are read whole and compared.
  unfoldable pub compare_files : Case Machine (Unit {0})
  compare_files = do
    granted ← run kmalloc
    granted' ← run kmalloc
    assert granted
    assert granted'
    (n, a) ← run (read_range K src_path file_size 0)
    assert (n ==ℤ pos file_size)
    (n, b) ← run (read_range K dst_path file_size 0)
    assert (n ==ℤ pos file_size)
    expect (same a b)

  unfoldable pub copy_sparse : ℕ → Case Machine (Unit {0})
  copy_sparse fuel = do
    granted ← run kmalloc
    assert granted
    opened ← run (filp_open src_path (o_rdwr ∷ o_creat ∷ o_excl ∷ []) 0o644)
    elim opened [
      | err_ptr e ↦ abort
      | ptr from ↦ do
        write_islands islands 0 from
        call_ok (truncate K src_path (pos file_size))
        call_ok (vfs_fsync from)
        opened ← run (filp_open dst_path (o_rdwr ∷ o_creat ∷ o_excl ∷ []) 0o644)
        elim opened [
          | err_ptr e ↦ abort
          | ptr to ↦ do
            count ← walk fuel from to 0 0
            call_ok (truncate K dst_path (pos file_size))
            step (filp_close from)
            step (filp_close to)
            expect (count == 3)
            compare_files
        ]
    ]

  unfoldable pub seek_walk_copies_sparse_files_faithfully : ℕ → Case (Fixture K) (Unit {0})
  seek_walk_copies_sparse_files_faithfully fuel =
      in_root K root remove_tree (on_machine K (copy_sparse fuel))

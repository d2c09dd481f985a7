-- ===== src/Examples/Sparse.antt =====
-- A small kernel with as many files as paths, which are allocated, and the port that does so.
use Prim.Native.Nat.{min, max}
use text.Mathlib.Text.{◌==◌ as ◌==s◌}
use text.Mathlib.TextEquality.{eq_iff}
use nfsplayground.Generic.G029.Model.{FileView, resized, written}
use nfsplayground.Base.{
  sym, ◌==◌, if◌then◌else◌, negsuc, true, false, ℕ, ◌+◌, ◌-◌, ◌≤◌, ◌<◌, ◌≡◌, refl, arith, length,
  none, some, ℤ, pos, State, String, ap, ◌∙◌,
}
use nfsplayground.Kernel.{Kernel, IovIter, bvec, ptr}
use nfsplayground.Paths.{ftruncate, kstat, mkdir}
use nfsplayground.Files.{direct_read}
use nfsplayground.Fixture.{Fixture}
use nfsplayground.Lifecycle.{is_mounted}
use nfsplayground.Generic.G075.{byte_at}
use nfsplayground.Generic.Steps.Whole.{Passes, Prepares}
use nfsplayground.Generic.Pattern.Verified.{ReadsFile}
use nfsplayground.Generic.G214
use nfsplayground.Generic.G214.{Allocation}
use nfsplayground.Generic.G214.Allocates.{Allocates}
use nfsplayground.Generic.G214.Passes
use nfsplayground.Examples.Toy.{Toy, toy, start}
use nfsplayground.Examples.Stores.{read_from, length-read_from, byte_at-read_from}

abbrev view_of : String → Toy → FileView
view_of path s = record {
  size = s.file_sizes path;
  bytes = s.file_bytes path;
  map_addr = 0;
  map_len = 0;
}

abbrev set_file : String → FileView → Toy → Toy
set_file path v s = record s {
  file_sizes = λ q. if q ==s path then v.size else s.file_sizes q;
  file_bytes = λ q. if q ==s path then v.bytes else s.file_bytes q;
}

-- What a call makes of the file opened last.
abbrev change : (FileView → FileView) → String → Toy → Toy
change f path s = set_file path (f (view_of path s)) s

-- A direct read leaves what it found in the machine's buffer.
abbrev transfer : IovIter → ℕ → State Toy (ℤ × ℕ)
transfer (bvec buf len) off s =
    let n = min len (s.file_sizes s.open_path - off) in
    ((pos n, off + n), record s { contents = read_from (s.file_bytes s.open_path) off n })
transfer _ off s = ((pos 0, off), s)

abbrev no_bytes : FileView
no_bytes = record { size = 0; bytes = λ _. 0; map_addr = 0; map_len = 0 }

abbrev resize : ℤ → State Toy ℤ
resize (pos n) s = (pos 0, change (resized n) s.open_path s)
resize (negsuc n) s = (negsuc 21, s)

-- Each path is a file of its own; one file is open at a time, and its handle is used again.
abbrev sparse : Kernel
sparse = record toy {
  filp_open = λ path flags mode s.
      let s' : Toy = record s { open_path = path } in
      (ptr 5, if mode == 0 then s' else set_file path no_bytes s');
  kernel_write =
      λ f buf off s. ((pos (length buf), off + length buf), change (written off buf) s.open_path s);
  kernel_read = λ f len off s.
      let n = min len (s.file_sizes s.open_path - off) in
      ((pos n, read_from (s.file_bytes s.open_path) off n, off + n), s);
  vfs_getattr = λ path s. ((pos 0, s.file_sizes path), s);
  do_ftruncate = λ f. resize;
  vfs_iocb_iter_read = λ f iter off direct. transfer iter off;
}

abbrev allocation : Allocation sparse
allocation = record {
  fallocate = λ f mode off len s.
      (pos 0, change (resized (max (s.file_sizes s.open_path) (off + len))) s.open_path s);
  alloc = λ n s. (some 64, s);
  load = λ buf len s. s.contents;
}

same_path : (path : String) → path ==s path ≡ true
same_path path = (eq_iff path path).1 refl

view-set :
    (path : String) (size : ℕ) (bytes : ℕ → ℕ) (s : Toy)
    → let v : FileView = record { size = size; bytes = bytes; map_addr = 0; map_len = 0 } in
      view_of path (set_file path v s) ≡ v
view-set path size bytes s = rw (same_path path) refl

-- A change of the file that is open is one of its path's file.
view-change :
    (path : String) (f : FileView → FileView) (s : Toy)
    → (f (view_of path s)).map_addr ≡ 0
    → (f (view_of path s)).map_len ≡ 0
    → s.open_path ≡ path
    → view_of path (change f s.open_path s) ≡ f (view_of path s)
view-change path f s a b e =
    ap (λ p. view_of path (change f p s)) e
    ∙ view-set path (f (view_of path s)).size (f (view_of path s)).bytes s
    ∙ ap {A = ℕ} (λ addr. record (f (view_of path s)) { map_addr = addr; map_len = 0 }) (sym a)
    ∙ ap {A = ℕ} (λ len. record (f (view_of path s)) { map_len = len }) (sym b)

sparse_reads :
    (path : String)
    → ReadsFile sparse path (λ s. (view_of path s).size) (λ s. (view_of path s).bytes)
sparse_reads path = record {
  open_and_read = λ len off s.
      let n = min len (s.file_sizes path - off) in
      (
        5,
        refl,
        (
          refl,
          length-read_from (s.file_bytes path) off n,
          byte_at-read_from (s.file_bytes path) off n,
          refl,
          refl,
        ),
      );
}

read_whole :
    (f len : ℕ) (path : String) (s : Toy)
    → s.open_path ≡ path
    → len ≤ s.file_sizes path
    → let r = direct_read sparse f 64 len 0 s in
      (r.0.0 ≡ pos len)
      × (length r.1.contents ≡ len)
      × ((i : ℕ) → i < len → byte_at r.1.contents i ≡ s.file_bytes path i)
unfolding direct_read
read_whole f len path s e fits =
    let n = min len (s.file_sizes path - 0) in
    let whole : n ≡ len = omega (arith, fits) in
    let bytes = s.file_bytes path in
    rw e (
      ap pos whole,
      length-read_from bytes 0 n ∙ whole,
      λ i below.
          byte_at-read_from bytes 0 n i (omega (arith, below, whole)) ∙ ap bytes (omega arith),
    )

abbrev Handle : String → ℕ → Toy → Type 0
Handle path f s = (f ≡ 5) × (s.open_path ≡ path)

sparse-Allocates :
    (path : String) → Allocates sparse allocation (λ st. st) path (view_of path) (Handle path)
unfolding kstat ftruncate direct_read
sparse-Allocates path = record {
  open_new = λ s. (5, refl, rw (same_path path) refl, λ i. rw (same_path path) refl, (refl, refl));
  open_direct = λ s. (5, refl, refl, (refl, refl));
  fallocate_extends = λ f off len s h. (
    refl,
    view-change path (resized (max (s.file_sizes s.open_path) (off + len))) s refl refl h.1
        ∙ ap (λ p. resized (max (s.file_sizes p) (off + len)) (view_of path s)) h.1,
    h,
  );
  kernel_write_all = λ f buf off s h. (refl, view-change path (written off buf) s refl refl h.1, h);
  vfs_fsync_keeps = λ f s h. (refl, refl, h);
  ftruncate_resizes = λ f n s h. (refl, view-change path (resized n) s refl refl h.1, h);
  direct_read_all = λ f buf len s h fits. read_whole f len path s h.1 fits;
  view-filp_close = λ f s h. refl;
  kstat_size = λ st s. (refl, refl, refl);
  reads_file = sparse_reads path;
}

sparse-Prepares : (root : String) → Prepares sparse root
unfolding mkdir
sparse-Prepares root = record { mkdir_made = λ s. refl; kmalloc_granted = λ s. refl }

abbrev mounted_fixture : Fixture sparse
mounted_fixture = record {
  machine = start;
  saved_creds = none;
  override = none;
  fixture_refs = 1;
  export_mount_opts = "";
  tmpfs_mounted = true;
  nfsdfs_mounted = true;
  nfsd_up = true;
  client_mounted = true;
  bringup_root = none;
  hostbin = "/bin";
  hostbin_mounted = false;
  prog_seq = 0;
}

cases-Pass_example :
    Passes (G214.allocated_space_reads_as_zeroes sparse allocation) mounted_fixture 0
    × Passes (G214.a_write_leaves_the_rest_alone sparse allocation) mounted_fixture 0
    × Passes (G214.a_truncate_after_allocate_and_write sparse allocation) mounted_fixture 0
    × Passes (G214.allocating_over_a_written_range sparse allocation (λ st. st) 7) mounted_fixture 0
    × Passes (G214.a_scatter_of_writes_around_an_allocate sparse allocation) mounted_fixture 0
unfolding is_mounted
cases-Pass_example =
    G214.Passes.cases-Pass (λ name test. sparse-Allocates (G214.path_of name))
      (sparse-Prepares G214.root) (λ s. (64, refl)) 7 mounted_fixture 0 refl

-- ===== src/Examples/Copying.antt =====
-- A small kernel with two files, of which each is data from its start to its end, and the ports that
-- copy one to the other.
use Prim.Native.Nat.{min, max}
use text.Mathlib.Text.{◌==◌ as ◌==s◌}
use nfsplayground.Base.{
  Bool, true, false, ℕ, ◌+◌, ◌-◌, ◌<◌, ◌≡◌, refl, arith, List, length, ℤ, pos, negsuc, State,
  String, ltb, ◌==◌, if◌then◌else◌, Bool-cases, inl, inr,
}
use nfsplayground.Kernel.{Kernel, ptr}
use nfsplayground.Paths.{truncate}
use nfsplayground.Files.{read_range}
use nfsplayground.Generic.G029.Model.{FileView, overlay}
use nfsplayground.Generic.Pattern.Verified.{ReadsFile}
use nfsplayground.Generic.G286.{src_path, dst_path, file_size, Seeks, copy_sparse}
use nfsplayground.Generic.G286.SeekLaws.{SeeksData}
use nfsplayground.Generic.G286.Copies.{Walked, copy_sparse-Passed}
use nfsplayground.Examples.Toy.{Toy, start}
use nfsplayground.Examples.Stores.{read_from, length-read_from, byte_at-read_from}
use nfsplayground.Examples.Mappings.{view, mapping, put, cut}

abbrev copy_view : Toy → FileView
copy_view s = record { size = s.copy_size; bytes = s.copy_bytes; map_addr = 0; map_len = 0 }

abbrev put_copy : ℕ → List ℕ → Toy → Toy
put_copy off buf s = record s {
  copy_size = max s.copy_size (off + length buf);
  copy_bytes = overlay off buf s.copy_bytes;
}

abbrev cut_copy : ℤ → State Toy ℤ
cut_copy (pos n) s =
    (pos 0, record s { copy_size = n; copy_bytes = λ i. if ltb i n then s.copy_bytes i else 0 })
cut_copy (negsuc n) s = (negsuc 21, s)

abbrev is_copy : String → Bool
is_copy path = path ==s dst_path

abbrev copying : Kernel
copying = record mapping {
  filp_open = λ path flags mode s.
      if is_copy path
      then (ptr 6, if mode == 0 then s else record s { copy_size = 0; copy_bytes = λ _. 0 })
      else (ptr 5, if mode == 0 then s else record s { size = 0; bytes = λ _. 0 });
  kernel_write = λ f buf off s.
      ((pos (length buf), off + length buf), if f == 6 then put_copy off buf s else put off buf s);
  kernel_read = λ f len off s.
      let size = if f == 6 then s.copy_size else s.size in
      let bytes = if f == 6 then s.copy_bytes else s.bytes in
      let n = min len (size - off) in ((pos n, read_from bytes off n, off + n), s);
  vfs_truncate = λ path size s. if is_copy path then cut_copy size s else cut size s;
}

abbrev all_data : Seeks copying
all_data = record {
  seek_data = λ f off s. (if ltb off s.size then pos off else negsuc 5, s);
  seek_hole = λ f off s. (pos s.size, s);
}

src_is_no_copy : is_copy src_path ≡ false
src_is_no_copy = refl

dst_is_copy : is_copy dst_path ≡ true
dst_is_copy = refl

src_reads : ReadsFile copying src_path (λ s. (view s).size) (λ s. (view s).bytes)
src_reads = record {
  open_and_read = λ len off s.
      let n = min len (s.size - off) in
      (
        5,
        refl,
        (refl, length-read_from s.bytes off n, byte_at-read_from s.bytes off n, refl, refl),
      );
}

dst_reads : ReadsFile copying dst_path (λ s. (copy_view s).size) (λ s. (copy_view s).bytes)
dst_reads = record {
  open_and_read = λ len off s.
      let n = min len (s.copy_size - off) in
      (
        6,
        refl,
        (
          refl,
          length-read_from s.copy_bytes off n,
          byte_at-read_from s.copy_bytes off n,
          refl,
          refl,
        ),
      );
}

copying-SeeksData :
    SeeksData copying all_data (λ f. f ≡ 5) (λ f. f ≡ 6) view copy_view (λ s off. off < s.size)
unfolding truncate read_range
copying-SeeksData = record {
  open_in = λ s. (5, refl, refl, refl, λ i. refl);
  open_out = λ s. (6, refl, refl, refl, refl, λ i. refl);
  write_in = λ f buf off s e. rw e (refl, refl);
  write_out = λ f buf off s e. rw e (refl, refl, refl);
  read_in = λ f len off s e. rw e (
      let n = min len (s.size - off) in
      (refl, length-read_from s.bytes off n, byte_at-read_from s.bytes off n, refl, refl));
  seek_data_finds = λ f off s e. (
    refl,
    refl,
    elim (Bool-cases (ltb off s.size)) [
      | inl inside ↦ inr (
        off,
        rw inside refl,
        omega arith,
        ground (arith, inside),
        λ i from below. absurd (omega (arith, from, below)),
      )
      | inr outside ↦
          inl (rw outside refl, λ i from below. absurd (ground (arith, outside, from, below)))
    ],
  );
  seek_hole_finds = λ f off s e there. (refl, refl, (s.size, refl, there, omega arith));
  truncate_src = λ n s. (refl, refl);
  truncate_dst = λ n s. (refl, refl, refl);
  vfs_fsync_keeps = λ f s e. (refl, refl);
  filp_close_keeps = λ f s. (refl, refl);
  kmalloc_grants = λ s. (refl, refl, refl);
  dst-read_src = λ len off s. refl;
  reads_src = src_reads;
  reads_dst = dst_reads;
}

copy_sparse-Passed_example :
    Walked copying-SeeksData
      (file_size + 1)
      0
      (copy_sparse copying all_data (file_size + 1) start 0)
copy_sparse-Passed_example =
    copy_sparse-Passed copying-SeeksData (file_size + 1) start 0 (omega arith)

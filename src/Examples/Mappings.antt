-- ===== src/Examples/Mappings.antt =====
-- A small kernel with a file that is mapped, and the ports that compare every byte on it.
use Prim.Native.Nat.{min, max}
use nfsplayground.Base.{
  Bool, true, false, replicate, zero, suc, ℕ, ◌+◌, ◌-◌, ◌*◌, ◌<◌, ◌≡◌, refl, ap, arith, ◌↔◌, List,
  length, some, ℤ, pos, negsuc, State, e_inval, ltb, if◌then◌else◌, String, ◌==◌,
}
use nfsplayground.Kernel.{Kernel, ptr}
use nfsplayground.Paths.{truncate, kstat}
use nfsplayground.Generic.G406.{byte}
use nfsplayground.Generic.G029.{file, server_file, row, one, all_of, scenarios, want_after}
use nfsplayground.Generic.G029.Model.{
  length-replicate, written, FileView, overlay, MappedFile, Holds,
}
use nfsplayground.Generic.G029.Lines.{one-Leads, scenarios-Fine}
use nfsplayground.Files.{direct_write}
use nfsplayground.Paths.{ftruncate}
use nfsplayground.Generic.G130.{Buffers, path_of}
use nfsplayground.Generic.G130.Cases.{zeroing_file, coherent_file}
use nfsplayground.Generic.G130.Ranges.{KeepsBytes, write_call}
use nfsplayground.Generic.G130.Coherent.{cases-Fine}
use nfsplayground.Generic.Mapped.{UserMemory}
use nfsplayground.Generic.Pattern.{verify}
use nfsplayground.Generic.Pattern.Verified.{ReadsFile, verify_iff}
use nfsplayground.Examples.Toy.{Toy, toy, start}
use nfsplayground.Examples.Stores.{read_from, length-read_from, byte_at-read_from}

-- The address of the mapping is the toy's clock, and its length the toy's count of creds.
abbrev pub view : Toy → FileView
view s = record { size = s.size; bytes = s.bytes; map_addr = s.clock; map_len = s.owned }

abbrev pub put : ℕ → List ℕ → Toy → Toy
put off buf s = record s { size = max s.size (off + length buf); bytes = overlay off buf s.bytes }

abbrev pub cut : ℤ → State Toy ℤ
cut (pos n) s = (pos 0, record s { size = n; bytes = λ i. if ltb i n then s.bytes i else 0 })
cut (negsuc n) s = (e_inval, s)

-- Opening for writing creates the file anew.
abbrev pub mapping : Kernel
mapping = record toy {
  filp_open =
      λ path flags mode s. (ptr 5, if mode == 0 then s else record s { size = 0; bytes = λ _. 0 });
  kernel_write = λ f buf off s. ((pos (length buf), off + length buf), put off buf s);
  kernel_read = λ f len off s.
      let n = min len (s.size - off) in ((pos n, read_from s.bytes off n, off + n), s);
  vfs_truncate = λ _. cut;
  vfs_getattr = λ _ s. ((pos 0, s.size), s);
}

abbrev memory : UserMemory mapping
memory = record {
  kunit_vm_mmap = λ f len write off s. (4096, record s { clock = 4096; owned = len });
  vm_munmap = λ addr len s. (pos 0, s);
  copy_from_user = λ addr len s. ((0, read_from s.bytes (addr - s.clock) len), s);
  copy_to_user = λ addr buf s. (0, put (addr - s.clock) buf s);
}

reads : (path : String) → ReadsFile mapping path (λ s. (view s).size) (λ s. (view s).bytes)
reads path = record {
  open_and_read = λ len off s.
      let n = min len (s.size - off) in
      (
        5,
        refl,
        (refl, length-read_from s.bytes off n, byte_at-read_from s.bytes off n, refl, refl),
      );
}

mapping-MappedFile : MappedFile mapping memory (λ st. st) view
unfolding kstat truncate
mapping-MappedFile = record {
  open_new = λ s. (5, refl, refl, refl);
  truncate_resizes = λ n s. (refl, refl);
  kernel_write_all = λ f buf off s. (refl, refl);
  map_file = λ f len s. (omega arith, refl);
  copy_into =
      λ addr off buf s e in_map in_file. (refl, ap (λ k. view (put k buf s)) (omega (arith, e)));
  unmap_all = λ addr len s e e'. (refl, refl, refl);
  view-filp_close = λ f s. refl;
  kmalloc_grants = λ s. (refl, refl);
  kstat_size = λ st s. (refl, refl, refl);
  reads_file = reads file;
  reads_server = reads server_file;
}

scenarios-Fine_example :
    let r = all_of mapping memory (λ st. st) 4096 0 scenarios (λ i. i) start 0 in
    (r.0 ≡ some tt) × (r.2 ≡ 0)
scenarios-Fine_example = scenarios-Fine mapping-MappedFile 4096 (omega arith) 0 (λ i. i) start 0

one-Leads_example :
    let c = row 10 4 6 4 2 2 8 4 4 in
    let r = one mapping memory (λ st. st) 3 0 c (λ i. i) start 0 in
    (r.0 ≡ some tt) × (r.2 ≡ 0) × Holds 8 (want_after c (λ i. i)) (view r.1)
one-Leads_example =
    one-Leads mapping-MappedFile 3 (omega arith) 0 (row 10 4 6 4 2 2 8 4 4) (λ i. i) start 0
      (record {
        z_inside = omega arith;
        down = omega arith;
        w_inside = omega arith;
        up = omega arith;
        y_inside = omega arith;
        y_mapped = omega arith;
      })

-- A file with the bytes of the formula.
abbrev filled : Toy
filled = record start { size = 20; bytes = byte }

verify_iff_example :
    let r = verify mapping file byte (4 * 5) 5 filled 0 in
    ((r.0 ≡ some tt) × (r.2 ≡ 0))
    ↔ ((i : ℕ) → i < 4 * 5 → (i < filled.size) × (filled.bytes i ≡ byte i))
verify_iff_example = verify_iff (reads file) byte 5 (omega arith) 4 filled 0

-- A direct write takes what was stored last.
abbrev direct : Kernel
direct = record mapping {
  vfs_iocb_iter_write = λ f iter off write s.
      ((pos (length s.contents), off + length s.contents), put off s.contents s);
  do_ftruncate = λ f. cut;
}

abbrev buffers : Buffers direct
buffers = record {
  alloc = λ n s. (some 64, s);
  store = λ buf bytes s. record s { contents = bytes };
}

direct-all :
    (to_disk : Bool) (n val off : ℕ) (s : Toy)
    → let w = write_call direct 5 to_disk 64 n val off (buffers.store 64 (replicate n val) s) in
      (w.0.0 ≡ pos n) × (w.0.1 ≡ off + n) × (view w.1 ≡ written off (replicate n val) (view s))
unfolding direct_write
direct-all true zero val off s = (refl, omega arith, refl)
direct-all true (suc n) val off s =
    (ap pos (length-replicate (suc n) val), ap (λ k. off + k) (length-replicate (suc n) val), refl)
direct-all false n val off s =
    (ap pos (length-replicate n val), ap (λ k. off + k) (length-replicate n val), refl)

direct_reads : (path : String) → ReadsFile direct path (λ s. (view s).size) (λ s. (view s).bytes)
direct_reads path = record {
  open_and_read = λ len off s.
      let n = min len (s.size - off) in
      (
        5,
        refl,
        (refl, length-read_from s.bytes off n, byte_at-read_from s.bytes off n, refl, refl),
      );
}

direct-KeepsBytes : (path : String) → KeepsBytes direct buffers path view
unfolding ftruncate direct_write
direct-KeepsBytes path = record {
  alloc_grants = λ n s. (64, refl, refl);
  open_trunc = λ s. (5, refl, refl, λ i. refl);
  open_new = λ s. (5, refl, refl, λ i. refl);
  open_direct = λ s. (5, refl, refl);
  write_all = λ f to_disk buf n val off s. direct-all to_disk n val off s;
  ftruncate_resizes = λ f n s. (refl, refl);
  view-filp_close = λ f s. refl;
  reads_file = direct_reads path;
}

cases-Fine_example :
    let z = zeroing_file direct buffers (λ st. st) start 0 in
    let c = coherent_file direct buffers (λ st. st) start 0 in
    ((z.0 ≡ some tt) × (z.2 ≡ 0)) × ((c.0 ≡ some tt) × (c.2 ≡ 0))
cases-Fine_example =
    cases-Fine (direct-KeepsBytes (path_of "eof-zeroing_direct"))
      (direct-KeepsBytes (path_of "buff_direct_coherency")) (λ st. st) start 0

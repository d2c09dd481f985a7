-- ===== src/Generic/G130/Coherent.antt =====
-- Buffered and direct writes that overlap, in generic/130.
use nfsplayground.Base.{ℕ, ◌+◌, ◌≤◌, ◌<◌, ◌≡◌, refl, sym, subst, arith, [], ◌∷◌, some, true, false}
use nfsplayground.Kernel.{Kernel, ptr, o_rdwr, o_creat, o_trunc, o_direct}
use nfsplayground.Kunit.{Case, ◌>>=◌, ◌>>◌, run, step, Leads, Leads-then}
use nfsplayground.Generic.G029.{set_range}
use nfsplayground.Generic.G029.Model.{FileView, Holds}
use nfsplayground.Generic.G130.{most, path_of, Buffers, fill, expect_range, with_open}
use nfsplayground.Generic.G130.Ranges.{
  KeepsBytes, fill-Leads, fill_inside-Leads, expect_range-Leads,
}
use nfsplayground.Generic.G130.Zeroing.{zeroing_file-Fine}
use nfsplayground.Generic.G130.Cases.{zeroing_file, coherent_file}

module _ {K : Kernel} {B : Buffers K} {view : K.Machine → FileView}
    (L : KeepsBytes K B (path_of "buff_direct_coherency") view) (buf : ℕ) where
  -- The models after the buffered writes and after the direct ones.
  abbrev buffered : ℕ → ℕ
  buffered = set_range 0x57 4000 1000 (set_range 0x41 8000 1000 (set_range 0 0 8000 (λ _. 0)))

  abbrev model : ℕ → ℕ
  model = set_range 0x79 4096 4096 (set_range 0x78 20480 4096 (set_range 0 9000 11480 buffered))

  abbrev Is : ℕ → (ℕ → ℕ) → K.Machine → Type 0
  Is size want s = Holds size want (view s)

  abbrev range : ℕ → ℕ → ℕ → Case K.Machine (Unit {0})
  range off len val = expect_range K B (path_of "buff_direct_coherency") off len val

  abbrev compared : Case K.Machine (Unit {0})
  compared =
      range 0 4000 0
      >> (range 4000 96 0x57
          >> (range 4096 4096 0x79 >> (range 8192 808 0x41 >> range 20480 4096 0x78)))

  compared-Leads : Leads (Is 24576 model) (Is 24576 model) compared
  compared-Leads =
      let I = Is 24576 model in
      let found : (off len val : ℕ)
          → 0 < len
          → len ≤ most
          → off + len ≤ 24576
          → ((i : ℕ) → off ≤ i → i < off + len → model i ≡ val)
          → Leads I I (range off len val) =
        λ off len val. expect_range-Leads L 24576 off len val model in
      Leads-then I I I (range 0 4000 0) _
        (found 0 4000 0 (omega arith) (omega arith) (omega arith)
          (λ i from below. ground (arith, from, below)))
        (Leads-then I I I (range 4000 96 0x57) _
          (found 4000 96 0x57 (omega arith) (omega arith) (omega arith)
            (λ i from below. ground (arith, from, below)))
          (Leads-then I I I (range 4096 4096 0x79) _
            (found 4096 4096 0x79 (omega arith) (omega arith) (omega arith)
              (λ i from below. ground (arith, from, below)))
            (Leads-then I I I (range 8192 808 0x41) (range 20480 4096 0x78)
              (found 8192 808 0x41 (omega arith) (omega arith) (omega arith)
                (λ i from below. ground (arith, from, below)))
              (found 20480 4096 0x78 (omega arith) (omega arith) (omega arith)
                (λ i from below. ground (arith, from, below))))))

  closed :
      (f : K.File) (size : ℕ) (want : ℕ → ℕ)
      → Leads (Is size want) (Is size want) (step (K.filp_close f))
  closed f size want s n h = (refl, refl, subst (Holds size want) (sym (L.view-filp_close f s)) h)

  -- The direct writes, from the second open file on.
  abbrev from_close : K.File → Case K.Machine (Unit {0})
  from_close f = step (K.filp_close f) >> compared

  abbrev from_second : K.File → Case K.Machine (Unit {0})
  from_second f = fill K B f true 0x79 4096 4096 buf >> from_close f

  abbrev direct_part : K.File → Case K.Machine (Unit {0})
  direct_part f = fill K B f true 0x78 20480 4096 buf >> from_second f

  direct_part-Leads : (f : K.File) → Leads (Is 9000 buffered) (Is 24576 model) (direct_part f)
  direct_part-Leads f =
      let I = Is 24576 model in
      let before = set_range 0x78 20480 4096 (set_range 0 9000 11480 buffered) in
      Leads-then (Is 9000 buffered) (Is 24576 before) I (fill K B f true 0x78 20480 4096 buf)
        (from_second f)
        (fill-Leads L f true buf 9000 20480 4096 0x78 buffered (omega arith) (omega arith)
          (omega arith))
        (Leads-then (Is 24576 before) I I (fill K B f true 0x79 4096 4096 buf) (from_close f)
          (fill_inside-Leads L f true buf 24576 4096 4096 0x79 before (omega arith) (omega arith)
            (omega arith))
          (Leads-then I I I (step (K.filp_close f)) compared (closed f 24576 model) compared-Leads))

  -- The file opened again.
  abbrev reopened : Case K.Machine (Unit {0})
  reopened = with_open K B (path_of "buff_direct_coherency") (o_rdwr ∷ o_direct ∷ []) 0 direct_part

  reopened-Leads : Leads (Is 9000 buffered) (Is 24576 model) reopened
  reopened-Leads s n h =
      let o = L.open_direct s in
      rw (◌>>=◌, run, o.1)
        (direct_part-Leads o.0
          (K.filp_open (path_of "buff_direct_coherency") (o_rdwr ∷ o_direct ∷ []) 0 s).1 n
          (subst (Holds 9000 buffered) (sym o.2) h))

  abbrev buffered_part : K.File → Case K.Machine (Unit {0})
  buffered_part f =
      fill K B f false 0x41 8000 1000 buf
      >> (fill K B f false 0x57 4000 1000 buf >> (step (K.filp_close f) >> reopened))

  buffered_part-Leads : (f : K.File) → Leads (Is 0 (λ _. 0)) (Is 24576 model) (buffered_part f)
  buffered_part-Leads f =
      let I = Is 24576 model in
      let first = set_range 0x41 8000 1000 (set_range 0 0 8000 (λ _. 0)) in
      Leads-then (Is 0 (λ _. 0)) (Is 9000 first) I (fill K B f false 0x41 8000 1000 buf) _
        (fill-Leads L f false buf 0 8000 1000 0x41 (λ _. 0) (omega arith) (omega arith)
          (omega arith))
        (Leads-then (Is 9000 first) (Is 9000 buffered) I (fill K B f false 0x57 4000 1000 buf) _
          (fill_inside-Leads L f false buf 9000 4000 1000 0x57 first (omega arith) (omega arith)
            (omega arith))
          (Leads-then (Is 9000 buffered) (Is 9000 buffered) I (step (K.filp_close f)) reopened
            (closed f 9000 buffered) reopened-Leads))

coherent_file-run :
    {K : Kernel} {B : Buffers K} {view : K.Machine → FileView}
    (L : KeepsBytes K B (path_of "buff_direct_coherency") view) (size_of : K.Kstat → ℕ)
    (s : K.Machine) (n buf : ℕ) (f : K.File)
    → let a = B.alloc most s in
      let o =
        K.filp_open (path_of "buff_direct_coherency") (o_rdwr ∷ o_creat ∷ o_trunc ∷ []) 0o644 a.1 in
      a.0 ≡ some buf → o.0 ≡ ptr f → coherent_file K B size_of s n ≡ buffered_part L buf f o.1 n
unfolding coherent_file
coherent_file-run L size_of s n buf f granted opened =
    rw (◌>>=◌, run, granted) (rw (◌>>=◌, run, opened) refl)

coherent_file-Fine :
    {K : Kernel} {B : Buffers K} {view : K.Machine → FileView}
    → KeepsBytes K B (path_of "buff_direct_coherency") view
    → (size_of : K.Kstat → ℕ) (s : K.Machine) (n : ℕ)
    → let r = coherent_file K B size_of s n in (r.0 ≡ some tt) × (r.2 ≡ n)
coherent_file-Fine {K} {B} {view} L size_of s n =
    let a = L.alloc_grants most s in
    let o = L.open_new (B.alloc most s).1 in
    let w =
      buffered_part-Leads L a.0 o.0
        (K.filp_open (path_of "buff_direct_coherency") (o_rdwr ∷ o_creat ∷ o_trunc ∷ []) 0o644
          (B.alloc most s).1).1
        n (o.2, λ i below. o.3 i, λ i behind. o.3 i) in
    rw (coherent_file-run L size_of s n a.0 o.0 a.1 o.1) (w.0, w.1)

-- On a file system that keeps what is written, through its cache and directly, and cuts a file and
-- extends it with zeros, two cases of generic/130 go through with no failure: the one that writes, cuts
-- the file to one byte and writes behind its end, and the one whose buffered and direct writes overlap,
-- where the last write of a byte is what is found.
pub cases-Fine :
    {K : Kernel} {B : Buffers K} {view view' : K.Machine → FileView}
    → KeepsBytes K B (path_of "eof-zeroing_direct") view
    → KeepsBytes K B (path_of "buff_direct_coherency") view'
    → (size_of : K.Kstat → ℕ) (s : K.Machine) (n : ℕ)
    → let z = zeroing_file K B size_of s n in
      let c = coherent_file K B size_of s n in
      ((z.0 ≡ some tt) × (z.2 ≡ n)) × ((c.0 ≡ some tt) × (c.2 ≡ n))
cases-Fine L M size_of s n = (zeroing_file-Fine L size_of s n, coherent_file-Fine M size_of s n)

-- ===== src/Generic/G130/Zeroing.antt =====
-- The zeros at the end of a file, in generic/130.
use nfsplayground.Base.{ℕ, ◌+◌, ◌≤◌, ◌<◌, ◌≡◌, refl, sym, subst, arith, String, [], ◌∷◌, some, true}
use nfsplayground.Kernel.{Kernel, ptr, o_rdwr, o_creat, o_trunc, o_direct}
use nfsplayground.Kunit.{Case, ◌>>=◌, ◌>>◌, run, step, Leads, Leads-then}
use nfsplayground.Generic.G029.{set_range}
use nfsplayground.Generic.G029.Model.{FileView, Holds}
use nfsplayground.Generic.G130.{most, path_of, Buffers, fill, expect_range}
use nfsplayground.Generic.G130.Ranges.{KeepsBytes, fill-Leads, expect_range-Leads, cut_to-Leads}
use nfsplayground.Generic.G130.Cases.{zeroing_file, cut_to}

module _ {K : Kernel} {B : Buffers K} {path : String} {view : K.Machine → FileView}
    (L : KeepsBytes K B path view) where
  -- The case of the zeroes at the end of the file, from the open file on.
  module _ (size_of : K.Kstat → ℕ) (f : K.File) (buf : ℕ) where
    -- The model after the two writes and the truncation between them.
    abbrev short_model : ℕ → ℕ
    short_model = set_range 0x63 0 65536 (set_range 0 0 0 (λ _. 0))

    abbrev model : ℕ → ℕ
    model = set_range 0x41 65536 65536 (set_range 0 1 65535 short_model)

    abbrev Is : ℕ → (ℕ → ℕ) → K.Machine → Type 0
    Is size want s = Holds size want (view s)

    abbrev compared : Case K.Machine (Unit {0})
    compared =
        expect_range K B path 0 1 0x63
        >> (expect_range K B path 1 65535 0 >> expect_range K B path 65536 65536 0x41)

    compared-Leads : Leads (Is 131072 model) (Is 131072 model) compared
    compared-Leads =
        let I = Is 131072 model in
        let range : (off len val : ℕ)
            → 0 < len
            → len ≤ most
            → off + len ≤ 131072
            → ((i : ℕ) → off ≤ i → i < off + len → model i ≡ val)
            → Leads I I (expect_range K B path off len val) =
          λ off len val. expect_range-Leads L 131072 off len val model in
        Leads-then I I I (expect_range K B path 0 1 0x63) _
          (range 0 1 0x63 (omega arith) (omega arith) (omega arith)
            (λ i from below. ground (arith, below)))
          (Leads-then I I I (expect_range K B path 1 65535 0)
            (expect_range K B path 65536 65536 0x41)
            (range 1 65535 0 (omega arith) (omega arith) (omega arith)
              (λ i from below. ground (arith, from, below)))
            (range 65536 65536 0x41 (omega arith) (omega arith) (omega arith)
              (λ i from below. ground (arith, from, below))))

    abbrev from_close : Case K.Machine (Unit {0})
    from_close = step (K.filp_close f) >> compared

    abbrev from_second : Case K.Machine (Unit {0})
    from_second = fill K B f true 0x41 65536 65536 buf >> from_close

    abbrev from_cut : Case K.Machine (Unit {0})
    from_cut = cut_to K B size_of f 1 >> from_second

    written-Leads :
        Leads (Is 0 (λ _. 0)) (Is 131072 model) (fill K B f true 0x63 0 65536 buf >> from_cut)
    written-Leads =
        let I = Is 131072 model in
        let close =
          Leads-then I I I (step (K.filp_close f)) compared
            (λ s n h. (refl, refl, subst (Holds 131072 model) (sym (L.view-filp_close f s)) h))
            compared-Leads in
        let second =
          Leads-then (Is 1 short_model) I I (fill K B f true 0x41 65536 65536 buf) from_close
            (fill-Leads L f true buf 1 65536 65536 0x41 short_model (omega arith) (omega arith)
              (omega arith))
            close in
        let cut =
          Leads-then (Is 65536 short_model) (Is 1 short_model) I (cut_to K B size_of f 1)
            from_second (cut_to-Leads L size_of f 65536 1 short_model (omega arith)) second in
        Leads-then (Is 0 (λ _. 0)) (Is 65536 short_model) I (fill K B f true 0x63 0 65536 buf)
          from_cut
          (fill-Leads L f true buf 0 0 65536 0x63 (λ _. 0) (omega arith) (omega arith)
            (omega arith))
          cut

-- The case, once its buffer is granted and its file open.
zeroing_file-run :
    (K : Kernel) (B : Buffers K) (size_of : K.Kstat → ℕ) (s : K.Machine) (n : ℕ) (buf : ℕ)
    (f : K.File)
    → let a = B.alloc most s in
      let o =
        K.filp_open
          (path_of "eof-zeroing_direct")
          (o_rdwr ∷ o_creat ∷ o_trunc ∷ o_direct ∷ [])
          0o644
          a.1 in
      a.0 ≡ some buf
      → o.0 ≡ ptr f
      → zeroing_file K B size_of s n
        ≡ (fill K B f true 0x63 0 65536 buf
              >> (cut_to K B size_of f 1
                  >> (fill K B f true 0x41 65536 65536 buf
                      >> (step (K.filp_close f)
                          >> (expect_range K B (path_of "eof-zeroing_direct") 0 1 0x63
                              >> (expect_range K B (path_of "eof-zeroing_direct") 1 65535 0
                                  >> expect_range K B
                                      (path_of "eof-zeroing_direct")
                                      65536
                                      65536
                                      0x41))))))
            o.1 n
unfolding zeroing_file
zeroing_file-run K B size_of s n buf f granted opened =
    rw (◌>>=◌, run, granted) (rw (◌>>=◌, run, opened) refl)

-- The case goes through, with no failure.
pub zeroing_file-Fine :
    {K : Kernel} {B : Buffers K} {view : K.Machine → FileView}
    → KeepsBytes K B (path_of "eof-zeroing_direct") view
    → (size_of : K.Kstat → ℕ) (s : K.Machine) (n : ℕ)
    → let r = zeroing_file K B size_of s n in (r.0 ≡ some tt) × (r.2 ≡ n)
zeroing_file-Fine {K} {B} {view} L size_of s n =
    let a = L.alloc_grants most s in
    let o = L.open_trunc (B.alloc most s).1 in
    let w =
      written-Leads L size_of o.0 a.0
        (K.filp_open (path_of "eof-zeroing_direct") (o_rdwr ∷ o_creat ∷ o_trunc ∷ o_direct ∷ [])
          0o644 (B.alloc most s).1).1
        n (o.2, λ i below. o.3 i, λ i behind. o.3 i) in
    rw (zeroing_file-run K B size_of s n a.0 o.0 a.1 o.1) (w.0, w.1)

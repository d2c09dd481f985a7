-- ===== src/Generic/G286/Walk.antt =====
-- The SEEK walk of generic/286: whatever extents the file system reports, the copy has the bytes of
-- the file.
use Prim.Native.Nat.{min}
use nfsplayground.Base.{
  ℕ, zero, suc, ◌+◌, ◌-◌, ◌≤◌, ◌<◌, ◌≡◌, refl, sym, ap, ◌∙◌, subst, arith, List, length, some, pos,
  negsuc, ◌==ℤ◌, ==ℤ_iff, ltb, true, false, Bool-cases, inl, inr,
}
use nfsplayground.Kernel.{Kernel}
use nfsplayground.Kunit.{◌>>=◌, ◌>>◌, run, Fine, Fine-run, Fine-then, Leads, went_fine}
use nfsplayground.Generic.G075.{byte_at}
use nfsplayground.Generic.G029.Model.{FileView, written, inside_test, outside_test}
use nfsplayground.Generic.G286.SeekLaws.{SeeksData}
use nfsplayground.Generic.G286.{island_size, Seeks, writes, copy_extent, walk}

module _ {K : Kernel} {S : Seeks K} {IsIn IsOut : K.File → Type 0} {src dst : K.Machine → FileView}
    {Data : K.Machine → ℕ → Type 0} (L : SeeksData K S IsIn IsOut src dst Data) (from to : K.File)
    (is_in : IsIn from) (is_out : IsOut to) (v : FileView) where
  -- Up to an offset the copy has the bytes of the file, and from there on none.
  abbrev pub Copied : ℕ → K.Machine → Type 0
  Copied off s =
      (src s ≡ v)
      × ((i : ℕ) → i < off → (dst s).bytes i ≡ v.bytes i)
      × ((i : ℕ) → off ≤ i → (dst s).bytes i ≡ 0)

  Copied-same :
      (off : ℕ) (s s' : K.Machine) → src s' ≡ src s → dst s' ≡ dst s → Copied off s → Copied off s'
  Copied-same off s s' e e' h = (
    e ∙ h.0,
    λ i below. ap (λ d. d.bytes i) e' ∙ h.1 i below,
    λ i behind. ap (λ d. d.bytes i) e' ∙ h.2 i behind,
  )

  -- A hole that is skipped,
  Copied-skipped :
      (off off' : ℕ) (s : K.Machine)
      → off ≤ off'
      → ((i : ℕ) → off ≤ i → i < off' → v.bytes i ≡ 0)
      → Copied off s
      → Copied off' s
  Copied-skipped off off' s le holes h = (
    h.0,
    λ i below. elim (Bool-cases (ltb i off)) [
      | inl before ↦ h.1 i (ground (arith, before))
      | inr after ↦
          let from_off : off ≤ i = ground (arith, after) in
          h.2 i from_off ∙ sym (holes i from_off below)
    ],
    λ i behind. h.2 i (omega (arith, le, behind)),
  )

  -- and a chunk that is written.
  Copied-written :
      (off : ℕ) (buf : List ℕ) (s s' : K.Machine)
      → src s' ≡ src s
      → dst s' ≡ written off buf (dst s)
      → ((i : ℕ) → i < length buf → byte_at buf i ≡ v.bytes (off + i))
      → Copied off s
      → Copied (off + length buf) s'
  Copied-written off buf s s' e e' same h = (
    e ∙ h.0,
    λ i below. ap (λ d. d.bytes i) e' ∙ elim (Bool-cases (ltb i off)) [
      | inl before ↦
          let before' : i < off = ground (arith, before) in
          outside_test off (length buf) i (byte_at buf (i - off)) ((dst s).bytes i) (inl before')
          ∙ h.1 i before'
      | inr after ↦
          let from_off : off ≤ i = ground (arith, after) in
          inside_test off (length buf) i (byte_at buf (i - off)) ((dst s).bytes i) from_off below
          ∙ same (i - off) (omega (arith, from_off, below))
          ∙ ap v.bytes (omega (arith, from_off))
    ],
    λ i behind.
        ap (λ d. d.bytes i) e'
        ∙ outside_test off (length buf) i (byte_at buf (i - off)) ((dst s).bytes i) (inr behind)
        ∙ h.2 i (omega (arith, behind)),
  )

  writes-Fine :
      (buf : List ℕ) (len off : ℕ) (s : K.Machine) (n : ℕ)
      → length buf ≡ len
      → ((i : ℕ) → i < length buf → byte_at buf i ≡ v.bytes (off + i))
      → Copied off s
      → Fine (Copied (off + len)) n (writes K S to len buf off s n)
  writes-Fine buf len off s n e same h =
      let w = L.write_out to buf off s is_out in
      let all : (K.kernel_write to buf off s).0.0 ==ℤ pos len ≡ true =
        (==ℤ_iff _ (pos len)).1 (w.0 ∙ ap pos e) in
      rw (◌>>=◌, run, all)
        (
          refl,
          refl,
          subst (λ k. Copied (off + k) (K.kernel_write to buf off s).1) e
              (Copied-written off buf s (K.kernel_write to buf off s).1 w.1 w.2 same h),
        )

  copy_extent-end :
      (rounds off hole : ℕ) (s : K.Machine) (n : ℕ)
      → ltb off hole ≡ false
      → copy_extent K S rounds from to off hole s n ≡ (some tt, s, n)
  unfolding copy_extent
  copy_extent-end zero off hole s n h = refl
  copy_extent-end (suc rounds) off hole s n h = rw (copy_extent, h) refl

  -- An extent is copied, chunk by chunk.
  copy_extent-Leads :
      (rounds off hole : ℕ)
      → off ≤ hole
      → hole - off ≤ rounds
      → hole ≤ v.size
      → Leads (Copied off) (Copied hole) (copy_extent K S rounds from to off hole)
  unfolding copy_extent
  copy_extent-Leads zero off hole le enough fits s n h =
      (refl, refl, subst (λ k. Copied k s) (omega (arith, le, enough)) h)
  copy_extent-Leads (suc rounds) off hole le enough fits s n h = elim (Bool-cases (ltb off hole)) [
    | inr done ↦
        rw (copy_extent-end (suc rounds) off hole s n done)
          (refl, refl, subst (λ k. Copied k s) (ground (arith, le, done)) h)
    | inl more ↦
        let more' : off < hole = ground (arith, more) in
        let chunk = min (hole - off) island_size in
        let r = L.read_in from chunk off s is_in in
        let got = K.kernel_read from chunk off s in
        let whole : min chunk ((src s).size - off) ≡ chunk =
          omega (arith, fits, more', ap (λ f. f.size) h.0) in
        let all : got.0.0 ==ℤ pos chunk ≡ true = (==ℤ_iff _ (pos chunk)).1 (r.0 ∙ ap pos whole) in
        let same : (i : ℕ) → i < length got.0.1 → byte_at got.0.1 i ≡ v.bytes (off + i) =
          λ i below. r.2 i (omega (arith, below, r.1)) ∙ ap (λ f. f.bytes (off + i)) h.0 in
        rw (copy_extent, more)
          (Fine-run (Copied hole) (K.kernel_read from chunk off) (λ x. x.0 ==ℤ pos chunk)
            (λ x. writes K S to chunk x.1 off >> copy_extent K S rounds from to (off + chunk) hole)
            s n all
            (Fine-then (Copied (off + chunk)) (Copied hole) (writes K S to chunk got.0.1 off)
              (copy_extent K S rounds from to (off + chunk) hole) got.1 n
              (writes-Fine got.0.1 chunk off got.1 n (r.1 ∙ whole) same
                (Copied-same off s got.1 r.3 r.4 h))
              (λ s' h'.
                copy_extent-Leads rounds (off + chunk) hole (omega (arith, more'))
                  (omega (arith, more', enough)) fits s' n h')))
  ]

  walk-end :
      (fuel off count : ℕ) (s : K.Machine) (n : ℕ)
      → let d = S.seek_data from off s in
        d.0 ≡ negsuc 5 → walk K S (suc fuel) from to off count s n ≡ (some count, d.1, n)
  unfolding walk
  walk-end fuel off count s n e = rw (walk, ◌>>=◌, run, e) refl

  walk-round :
      (fuel off count data_off hole : ℕ) (s : K.Machine) (n : ℕ)
      → let d = S.seek_data from off s in
        let h = S.seek_hole from data_off d.1 in
        d.0 ≡ pos data_off
        → h.0 ≡ pos hole
        → ltb data_off hole ≡ true
        → walk K S (suc fuel) from to off count s n
          ≡ (copy_extent K S (hole - data_off) from to data_off hole
                >> walk K S fuel from to hole (count + 1))
              h.1 n
  unfolding walk
  walk-round fuel off count data_off hole s n e e' less =
      rw (walk, ◌>>=◌, run, e) (rw (◌>>=◌, run, e') (rw less refl))

  -- With fuel for every byte, the walk ends, counts no failure, and leaves a copy of the file.
  pub walk-Copied :
      (fuel off count : ℕ) (s : K.Machine) (n : ℕ)
      → v.size - off < fuel
      → ((i : ℕ) → v.size ≤ i → v.bytes i ≡ 0)
      → Copied off s
      → let w = walk K S fuel from to off count s n in
        ((k : ℕ) × (w.0 ≡ some k))
        × (w.2 ≡ n)
        × (src w.1 ≡ v)
        × ((i : ℕ) → (dst w.1).bytes i ≡ v.bytes i)
  walk-Copied zero off count s n enough behind h = absurd (omega (arith, enough))
  walk-Copied (suc fuel) off count s n enough behind h =
      let d = L.seek_data_finds from off s is_in in
      let s1 = (S.seek_data from off s).1 in
      let h1 = Copied-same off s s1 d.0 d.1 h in
      elim d.2 [
        | inl (e, zeros) ↦ rw (walk-end fuel off count s n e) (
          (count, refl),
          refl,
          h1.0,
          λ i. elim (Bool-cases (ltb i off)) [
            | inl before ↦ h1.1 i (ground (arith, before))
            | inr after ↦
                let from_off : off ≤ i = ground (arith, after) in
                h1.2 i from_off
                ∙ sym (elim (Bool-cases (ltb i v.size)) [
                  | inl inside ↦
                      ap (λ f. f.bytes i) (sym h.0)
                      ∙ zeros i from_off (ground (arith, inside, ap (λ f. f.size) h.0))
                  | inr outside ↦ behind i (ground (arith, outside))
                ])
          ],
        )
        | inr (data_off, e, le, there, zeros) ↦
            let o = L.seek_hole_finds from data_off s1 is_in there in
            let s2 = (S.seek_hole from data_off s1).1 in
            let hole = o.2.0 in
            let fits : hole ≤ v.size = omega (arith, o.2.3, ap (λ f. f.size) h1.0) in
            let less : ltb data_off hole ≡ true = ground (arith, o.2.2) in
            let h2 = Copied-same data_off s1 s2 o.0 o.1 (
              Copied-skipped off data_off s1 le
                (λ i after before. ap (λ f. f.bytes i) (sym h.0) ∙ zeros i after before) h1) in
            let c =
              copy_extent-Leads (hole - data_off) data_off hole (omega (arith, o.2.2)) (omega arith)
                fits s2 n h2 in
            let m = copy_extent K S (hole - data_off) from to data_off hole in
            let rest =
              walk-Copied fuel hole (count + 1) (m s2 n).1 n
                (omega (arith, le, fits, o.2.2, enough)) behind c.2 in
            rw
              (
                walk-round fuel off count data_off hole s n e o.2.1 less,
                went_fine m (walk K S fuel from to hole (count + 1)) s2 n c.0 c.1,
              )
              rest
      ]

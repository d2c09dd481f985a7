-- ===== src/Generic/G029/Run.antt =====
-- The loops of generic/029: what a mapped write and the first filling leave.
use Prim.Native.Nat.{min}
use nfsplayground.Base.{
  ℕ, zero, suc, ◌+◌, ◌-◌, ◌≤◌, ◌<◌, ◌≡◌, refl, sym, ap, ◌∙◌, subst, arith, pos, ◌==◌, ==_iff, ◌==ℤ◌,
  ==ℤ_iff, ltb, Bool-cases, inl, inr, replicate,
}
use nfsplayground.Kernel.{Kernel}
use nfsplayground.Kunit.{Fine, Fine-run}
use nfsplayground.Generic.Mapped.{UserMemory}
use nfsplayground.Generic.G029.{mwrite_from, mwrite, fill_from, set_range}
use nfsplayground.Generic.G029.Model.{FileView, MappedFile, Holds, Holds-written, length-replicate}

Holds-ext :
    (size : ℕ) (want want' : ℕ → ℕ) (v : FileView)
    → ((i : ℕ) → want i ≡ want' i)
    → Holds size want v
    → Holds size want' v
Holds-ext size want want' v e h = (h.0, λ i below. h.1 i below ∙ e i, h.2)

-- Two ranges that meet.
set_range-set_range :
    (val off done n : ℕ) (want : ℕ → ℕ) (i : ℕ)
    → set_range val (off + done) n (set_range val off done want) i
      ≡ set_range val off (done + n) want i
set_range-set_range val off done n want i = ground arith

set_range-again :
    (val done n : ℕ) (want : ℕ → ℕ) (i : ℕ)
    → set_range val done n (set_range val 0 done want) i ≡ set_range val 0 (done + n) want i
set_range-again val done n want i = ground arith

module _ {K : Kernel} {U : UserMemory K} {size_of : K.Kstat → ℕ} {view : K.Machine → FileView}
    (L : MappedFile K U size_of view) (page_size : ℕ) (some_page : 0 < page_size) where
  -- The file holds the bytes of a model, and is mapped.
  abbrev pub Mapped : ℕ → ℕ → ℕ → (ℕ → ℕ) → K.Machine → Type 0
  Mapped addr len size want s =
      Holds size want (view s) × ((view s).map_addr ≡ addr) × ((view s).map_len ≡ len)

  copied :
      (addr map_len size off len val : ℕ) (want : ℕ → ℕ) (s : K.Machine)
      → off + len ≤ map_len
      → off + len ≤ size
      → Mapped addr map_len size want s
      → let c = U.copy_to_user (addr + off) (replicate len val) s in
        (c.0 ≡ 0) × Mapped addr map_len size (set_range val off len want) c.1
  copied addr map_len size off len val want s in_map in_file h =
      let c =
        L.copy_into addr off (replicate len val) s h.1
          (omega (arith, in_map, h.2, length-replicate len val))
          (omega (arith, in_file, h.0.0, length-replicate len val)) in
      (
        c.0,
        (
          subst (Holds size (set_range val off len want)) (sym c.1)
              (Holds-written size off len val want (view s) in_file h.0),
          ap (λ v. v.map_addr) c.1 ∙ h.1,
          ap (λ v. v.map_len) c.1 ∙ h.2,
        ),
      )

  -- The loop of a mapped write, with a round for every byte that is left.
  mwrite_from-Fine :
      (addr map_len size off len val : ℕ) (want : ℕ → ℕ) (rounds done : ℕ) (s : K.Machine) (n : ℕ)
      → off + len ≤ map_len
      → off + len ≤ size
      → done ≤ len
      → len ≤ done + rounds
      → Mapped addr map_len size (set_range val off done want) s
      → Fine
          (Mapped addr map_len size (set_range val off len want))
          n
          (mwrite_from K U size_of page_size rounds addr off len val done s n)
  unfolding mwrite_from
  mwrite_from-Fine addr map_len size off len val want zero done s n in_map in_file le enough h =
      let e : done ≡ len = omega (arith, le, enough) in
      (refl, refl, subst (λ d. Mapped addr map_len size (set_range val off d want) s) e h)
  mwrite_from-Fine addr map_len size off len val want (suc rounds) done s n in_map in_file le enough
        h =
      elim (Bool-cases (ltb done len)) [
        | inr all ↦
            let e : done ≡ len = ground (arith, all, le) in
            rw (mwrite_from, all)
              (refl, refl, subst (λ d. Mapped addr map_len size (set_range val off d want) s) e h)
        | inl more ↦
            let m = min (len - done) page_size in
            let below : done < len = ground (arith, more) in
            let fits : done + m ≤ len = omega (arith, below) in
            let moved : 0 < m = omega (arith, below, some_page) in
            let c =
              copied addr map_len size (off + done) m val (set_range val off done want) s
                (omega (arith, fits, in_map)) (omega (arith, fits, in_file)) h in
            rw (mwrite_from, more)
              (Fine-run (Mapped addr map_len size (set_range val off len want))
                (U.copy_to_user (addr + (off + done)) (replicate m val)) (λ left. left == 0)
                (λ left. mwrite_from K U size_of page_size rounds addr off len val (done + m)) s n
                ((==_iff _ 0).1 c.0)
                (mwrite_from-Fine addr map_len size off len val want rounds (done + m) _ n in_map
                  in_file fits (omega (arith, moved, enough))
                  (
                    Holds-ext size _ _
                        (view (U.copy_to_user (addr + (off + done)) (replicate m val) s).1)
                        (set_range-set_range val off done m want) c.1.0,
                    c.1.1,
                    c.1.2,
                  )))
      ]

  set_range-none : (val off : ℕ) (want : ℕ → ℕ) (i : ℕ) → want i ≡ set_range val off 0 want i
  set_range-none val off want i = ground arith

  pub mwrite-Fine :
      (addr map_len size off len val : ℕ) (want : ℕ → ℕ) (s : K.Machine) (n : ℕ)
      → off + len ≤ map_len
      → off + len ≤ size
      → Mapped addr map_len size want s
      → Fine
          (Mapped addr map_len size (set_range val off len want))
          n
          (mwrite K U size_of page_size addr off len val s n)
  unfolding mwrite
  mwrite-Fine addr map_len size off len val want s n in_map in_file h =
      mwrite_from-Fine addr map_len size off len val want len 0 s n in_map in_file (omega arith)
        (omega arith) (Holds-ext size want _ (view s) (set_range-none val off want) h.0, h.1, h.2)

  -- The loop that fills the file, which has its size already.
  fill_from-Fine :
      (f : K.File) (size : ℕ) (want : ℕ → ℕ) (rounds done : ℕ) (s : K.Machine) (n : ℕ)
      → done ≤ size
      → size ≤ done + rounds
      → Holds size (set_range 0x58 0 done want) (view s)
      → Fine
          (λ s'. Holds size (set_range 0x58 0 size want) (view s'))
          n
          (fill_from K U size_of page_size rounds f size done s n)
  unfolding fill_from
  fill_from-Fine f size want zero done s n le enough h =
      let e : done ≡ size = omega (arith, le, enough) in
      (refl, refl, subst (λ d. Holds size (set_range 0x58 0 d want) (view s)) e h)
  fill_from-Fine f size want (suc rounds) done s n le enough h = elim (Bool-cases (ltb done size)) [
    | inr all ↦
        let e : done ≡ size = ground (arith, all, le) in
        rw (fill_from, all)
          (refl, refl, subst (λ d. Holds size (set_range 0x58 0 d want) (view s)) e h)
    | inl more ↦
        let m = min (size - done) page_size in
        let below : done < size = ground (arith, more) in
        let fits : done + m ≤ size = omega (arith, below) in
        let moved : 0 < m = omega (arith, below, some_page) in
        let w = L.kernel_write_all f (replicate m 0x58) done s in
        rw (fill_from, more)
          (Fine-run (λ s'. Holds size (set_range 0x58 0 size want) (view s'))
            (K.kernel_write f (replicate m 0x58) done) (λ x. x.0 ==ℤ pos m)
            (λ x. fill_from K U size_of page_size rounds f size (done + m)) s n
            ((==ℤ_iff _ (pos m)).1 (w.0 ∙ ap pos (length-replicate m 0x58)))
            (fill_from-Fine f size want rounds (done + m) _ n fits (omega (arith, moved, enough)) (
              Holds-ext size _ _ (view (K.kernel_write f (replicate m 0x58) done s).1)
                (set_range-again 0x58 done m want)
                (subst (Holds size _) (sym w.1)
                  (Holds-written size done m 0x58 (set_range 0x58 0 done want) (view s) fits h)))))
  ]

  pub fill-Fine :
      (f : K.File) (size : ℕ) (want : ℕ → ℕ) (s : K.Machine) (n : ℕ)
      → Holds size want (view s)
      → Fine
          (λ s'. Holds size (set_range 0x58 0 size want) (view s'))
          n
          (fill_from K U size_of page_size size f size 0 s n)
  fill-Fine f size want s n h =
      fill_from-Fine f size want size 0 s n (omega arith) (omega arith)
        (Holds-ext size want _ (view s) (set_range-none 0x58 0 want) h)

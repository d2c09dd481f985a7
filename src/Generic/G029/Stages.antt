-- ===== src/Generic/G029/Stages.antt =====
-- The parts of a scenario of generic/029, on a file system that keeps mapped writes.
use Prim.Native.Nat.{min}
use nfsplayground.Base.{
  ℕ, ◌+◌, ◌-◌, ◌≤◌, ◌<◌, ◌≡◌, refl, sym, ap, ◌∙◌, subst, arith, String, pos, not, nonzero, ◌==◌,
  ◌==ℤ◌, ==ℤ_iff, ltb, Bool-cases, inl, inr, if◌then◌else◌,
}
use nfsplayground.Kernel.{Kernel}
use nfsplayground.Files.{read_range}
use nfsplayground.Kunit.{
  Case, Leads, Leads-then, Fine-run_expected, ◌>>=◌, ◌>>◌, run, step, assert, expect, Fine,
  Fine-run, assert-Fine, expect-Fine,
}
use nfsplayground.Generic.G075.{matches}
use nfsplayground.Generic.G075.Sync.{matches-true}
use nfsplayground.Generic.Mapped.{UserMemory}
use nfsplayground.Generic.Pattern.Verified.{ReadsFile, read_range-bytes}
use nfsplayground.Generic.G029.{
  Scenario, set_range, want_after, mwrite, verify_copy, truncate_to, write_short, write_mapped,
}
use nfsplayground.Generic.G029.Model.{FileView, MappedFile, Holds, Holds-cut, Holds-extended}
use nfsplayground.Generic.G029.Run.{Mapped, mwrite-Fine}

-- The writes of a scenario lie in the file and in the mapping.
pub record Fits (c : Scenario) : Type 0 where
  pub z_inside : c.zoff + c.zlen ≤ c.size
  pub down : c.tdown ≤ c.size
  pub w_inside : c.woff + c.wlen ≤ c.tdown
  pub up : c.tdown ≤ c.tup
  pub y_inside : c.yoff + c.ylen ≤ c.tup
  pub y_mapped : c.yoff + c.ylen ≤ c.size

module _ {K : Kernel} {U : UserMemory K} {size_of : K.Kstat → ℕ} {view : K.Machine → FileView}
    (L : MappedFile K U size_of view) (page_size : ℕ) (some_page : 0 < page_size) where
  abbrev At : ℕ → ℕ → ℕ → (ℕ → ℕ) → K.Machine → Type 0
  At = Mapped L page_size some_page

  module _ (addr len size : ℕ) (want : ℕ → ℕ) (s : K.Machine) (n : ℕ)
      (h : At addr len size want s) where
    truncate-cut :
        (down : ℕ)
        → down ≤ size
        → Fine (At addr len down want) n (truncate_to K U size_of page_size down s n)
    unfolding truncate_to
    truncate-cut down le =
        let t = L.truncate_resizes down s in
        rw t.0 (
          refl,
          refl,
          (
            subst (Holds down want) (sym t.1) (Holds-cut size down want (view s) le h.0),
            ap (λ v. v.map_addr) t.1 ∙ h.1,
            ap (λ v. v.map_len) t.1 ∙ h.2,
          ),
        )

    pub truncate-extended :
        (up : ℕ)
        → size ≤ up
        → Fine
            (At addr len up (set_range 0 size (up - size) want))
            n
            (truncate_to K U size_of page_size up s n)
    unfolding truncate_to
    truncate-extended up le =
        let t = L.truncate_resizes up s in
        rw t.0 (
          refl,
          refl,
          (
            subst (Holds up (set_range 0 size (up - size) want)) (sym t.1)
                (Holds-extended size up want (view s) le h.0),
            ap (λ v. v.map_addr) t.1 ∙ h.1,
            ap (λ v. v.map_len) t.1 ∙ h.2,
          ),
        )

  -- What is compared with a file that holds it.
  pub verify_copy-Fine :
      (path : String) (size : ℕ) (want : ℕ → ℕ) (s : K.Machine) (n : ℕ)
      → ReadsFile K path (λ s. (view s).size) (λ s. (view s).bytes)
      → Holds size want (view s)
      → Fine
          (λ s'. Holds size want (view s'))
          n
          (verify_copy K U size_of page_size path want size s n)
  unfolding verify_copy
  verify_copy-Fine path size want s n R h =
      let I : K.Machine → Type 0 = λ s'. Holds size want (view s') in
      let m = L.kmalloc_grants s in
      let s1 = (K.kmalloc s).1 in
      let h1 = subst (Holds size want) (sym m.1) h in
      let r = read_range-bytes R size 0 s1 in
      let b = read_range K path size 0 s1 in
      let all : min size ((view s1).size - 0) ≡ size = omega (arith, h1.0) in
      Fine-run I K.kmalloc (λ g. g)
        (λ g.
          run (read_range K path size 0)
          >>= (λ x. assert (x.0 ==ℤ pos size) >> expect (matches want 0 size x.1)))
        s n m.0
        (Fine-run I (read_range K path size 0) (λ x. x.0 ==ℤ pos size)
          (λ x. expect (matches want 0 size x.1)) s1 n
          ((==ℤ_iff b.0.0 (pos size)).1 (r.0 ∙ ap pos all))
          (expect-Fine I (matches want 0 size b.0.1) b.1 n
            (matches-true want 0 size b.0.1 (r.1 ∙ all)
              (λ i below. r.2 i (omega (arith, all, below)) ∙ h1.1 (0 + i) (omega (arith, below))))
            (
              r.3 ∙ h1.0,
              λ i below. ap (λ g. g i) r.4 ∙ h1.1 i below,
              λ i behind. ap (λ g. g i) r.4 ∙ h1.2 i behind,
            )))

  write_short-Fine :
      (c : Scenario) (addr size : ℕ) (want : ℕ → ℕ) (s : K.Machine) (n : ℕ)
      → c.woff + c.wlen ≤ size
      → c.woff + c.wlen ≤ c.size
      → At addr c.size size want s
      → Fine
          (At addr c.size size (if c.wlen == 0 then want else set_range 0x57 c.woff c.wlen want))
          n
          (write_short K U size_of page_size c addr s n)
  unfolding write_short
  write_short-Fine c addr size want s n in_file in_map h = elim (Bool-cases (c.wlen == 0)) [
    | inl nothing ↦ rw (write_short, nothing) (refl, refl, h)
    | inr some_bytes ↦
        rw (write_short, some_bytes)
          (mwrite-Fine L page_size some_page addr c.size size c.woff c.wlen 0x57 want s n in_map
            in_file h)
  ]

  module _ (c : Scenario) (f : K.File) (addr : ℕ) where
    -- What is left of the writes after each.
    abbrev from_unmap : Case K.Machine (Unit {0})
    from_unmap =
        run (U.vm_munmap addr c.size)
        >>= (λ err. expect (not (nonzero err)) >> step (K.filp_close f))

    abbrev from_y : Case K.Machine (Unit {0})
    from_y = mwrite K U size_of page_size addr c.yoff c.ylen 0x59 >> from_unmap

    abbrev from_up : Case K.Machine (Unit {0})
    from_up = truncate_to K U size_of page_size c.tup >> from_y

    abbrev from_w : Case K.Machine (Unit {0})
    from_w = write_short K U size_of page_size c addr >> from_up

    abbrev from_down : Case K.Machine (Unit {0})
    from_down = truncate_to K U size_of page_size c.tdown >> from_w

    abbrev from_z : Case K.Machine (Unit {0})
    from_z = mwrite K U size_of page_size addr c.zoff c.zlen 0x5a >> from_down

    -- The file holds a model when it is unmapped and closed.
    unmapped-Leads :
        (want : ℕ → ℕ)
        → Leads (At addr c.size c.tup want) (λ s'. Holds c.tup want (view s')) from_unmap
    unmapped-Leads want s n h =
        let u = L.unmap_all addr c.size s h.1 h.2 in
        let e = L.view-filp_close f (U.vm_munmap addr c.size s).1 in
        Fine-run_expected (λ s'. Holds c.tup want (view s')) (U.vm_munmap addr c.size)
          (λ err. not (nonzero err)) (λ err. step (K.filp_close f)) s n (rw u.0 refl)
          (
            refl,
            refl,
            (
              ap (λ v. v.size) e ∙ u.1 ∙ h.0.0,
              λ i below. ap (λ v. v.bytes i) e ∙ ap (λ b. b i) u.2 ∙ h.0.1 i below,
              λ i behind. ap (λ v. v.bytes i) e ∙ ap (λ b. b i) u.2 ∙ h.0.2 i behind,
            ),
          )

    -- The file after the unmapping is what the scenario makes of the model.
    pub write_mapped-Leads :
        (want : ℕ → ℕ)
        → Fits c
        → 0 < addr
        → Leads
            (At addr c.size c.size (set_range 0x58 0 c.size want))
            (λ s'. Holds c.tup (want_after c want) (view s'))
            (write_mapped K U size_of page_size c f addr)
    unfolding write_mapped
    write_mapped-Leads want fits some_addr =
        let x = set_range 0x58 0 c.size want in
        let z = set_range 0x5a c.zoff c.zlen x in
        let w = if c.wlen == 0 then z else set_range 0x57 c.woff c.wlen z in
        let hole = set_range 0 c.tdown (c.tup - c.tdown) w in
        let J : K.Machine → Type 0 = λ s'. Holds c.tup (want_after c want) (view s') in
        let written_y = At addr c.size c.tup (want_after c want) in
        let y =
          Leads-then (At addr c.size c.tup hole) written_y J
            (mwrite K U size_of page_size addr c.yoff c.ylen 0x59) from_unmap
            (λ s n h.
              mwrite-Fine L page_size some_page addr c.size c.tup c.yoff c.ylen 0x59 hole s n
                fits.y_mapped fits.y_inside h)
            (unmapped-Leads (want_after c want)) in
        let up =
          Leads-then (At addr c.size c.tdown w) (At addr c.size c.tup hole) J
            (truncate_to K U size_of page_size c.tup) from_y
            (λ s n h. truncate-extended addr c.size c.tdown w s n h c.tup fits.up) y in
        let short =
          Leads-then (At addr c.size c.tdown z) (At addr c.size c.tdown w) J
            (write_short K U size_of page_size c addr) from_up
            (λ s n h.
              write_short-Fine c addr c.tdown z s n fits.w_inside
                (omega (arith, fits.w_inside, fits.down)) h)
            up in
        let down =
          Leads-then (At addr c.size c.size z) (At addr c.size c.tdown z) J
            (truncate_to K U size_of page_size c.tdown) from_w
            (λ s n h. truncate-cut addr c.size c.size z s n h c.tdown fits.down) short in
        let first =
          Leads-then (At addr c.size c.size x) (At addr c.size c.size z) J
            (mwrite K U size_of page_size addr c.zoff c.zlen 0x5a) from_down
            (λ s n h.
              mwrite-Fine L page_size some_page addr c.size c.size c.zoff c.zlen 0x5a x s n
                fits.z_inside fits.z_inside h)
            down in
        Leads-then (At addr c.size c.size x) (At addr c.size c.size x) J (assert (ltb 0 addr))
          from_z
          (λ s n h.
            assert-Fine (At addr c.size c.size x) (ltb 0 addr) s n (ground (arith, some_addr)) h)
          first

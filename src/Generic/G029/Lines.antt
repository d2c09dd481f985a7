-- ===== src/Generic/G029/Lines.antt =====
-- The scenarios of generic/029, on a file system that keeps mapped writes.
use nfsplayground.Base.{
  ℕ, ◌-◌, ◌<◌, ◌≡◌, refl, sym, ap, ◌∙◌, subst, arith, List, [], ◌∷◌, some, not, nonzero, ◌==◌,
  ==_iff, true,
}
use nfsplayground.Kernel.{Kernel, ptr, o_rdwr, o_creat, o_excl}
use nfsplayground.Paths.{kstat, unlink}
use nfsplayground.Kunit.{
  Case, Leads, Leads-then, ◌>>=◌, ◌>>◌, run, expect, Fine, Fine-run, Fine-then, expect-Fine,
}
use nfsplayground.Generic.Mapped.{UserMemory}
use nfsplayground.Generic.G029.{
  row, file, server_file, Scenario, scenarios, set_range, want_after, fill_from, verify_copy,
  truncate_to, write_mapped, compare_both, one, all_of,
}
use nfsplayground.Generic.G029.Model.{FileView, MappedFile, Holds}
use nfsplayground.Generic.G029.Stages.{
  Fits, truncate-extended, verify_copy-Fine, write_mapped-Leads,
}
use nfsplayground.Generic.G029.Run.{Mapped, fill-Fine}

first-Fits : Fits (row 5120 2048 3072 2048 0 0 5120 2048 3072)
first-Fits = record {
  z_inside = omega arith;
  down = omega arith;
  w_inside = omega arith;
  up = omega arith;
  y_inside = omega arith;
  y_mapped = omega arith;
}

second-Fits : Fits (row 5120 2048 3072 2048 1024 1024 5120 2048 3072)
second-Fits = record {
  z_inside = omega arith;
  down = omega arith;
  w_inside = omega arith;
  up = omega arith;
  y_inside = omega arith;
  y_mapped = omega arith;
}

third-Fits : Fits (row 5121 2047 3071 2047 513 1025 5121 2047 3071)
third-Fits = record {
  z_inside = omega arith;
  down = omega arith;
  w_inside = omega arith;
  up = omega arith;
  y_inside = omega arith;
  y_mapped = omega arith;
}

module _ {K : Kernel} {U : UserMemory K} {size_of : K.Kstat → ℕ} {view : K.Machine → FileView}
    (L : MappedFile K U size_of view) (page_size : ℕ) (some_page : 0 < page_size) where
  abbrev At : ℕ → ℕ → ℕ → (ℕ → ℕ) → K.Machine → Type 0
  At = Mapped L page_size some_page

  compare_both-Leads :
      (st : K.Kstat) (c : Scenario) (want : ℕ → ℕ)
      → Leads
          (λ s. Holds c.tup want (view s))
          (λ s. Holds c.tup want (view s))
          (compare_both K U size_of page_size st c want)
  unfolding compare_both
  compare_both-Leads st c want s n h =
      let I : K.Machine → Type 0 = λ s'. Holds c.tup want (view s') in
      let k = L.kstat_size st s in
      let s1 = (kstat K st file s).1 in
      let h1 = subst (Holds c.tup want) (sym k.2) h in
      let client = verify_copy K U size_of page_size file want c.tup in
      let server = verify_copy K U size_of page_size server_file want c.tup in
      let both =
        Leads-then I I I server client
          (λ s2 n2 h2.
            verify_copy-Fine L page_size some_page server_file c.tup want s2 n2 L.reads_server h2)
          (λ s2 n2 h2.
            verify_copy-Fine L page_size some_page file c.tup want s2 n2 L.reads_file h2) in
      Fine-run I (kstat K st file) (λ x. not (nonzero x.0))
        (λ x. expect (size_of x.1 == c.tup) >> (server >> client)) s n (rw k.0 refl)
        (Fine-then I I (expect (size_of (kstat K st file s).0.1 == c.tup)) (server >> client) s1 n
          (expect-Fine I (size_of (kstat K st file s).0.1 == c.tup) s1 n
            ((==_iff _ c.tup).1 (k.1 ∙ h.0)) h1)
          (λ s2 h2. both s2 n h2))

  refilled :
      (size : ℕ) (want : ℕ → ℕ) (i : ℕ)
      → set_range 0x58 0 size (set_range 0 0 (size - 0) want) i ≡ set_range 0x58 0 size want i
  refilled size want i = ground arith

  module _ (st : K.Kstat) (c : Scenario) (want : ℕ → ℕ) (f : K.File) (fits : Fits c) where
    abbrev Done : K.Machine → Type 0
    Done s = Holds c.tup (want_after c want) (view s)

    abbrev from_map : Case K.Machine (Unit {0})
    from_map = run (U.kunit_vm_mmap f c.size true 0) >>= (λ addr.
        write_mapped K U size_of page_size c f addr
        >> compare_both K U size_of page_size st c (want_after c want))

    abbrev from_fill : Case K.Machine (Unit {0})
    from_fill = fill_from K U size_of page_size c.size f c.size 0 >> from_map

    abbrev Filled : K.Machine → Type 0
    Filled s = Holds c.size (set_range 0x58 0 c.size want) (view s)

    map-Leads : Leads Filled Done from_map
    map-Leads s n h =
        let a = L.map_file f c.size s in
        let addr = (U.kunit_vm_mmap f c.size true 0 s).0 in
        let I = At addr c.size c.size (set_range 0x58 0 c.size want) in
        let both =
          Leads-then I Done Done (write_mapped K U size_of page_size c f addr)
            (compare_both K U size_of page_size st c (want_after c want))
            (write_mapped-Leads L page_size some_page c f addr want fits a.0)
            (compare_both-Leads st c (want_after c want)) in
        both (U.kunit_vm_mmap f c.size true 0 s).1 n (
          (
            ap (λ v. v.size) a.1 ∙ h.0,
            λ i below. ap (λ v. v.bytes i) a.1 ∙ h.1 i below,
            λ i behind. ap (λ v. v.bytes i) a.1 ∙ h.2 i behind,
          ),
          ap (λ v. v.map_addr) a.1,
          ap (λ v. v.map_len) a.1,
        )

    filled :
        Leads
          (λ s. Holds c.size (set_range 0 0 (c.size - 0) want) (view s))
          Filled
          (fill_from K U size_of page_size c.size f c.size 0)
    filled s m h =
        let r = fill-Fine L page_size some_page f c.size (set_range 0 0 (c.size - 0) want) s m h in
        (r.0, r.1, (r.2.0, λ i below. r.2.1 i below ∙ refilled c.size want i, r.2.2))

    open-Leads :
        Leads
          (λ s. Holds 0 want (view s))
          Done
          (truncate_to K U size_of page_size c.size >> from_fill)
    open-Leads s n h =
        let blank = set_range 0 0 (c.size - 0) want in
        let v = view s in
        let zeroed = At v.map_addr v.map_len c.size blank in
        Fine-then zeroed Done (truncate_to K U size_of page_size c.size) from_fill s n
          (truncate-extended L page_size some_page v.map_addr v.map_len 0 want s n (h, refl, refl)
            c.size (omega arith))
          (λ s1 h1.
            Fine-then Filled Done (fill_from K U size_of page_size c.size f c.size 0) from_map s1 n
              (filled s1 n h1.0) (λ s2 h2. map-Leads s2 n h2))

  -- One scenario.
  one-run :
      (st : K.Kstat) (c : Scenario) (want : ℕ → ℕ) (f : K.File) (s : K.Machine) (n : ℕ)
      → let o = K.filp_open file (o_rdwr ∷ o_creat ∷ o_excl ∷ []) 0o644 (unlink K file s).1 in
        o.0 ≡ ptr f
        → one K U size_of page_size st c want s n
          ≡ (truncate_to K U size_of page_size c.size
                >> (fill_from K U size_of page_size c.size f c.size 0
                    >> (run (U.kunit_vm_mmap f c.size true 0) >>= (λ addr.
                        write_mapped K U size_of page_size c f addr
                        >> compare_both K U size_of page_size st c (want_after c want)))))
              o.1 n
  unfolding one
  one-run st c want f s n e = rw (◌>>=◌, run, e) refl

  -- On a file system that keeps what is written to a file and into its mapping, cuts and extends it with
  -- zeros, and reads it back, a scenario of generic/029 whose writes lie in the file goes through with
  -- no failure, and the file holds what the case makes of its model.
  pub one-Leads :
      (st : K.Kstat) (c : Scenario) (want : ℕ → ℕ) (s : K.Machine) (n : ℕ)
      → Fits c
      → let r = one K U size_of page_size st c want s n in
        (r.0 ≡ some tt) × (r.2 ≡ n) × Holds c.tup (want_after c want) (view r.1)
  one-Leads st c want s n fits =
      let o = L.open_new s in
      let s1 = (K.filp_open file (o_rdwr ∷ o_creat ∷ o_excl ∷ []) 0o644 (unlink K file s).1).1 in
      rw (one-run st c want o.0 s n o.1) (
        open-Leads st c want o.0 fits s1 n
          (o.2, λ i below. absurd (omega (arith, below)), λ i behind. ap (λ b. b i) o.3))

  AllFit : List Scenario → Type 0
  AllFit [] = Unit
  AllFit (c ∷ rest) = Fits c × AllFit rest

  all_of-Fine :
      (st : K.Kstat) (cs : List Scenario) (want : ℕ → ℕ) (s : K.Machine) (n : ℕ)
      → AllFit cs
      → Fine (λ _. Unit {0}) n (all_of K U size_of page_size st cs want s n)
  unfolding all_of AllFit
  all_of-Fine st [] want s n fit = (refl, refl, tt)
  all_of-Fine st (c ∷ rest) want s n fit =
      let first = one-Leads st c want s n fit.0 in
      Fine-then (λ _. Unit {0}) (λ _. Unit {0}) (one K U size_of page_size st c want)
        (all_of K U size_of page_size st rest (want_after c want)) s n (first.0, first.1, tt)
        (λ s' _. all_of-Fine st rest (want_after c want) s' n fit.1)

  -- The three scenarios of generic/029 go through with no failure, whatever the buffer and the machine
  -- hold before, on a file system that keeps what is written to a file and into its mapping, cuts and
  -- extends it with zeros, and reads it back.
  pub scenarios-Fine :
      (st : K.Kstat) (want : ℕ → ℕ) (s : K.Machine) (n : ℕ)
      → let r = all_of K U size_of page_size st scenarios want s n in (r.0 ≡ some tt) × (r.2 ≡ n)
  unfolding AllFit
  scenarios-Fine st want s n =
      let all = all_of-Fine st scenarios want s n (first-Fits, (second-Fits, (third-Fits, tt))) in
      (all.0, all.1)

-- ===== src/Generic/G436/Unit.antt =====
-- The search of generic/436 for the allocation unit finds it.
use native.Mathlib.Nat.{pow-suc}
use nfsplayground.Base.{
  ℕ, zero, suc, ◌+◌, ◌-◌, ◌*◌, ◌/◌, ◌^◌, ◌≤◌, ◌<◌, ◌≡◌, refl, sym, ap, ◌∙◌, subst, arith, Option,
  none, some, [], ◌∷◌, pos, not, ◌&&◌, ◌==◌, ltb, true, false, if◌then◌else◌, Bool-cases, inl, inr,
  nonzero, negative, count_of,
}
use nfsplayground.Kernel.{Kernel}
use nfsplayground.Paths.{ftruncate, kstat}
use nfsplayground.Kunit.{Case, pass, ◌>>=◌, ◌>>◌, run, assert, went, went_with, run-assert}
use nfsplayground.Generic.G286.{Seeks}
use nfsplayground.Generic.G436.{base, call_ok, pwrite, probe, grow, narrow, result, alloc_size}

-- A file system that allocates in units: of a file with one byte in it, data begins where that byte's
-- unit does. `first` is the offset of the byte, if the file has one.
pub record AllocatesUnits (K : Kernel) (S : Seeks K) (blksize : K.Kstat → ℕ) (unit alloc : ℕ)
    (first : K.Machine → Option ℕ) : Type 0 where
  pub ftruncate_empties :
      (f : K.File) (s : K.Machine)
      → let t = ftruncate K f (pos 0) s in (t.0 ≡ pos 0) × (first t.1 ≡ none)
  pub kernel_write_byte :
      (f : K.File) (b off : ℕ) (s : K.Machine)
      → first s ≡ none
      → let w = K.kernel_write f (b ∷ []) off s in (w.0.0 ≡ pos 1) × (first w.1 ≡ some off)
  pub seek_data_unit :
      (f : K.File) (q off : ℕ) (s : K.Machine)
      → first s ≡ some off
      → q * unit ≤ off
      → off < q * unit + unit
      → (S.seek_data f 0 s).0 ≡ pos (q * unit)
  pub kstat_blksize :
      (st : K.Kstat) (s : K.Machine)
      → let k = kstat K st base s in (k.0.0 ≡ pos 0) × (blksize k.0.1 ≡ alloc)

unfoldable two_to : ℕ → ℕ
two_to zero = 1
two_to (suc k) = 2 * two_to k

two_to-power : (k : ℕ) → 2 ^ k ≡ two_to k
unfolding two_to
two_to-power zero = refl
two_to-power (suc k) = pow-suc 2 k ∙ omega (arith, two_to-power k)

two_to-positive : (k : ℕ) → 1 ≤ two_to k
unfolding two_to
two_to-positive zero = omega arith
two_to-positive (suc k) = omega (arith, two_to-positive k)

two_to-grows : (k : ℕ) → suc k ≤ two_to k
unfolding two_to
two_to-grows zero = omega arith
two_to-grows (suc k) = omega (arith, two_to-grows k)

two_to-above : (j d : ℕ) → two_to j ≤ two_to (j + d)
unfolding two_to
two_to-above zero d = two_to-positive (0 + d)
two_to-above (suc j) d =
    let e : suc j + d ≡ suc (j + d) = omega arith in
    subst (λ k. two_to (suc j) ≤ two_to k) (sym e) (omega (arith, two_to-above j d))

one_more : (j : ℕ) → j + 1 ≡ suc j
one_more j = omega arith

more_lem : (j d : ℕ) → suc (suc j) + d ≡ j + suc (suc d)
more_lem j d = omega arith

module _ {K : Kernel} {S : Seeks K} {blksize : K.Kstat → ℕ} {unit alloc : ℕ}
    {first : K.Machine → Option ℕ} (L : AllocatesUnits K S blksize unit alloc first)
    (f : K.File) where
  -- What a part of the case returns, and that it counts no failure.
  abbrev Returns : {A : Type 0} → A → ℕ → Option A × K.Machine × ℕ → Type 0
  Returns a n r = (r.0 ≡ some a) × (r.2 ≡ n)

  probe-Returns :
      (q off : ℕ) (s : K.Machine) (n : ℕ)
      → q * unit ≤ off
      → off < q * unit + unit
      → Returns (q * unit) n (probe K S blksize f off s n)
  unfolding probe pwrite
  probe-Returns q off s n from below =
      let t = L.ftruncate_empties f s in
      let s1 = (ftruncate K f (pos 0) s).1 in
      let w = L.kernel_write_byte f 97 off s1 t.1 in
      let s2 = (K.kernel_write f (97 ∷ []) off s1).1 in
      let d = L.seek_data_unit f q off s2 w.1 from below in
      let cut = call_ok K S blksize (ftruncate K f (pos 0)) in
      let write = pwrite K S blksize f (97 ∷ []) off in
      let rest : Case K.Machine ℕ =
        run (S.seek_data f 0)
        >>= (λ found. assert (not (negative found)) >> pass (count_of found)) in
      let cut_went : cut s n ≡ (some tt, s1, n) = rw (◌>>=◌, run, t.0) refl in
      let write_went : write s1 n ≡ (some tt, s2, n) = rw (◌>>=◌, run, w.0) refl in
      let e =
        went cut (write >> rest) s s1 n n cut_went
        ∙ went write rest s1 s2 n n write_went
        ∙ run-assert (S.seek_data f 0) (λ found. not (negative found))
            (λ found. pass (count_of found)) s2 n (ap (λ z. not (negative z)) d) in
      (ap (λ r. r.0) e ∙ ap (λ z. some (count_of z)) d, ap (λ r. r.2) e)

  -- One round of each loop, and their ends.
  grow-round :
      (rounds at_pos off q found off' : ℕ) (s : K.Machine) (n : ℕ)
      → at_pos == 0 && ltb off alloc ≡ true
      → q * unit ≡ found
      → off * 2 ≡ off'
      → found ≤ off'
      → off' < found + unit
      → (s' : K.Machine) × (grow K S blksize (suc rounds) f alloc at_pos off s n
          ≡ grow K S blksize rounds f alloc found off' s' n)
  unfolding grow
  grow-round rounds at_pos off q found off' s n more e e' from below =
      let p =
        probe-Returns q (off * 2) s n (omega (arith, e, e', from)) (omega (arith, e, e', below)) in
      let m = probe K S blksize f (off * 2) in
      (
        (m s n).1,
        rw (grow, more)
            (rw (sym e', sym e)
              (went_with m (λ at_pos'. grow K S blksize rounds f alloc at_pos' (off * 2)) s n
                (q * unit) p.0 p.1)),
      )

  grow-end :
      (rounds at_pos off : ℕ) (s : K.Machine) (n : ℕ)
      → at_pos == 0 && ltb off alloc ≡ false
      → grow K S blksize rounds f alloc at_pos off s n ≡ (some (at_pos, off), s, n)
  unfolding grow
  grow-end zero at_pos off s n done = refl
  grow-end (suc rounds) at_pos off s n done = rw (grow, done) refl

  narrow-round :
      (rounds shift half at_pos off q found off' : ℕ) (s : K.Machine) (n : ℕ)
      → not (shift == 0) && ltb off alloc ≡ true
      → q * unit ≡ found
      → shift / 2 ≡ half
      → (if found == 0 then off + shift else off - shift) ≡ off'
      → found ≤ off
      → off < found + unit
      → (s' : K.Machine) × (narrow K S blksize (suc rounds) f alloc shift at_pos off s n
          ≡ narrow K S blksize rounds f alloc half found off' s' n)
  unfolding narrow
  narrow-round rounds shift half at_pos off q found off' s n more e e' e'' from below =
      let p = probe-Returns q off s n (omega (arith, e, from)) (omega (arith, e, below)) in
      let m = probe K S blksize f off in
      (
        (m s n).1,
        rw (narrow, more)
            (rw (sym e'', sym e', sym e)
              (went_with m
                (λ at_pos'.
                  narrow K S blksize rounds f alloc (shift / 2) at_pos'
                    (if at_pos' == 0 then off + shift else off - shift))
                s n (q * unit) p.0 p.1)),
      )

  narrow-end :
      (rounds shift at_pos off : ℕ) (s : K.Machine) (n : ℕ)
      → not (shift == 0) && ltb off alloc ≡ false
      → narrow K S blksize rounds f alloc shift at_pos off s n ≡ (some (shift, at_pos, off), s, n)
  unfolding narrow
  narrow-end zero shift at_pos off s n done = refl
  narrow-end (suc rounds) shift at_pos off s n done = rw (narrow, done) refl

  -- The doubling ends at the unit: `d` more rounds lead there.
  grow-unit :
      (k : ℕ)
      → unit ≡ two_to k
      → unit ≤ alloc
      → (d j rounds : ℕ) (s : K.Machine) (n : ℕ) → j + suc d ≡ k
      → suc d ≤ rounds
      → Returns (unit, unit) n (grow K S blksize rounds f alloc 0 (two_to j) s n)
  unfolding two_to
  grow-unit k u fits d j zero s n e enough = absurd (omega (arith, enough))
  grow-unit k u fits zero j (suc rounds) s n e enough =
      let last : two_to k ≡ 2 * two_to j = ap two_to (sym e ∙ one_more j) in
      let p = two_to-positive j in
      let more : 0 == 0 && ltb (two_to j) alloc ≡ true = ground (arith, u, last, fits, p) in
      let r =
        grow-round rounds 0 (two_to j) 1 unit unit s n more (omega arith) (omega (arith, u, last))
          (omega arith) (omega (arith, u, last, p)) in
      let done : unit == 0 && ltb unit alloc ≡ false = ground (arith, u, last, p) in
      rw (r.1, grow-end rounds unit unit r.0 n done) (refl, refl)
  grow-unit k u fits (suc d) j (suc rounds) s n e enough =
      let below : two_to (suc (suc j)) ≤ two_to k =
        subst (λ i. two_to (suc (suc j)) ≤ two_to i) (more_lem j d ∙ e)
          (two_to-above (suc (suc j)) d) in
      let p = two_to-positive j in
      let more : 0 == 0 && ltb (two_to j) alloc ≡ true = ground (arith, u, below, fits, p) in
      let r =
        grow-round rounds 0 (two_to j) 0 0 (two_to (suc j)) s n more (omega arith) (omega arith)
          (omega arith) (omega (arith, u, below, p)) in
      rw (r.1)
        (grow-unit k u fits d (suc j) rounds r.0 n (omega (arith, e)) (omega (arith, enough)))

  -- The search ends one below the unit, where it found no unit.
  narrow-rest :
      (i rounds at_pos off : ℕ) (s : K.Machine) (n : ℕ)
      → off + 2 * two_to i ≡ unit
      → unit ≤ alloc
      → suc i ≤ rounds
      → Returns (0, 0, unit - 1) n (narrow K S blksize rounds f alloc (two_to i) at_pos off s n)
  unfolding two_to
  narrow-rest i zero at_pos off s n e fits enough = absurd (omega (arith, enough))
  narrow-rest zero (suc rounds) at_pos off s n e fits enough =
      let more : not (1 == 0) && ltb off alloc ≡ true = ground (arith, e, fits) in
      let r =
        narrow-round rounds 1 0 at_pos off 0 0 (unit - 1) s n more (omega arith) refl
          (omega (arith, e)) (omega arith) (omega (arith, e)) in
      rw (r.1, narrow-end rounds 0 0 (unit - 1) r.0 n refl) (refl, refl)
  narrow-rest (suc i) (suc rounds) at_pos off s n e fits enough =
      let p = two_to-positive i in
      let more : not (2 * two_to i == 0) && ltb off alloc ≡ true = ground (arith, e, fits, p) in
      let r =
        narrow-round rounds (2 * two_to i) (two_to i) at_pos off 0 0 (off + 2 * two_to i) s n more
          (omega arith) (omega arith) refl (omega arith) (omega (arith, e, p)) in
      rw (r.1) (
        narrow-rest i rounds 0 (off + 2 * two_to i) r.0 n (omega (arith, e)) fits
          (omega (arith, enough)))

  -- All of the second loop.
  narrow-unit :
      (m rounds : ℕ) (s : K.Machine) (n : ℕ)
      → unit ≡ two_to (suc (suc (suc m)))
      → unit ≤ alloc
      → suc (suc m) ≤ rounds
      → (found : ℕ × ℕ × ℕ) × (result K S blksize found ≡ unit)
        × Returns found n (narrow K S blksize rounds f alloc (two_to (suc m)) unit unit s n)
  unfolding two_to
  narrow-unit m zero s n u fits enough = absurd (omega (arith, enough))
  narrow-unit m (suc rounds) s n u fits enough =
      let p = two_to-positive m in
      elim (Bool-cases (ltb unit alloc)) [
        | inr whole ↦
            let done : not (2 * two_to m == 0) && ltb unit alloc ≡ false = ground (arith, whole) in
            let shifted : (2 * two_to m == 0) ≡ false = ground (arith, p) in
            (
              (2 * two_to m, unit, unit),
              rw shifted refl,
              rw (narrow-end (suc rounds) (2 * two_to m) unit unit s n done) (refl, refl),
            )
        | inl part ↦
            let more : not (2 * two_to m == 0) && ltb unit alloc ≡ true = ground (arith, part, p) in
            let down : (if unit == 0 then unit + 2 * two_to m else unit - 2 * two_to m)
                ≡ unit - 2 * two_to m =
              ground (arith, u, p) in
            let r =
              narrow-round rounds (2 * two_to m) (two_to m) unit unit 1 unit (unit - 2 * two_to m) s
                n more (omega arith) (omega arith) down (omega arith) (omega (arith, u, p)) in
            let rest =
              narrow-rest m rounds unit (unit - 2 * two_to m) r.0 n (omega (arith, u, p)) fits
                (omega (arith, enough)) in
            ((0, 0, unit - 1), omega (arith, u, p), rw (r.1) rest)
      ]

  alloc_size-run :
      (st : K.Kstat) (s : K.Machine) (n : ℕ)
      → let k = kstat K st base s in
        k.0.0 ≡ pos 0
        → blksize k.0.1 ≡ alloc
        → alloc_size K S blksize st f s n
          ≡ (grow K S blksize alloc f alloc 0 1 >>= (λ x.
                narrow K S blksize (x.1 / 4) f alloc (x.1 / 4) x.0 x.1
                >>= (λ found. pass (result K S blksize found))))
              k.1 n
  unfolding alloc_size
  alloc_size-run st s n e e' = rw (sym e') (
      run-assert (kstat K st base) (λ x. not (nonzero x.0))
        (λ x. grow K S blksize (blksize x.1) f (blksize x.1) 0 1 >>= (λ y.
          narrow K S blksize (y.1 / 4) f (blksize x.1) (y.1 / 4) y.0 y.1
          >>= (λ found. pass (result K S blksize found))))
        s n (ap (λ z. not (nonzero z)) e))

  -- On a file system that allocates in units of a power of two, of at least 8 bytes and at most its
  -- block size, and reports data from the start of a unit, the search of generic/436 for the allocation
  -- unit ends, counts no failure and returns the unit.
  pub alloc_size-unit :
      (m : ℕ) (st : K.Kstat) (s : K.Machine) (n : ℕ)
      → unit ≡ 2 ^ (m + 3)
      → unit ≤ alloc
      → let r = alloc_size K S blksize st f s n in (r.0 ≡ some unit) × (r.2 ≡ n)
  unfolding two_to
  alloc_size-unit m st s n power fits =
      let three : m + 3 ≡ suc (suc (suc m)) = omega arith in
      let u : unit ≡ two_to (suc (suc (suc m))) = power ∙ two_to-power (m + 3) ∙ ap two_to three in
      let k = L.kstat_blksize st s in
      let s1 = (kstat K st base s).1 in
      let size = two_to-grows (suc (suc (suc m))) in
      let g =
        grow-unit (suc (suc (suc m))) u fits (suc (suc m)) 0 alloc s1 n (omega arith)
          (omega (arith, size, u, fits)) in
      let m1 = grow K S blksize alloc f alloc 0 1 in
      let after : ℕ × ℕ → Case K.Machine ℕ = λ x.
        narrow K S blksize (x.1 / 4) f alloc (x.1 / 4) x.0 x.1
        >>= (λ found. pass (result K S blksize found)) in
      let s2 = (m1 s1 n).1 in
      let quarter : unit / 4 ≡ two_to (suc m) = omega (arith, u) in
      let w = narrow-unit m (two_to (suc m)) s2 n u fits (omega (arith, two_to-grows (suc m))) in
      let m2 = narrow K S blksize (two_to (suc m)) f alloc (two_to (suc m)) unit unit in
      let e : alloc_size K S blksize st f s n ≡ pass (result K S blksize w.0) (m2 s2 n).1 n =
        alloc_size-run st s n k.0 k.1
        ∙ went_with m1 after s1 n (unit, unit) g.0 g.1
        ∙ ap
            (λ h.
              (narrow K S blksize h f alloc h unit unit
                  >>= (λ found. pass (result K S blksize found)))
                s2 n)
            quarter
        ∙ went_with m2 (λ found. pass (result K S blksize found)) s2 n w.0 w.2.0 w.2.1 in
      (ap (λ r. r.0) e ∙ ap some w.1, ap (λ r. r.2) e)

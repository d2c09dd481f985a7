-- ===== src/Generic/G313/Times.antt =====
-- The times that generic/313 sees only grow.
use nfsplayground.Base.{
  ℕ, suc, ◌≤◌, ◌<◌, ◌⊎◌, if◌then◌else◌, ◌≡◌, refl, sym, ◌∙◌, arith, true, false, Bool, not, Option,
  some, ◌==ℤ◌, ==ℤ_iff, ◌==◌, ==_iff, gtℤ, nonzero, Bool-cases, inl, inr,
}
use nfsplayground.Kernel.{Kernel, Timespec}
use nfsplayground.Paths.{kstat}
use nfsplayground.Kunit.{
  Case, ◌>>=◌, ◌>>◌, run, step, assert, expect, pass, bind-some, none≢some, run-assert,
}
use nfsplayground.Generic.G313.{after, resize, file, truncate_step, down_and_up}

some-inj : {A : Type 0} {a b : A} → some a ≡ some b → a ≡ b
some-inj e = cc

-- A time strictly later than another.
abbrev pub Later : Timespec → Timespec → Type 0
Later a b = (gtℤ a.tv_sec b.tv_sec ≡ true) ⊎ ((a.tv_sec ≡ b.tv_sec) × (b.tv_nsec < a.tv_nsec))

after-Later : (a b : Timespec) → after a b ≡ true → Later a b
unfolding after
after-Later a b h = elim (Bool-cases (gtℤ a.tv_sec b.tv_sec)) [
  | inl later ↦ inl later
  | inr other ↦
      let h' = rw other at h in
      elim (Bool-cases (a.tv_sec ==ℤ b.tv_sec)) [
        | inl same ↦ inr ((==ℤ_iff a.tv_sec b.tv_sec).0 same, ground (arith, rw same at h'))
        | inr earlier ↦ let h'' = rw earlier at h' in cc
      ]
]

-- The number of failures after three expectations.
abbrev counted : Bool → Bool → Bool → ℕ → ℕ
counted a b c n =
    let x = if a then n else suc n in let y = if b then x else suc x in if c then y else suc y

three-expect :
    {S A : Type 0} (a b c : Bool) (v : A) (s : S) (n : ℕ)
    → (expect a >> (expect b >> (expect c >> pass v))) s n ≡ (some v, s, counted a b c n)
three-expect true true true v s n = refl
three-expect true true false v s n = refl
three-expect true false true v s n = refl
three-expect true false false v s n = refl
three-expect false true true v s n = refl
three-expect false true false v s n = refl
three-expect false false true v s n = refl
three-expect false false false v s n = refl

counted-le : (a b c : Bool) (n : ℕ) → n ≤ counted a b c n
counted-le a b c n = ground arith

counted-none : (a b c : Bool) (n : ℕ) → counted a b c n ≡ n → (a ≡ true) × (b ≡ true) × (c ≡ true)
counted-none a b c n h = (ground (arith, h), ground (arith, h), ground (arith, h))

module _ (K : Kernel) (size_of : K.Kstat → ℕ) (mtime ctime : K.Kstat → Timespec) where
  -- A kstat of the file with a size, with both times strictly later than those of another.
  abbrev pub Updated : ℕ → K.Kstat → K.Kstat → Type 0
  Updated size prev last =
      (size_of last ≡ size) × Later (ctime last) (ctime prev) × Later (mtime last) (mtime prev)

  -- What a step that went through has counted, and what it says if that is nothing.
  abbrev Quiet : ℕ → ℕ → K.Kstat → Option K.Kstat × K.Machine × ℕ → K.Kstat → Type 0
  Quiet n size prev r last = (n ≤ r.2) × (r.2 ≡ n → Updated size prev last)

  truncate_step-found :
      (f : K.File) (use_ftruncate : Bool) (new_size : ℕ) (st prev : K.Kstat) (s : K.Machine) (n : ℕ)
      → let t = resize K size_of mtime ctime use_ftruncate f new_size (K.msleep 20 s) in
        let k = kstat K st file t.1 in
        nonzero t.0 ≡ false
        → nonzero k.0.0 ≡ false
        → truncate_step K size_of mtime ctime f use_ftruncate new_size st prev s n ≡ (
          some k.0.1,
          k.1,
          counted
              (size_of k.0.1 == new_size)
              (after (ctime k.0.1) (ctime prev))
              (after (mtime k.0.1) (mtime prev))
              n,
        )
  unfolding truncate_step
  truncate_step-found f use_ftruncate new_size st prev s n done found =
      let t = resize K size_of mtime ctime use_ftruncate f new_size (K.msleep 20 s) in
      let k = kstat K st file t.1 in
      let checks : K.Kstat → Case K.Machine K.Kstat = λ x.
        expect (size_of x == new_size)
        >> (expect (after (ctime x) (ctime prev))
            >> (expect (after (mtime x) (mtime prev)) >> pass x)) in
      run-assert (resize K size_of mtime ctime use_ftruncate f new_size) (λ e. not (nonzero e))
        (λ _. run (kstat K st file) >>= (λ x. assert (not (nonzero x.0)) >> checks x.1))
        (K.msleep 20 s) n (rw done refl)
      ∙ run-assert (kstat K st file) (λ x. not (nonzero x.0)) (λ x. checks x.1) t.1 n
          (rw found refl)
      ∙ three-expect (size_of k.0.1 == new_size) (after (ctime k.0.1) (ctime prev))
          (after (mtime k.0.1) (mtime prev)) k.0.1 k.1 n

  truncate_step-Quiet :
      (f : K.File) (use_ftruncate : Bool) (new_size : ℕ) (st prev last : K.Kstat) (s : K.Machine)
      (n : ℕ)
      → let r = truncate_step K size_of mtime ctime f use_ftruncate new_size st prev s n in
        r.0 ≡ some last → Quiet n new_size prev r last
  unfolding truncate_step
  truncate_step-Quiet f use_ftruncate new_size st prev last s n h =
      let t = resize K size_of mtime ctime use_ftruncate f new_size (K.msleep 20 s) in
      elim (Bool-cases (nonzero t.0)) [
        | inl failed ↦
            absurd
              (none≢some last (rw (truncate_step, ◌>>=◌, ◌>>◌, step, run, failed, assert) at h))
        | inr done ↦
            let k = kstat K st file t.1 in
            elim (Bool-cases (nonzero k.0.0)) [
              | inl failed ↦ absurd (
                  none≢some last
                    (rw (truncate_step, ◌>>=◌, ◌>>◌, step, run, assert, done, done, failed) at h))
              | inr found ↦
                  let e = truncate_step-found f use_ftruncate new_size st prev s n done found in
                  let v = some-inj (rw e at h) in
                  let a = size_of k.0.1 == new_size in
                  let b = after (ctime k.0.1) (ctime prev) in
                  let c = after (mtime k.0.1) (mtime prev) in
                  rw e (
                    rw (sym v) (
                      counted-le a b c n,
                      λ quiet.
                          let all = counted-none a b c n quiet in
                          (
                            (==_iff (size_of k.0.1) new_size).0 all.0,
                            after-Later (ctime k.0.1) (ctime prev) all.1,
                            after-Later (mtime k.0.1) (mtime prev) all.2,
                          ),
                    ))
            ]
      ]

  -- If both truncations of generic/313 go through and no expectation in them fails, then between the
  -- kstat of before and the last one there was another: that one has size 0, the last has size 123, and
  -- each has a change time and a modification time strictly later than the one before it, where a time
  -- is later if its seconds are more, or they are the same and its nanoseconds are more.
  pub down_and_up-after :
      (f : K.File) (use_ftruncate : Bool) (st prev last : K.Kstat) (s : K.Machine) (n : ℕ)
      → let r = down_and_up K size_of mtime ctime f use_ftruncate st prev s n in
        r.0 ≡ some last → r.2 ≡ n → (mid : K.Kstat) × Updated 0 prev mid × Updated 123 mid last
  unfolding down_and_up
  down_and_up-after f use_ftruncate st prev last s n h quiet =
      let one = truncate_step K size_of mtime ctime f use_ftruncate 0 st prev in
      let two = truncate_step K size_of mtime ctime f use_ftruncate 123 st in
      let b = bind-some one two s n last h in
      let mid = b.0 in
      let u = truncate_step-Quiet f use_ftruncate 0 st prev mid s n b.1 in
      let v = truncate_step-Quiet f use_ftruncate 123 st mid last (one s n).1 (one s n).2 b.2 in
      let ends : (two mid (one s n).1 (one s n).2).2 ≡ n = rw (b.1, ◌>>=◌) at quiet in
      (mid, u.1 (omega (arith, u.0, v.0, ends)), v.1 (omega (arith, u.0, v.0, ends)))

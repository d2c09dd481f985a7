-- ===== src/Generic/G075/Detect.antt =====
-- What the final check of generic/075 establishes.
use nfsplayground.Base.{
  ℕ, zero, suc, ◌+◌, ◌-◌, ◌≤◌, ◌<◌, ◌≡◌, ◌≢◌, ◌↔◌, refl, sym, ap, ◌∙◌, arith, ltb, leb,
  if◌then◌else◌, List, [], ◌∷◌, State, ℤ, not, nonzero, pos, ◌==◌, ==_iff, ◌==ℤ◌, ==ℤ_iff, true,
  false, Bool-cases, inl, inr,
}
use nfsplayground.Kernel.{Kernel}
use nfsplayground.Paths.{kstat}
use nfsplayground.Kunit.{◌>>=◌, ◌>>◌, run, assert, expect, run-assert}
use nfsplayground.Generic.G001.{Random}
use nfsplayground.Generic.G075.{Shadow, byte_at, matches, file, verify_range, final_check}
use nfsplayground.Generic.G075.Sync.{KeepsData, InSync, final_check-Passed}

suc-ne : (n : ℕ) → suc n ≢ n
suc-ne n e = omega (arith, e)

false≢true : false ≢ true
false≢true e = cc

pub matches-same :
    (shadow : ℕ → ℕ) (off len : ℕ) (buf : List ℕ)
    → matches shadow off len buf ≡ true
    → (i : ℕ) → i < len
    → byte_at buf i ≡ shadow (off + i)
unfolding matches
matches-same shadow off zero buf h i below = absurd (omega (arith, below))
matches-same shadow off (suc len) [] h i below = absurd (false≢true h)
matches-same shadow off (suc len) (b ∷ buf) h zero below = elim (Bool-cases (b == shadow off)) [
  | inl e ↦ (==_iff b (shadow off)).0 e ∙ ap shadow (omega arith)
  | inr e ↦ let h' = rw e at h in cc
]
matches-same shadow off (suc len) (b ∷ buf) h (suc i) below = elim (Bool-cases (b == shadow off)) [
  | inl e ↦
      matches-same shadow (suc off) len buf (rw e at h) i (omega (arith, below))
      ∙ ap shadow (omega arith)
  | inr e ↦ let h' = rw e at h in cc
]

module _ (R : Random) {K : Kernel} {fallocate : K.File → ℕ → ℕ → ℕ → State K.Machine ℤ}
    {size_of : K.Kstat → ℕ} {f : K.File} {size : K.Machine → ℕ} {byte : K.Machine → ℕ → ℕ}
    (L : KeepsData K fallocate size_of f size byte) where
  verify_range-read :
      (m : Shadow) (s : K.Machine) (n : ℕ)
      → size s ≡ m.size
      → leb m.size 0 ≡ false
      → let b = K.kernel_read f m.size 0 s in
        verify_range R K fallocate size_of f m 0 m.size s n
        ≡ expect (matches m.bytes 0 m.size b.0.1) b.1 n
  unfolding verify_range
  verify_range-read m s n long some_bytes =
      let len : (if ltb m.size (0 + m.size) then m.size - 0 else m.size) ≡ m.size = ground arith in
      let r = L.kernel_read_inside m.size 0 s (omega (arith, long)) in
      rw some_bytes (
        rw len (
          run-assert (K.kernel_read f m.size 0) (λ x. x.0 ==ℤ pos m.size)
            (λ x. expect (matches m.bytes 0 m.size x.1)) s n
            ((==ℤ_iff (K.kernel_read f m.size 0 s).0.0 (pos m.size)).1 r.0)))

  -- The whole file, where it is as long as the shadow.
  verify_range-whole :
      (m : Shadow) (s : K.Machine) (n : ℕ)
      → size s ≡ m.size
      → (verify_range R K fallocate size_of f m 0 m.size s n).2 ≡ n
      → (i : ℕ) → i < m.size
      → byte s i ≡ m.bytes i
  verify_range-whole m s n long quiet i below =
      let some_bytes : leb m.size 0 ≡ false = ground (arith, below) in
      let r = L.kernel_read_inside m.size 0 s (omega (arith, long)) in
      let b = K.kernel_read f m.size 0 s in
      let quiet' = rw (verify_range-read m s n long some_bytes) at quiet in
      elim (Bool-cases (matches m.bytes 0 m.size b.0.1)) [
        | inl same ↦
            ap (byte s) (omega arith)
            ∙ sym (r.2 i below)
            ∙ matches-same m.bytes 0 m.size b.0.1 same i below
            ∙ ap m.bytes (omega arith)
        | inr differ ↦ absurd (suc-ne n (rw (differ, expect) at quiet'))
      ]

  verify_range-le :
      (m : Shadow) (off len : ℕ) (s : K.Machine) (n : ℕ)
      → n ≤ (verify_range R K fallocate size_of f m off len s n).2
  unfolding verify_range
  verify_range-le m off len s n = elim (Bool-cases (leb m.size off)) [
    | inl behind ↦ rw behind (omega arith)
    | inr inside ↦
        let len' = if ltb m.size (off + len) then m.size - off else len in
        let b = K.kernel_read f len' off s in
        elim (Bool-cases (b.0.0 ==ℤ pos len')) [
          | inl all ↦ elim (Bool-cases (matches m.bytes off len' b.0.1)) [
            | inl same ↦
                rw inside (rw (◌>>=◌, run, assert, expect, ◌>>◌, all, same, all) (omega arith))
            | inr differ ↦
                rw inside (rw (◌>>=◌, run, assert, expect, ◌>>◌, all, differ, all) (omega arith))
          ]
          | inr short ↦ rw inside (rw (◌>>=◌, run, assert, ◌>>◌, short, short) (omega arith))
        ]
  ]

  final_check-found :
      (st : K.Kstat) (m : Shadow) (s : K.Machine) (n : ℕ)
      → let k = kstat K st file s in
        final_check R K fallocate size_of f st m s n
        ≡ (expect (size_of k.0.1 == m.size) >> verify_range R K fallocate size_of f m 0 m.size) k.1
            n
  unfolding final_check
  final_check-found st m s n =
      run-assert (kstat K st file) (λ x. not (nonzero x.0))
        (λ x. expect (size_of x.1 == m.size) >> verify_range R K fallocate size_of f m 0 m.size) s n
        (rw (L.kstat_size st s).0 refl)

  -- On a file system that keeps what it is given, the final check of generic/075 counts no failure
  -- exactly if the file has the shadow's size and, below that size, the shadow's bytes.
  pub final_check_iff :
      (st : K.Kstat) (m : Shadow) (s : K.Machine) (n : ℕ)
      → ((final_check R K fallocate size_of f st m s n).2 ≡ n) ↔ InSync R L m s
  final_check_iff st m s n =
      let k = kstat K st file s in
      let law = L.kstat_size st s in
      let verify = verify_range R K fallocate size_of f m 0 m.size in
      (
        λ quiet.
            let quiet' = rw (final_check-found st m s n) at quiet in
            elim (Bool-cases (size_of k.0.1 == m.size)) [
              | inl same ↦
                  let long = law.2 ∙ sym law.1 ∙ (==_iff (size_of k.0.1) m.size).0 same in
                  let whole =
                    verify_range-whole m k.1 n long
                      (rw (◌>>◌, ◌>>=◌, expect, same, same) at quiet') in
                  (
                    sym law.1 ∙ (==_iff (size_of k.0.1) m.size).0 same,
                    λ i below. sym (law.3 i) ∙ whole i below,
                  )
              | inr other ↦
                  let more = rw (◌>>◌, ◌>>=◌, expect, other, other) at quiet' in
                  absurd (omega (arith, more, verify_range-le m 0 m.size k.1 (suc n)))
            ],
        λ sync. (final_check-Passed R L st m s n sync).1,
      )

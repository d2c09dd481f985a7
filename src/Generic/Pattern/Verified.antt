-- ===== src/Generic/Pattern/Verified.antt =====
-- What the comparison of a file with a formula establishes.
use nfsplayground.Base.{
  ℕ, zero, suc, ◌+◌, ◌-◌, ◌*◌, ◌≤◌, ◌<◌, ◌≡◌, ◌↔◌, refl, sym, ap, ◌∙◌, subst, arith, String, [],
  ◌∷◌, length, Option, none, some, pos, ◌==ℤ◌, ==ℤ_iff, ltb, true, false, Bool-cases, inl, inr,
}
use Prim.Native.Nat.{min}
use native.Mathlib.Nat.{suc-mul}
use nfsplayground.Kernel.{Kernel, ptr, o_rdonly, o_largefile}
use nfsplayground.Files.{read_range}
use nfsplayground.Kunit.{◌>>=◌, ◌>>◌, run, assert, none≢some}
use nfsplayground.Generic.G075.{matches, byte_at}
use nfsplayground.Generic.G075.Sync.{matches-true}
use nfsplayground.Generic.G075.Detect.{matches-same}
use nfsplayground.Generic.Pattern.{verify_from, verify}

-- What the kernel documents of reads: the path opens, and a read returns what is there, up to the end
-- of the file, and changes nothing.
pub record ReadsFile (K : Kernel) (path : String) (size : K.Machine → ℕ) (byte : K.Machine → ℕ → ℕ)
    : Type 0 where
  pub open_and_read :
      (len off : ℕ) (s : K.Machine)
      → let o = K.filp_open path (o_rdonly ∷ o_largefile ∷ []) 0 s in
        (f : K.File) × (o.0 ≡ ptr f)
        × (let r = K.kernel_read f len off o.1 in
            let n = min len (size s - off) in
            (r.0.0 ≡ pos n)
            × (length r.0.1 ≡ n)
            × ((i : ℕ) → i < n → byte_at r.0.1 i ≡ byte s (off + i))
            × (size (K.filp_close f r.1) ≡ size s)
            × (byte (K.filp_close f r.1) ≡ byte s))

pos_inj : {a b : ℕ} → pos a ≡ pos b → a ≡ b
pos_inj e = cc

read_range-open :
    (K : Kernel) (path : String) (len off : ℕ) (s : K.Machine) (f : K.File)
    → let o = K.filp_open path (o_rdonly ∷ o_largefile ∷ []) 0 s in
      o.0 ≡ ptr f
      → let r = K.kernel_read f len off o.1 in
        read_range K path len off s ≡ ((r.0.0, r.0.1), K.filp_close f r.1)
unfolding read_range
read_range-open K path len off s f e = rw e refl

module _ {K : Kernel} {path : String} {size : K.Machine → ℕ} {byte : K.Machine → ℕ → ℕ}
    (L : ReadsFile K path size byte) where
  pub read_range-bytes :
      (len off : ℕ) (s : K.Machine)
      → let r = read_range K path len off s in
        let n = min len (size s - off) in
        (r.0.0 ≡ pos n)
        × (length r.0.1 ≡ n)
        × ((i : ℕ) → i < n → byte_at r.0.1 i ≡ byte s (off + i))
        × (size r.1 ≡ size s)
        × (byte r.1 ≡ byte s)
  read_range-bytes len off s =
      let o = L.open_and_read len off s in rw (read_range-open K path len off s o.0 o.1) o.2

  module _ (want : ℕ → ℕ) (chunk : ℕ) (some_bytes : 0 < chunk) where
    -- The file has the bytes that are wanted of it from an offset on.
    abbrev Holds : K.Machine → ℕ → ℕ → Type 0
    Holds s off len = (i : ℕ) → off ≤ i → i < off + len → (i < size s) × (byte s i ≡ want i)

    abbrev Quiet : ℕ → Option (Unit {0}) × K.Machine × ℕ → Type 0
    Quiet n r = (r.0 ≡ some tt) × (r.2 ≡ n)

    Holds-same :
        (s s' : K.Machine) (off len : ℕ)
        → size s' ≡ size s
        → byte s' ≡ byte s
        → Holds s off len
        → Holds s' off len
    Holds-same s s' off len same_size same_bytes h i from below =
        let o = h i from below in (omega (arith, o.0, same_size), ap (λ b. b i) same_bytes ∙ o.1)

    verify_from-done :
        (total rounds off : ℕ) (s : K.Machine) (n : ℕ)
        → ltb off total ≡ false
        → Quiet n (verify_from K path want total chunk (suc rounds) off s n)
    unfolding verify_from
    verify_from-done total rounds off s n done = rw (verify_from, done) (refl, refl)

    module _ (total rounds off : ℕ) (s : K.Machine) (n : ℕ) (inside : ltb off total ≡ true) where
      -- A round that finds what it wants, and one that does not.
      verify_from-found :
          Holds s off chunk
          → verify_from K path want total chunk (suc rounds) off s n
            ≡ verify_from K path want total chunk rounds
                (off + chunk)
                (read_range K path chunk off s).1
                n
      unfolding verify_from
      verify_from-found holds =
          let r = read_range-bytes chunk off s in
          let e : off + (chunk - 1) < off + chunk = omega (arith, some_bytes) in
          let last = holds (off + (chunk - 1)) (omega arith) e in
          let fits : min chunk (size s - off) ≡ chunk = omega (arith, last.0, some_bytes) in
          let all : (read_range K path chunk off s).0.0 ==ℤ pos chunk ≡ true =
            (==ℤ_iff (read_range K path chunk off s).0.0 (pos chunk)).1 (r.0 ∙ ap pos fits) in
          let same : matches want off chunk (read_range K path chunk off s).0.1 ≡ true =
            matches-true want off chunk (read_range K path chunk off s).0.1 (r.1 ∙ fits) (λ i below.
              r.2 i (omega (arith, fits, below))
              ∙ (holds (off + i) (omega arith) (omega (arith, below))).1) in
          rw (verify_from, inside) (rw (◌>>=◌, ◌>>◌, run, assert, all, all, same) refl)

      verify_from-short :
          (read_range K path chunk off s).0.0 ==ℤ pos chunk ≡ false
          → (verify_from K path want total chunk (suc rounds) off s n).0 ≡ none
      unfolding verify_from
      verify_from-short short = rw (verify_from, inside) (rw (◌>>=◌, ◌>>◌, run, assert, short) refl)

      verify_from-differs :
          (read_range K path chunk off s).0.0 ==ℤ pos chunk ≡ true
          → matches want off chunk (read_range K path chunk off s).0.1 ≡ false
          → (verify_from K path want total chunk (suc rounds) off s n).2 ≡ suc n
      unfolding verify_from
      verify_from-differs all differ =
          rw (verify_from, inside) (rw (◌>>=◌, ◌>>◌, run, assert, all, all, differ) refl)

      verify_from-quiet :
          Quiet n (verify_from K path want total chunk (suc rounds) off s n) → Holds s off chunk
      verify_from-quiet quiet =
          let r = read_range-bytes chunk off s in
          elim (Bool-cases ((read_range K path chunk off s).0.0 ==ℤ pos chunk)) [
            | inr short ↦ absurd (none≢some tt (sym (verify_from-short short) ∙ quiet.0))
            | inl all ↦
                elim (Bool-cases (matches want off chunk (read_range K path chunk off s).0.1)) [
                  | inr differ ↦
                      absurd (omega (arith, sym (verify_from-differs all differ) ∙ quiet.1))
                  | inl same ↦
                      let fits : min chunk (size s - off) ≡ chunk = pos_inj (
                        sym r.0
                        ∙ (==ℤ_iff (read_range K path chunk off s).0.0 (pos chunk)).0 all) in
                      λ i from below.
                        let below' : i - off < chunk = omega (arith, from, below) in
                        (
                          omega (arith, fits, from, below, some_bytes),
                          ap (byte s) (omega (arith, from))
                              ∙ sym (r.2 (i - off) (omega (arith, fits, below')))
                              ∙ matches-same want off chunk (read_range K path chunk off s).0.1 same
                                  (i - off) below'
                              ∙ ap want (omega (arith, from)),
                        )
                ]
          ]

    rounds_enough : (k : ℕ) → k ≤ k * chunk
    rounds_enough zero = omega arith
    rounds_enough (suc k) = omega (arith, rounds_enough k, suc-mul k chunk, some_bytes)

    -- Chunk by chunk, and with a round for every chunk.
    verify_from_iff :
        (k rounds total off : ℕ) (s : K.Machine) (n : ℕ)
        → k ≤ rounds
        → total ≡ off + k * chunk
        → Quiet n (verify_from K path want total chunk rounds off s n) ↔ Holds s off (k * chunk)
    unfolding verify_from
    verify_from_iff zero zero total off s n enough e =
        (λ quiet i from below. absurd (omega (arith, from, below)), λ holds. (refl, refl))
    verify_from_iff zero (suc rounds) total off s n enough e = (
      λ quiet i from below. absurd (omega (arith, from, below)),
      λ holds. verify_from-done total rounds off s n (ground (arith, e)),
    )
    verify_from_iff (suc k) zero total off s n enough e = absurd (omega (arith, enough))
    verify_from_iff (suc k) (suc rounds) total off s n enough e =
        let r = read_range-bytes chunk off s in
        let s' = (read_range K path chunk off s).1 in
        let more : total ≡ off + chunk + k * chunk = omega (arith, e, suc-mul k chunk) in
        let inside : ltb off total ≡ true = ground (arith, more, some_bytes) in
        let rest = verify_from_iff k rounds total (off + chunk) s' n (omega (arith, enough)) more in
        (
          λ quiet.
              let first = verify_from-quiet total rounds off s n inside quiet in
              let later =
                rest.0
                  (subst (Quiet n) (verify_from-found total rounds off s n inside first) quiet) in
              λ i from below. elim (Bool-cases (ltb i (off + chunk))) [
                | inl here ↦ first i from (ground (arith, here))
                | inr there ↦
                    Holds-same s' s (off + chunk) (k * chunk) (sym r.3) (sym r.4) later i
                      (ground (arith, there)) (omega (arith, below, suc-mul k chunk))
              ],
          λ holds.
              subst (Quiet n)
                (sym (
                  verify_from-found total rounds off s n inside
                    (λ i from below. holds i from (omega (arith, below, suc-mul k chunk)))))
                (rest.1 (
                  Holds-same s s' (off + chunk) (k * chunk) r.3 r.4 (λ i from below.
                    holds i (omega (arith, from)) (omega (arith, below, suc-mul k chunk))))),
        )

    -- On a file system whose reads return what is there, the comparison of a file with a formula, in
    -- chunks of which the size is a multiple, ends without a failure exactly if the file has at least
    -- that size and, below it, the bytes of the formula.
    pub verify_iff :
        (k : ℕ) (s : K.Machine) (n : ℕ)
        → let r = verify K path want (k * chunk) chunk s n in
          ((r.0 ≡ some tt) × (r.2 ≡ n))
          ↔ ((i : ℕ) → i < k * chunk → (i < size s) × (byte s i ≡ want i))
    unfolding verify
    verify_iff k s n =
        let v = verify_from_iff k (k * chunk) (k * chunk) 0 s n (rounds_enough k) (omega arith) in
        (
          λ quiet i below. v.0 quiet i (omega arith) (omega (arith, below)),
          λ holds. v.1 (λ i from below. holds i (omega (arith, below))),
        )

-- ===== src/Generic/G001/Content/Streams.antt =====
-- The content of a file as one stream of bytes, which its chunks are parts of.
use mathlib.Core.List.{append-nil}
use nfsplayground.Base.{
  ℕ, zero, suc, ◌+◌, ◌-◌, ◌*◌, ◌%◌, ◌≡◌, refl, ◌∙◌, ap, inl, inr, List, [], ◌++◌, length, ◌==◌,
  ==_iff, leb, if◌then◌else◌, arith, Bool-cases,
}
use nfsplayground.Generic.G001.{Random}
use nfsplayground.Generic.G001.Content.{chunk_of, fill_from, fill_chunk}

module _ (R : Random) where
  -- At a fourth byte the number drawn before does not matter.
  fill_from-draw :
      (left i r r' : ℕ) (st : R.RndState)
      → i % 4 ≡ 0
      → fill_from R left i r st ≡ fill_from R left i r' st
  unfolding fill_from
  fill_from-draw zero i r r' st h = refl
  fill_from-draw (suc left) i r r' st h = rw ((==_iff (i % 4) 0).1 h)

  pub fill_from-length :
      (left i r : ℕ) (st : R.RndState) → length (fill_from R left i r st).0 ≡ left
  unfolding fill_from
  fill_from-length zero i r st = refl
  fill_from-length (suc left) i r st =
      let draw = if i % 4 == 0 then R.prandom_u32_state st else (r, st) in
      omega (arith, fill_from-length left (suc i) draw.0 draw.1)

  fill_from-period :
      (left i r : ℕ) (st : R.RndState) → fill_from R left (4 + i) r st ≡ fill_from R left i r st
  unfolding fill_from
  fill_from-period zero i r st = refl
  fill_from-period (suc left) i r st =
      let e : (4 + i) % 4 ≡ i % 4 = omega arith in
      let draw = if i % 4 == 0 then R.prandom_u32_state st else (r, st) in
      let next : suc (4 + i) ≡ 4 + suc i = omega arith in
      rw (e, next, fill_from-period left (suc i) draw.0 draw.1)

  fill_from-periods :
      (k left r : ℕ) (st : R.RndState) → fill_from R left (k * 4) r st ≡ fill_from R left 0 r st
  fill_from-periods zero left r st = refl
  fill_from-periods (suc k) left r st =
      let e : suc k * 4 ≡ 4 + k * 4 = omega arith in
      rw e (fill_from-period left (k * 4) r st ∙ fill_from-periods k left r st)

  -- A run of the loop in two parts.
  fill_from-parts :
      (a b i r : ℕ) (st : R.RndState)
      → (r' : ℕ) × (fill_from R (a + b) i r st ≡ (
        (fill_from R a i r st).0 ++ (fill_from R b (i + a) r' (fill_from R a i r st).1).0,
        (fill_from R b (i + a) r' (fill_from R a i r st).1).1,
      ))
  unfolding fill_from
  fill_from-parts zero b i r st =
      let e : i + 0 ≡ i = omega arith in let z : 0 + b ≡ b = omega arith in (r, rw (e, z))
  fill_from-parts (suc a) b i r st =
      let draw = if i % 4 == 0 then R.prandom_u32_state st else (r, st) in
      let rest = fill_from-parts a b (suc i) draw.0 draw.1 in
      let e : i + suc a ≡ suc i + a = omega arith in
      let z : suc a + b ≡ suc (a + b) = omega arith in (rest.0, rw (z, e, fill_from) (rw rest.1))

  fill_from-none : (i r : ℕ) (st : R.RndState) → fill_from R 0 i r st ≡ ([], st)
  unfolding fill_from
  fill_from-none i r st = refl

  -- A chunk, then the rest of the stream.
  pub fill_chunk-parts :
      (left : ℕ) (st : R.RndState)
      → (fill_chunk R left st).0
        ≡ (fill_chunk R (chunk_of left) st).0
          ++ (fill_chunk R (left - chunk_of left) (fill_chunk R (chunk_of left) st).1).0
  unfolding fill_chunk
  fill_chunk-parts left st = elim (Bool-cases (leb left 4096)) [
    | inl small ↦ let z : left - left ≡ 0 = omega arith in rw (small, z, fill_from-none, append-nil)
    | inr large ↦
        let m = left - 4096 in
        let e : left ≡ 1024 * 4 + m = ground arith in
        let p = fill_from-parts (1024 * 4) m 0 0 st in
        let x = fill_from R (1024 * 4) 0 0 st in
        let d = fill_from-draw m (0 + 1024 * 4) p.0 0 x.1 refl ∙ fill_from-periods 1024 m 0 x.1 in
        rw large (
          ap (λ t. (fill_from R t 0 0 st).0) e
          ∙ ap (λ (t : List ℕ × R.RndState). t.0) p.1
          ∙ ap (λ (t : List ℕ × R.RndState). x.0 ++ t.0) d)
  ]

  pub fill_chunk-length : (len : ℕ) (st : R.RndState) → length (fill_chunk R len st).0 ≡ len
  unfolding fill_chunk
  fill_chunk-length len st = fill_from-length len 0 0 st

  pub stream-none : (st : R.RndState) → (fill_chunk R 0 st).0 ≡ []
  unfolding fill_chunk fill_from
  stream-none st = refl

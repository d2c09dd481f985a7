-- ===== src/Generic/G100/Bytes.antt =====
-- What generic/100 checks of a file is what it built it from.
use nfsplayground.Base.{
  ℕ, zero, suc, ◌≡◌, refl, ◌↔◌, arith, true, List, [], ◌∷◌, length, ◌==◌, ==_iff, Bool-cases, inl,
  inr,
}
use nfsplayground.Generic.G100.{byte_of, fill_from, fill, matches_from, file_size}

fill_from-matches : (n off seed : ℕ) → matches_from n off seed (fill_from n off seed) ≡ true
unfolding matches_from fill_from
fill_from-matches zero off seed = refl
fill_from-matches (suc n) off seed =
    rw ((==_iff (byte_of seed off) (byte_of seed off)).1 refl) (fill_from-matches n (suc off) seed)

matches_from-fill :
    (n off seed : ℕ) (buf : List ℕ)
    → length buf ≡ n
    → matches_from n off seed buf ≡ true
    → buf ≡ fill_from n off seed
unfolding matches_from fill_from
matches_from-fill zero off seed [] h m = refl
matches_from-fill zero off seed (b ∷ buf) h m = absurd (omega (arith, h))
matches_from-fill (suc n) off seed [] h m = absurd (omega (arith, h))
matches_from-fill (suc n) off seed (b ∷ buf) h m = elim (Bool-cases (b == byte_of seed off)) [
  | inl e ↦
      let same = (==_iff b (byte_of seed off)).0 e in
      let rest = matches_from-fill n (suc off) seed buf (omega (arith, h)) (rw e at m) in cc
  | inr e ↦ let m' = rw e at m in cc
]

-- Of 4096 bytes that are read, the comparison of generic/100 finds no difference exactly if they are
-- the bytes that a file of that seed was filled with.
matches_from_iff :
    (seed : ℕ) (buf : List ℕ)
    → length buf ≡ file_size
    → (matches_from file_size 0 seed buf ≡ true) ↔ (buf ≡ fill seed)
unfolding fill
matches_from_iff seed buf h =
    (matches_from-fill file_size 0 seed buf h, λ e. rw e (fill_from-matches file_size 0 seed))

-- ===== src/Generic/G337/Listed.antt =====
-- What the walks over a list of names find.
use nfsplayground.Base.{
  ℕ, zero, suc, ◌+◌, ◌-◌, ◌≤◌, ◌≡◌, refl, sym, ◌∙◌, ap, inl, inr, Bool, true, false, ◌||◌, List, [],
  ◌∷◌, ◌++◌, ltb, length, drop, same, c_string, NoZero, c_string-append, drop-append, drop-drop,
  length-append, arith, Bool-cases,
}
use mathlib.Core.List.{append_assoc}
use nfsplayground.Generic.G337.{listed_from, listed, count_from}

-- The list that the kernel fills in: each name with its terminator.
abbrev pub packed : List (List ℕ) → List ℕ
packed [] = []
packed (name ∷ names) = name ++ 0 ∷ packed names

abbrev pub AllNoZero : List (List ℕ) → Type 0
AllNoZero [] = Unit
AllNoZero (name ∷ names) = NoZero name × AllNoZero names

-- Whether a name is among the names.
abbrev pub among : List (List ℕ) → List ℕ → Bool
among [] name = false
among (x ∷ names) name = same x name || among names name

-- One name in front of the rest of the list.
module _ (x : List ℕ) (names : List (List ℕ)) (rest : List ℕ) where
  first_name : packed (x ∷ names) ++ rest ≡ x ++ 0 ∷ (packed names ++ rest)
  first_name = append_assoc x (0 ∷ packed names) rest

  behind : drop (length x + 1) (packed (x ∷ names) ++ rest) ≡ packed names ++ rest
  behind =
      ap (drop (length x + 1)) first_name
      ∙ sym (drop-drop (length x) 1 (x ++ 0 ∷ (packed names ++ rest)))
      ∙ ap (drop 1) (drop-append x (0 ∷ (packed names ++ rest)))

  length-packed : length (packed (x ∷ names)) ≡ length x + 1 + length (packed names)
  length-packed = omega (arith, length-append x (0 ∷ packed names))

  name_read : NoZero x → c_string (packed (x ∷ names) ++ rest) ≡ x
  name_read h = ap c_string first_name ∙ c_string-append x (packed names ++ rest) h

  listed_from-round :
      (rounds : ℕ) (name : List ℕ)
      → NoZero x
      → listed_from (suc rounds) (packed (x ∷ names) ++ rest) (length (packed (x ∷ names))) name
        ≡ (same x name || listed_from rounds (packed names ++ rest) (length (packed names)) name)
  unfolding listed_from
  listed_from-round rounds name h =
      let some_left : ltb 0 (length (packed (x ∷ names))) ≡ true = ground (arith, length-packed) in
      let l : length (packed (x ∷ names)) - (length x + 1) ≡ length (packed names) =
        omega (arith, length-packed) in
      rw (some_left, listed_from)
        (rw (name_read h) (elim (Bool-cases (same x name)) [
          | inl e ↦ rw e
          | inr e ↦ rw e (rw (name_read h) (rw (l, behind)))
        ]))

  count_from-round :
      (rounds : ℕ)
      → NoZero x
      → count_from (suc rounds) (packed (x ∷ names) ++ rest) (length (packed (x ∷ names)))
        ≡ suc (count_from rounds (packed names ++ rest) (length (packed names)))
  unfolding count_from
  count_from-round rounds h =
      let some_left : ltb 0 (length (packed (x ∷ names))) ≡ true = ground (arith, length-packed) in
      let l : length (packed (x ∷ names)) - (length x + 1) ≡ length (packed names) =
        omega (arith, length-packed) in
      rw (some_left, count_from) (rw (name_read h) (rw (l, behind)))

listed_from-packed :
    (names : List (List ℕ)) (rest name : List ℕ) (rounds : ℕ)
    → AllNoZero names
    → length (packed names) ≤ rounds
    → listed_from rounds (packed names ++ rest) (length (packed names)) name ≡ among names name
unfolding listed_from
listed_from-packed [] rest name zero h le = refl
listed_from-packed [] rest name (suc rounds) h le = refl
listed_from-packed (x ∷ names) rest name zero h le =
    absurd (omega (arith, length-packed x names rest))
listed_from-packed (x ∷ names) rest name (suc rounds) h le =
    listed_from-round x names rest rounds name h.0
    ∙ ap (λ b. same x name || b)
        (listed_from-packed names rest name rounds h.1 (omega (arith, length-packed x names rest)))

count_from-packed :
    (names : List (List ℕ)) (rest : List ℕ) (rounds : ℕ)
    → AllNoZero names
    → length (packed names) ≤ rounds
    → count_from rounds (packed names ++ rest) (length (packed names)) ≡ length names
unfolding count_from
count_from-packed [] rest zero h le = refl
count_from-packed [] rest (suc rounds) h le = refl
count_from-packed (x ∷ names) rest zero h le = absurd (omega (arith, length-packed x names rest))
count_from-packed (x ∷ names) rest (suc rounds) h le =
    count_from-round x names rest rounds h.0
    ∙ ap suc (count_from-packed names rest rounds h.1 (omega (arith, length-packed x names rest)))

-- On a buffer that begins with names, each with its terminator, whatever stands behind them, a name
-- is found exactly if it is one of them, not merely the end or the beginning of one; and the walk
-- counts as many names as there are.
pub listed-packed :
    (names : List (List ℕ)) (rest name : List ℕ)
    → AllNoZero names
    → let list = packed names ++ rest in
      let len = length (packed names) in
      (listed list len name ≡ among names name) × (count_from len list len ≡ length names)
unfolding listed
listed-packed names rest name h =
    let len = length (packed names) in
    (
      listed_from-packed names rest name len h (omega arith),
      count_from-packed names rest len h (omega arith),
    )

-- ===== src/Generic/G339/Listing.antt =====
-- What the actor of generic/339 keeps of a directory's names.
use nfsplayground.Base.{
  ℕ, ◌+◌, ◌≤◌, ◌<◌, ◌≡◌, refl, arith, ◌||◌, List, [], ◌∷◌, length, ltb, if◌then◌else◌, Bool-cases,
  ◌==◌, inl, inr,
}
use nfsplayground.Generic.G339.{Walk, actor, act_all, is_dots, entries, name_length}

-- The names in a batch other than the two dots.
abbrev pub real : List (List ℕ) → ℕ
real [] = 0
real (name ∷ names) = (if is_dots name then 0 else 1) + real names

-- The buffer has one slot more than there are entries, and no slot that is filled is too long for it.
abbrev pub InSlots : Walk → Type 0
InSlots w = (w.count ≤ entries + 1) × ((i : ℕ) → i < w.count → length (w.slots i) ≤ name_length)

actor-counts :
    (name : List ℕ) (w : Walk)
    → let w' = actor name w in
      (w'.added ≡ w.added + (if is_dots name then 0 else 1))
      × (w'.count + w'.overflow ≡ w.count + w.overflow + (if is_dots name then 0 else 1))
unfolding actor
actor-counts name w = elim (Bool-cases (is_dots name)) [
  | inl dots ↦ rw dots (omega arith, omega arith)
  | inr other ↦ elim (Bool-cases (ltb entries w.count || ltb name_length (length name))) [
    | inl full ↦ rw (other, full) (refl, omega arith)
    | inr room ↦ rw (other, room) (refl, omega arith)
  ]
]

actor-InSlots : (name : List ℕ) (w : Walk) → InSlots w → InSlots (actor name w)
unfolding actor
actor-InSlots name w h = elim (Bool-cases (is_dots name)) [
  | inl dots ↦ rw dots h
  | inr other ↦ elim (Bool-cases (ltb entries w.count || ltb name_length (length name))) [
    | inl full ↦ rw (other, full) h
    | inr room ↦
        rw (other, room)
          (
            ground (arith, room),
            λ i below. elim (Bool-cases (i == w.count)) [
              | inl here ↦ rw here (ground (arith, room))
              | inr there ↦ rw there (h.1 i (ground (arith, below, there)))
            ],
          )
  ]
]

act_all-counts :
    (names : List (List ℕ)) (w : Walk)
    → let w' = act_all names w in
      (w'.added ≡ w.added + real names)
      × (w'.count + w'.overflow ≡ w.count + w.overflow + real names)
unfolding act_all
act_all-counts [] w = (omega arith, omega arith)
act_all-counts (name ∷ names) w =
    let one = actor-counts name w in
    let rest = act_all-counts names (actor name w) in
    (omega (arith, one.0, rest.0), omega (arith, one.1, rest.1))

act_all-InSlots : (names : List (List ℕ)) (w : Walk) → InSlots w → InSlots (act_all names w)
unfolding act_all
act_all-InSlots [] w h = h
act_all-InSlots (name ∷ names) w h = act_all-InSlots names (actor name w) (actor-InSlots name w h)

-- From a buffer whose filled slots lie in it, a batch of names, of any number and any lengths, fills
-- slots that lie in it, too; every name but the two dots is counted as added, and either fills a slot
-- or is counted as an overflow.
pub act_all-bounds :
    (names : List (List ℕ)) (w : Walk)
    → InSlots w
    → let w' = act_all names w in
      InSlots w'
      × (w'.added ≡ w.added + real names)
      × (w'.count + w'.overflow ≡ w.count + w.overflow + real names)
act_all-bounds names w h =
    let counts = act_all-counts names w in (act_all-InSlots names w h, counts.0, counts.1)

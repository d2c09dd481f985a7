-- ===== src/Generic/G310/Listed.antt =====
-- What the actor of generic/310 counts of a listing, in whatever order its names come.
use mathlib.Core.List.{Permᴰ}
use mathlib.Core.List.Permᴰ.{nil, cons, swap, trans}
use nfsplayground.Base.{
  ℕ, zero, suc, ◌+◌, ◌≡◌, ◌≢◌, refl, ◌∙◌, ap, arith, true, false, List, [], ◌∷◌, codes, same,
  Bool-cases, inl, inr,
}
use nfsplayground.Kernel.{Kernel}
use nfsplayground.Generic.G339.{is_dots}
use nfsplayground.Generic.G310.{entries, Walk, new_walk, is_entry, actor, act_all}

-- A name is one of the directory's own two, an entry, or neither.
data Sort (name : List ℕ) : Type 0 where
  own : is_dots name ≡ true → Sort name
  entry : is_dots name ≡ false → is_entry name ≡ true → Sort name
  other : is_dots name ≡ false → is_entry name ≡ false → Sort name

sort_of : (name : List ℕ) → Sort name
sort_of name = elim (Bool-cases (is_dots name)) [
  | inl e ↦ own e
  | inr e ↦ elim (Bool-cases (is_entry name)) [ inl e' ↦ entry e e' | inr e' ↦ other e e' ]
]

actor-swap : (a b : List ℕ) (w : Walk) → Sort a → Sort b → actor b (actor a w) ≡ actor a (actor b w)
unfolding actor
actor-swap a b w (own e) (own f) = rw (e, f) refl
actor-swap a b w (own e) (entry f f') = rw (e, f, f') refl
actor-swap a b w (own e) (other f f') = rw (e, f, f') refl
actor-swap a b w (entry e e') (own f) = rw (e, e', f) refl
actor-swap a b w (entry e e') (entry f f') = rw (e, e', f, f') refl
actor-swap a b w (entry e e') (other f f') = rw (e, e', f, f') refl
actor-swap a b w (other e e') (own f) = rw (e, e', f) refl
actor-swap a b w (other e e') (entry f f') = rw (e, e', f, f') refl
actor-swap a b w (other e e') (other f f') = rw (e, e', f, f') refl

-- The order of the names makes no difference.
act_all-Perm : {a b : List (List ℕ)} → Permᴰ a b → (w : Walk) → act_all a w ≡ act_all b w
unfolding act_all
act_all-Perm nil w = refl
act_all-Perm (cons {a = x} {b = y} {l₂ = l} e p) w =
    act_all-Perm p (actor x w) ∙ ap (λ n. act_all l (actor n w)) e
act_all-Perm (swap {a = x} {b = y} {a' = z} {l = l} e e') w =
    ap (act_all l) (actor-swap x y w (sort_of x) (sort_of y))
    ∙ ap (λ n. act_all l (actor x (actor n w))) e'
    ∙ ap (λ n. act_all l (actor n (actor z w))) e
act_all-Perm (trans p q) w = act_all-Perm p w ∙ act_all-Perm q w

-- The names that create_entries makes, from `i` on: an `e` and a number each.
abbrev pub made : Kernel → ℕ → ℕ → List (List ℕ)
made K zero i = []
made K (suc left) i = (101 ∷ codes (K.decimal i)) ∷ made K left (suc i)

-- `.`, `..` and the entries
abbrev pub names : Kernel → List (List ℕ)
names K = (46 ∷ []) ∷ (46 ∷ 46 ∷ []) ∷ made K entries 0

entry_lem : (digits : List ℕ) → digits ≢ [] → is_entry (101 ∷ digits) ≡ true
entry_lem [] some = absurd (some refl)
entry_lem (d ∷ digits) some = refl

act_all-made :
    (K : Kernel) (left i : ℕ) (w : Walk)
    → ((j : ℕ) → codes (K.decimal j) ≢ [])
    → ((act_all (made K left i) w).entries_seen ≡ w.entries_seen + left)
      × ((act_all (made K left i) w).alien ≡ w.alien)
unfolding act_all actor same
act_all-made K zero i w digits = (omega arith, refl)
act_all-made K (suc left) i w digits =
    let e = entry_lem (codes (K.decimal i)) (digits i) in
    let w' : Walk = record w { total = w.total + 1; entries_seen = w.entries_seen + 1 } in
    let rest = act_all-made K left (suc i) w' digits in
    rw (act_all, e) (omega (arith, rest.0), rest.1)

-- A listing of the directory's names, in any order, has 32 entries and no other name.
pub listing-counted :
    (K : Kernel) {all : List (List ℕ)}
    → ((j : ℕ) → codes (K.decimal j) ≢ [])
    → Permᴰ all (names K)
    → ((act_all all new_walk).entries_seen ≡ entries) × ((act_all all new_walk).alien ≡ 0)
unfolding act_all actor same
listing-counted K digits order =
    rw (act_all-Perm order new_walk)
      (act_all-made K entries 0 (record { entries_seen = 0; alien = 0; total = 2 }) digits)

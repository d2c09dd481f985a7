-- ===== src/Kunit.antt =====
-- The control flow of a KUnit test case, as the ports in kunit/xfstests/generic use it: an assertion
-- that fails ends the case, an expectation that fails is counted and the case goes on.
pub mod Parts
use nfsplayground.Base.{
  ℕ, zero, suc, Bool, true, false, Option, none, some, List, [], ◌∷◌, State, ◌≡◌, refl, ◌≢◌, inl,
  inr, Option-cases, ◌&&◌, subst, sym, ap,
}

-- The result, the machine and the number of failures; `none` is a case that has ended.
abbrev pub Case : Type 0 → Type 0 → Type 0
Case S A = S → ℕ → Option A × S × ℕ

module _ {S : Type 0} where
  abbrev pub pass : {A : Type 0} → A → Case S A
  pass a s n = (some a, s, n)

  infixl 5 ◌>>=◌ ◌>>◌
  abbrev pub ◌>>=◌ : {A B : Type 0} → Case S A → (A → Case S B) → Case S B
  ◌>>=◌ m f s n = elim (m s n).0 [
    | none ↦ (none, (m s n).1, (m s n).2)
    | some a ↦ f a (m s n).1 (m s n).2
  ]

  abbrev pub ◌>>◌ : {B : Type 0} → Case S (Unit {0}) → Case S B → Case S B
  ◌>>◌ m k = m >>= (λ _. k)

  -- Code that asserts nothing.
  abbrev pub run : {A : Type 0} → State S A → Case S A
  run m s n = (some (m s).0, (m s).1, n)

  abbrev pub step : (S → S) → Case S (Unit {0})
  step f s n = (some tt, f s, n)

  -- KUNIT_ASSERT_TRUE and its kin
  abbrev pub assert : Bool → Case S (Unit {0})
  assert true s n = (some tt, s, n)
  assert false s n = (none, s, suc n)

  -- KUNIT_FAIL, and the assertions on a failed path
  abbrev pub abort : {A : Type 0} → Case S A
  abort s n = (none, s, suc n)

  -- KUNIT_EXPECT_TRUE and its kin
  abbrev pub expect : Bool → Case S (Unit {0})
  expect true s n = (some tt, s, n)
  expect false s n = (some tt, s, suc n)

  -- `for (i = at; i < at + left; i++)`
  unfoldable pub times : ℕ → ℕ → (ℕ → Case S (Unit {0})) → Case S (Unit {0})
  times zero i body = pass tt
  times (suc left) i body = body i >> times left (suc i) body

  pub each : {A : Type 0} → List A → (A → Case S (Unit {0})) → Case S (Unit {0})
  each [] body = pass tt
  each (a ∷ rest) body = body a >> each rest body

  -- kunit_add_action_or_reset, asserted to return 0: the action runs when the case ends, however it
  -- ends; or at once, and the case ends, if there is no memory for it.
  abbrev pub with_action : Bool → (S → S) → Case S (Unit {0}) → Case S (Unit {0})
  with_action true action body s n = ((body s n).0, action (body s n).1, (body s n).2)
  with_action false action body s n = (none, action s, suc n)

pub none≢some : {B : Type 0} (b : B) → none ≢ some b
none≢some b e = cc

-- A case that went through passed its first part and went on from there.
pub bind-some :
    {S A B : Type 0} (m : Case S A) (f : A → Case S B) (s : S) (n : ℕ) (b : B)
    → ((m >>= f) s n).0 ≡ some b
    → (a : A) × ((m s n).0 ≡ some a) × ((f a (m s n).1 (m s n).2).0 ≡ some b)
bind-some m f s n b h = elim (Option-cases (m s n).0) [
  | inl ended ↦ absurd (none≢some b (rw (ended, ◌>>=◌) at h))
  | inr (a, went) ↦ (a, went, rw (went, ◌>>=◌) at h)
]

-- A call whose result passes its assertion.
pub run-assert :
    {S A B : Type 0} (m : State S A) (p : A → Bool) (k : A → Case S B) (s : S) (n : ℕ)
    → p (m s).0 ≡ true
    → (run m >>= (λ a. assert (p a) >> k a)) s n ≡ k (m s).0 (m s).1 n
run-assert m p k s n h = rw (◌>>=◌, ◌>>◌, run, assert, h, h) refl

-- A part that went through, and the part after it.
pub went :
    {S B : Type 0} (m : Case S (Unit {0})) (k : Case S B) (s s' : S) (n n' : ℕ)
    → m s n ≡ (some tt, s', n')
    → (m >> k) s n ≡ k s' n'
went m k s s' n n' e = rw (◌>>◌, ◌>>=◌, ap (λ r. r.0) e) (ap (λ r. k r.1 r.2) e)

pub went_with :
    {S A B : Type 0} (m : Case S A) (k : A → Case S B) (s : S) (n : ℕ) (a : A)
    → (m s n).0 ≡ some a
    → (m s n).2 ≡ n
    → (m >>= k) s n ≡ k a (m s n).1 n
went_with m k s n a e e' = rw (◌>>=◌, e) (ap (λ c. k a (m s n).1 c) e')

pub went_fine :
    {S B : Type 0} (m : Case S (Unit {0})) (k : Case S B) (s : S) (n : ℕ)
    → (m s n).0 ≡ some tt
    → (m s n).2 ≡ n
    → (m >> k) s n ≡ k (m s n).1 n
went_fine m k s n e e' = went_with m (λ _. k) s n tt e e'

-- A part of a case that went through, without a failure, to a state of a kind.
abbrev pub Fine : {S : Type 0} → (S → Type 0) → ℕ → Option (Unit {0}) × S × ℕ → Type 0
Fine I n r = (r.0 ≡ some tt) × (r.2 ≡ n) × I r.1

module _ {S : Type 0} (I J : S → Type 0) where
  -- One part after another.
  pub Fine-then :
      (m k : Case S (Unit {0})) (s : S) (n : ℕ)
      → Fine I n (m s n)
      → ((s' : S) → I s' → Fine J n (k s' n))
      → Fine J n ((m >> k) s n)
  Fine-then m k s n first next =
      rw (◌>>◌, ◌>>=◌, first.0)
        (subst (λ c. Fine J n (k (m s n).1 c)) (sym first.1) (next (m s n).1 first.2))

-- From a state of one kind, a part goes through, without a failure, to a state of another.
abbrev pub Leads : {S : Type 0} → (S → Type 0) → (S → Type 0) → Case S (Unit {0}) → Type 0
Leads I J m = (s : _) (n : ℕ) → I s → Fine J n (m s n)

pub Leads-then :
    {S : Type 0} (I J L : S → Type 0) (m k : Case S (Unit {0}))
    → Leads I J m
    → Leads J L k
    → Leads I L (m >> k)
Leads-then I J L m k first next s n i = Fine-then J L m k s n (first s n i) (λ s' j. next s' n j)

-- Tests that hold.
pub assert-Fine :
    {S : Type 0} (I : S → Type 0) (b : Bool) (s : S) (n : ℕ)
    → b ≡ true
    → I s
    → Fine I n (assert b s n)
assert-Fine I b s n h i = rw h (refl, refl, i)

pub expect-Fine :
    {S : Type 0} (I : S → Type 0) (b : Bool) (s : S) (n : ℕ)
    → b ≡ true
    → I s
    → Fine I n (expect b s n)
expect-Fine I b s n h i = rw h (refl, refl, i)

-- A call whose result passes its assertion, and what comes after it.
pub Fine-run :
    {S A : Type 0} (J : S → Type 0) (m : State S A) (p : A → Bool) (k : A → Case S (Unit {0}))
    (s : S) (n : ℕ)
    → p (m s).0 ≡ true
    → Fine J n (k (m s).0 (m s).1 n)
    → Fine J n ((run m >>= (λ a. assert (p a) >> k a)) s n)
Fine-run J m p k s n h fine = rw (run-assert m p k s n h) fine

pub Fine-run_expected :
    {S A : Type 0} (J : S → Type 0) (m : State S A) (p : A → Bool) (k : A → Case S (Unit {0}))
    (s : S) (n : ℕ)
    → p (m s).0 ≡ true
    → Fine J n (k (m s).0 (m s).1 n)
    → Fine J n ((run m >>= (λ a. expect (p a) >> k a)) s n)
Fine-run_expected J m p k s n h fine = rw (◌>>=◌, ◌>>◌, run, expect, h, h) fine

-- For every element that passes a test.
abbrev pub all_b : {A : Type 0} → (A → Bool) → List A → Bool
all_b p [] = true
all_b p (a ∷ rest) = p a && all_b p rest

pub and_true : (a b : Bool) → a && b ≡ true → (a ≡ true) × (b ≡ true)
and_true true b e = (refl, e)
and_true false b e = cc

pub each-Fine :
    {S A : Type 0} (I : S → Type 0) (p : A → Bool) (body : A → Case S (Unit {0}))
    → ((a : A) (s : S) (n : ℕ) → p a ≡ true → I s → Fine I n (body a s n))
    → (xs : List A) (s : S) (n : ℕ) → all_b p xs ≡ true
    → I s
    → Fine I n (each xs body s n)
unfolding each
each-Fine I p body one_fine [] s n h i = (refl, refl, i)
each-Fine I p body one_fine (a ∷ rest) s n h i =
    let ok = and_true (p a) (all_b p rest) h in
    Fine-then I I (body a) (each rest body) s n (one_fine a s n ok.0 i)
      (λ s' i'. each-Fine I p body one_fine rest s' n ok.1 i')

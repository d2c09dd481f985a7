-- ===== src/Base/Monad.antt =====
-- Stateful code: a function from the state to a result and the new state.

abbrev pub State : Type 0 → Type 0 → Type 0
State S A = S → A × S

module _ {S : Type 0} where
  abbrev pub pure : {A : Type 0} → A → State S A
  pure a s = (a, s)

  infixl 5 ◌>>=◌ ◌>>◌
  abbrev pub ◌>>=◌ : {A B : Type 0} → State S A → (A → State S B) → State S B
  ◌>>=◌ m f s = f (m s).0 (m s).1

  abbrev pub ◌>>◌ : {B : Type 0} → State S (Unit {0}) → State S B → State S B
  ◌>>◌ m k s = k (m s).1

  -- A call of a C function that returns nothing.
  abbrev pub call : (S → S) → State S (Unit {0})
  call f s = (tt, f s)

  -- The state after a run.
  abbrev pub after : {A : Type 0} → State S A → S → S
  after m s = (m s).1

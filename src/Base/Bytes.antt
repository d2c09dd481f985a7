-- ===== src/Base/Bytes.antt =====
-- Bytes in buffers and texts: memcmp, strings that end in a zero byte, and the codes of a text.
use Prim.Native.Nat.{ℕ}
use Prim.Native.Char.{code}
use Prim.Native.String.{String}
use mathlib.Core.Path.{◌≡◌, refl}
use mathlib.Core.Logic.{◌↔◌, inl, inr}
use mathlib.Core.Bool.{Bool, true, false}
use mathlib.Core.List.{List, [], ◌∷◌, ◌++◌}
use nfsplayground.Base.Tests.{◌==◌, ==_iff, if◌then◌else◌, Bool-cases}

-- memcmp of two buffers of one length: whether they are the same
unfoldable pub same : List ℕ → List ℕ → Bool
same [] [] = true
same [] (_ ∷ _) = false
same (_ ∷ _) [] = false
same (a ∷ want) (b ∷ got) = if a == b then same want got else false

same-eq : (xs ys : List ℕ) → same xs ys ≡ true → xs ≡ ys
unfolding same
same-eq [] [] h = refl
same-eq [] (y ∷ ys) h = cc
same-eq (x ∷ xs) [] h = cc
same-eq (x ∷ xs) (y ∷ ys) h = elim (Bool-cases (x == y)) [
  | inl e ↦ let a = (==_iff x y).0 e in let b = same-eq xs ys (rw e at h) in cc
  | inr e ↦ let h' = rw e at h in cc
]

same_refl : (xs : List ℕ) → same xs xs ≡ true
unfolding same
same_refl [] = refl
same_refl (x ∷ xs) = rw ((==_iff x x).1 refl) (same_refl xs)

pub same_iff : (xs ys : List ℕ) → (same xs ys ≡ true) ↔ (xs ≡ ys)
same_iff xs ys = (same-eq xs ys, λ e. rw e (same_refl ys))

-- The bytes of a text that is ASCII.
abbrev pub codes : String → List ℕ
codes String.[] = []
codes (String.◌∷◌ c s) = code c ∷ codes s

-- The string that begins at a pointer: what stands before the first zero byte.
pub c_string : List ℕ → List ℕ
c_string [] = []
c_string (c ∷ cs) = if c == 0 then [] else c ∷ c_string cs

-- Bytes with no zero among them.
abbrev pub NoZero : List ℕ → Type 0
NoZero [] = Unit
NoZero (c ∷ cs) = ((c == 0) ≡ false) × NoZero cs

pub c_string-append : (name rest : List ℕ) → NoZero name → c_string (name ++ 0 ∷ rest) ≡ name
unfolding c_string
c_string-append [] rest h = refl
c_string-append (c ∷ cs) rest h = rw h.0 (rw (c_string-append cs rest h.1))

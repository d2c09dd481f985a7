-- ===== src/Base/Int.antt =====
-- The C `int`, `ssize_t` and `loff_t` values that the code returns and compares: zero or a count, or
-- a negated errno. `negsuc n` is -(n + 1).
use Prim.Native.Nat.{ℕ, zero, suc}
use mathlib.Core.Path.{◌≡◌, refl}
use mathlib.Core.Logic.{◌≢◌, ◌↔◌, ◌⊎◌, inl, inr}
use mathlib.Core.Bool.{Bool, true, false}
use native.Mathlib.Omega.{arith}
use nfsplayground.Base.Tests.{◌==◌, ltb}

pub data ℤ : Type 0 where
  pos : ℕ → ℤ
  negsuc : ℕ → ℤ

-- `if (err)`
abbrev pub nonzero : ℤ → Bool
nonzero (pos zero) = false
nonzero (pos (suc n)) = true
nonzero (negsuc n) = true

-- `err < 0`
abbrev pub negative : ℤ → Bool
negative (pos n) = false
negative (negsuc n) = true

-- `n > 0`
abbrev pub positive : ℤ → Bool
positive (pos zero) = false
positive (pos (suc n)) = true
positive (negsuc n) = false

infix 50 ◌==ℤ◌
abbrev pub ◌==ℤ◌ : ℤ → ℤ → Bool
pos m ==ℤ pos n = m == n
pos m ==ℤ negsuc n = false
negsuc m ==ℤ pos n = false
negsuc m ==ℤ negsuc n = m == n

pub ==ℤ_iff : (a b : ℤ) → ((a ==ℤ b) ≡ true) ↔ (a ≡ b)
==ℤ_iff (pos m) (pos n) = ground arith
==ℤ_iff (pos m) (negsuc n) = ground arith
==ℤ_iff (negsuc m) (pos n) = ground arith
==ℤ_iff (negsuc m) (negsuc n) = ground arith

-- `a > b`
abbrev pub gtℤ : ℤ → ℤ → Bool
gtℤ (pos m) (pos n) = ltb n m
gtℤ (pos m) (negsuc n) = true
gtℤ (negsuc m) (pos n) = false
gtℤ (negsuc m) (negsuc n) = ltb m n

pub gtℤ_trans : (a b c : ℤ) → gtℤ a b ≡ true → gtℤ b c ≡ true → gtℤ a c ≡ true
gtℤ_trans (pos a) (pos b) (pos c) h k = ground (arith, h, k)
gtℤ_trans (pos a) (pos b) (negsuc c) h k = refl
gtℤ_trans (pos a) (negsuc b) (pos c) h k = cc
gtℤ_trans (pos a) (negsuc b) (negsuc c) h k = refl
gtℤ_trans (negsuc a) (pos b) c h k = cc
gtℤ_trans (negsuc a) (negsuc b) (pos c) h k = cc
gtℤ_trans (negsuc a) (negsuc b) (negsuc c) h k = ground (arith, h, k)

-- The negated errnos.
abbrev pub e_noent : ℤ
e_noent = negsuc 1

abbrev pub e_io : ℤ
e_io = negsuc 4

abbrev pub e_nomem : ℤ
e_nomem = negsuc 11

abbrev pub e_busy : ℤ
e_busy = negsuc 15

abbrev pub e_exist : ℤ
e_exist = negsuc 16

abbrev pub e_notdir : ℤ
e_notdir = negsuc 19

abbrev pub e_isdir : ℤ
e_isdir = negsuc 20

abbrev pub e_inval : ℤ
e_inval = negsuc 21

abbrev pub e_range : ℤ
e_range = negsuc 33

abbrev pub e_notempty : ℤ
e_notempty = negsuc 38

abbrev pub e_timedout : ℤ
e_timedout = negsuc 109

-- A count that is known to be positive, as the loops that subtract it read it.
abbrev pub count_of : ℤ → ℕ
count_of (pos n) = n
count_of (negsuc n) = 0

pub ℤ-cases : (a : ℤ) → (a ≡ pos 0) ⊎ ((n : ℕ) × (a ≡ pos (suc n))) ⊎ ((n : ℕ) × (a ≡ negsuc n))
ℤ-cases (pos zero) = inl refl
ℤ-cases (pos (suc n)) = inr (inl (n, refl))
ℤ-cases (negsuc n) = inr (inr (n, refl))

pub ne_of_==ℤ : (a b : ℤ) → (a ==ℤ b) ≡ false → a ≢ b
ne_of_==ℤ a b h e = cc (h, (==ℤ_iff a b).1 e)

-- ===== src/Base/Bits.antt =====
-- Laws of exclusive or, digit by digit and below a power of two.
use Prim.Native.Nat.{
  ℕ, zero, suc, ◌+◌, ◌*◌, ◌/◌, ◌%◌, ◌^◌, ◌≤◌, ◌<◌, bit_xor, bit_xor-bitwise, digits, differ,
}
use mathlib.Core.Path.{◌≡◌, refl, sym, ap, ◌∙◌}
use native.Mathlib.Omega.{arith}
use native.Mathlib.Nat.{
  mul-add-mod_self_right, mul_assoc, div-add-mod', mod-eq_of_lt, mod-lt, pow-suc, one-le-pow,
}

differ_parity : (x y : ℕ) → x < 2 → y < 2 → differ x y ≡ (x + y) % 2
differ_parity zero y p q = omega (arith, p, q)
differ_parity (suc zero) zero p q = refl
differ_parity (suc zero) (suc zero) p q = refl
differ_parity (suc zero) (suc (suc y)) p q = absurd (omega arith)
differ_parity (suc (suc x)) y p q = absurd (omega arith)

-- The count of digits to go does not matter once it is enough.
digits-enough :
    (n k a b : ℕ) → a ≤ n → a ≤ k → digits (λ b. b) differ n a b ≡ digits (λ b. b) differ k a b
digits-enough zero zero a b p q = refl
digits-enough zero (suc k) zero b p q = refl
digits-enough zero (suc k) (suc a) b p q = absurd (omega arith)
digits-enough (suc n) zero zero b p q = refl
digits-enough (suc n) (suc k) zero b p q = refl
digits-enough (suc n) zero (suc a) b p q = absurd (omega arith)
digits-enough (suc n) (suc k) (suc a) b p q =
    ap (λ d. d * 2 + differ (suc a % 2) (b % 2))
      (digits-enough n k (suc a / 2) (b / 2) (omega arith) (omega arith))

pub bit_xor_step : (a b : ℕ) → bit_xor a b ≡ bit_xor (a / 2) (b / 2) * 2 + (a + b) % 2
bit_xor_step zero b = omega (arith, bit_xor-bitwise 0 b, bit_xor-bitwise 0 (b / 2))
bit_xor_step (suc a) b = omega (
  arith,
  bit_xor-bitwise (suc a) b,
  bit_xor-bitwise (suc a / 2) (b / 2),
  digits-enough a (suc a / 2) (suc a / 2) (b / 2) (omega arith) (omega arith),
  differ_parity (suc a % 2) (b % 2) (omega arith) (omega arith),
)

mod_double : (n p : ℕ) → 0 < p → n % (p * 2) ≡ n / 2 % p * 2 + n % 2
mod_double n p h =
    let q = n / 2 / p in
    let r = n / 2 % p in
    let low = r * 2 + n % 2 in
    let split : n ≡ q * (p * 2) + low = omega (arith, div-add-mod' (n / 2) p, mul_assoc q p 2) in
    ap (λ x. x % (p * 2)) split
    ∙ mul-add-mod_self_right q (p * 2) low
    ∙ mod-eq_of_lt (omega (arith, mod-lt (n / 2) h))

mod_pow : (k n : ℕ) → n % 2 ^ suc k ≡ n / 2 % 2 ^ k * 2 + n % 2
mod_pow k n = rw (pow-suc 2 k) (mod_double n (2 ^ k) (one-le-pow k 2 (omega arith)))

bit_xor-zero_enough : (n a : ℕ) → a ≤ n → bit_xor a 0 ≡ a
bit_xor-zero_enough n zero h = refl
bit_xor-zero_enough zero (suc a) h = absurd (omega arith)
bit_xor-zero_enough (suc n) (suc a) h =
    omega (arith, bit_xor_step (suc a) 0, bit_xor-zero_enough n (suc a / 2) (omega arith))

bit_xor-zero : (a : ℕ) → bit_xor a 0 ≡ a
bit_xor-zero a = bit_xor-zero_enough a a (omega arith)

-- A number below 2 ^ k takes the place of the k low digits that are 0.
pub bit_xor-low : (k a d : ℕ) → d < 2 ^ k → bit_xor (a * 2 ^ k) d ≡ a * 2 ^ k + d
bit_xor-low zero a zero h = bit_xor-zero (a * 2 ^ zero) ∙ omega arith
bit_xor-low zero a (suc d) h = absurd (omega (arith, h))
bit_xor-low (suc k) a d h =
    let t = a * 2 ^ k in
    let doubled : a * 2 ^ suc k ≡ t * 2 =
      ap (λ x. a * x) (pow-suc 2 k) ∙ sym (mul_assoc a (2 ^ k) 2) in
    let halved : t * 2 / 2 ≡ t = omega arith in
    let step = rw halved at (bit_xor_step (t * 2) d) in
    let half = bit_xor-low k a (d / 2) (omega (arith, h, pow-suc 2 k)) in
    rw doubled (omega (arith, step, half))

-- If of each of the k low digits of two numbers exactly one is 1, their exclusive or has k ones.
pub bit_xor-ones : (k a b : ℕ) → a % 2 ^ k + b % 2 ^ k + 1 ≡ 2 ^ k → bit_xor a b % 2 ^ k + 1 ≡ 2 ^ k
bit_xor-ones zero a b h = omega arith
bit_xor-ones (suc k) a b h =
    let x = bit_xor a b in
    let step = bit_xor_step a b in
    let half =
      bit_xor-ones k (a / 2) (b / 2) (omega (arith, h, mod_pow k a, mod_pow k b, pow-suc 2 k)) in
    let h' : x / 2 ≡ bit_xor (a / 2) (b / 2) = omega (arith, step) in
    let half' = rw (sym h') at half in
    omega (arith, h, mod_pow k a, mod_pow k b, mod_pow k x, pow-suc 2 k, step, half')

-- Exclusive or with k ones is the complement of the k low digits.
pub bit_xor-complement :
    (k a b : ℕ) → b % 2 ^ k + 1 ≡ 2 ^ k → bit_xor a b % 2 ^ k + a % 2 ^ k + 1 ≡ 2 ^ k
bit_xor-complement zero a b h = omega arith
bit_xor-complement (suc k) a b h =
    let x = bit_xor a b in
    let step = bit_xor_step a b in
    let half = bit_xor-complement k (a / 2) (b / 2) (omega (arith, h, mod_pow k b, pow-suc 2 k)) in
    let h' : x / 2 ≡ bit_xor (a / 2) (b / 2) = omega (arith, step) in
    let half' = rw (sym h') at half in
    omega (arith, h, mod_pow k a, mod_pow k b, mod_pow k x, pow-suc 2 k, step, half')

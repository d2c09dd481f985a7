-- ===== src/Generic/G006/Names.antt =====
-- The names of generic/006 are all different.
use text.Mathlib.TextLemmas.{append_cancel_left, head-eq_of_cons-eq, tail-eq_of_cons-eq}
use Prim.Native.Char.{code}
use Prim.Native.String.{◌++◌ as ◌<>◌}
use nfsplayground.Base.{ℕ, zero, suc, ◌+◌, ◌/◌, ◌%◌, ◌^◌, ◌<◌, ◌≡◌, refl, sym, ◌∙◌, ap, arith}
use nfsplayground.Generic.G006.{root, letter, letters, name}

code-letter : (d : ℕ) → d < 4 → code (letter d) ≡ 97 + d
unfolding letter
code-letter zero h = refl
code-letter (suc zero) h = refl
code-letter (suc (suc zero)) h = refl
code-letter (suc (suc (suc zero))) h = refl
code-letter (suc (suc (suc (suc d)))) h = absurd (omega (arith, h))

-- Equal letters come from equal digits.
digit-eq :
    (i j k : ℕ) → letter (i / 4 ^ k % 4) ≡ letter (j / 4 ^ k % 4) → i / 4 ^ k % 4 ≡ j / 4 ^ k % 4
digit-eq i j k e =
    let a = code-letter (i / 4 ^ k % 4) (omega arith) in
    let b = code-letter (j / 4 ^ k % 4) (omega arith) in
    let c = sym a ∙ ap code e ∙ b in omega arith

-- Two indices below 4096 with the same name are equal: the case creates 4096 different files.
name-injective : (i j : ℕ) → i < 4096 → j < 4096 → name i ≡ name j → i ≡ j
unfolding name letters
name-injective i j hi hj e =
    let t0 = append_cancel_left (root <> "/") (letters 6 0 i) (letters 6 0 j) e in
    let t1 = tail-eq_of_cons-eq t0 in
    let t2 = tail-eq_of_cons-eq t1 in
    let t3 = tail-eq_of_cons-eq t2 in
    let t4 = tail-eq_of_cons-eq t3 in
    let t5 = tail-eq_of_cons-eq t4 in
    let d0 = digit-eq i j 0 (head-eq_of_cons-eq t0) in
    let d1 = digit-eq i j 1 (head-eq_of_cons-eq t1) in
    let d2 = digit-eq i j 2 (head-eq_of_cons-eq t2) in
    let d3 = digit-eq i j 3 (head-eq_of_cons-eq t3) in
    let d4 = digit-eq i j 4 (head-eq_of_cons-eq t4) in
    let d5 = digit-eq i j 5 (head-eq_of_cons-eq t5) in omega arith

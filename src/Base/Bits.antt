-- ===== src/Base/Bits.antt =====
-- When `|` and `^` of two numbers are zero, at every width.
use Prim.Native.Nat.{
  ℕ, zero, suc, ◌+◌, ◌*◌, ◌/◌, ◌%◌, ◌≤◌, ◌<◌, max, bit_or, bit_xor, digits, bitwise, differ,
  bit_or-bitwise, bit_xor-bitwise,
}
use mathlib.Core.Path.{◌≡◌, refl}
use native.Mathlib.Nat.{le_refl}
use native.Mathlib.Omega.{arith}

-- The fuel of the native operations' definition does not matter once it covers the first number.
module _ (z : ℕ → ℕ) (f : ℕ → ℕ → ℕ) where
  fuel_irrelevant : (n m a b : ℕ) → a ≤ n → a ≤ m → digits z f n a b ≡ digits z f m a b
  fuel_irrelevant zero zero a b p q = refl
  fuel_irrelevant zero (suc m) zero b p q = refl
  fuel_irrelevant zero (suc m) (suc a) b p q = absurd (omega arith)
  fuel_irrelevant (suc n) zero zero b p q = refl
  fuel_irrelevant (suc n) zero (suc a) b p q = absurd (omega arith)
  fuel_irrelevant (suc n) (suc m) zero b p q = refl
  fuel_irrelevant (suc n) (suc m) (suc a) b p q =
      rw (fuel_irrelevant n m (suc a / 2) (b / 2) (omega arith) (omega arith))

  lowest_digit :
      (a b : ℕ)
      → bitwise z f (suc a) b ≡ bitwise z f (suc a / 2) (b / 2) * 2 + f (suc a % 2) (b % 2)
  lowest_digit a b =
      omega (arith, fuel_irrelevant a (suc a / 2) (suc a / 2) (b / 2) (omega arith) (le_refl _))

pub bit_or_zero : (b : ℕ) → bit_or 0 b ≡ b
bit_or_zero b = bit_or-bitwise 0 b

bit_xor_zero : (b : ℕ) → bit_xor 0 b ≡ b
bit_xor_zero b = bit_xor-bitwise 0 b

bit_or_digit :
    (a b : ℕ) → bit_or (suc a) b ≡ bit_or (suc a / 2) (b / 2) * 2 + max (suc a % 2) (b % 2)
bit_or_digit a b = simp bit_or-bitwise (lowest_digit (λ y. y) max a b)

bit_xor_digit :
    (a b : ℕ) → bit_xor (suc a) b ≡ bit_xor (suc a / 2) (b / 2) * 2 + differ (suc a % 2) (b % 2)
bit_xor_digit a b = simp bit_xor-bitwise (lowest_digit (λ y. y) differ a b)

bit_or-pos_below : (n a b : ℕ) → a ≤ n → bit_or a b ≡ 0 → (a ≡ 0) × (b ≡ 0)
bit_or-pos_below n zero b h e = omega (arith, bit_or_zero b)
bit_or-pos_below zero (suc a) b h e = absurd (omega arith)
bit_or-pos_below (suc n) (suc a) b h e =
    let q : bit_or (suc a / 2) (b / 2) ≡ 0 = omega (arith, bit_or_digit a b) in
    let ih = bit_or-pos_below n (suc a / 2) (b / 2) (omega arith) q in
    omega (arith, bit_or_digit a b)

-- `a | b` is zero only for two zeros.
pub bit_or-eq-zero : (a b : ℕ) → bit_or a b ≡ 0 → (a ≡ 0) × (b ≡ 0)
bit_or-eq-zero a b = bit_or-pos_below a a b (omega arith)

differ_zero : (x y : ℕ) → x < 2 → y < 2 → differ x y ≡ 0 → x ≡ y
differ_zero x y hx hy e = ground arith

bit_xor_below : (n a b : ℕ) → a ≤ n → bit_xor a b ≡ 0 → a ≡ b
bit_xor_below n zero b h e = omega (arith, bit_xor_zero b)
bit_xor_below zero (suc a) b h e = absurd (omega arith)
bit_xor_below (suc n) (suc a) b h e =
    let q : bit_xor (suc a / 2) (b / 2) ≡ 0 = omega (arith, bit_xor_digit a b) in
    let ih = bit_xor_below n (suc a / 2) (b / 2) (omega arith) q in
    let d : differ (suc a % 2) (b % 2) ≡ 0 = omega (arith, bit_xor_digit a b) in
    let low = differ_zero (suc a % 2) (b % 2) (omega arith) (omega arith) d in omega arith

-- `a ^ b` is zero only for equal numbers.
pub bit_xor-eq-zero : (a b : ℕ) → bit_xor a b ≡ 0 → a ≡ b
bit_xor-eq-zero a b = bit_xor_below a a b (omega arith)

differ_same : (x : ℕ) → x < 2 → differ x x ≡ 0
differ_same zero h = refl
differ_same (suc zero) h = refl
differ_same (suc (suc x)) h = absurd (omega arith)

bit_xor_self_below : (n a : ℕ) → a ≤ n → bit_xor a a ≡ 0
bit_xor_self_below n zero h = refl
bit_xor_self_below zero (suc a) h = absurd (omega arith)
bit_xor_self_below (suc n) (suc a) h =
    let ih = bit_xor_self_below n (suc a / 2) (omega arith) in
    omega (arith, bit_xor_digit a (suc a), differ_same (suc a % 2) (omega arith))

pub bit_xor_self : (a : ℕ) → bit_xor a a ≡ 0
bit_xor_self a = bit_xor_self_below a a (omega arith)

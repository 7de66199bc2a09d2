-- ===== src/Base/Int.antt =====
-- Rust's signed integers over the native numbers, and the wrap of a 64-bit result.
use Prim.Native.Nat.{ℕ, suc, ◌+◌, ◌-◌, ◌^◌, ◌<◌}
use mathlib.Core.Path.{◌≡◌}
use mathlib.Core.Bool.{Bool}
use native.Mathlib.Omega.{arith}
use paratro_sdk_rust.Base.Tests.{leb, ltb, if◌then◌else◌}

-- `negsuc n` is -(n + 1).
pub data ℤ : Type 0 where
  pos : ℕ → ℤ
  negsuc : ℕ → ℤ

abbrev pub pos_part : ℤ → ℕ
pos_part (pos n) = n
pos_part (negsuc n) = 0

abbrev pub neg_part : ℤ → ℕ
neg_part (pos n) = 0
neg_part (negsuc n) = suc n

-- a - b, as an integer.
abbrev pub sub_ℕ : ℕ → ℕ → ℤ
sub_ℕ a b = if leb b a then pos (a - b) else negsuc (b - a - 1)

infixl 65 ◌-ℤ◌
unfoldable pub ◌-ℤ◌ : ℤ → ℤ → ℤ
a -ℤ b = sub_ℕ (pos_part a + neg_part b) (neg_part a + pos_part b)

-- The distance of two integers, a number.
abbrev pub dist : ℤ → ℤ → ℕ
dist a b =
    (pos_part a + neg_part b - (pos_part b + neg_part a))
    + (pos_part b + neg_part a - (pos_part a + neg_part b))

-- `unsigned_abs()`
abbrev pub unsigned_abs : ℤ → ℕ
unsigned_abs (pos n) = n
unsigned_abs (negsuc n) = suc n

-- `max(0) as u64` of a value that fits
abbrev pub max_zero : ℤ → ℕ
max_zero (pos n) = n
max_zero (negsuc n) = 0

-- The values of `i64` and `i32`.
abbrev pub IsI64 : ℤ → Type 0
IsI64 (pos n) = n < 2 ^ 63
IsI64 (negsuc n) = n < 2 ^ 63

abbrev pub IsI32 : ℤ → Type 0
IsI32 (pos n) = n < 2 ^ 31
IsI32 (negsuc n) = n < 2 ^ 31

abbrev pub in_i32 : ℤ → Bool
in_i32 (pos n) = ltb n (2 ^ 31)
in_i32 (negsuc n) = ltb n (2 ^ 31)

abbrev pub in_i64 : ℤ → Bool
in_i64 (pos n) = ltb n (2 ^ 63)
in_i64 (negsuc n) = ltb n (2 ^ 63)

-- A result of one `i64` operation brought back into range, as two's complement does it.
unfoldable pub wrap_i64 : ℤ → ℤ
wrap_i64 (pos n) = if ltb n (2 ^ 63) then pos n else sub_ℕ n (2 ^ 64)
wrap_i64 (negsuc n) = if ltb n (2 ^ 63) then negsuc n else sub_ℕ (2 ^ 64) (suc n)

-- `a - b` on `i64` in a build without overflow checks.
unfoldable pub sub_i64 : ℤ → ℤ → ℤ
unfolding wrap_i64 ◌-ℤ◌
sub_i64 a b = wrap_i64 (a -ℤ b)

-- Where the true difference fits, it is the result.
pub sub_i64_of_fits : (a b : ℤ) → IsI64 (a -ℤ b) → sub_i64 a b ≡ a -ℤ b
unfolding sub_i64
sub_i64_of_fits a b h = ground arith

pub unsigned_abs-sub : (a b : ℤ) → unsigned_abs (a -ℤ b) ≡ dist a b
unfolding ◌-ℤ◌
unsigned_abs-sub a b = ground arith

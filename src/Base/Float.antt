-- ===== src/Base/Float.antt =====
-- Rust's conversion of an integer to an `f64`, given as its bit pattern.
use Prim.Native.Nat.{ℕ, zero, suc, ◌+◌, ◌-◌, ◌*◌, ◌/◌, ◌%◌, ◌^◌}
use mathlib.Core.Bool.{◌&&◌, ◌||◌}
use paratro_sdk_rust.Base.Tests.{◌==◌, ltb, leb, if◌then◌else◌}
use paratro_sdk_rust.Base.Int.{ℤ, pos, negsuc}

-- The place of the highest bit of a number below 2^fuel
abbrev high_bit : (fuel : ℕ) → ℕ → ℕ
high_bit zero n = 0
high_bit (suc fuel) n = let rest = high_bit fuel n in if leb (2 ^ fuel) n then fuel else rest

-- One more if what is cut off is above a half, or is a half after an odd digit
abbrev rounding : (kept cut half : ℕ) → ℕ
rounding kept cut half = if ltb half cut || (cut == half && kept % 2 == 1) then 1 else 0

-- The 53 highest bits, rounded to nearest, ties to even
abbrev mantissa : (high n : ℕ) → ℕ
mantissa high n =
    if leb high 52
    then n * 2 ^ (52 - high)
    else n / 2 ^ (high - 52)
      + rounding (n / 2 ^ (high - 52)) (n % 2 ^ (high - 52)) (2 ^ (high - 53))

-- The exponent, then the mantissa without its highest bit; a carry goes into the exponent.
abbrev pub f64_of_nat : ℕ → ℕ
f64_of_nat n = if n == 0 then 0 else (high_bit 64 n + 1022) * 2 ^ 52 + mantissa (high_bit 64 n) n

abbrev pub f64_of_int : ℤ → ℕ
f64_of_int (pos n) = f64_of_nat n
f64_of_int (negsuc n) = 2 ^ 63 + f64_of_nat (suc n)

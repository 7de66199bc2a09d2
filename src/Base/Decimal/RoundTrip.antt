-- ===== src/Base/Decimal/RoundTrip.antt =====
-- Printing an integer and reading it back, and which characters a decimal text has.
use mathlib.Core.Path.{◌≡◌, sym, ap, ◌∙◌}
use mathlib.Core.Logic.{inl, inr}
use mathlib.Core.Option.{some}
use mathlib.Core.List.{[], ◌∷◌, ◌++◌, append_assoc, append-nil}
use Prim.Native.Nat.{ℕ, zero, suc, ◌+◌, ◌-◌, ◌*◌, ◌/◌, ◌%◌, ◌≤◌, ◌<◌}
use native.Mathlib.Omega.{arith}
use paratro_sdk_rust.Base.Tests.{ltb, Bool-cases}
use paratro_sdk_rust.Base.Int.{ℤ, pos, negsuc, IsI64}
use paratro_sdk_rust.Base.Str.{Str}
use paratro_sdk_rust.Base.Decimal.{
  digits_of, nat_to_string, to_string, scan, number, signed, parse_i64,
}

abbrev pub IsDigit : ℕ → Type 0
IsDigit c = (b'0' ≤ c) × (c ≤ b'9')

scan_digit :
    (c : ℕ) (s : Str) (acc m : ℕ)
    → IsDigit c
    → acc * 10 + (c - b'0') ≡ m
    → scan (c ∷ s) acc ≡ scan s m
unfolding scan
scan_digit c s acc m h e = rw (← e) (ground arith)

scan-digits_of : (fuel n : ℕ) (s : Str) → n < fuel → scan (digits_of fuel n ++ s) 0 ≡ scan s n
unfolding digits_of
scan-digits_of zero n s h = absurd (omega arith)
scan-digits_of (suc fuel) n s h = elim (Bool-cases (ltb n 10)) [
  | inl small ↦ rw small (scan_digit (b'0' + n) s 0 n (ground arith) (omega arith))
  | inr large ↦
      rw (large, append_assoc)
        (scan-digits_of fuel (n / 10) ((b'0' + n % 10) ∷ s) (ground arith)
          ∙ scan_digit (b'0' + n % 10) s (n / 10) n (omega arith) (omega arith))
]

-- The text of a number is of digits, and not empty.
abbrev IsNumeral : Str → Type 0
IsNumeral t = (c : ℕ) × (s : Str) × (t ≡ c ∷ s) × IsDigit c

digits_of-IsNumeral : (fuel n : ℕ) → IsNumeral (digits_of (suc fuel) n)
unfolding digits_of
digits_of-IsNumeral zero n = elim (Bool-cases (ltb n 10)) [
  | inl small ↦ (b'0' + n, [], rw small, ground arith)
  | inr large ↦ (b'0' + n % 10, [], rw large, omega arith)
]
digits_of-IsNumeral (suc fuel) n = elim (Bool-cases (ltb n 10)) [
  | inl small ↦ (b'0' + n, [], rw small, ground arith)
  | inr large ↦
      let (c, s, e, h) = digits_of-IsNumeral fuel (n / 10) in
      (c, s ++ (b'0' + n % 10) ∷ [], rw large (ap (λ t. t ++ (b'0' + n % 10) ∷ []) e), h)
]

nat_to_string-IsNumeral : (n : ℕ) → IsNumeral (nat_to_string n)
unfolding nat_to_string
nat_to_string-IsNumeral n = digits_of-IsNumeral n n

number_of_IsNumeral : (t : Str) → IsNumeral t → number t ≡ scan t 0
unfolding number
number_of_IsNumeral t (c, s, e, h) = rw e

scan-nat_to_string : (n : ℕ) → scan (nat_to_string n) 0 ≡ scan [] n
unfolding nat_to_string
scan-nat_to_string n =
    ap (λ t. scan t 0) (sym (append-nil _)) ∙ scan-digits_of (suc n) n [] (omega arith)

number-nat_to_string : (n : ℕ) → number (nat_to_string n) ≡ some n
unfolding scan
number-nat_to_string n =
    number_of_IsNumeral (nat_to_string n) (nat_to_string-IsNumeral n) ∙ scan-nat_to_string n

parse_of_IsNumeral : (t : Str) → IsNumeral t → parse_i64 t ≡ signed pos (number t)
unfolding parse_i64
parse_of_IsNumeral t (c, s, e, h) = rw e (ground arith)

-- Reading the text of an `i64` gives the `i64` back.
pub parse_i64-to_string : (z : ℤ) → IsI64 z → parse_i64 (to_string z) ≡ some z
unfolding to_string
parse_i64-to_string (pos n) h =
    rw (parse_of_IsNumeral (nat_to_string n) (nat_to_string-IsNumeral n), number-nat_to_string n)
      (ground arith)
parse_i64-to_string (negsuc n) h =
    unfold parse_i64 in rw (number-nat_to_string (suc n)) (ground arith)

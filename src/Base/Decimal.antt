-- ===== src/Base/Decimal.antt =====
-- Decimal texts of integers: `to_string()` and `parse::<i64>()` of the standard library.
pub mod RoundTrip
use mathlib.Core.Bool.{Bool, true, false, ◌&&◌}
use mathlib.Core.Option.{Option, none, some}
use mathlib.Core.List.{List, [], ◌∷◌, ◌++◌}
use Prim.Native.Nat.{ℕ, zero, suc, ◌+◌, ◌-◌, ◌*◌, ◌/◌, ◌%◌, ◌^◌}
use paratro_sdk_rust.Base.Tests.{ltb, leb, ◌==◌, if◌then◌else◌}
use paratro_sdk_rust.Base.Int.{ℤ, pos, negsuc, in_i64}
use paratro_sdk_rust.Base.Str.{Str}

-- The digits of a number; `suc n` rounds are enough for `n`.
unfoldable pub digits_of : ℕ → ℕ → Str
digits_of zero n = []
digits_of (suc fuel) n =
    let more = digits_of fuel (n / 10) ++ (b'0' + n % 10) ∷ [] in
    if ltb n 10 then (b'0' + n) ∷ [] else more

unfoldable pub nat_to_string : ℕ → Str
nat_to_string n = digits_of (suc n) n

unfoldable pub to_string : ℤ → Str
to_string (pos n) = nat_to_string n
to_string (negsuc n) = b'-' ∷ nat_to_string (suc n)

-- The value of a text of ASCII digits, after what was read before.
unfoldable pub scan : Str → ℕ → Option ℕ
scan [] acc = some acc
scan (c ∷ s) acc = if leb b'0' c && leb c b'9' then scan s (acc * 10 + (c - b'0')) else none

-- A text of one digit at least.
unfoldable pub number : Str → Option ℕ
number [] = none
number (c ∷ s) = scan (c ∷ s) 0

abbrev pub negate : ℕ → ℤ
negate zero = pos 0
negate (suc n) = negsuc n

abbrev pub in_range : ℤ → Option ℤ
in_range z = if in_i64 z then some z else none

abbrev pub signed : (ℕ → ℤ) → Option ℕ → Option ℤ
signed f none = none
signed f (some n) = in_range (f n)

-- An optional sign, then digits; `none` for the errors, an overflow included. The running
-- overflow test of the standard library refuses the same texts as the one test at the end.
unfoldable pub parse_i64 : Str → Option ℤ
parse_i64 [] = none
parse_i64 (c ∷ s) =
    if c == b'+'
    then signed pos (number s)
    else if c == b'-'
    then signed negate (number s)
    else signed pos (number (c ∷ s))

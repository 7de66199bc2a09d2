-- ===== src/Base/Str.antt =====
-- Rust's `str` as the list of its characters' code points, and the methods of the standard
-- library that the SDK calls.
pub mod Laws
pub mod Utf8
pub mod Lists
use Prim.Native.Char.{code}
use Prim.Native.String.{String}
use Prim.Native.Nat.{ℕ}
use mathlib.Core.Bool.{Bool, true, false, ◌&&◌, ◌||◌}
use mathlib.Core.Option.{Option, none, some}
use mathlib.Core.List.{List, [], ◌∷◌}
use paratro_sdk_rust.Base.Tests.{leb, ◌==◌, if◌then◌else◌}

abbrev pub Str : Type 0
Str = List ℕ

abbrev pub codes : String → Str
codes String.[] = []
codes (String.◌∷◌ c s) = code c ∷ codes s

-- `a == b`
infix 50 ◌=ₛ◌
unfoldable pub ◌=ₛ◌ : Str → Str → Bool
[] =ₛ [] = true
[] =ₛ (d ∷ t) = false
(c ∷ s) =ₛ [] = false
(c ∷ s) =ₛ (d ∷ t) = c == d && s =ₛ t

-- `s.strip_prefix(p)`
unfoldable pub strip_prefix : Str → Str → Option Str
strip_prefix [] s = some s
strip_prefix (c ∷ p) [] = none
strip_prefix (c ∷ p) (d ∷ s) = if c == d then strip_prefix p s else none

abbrev pub is_some {ℓ} : {A : Type ℓ} → Option A → Bool
is_some none = false
is_some (some a) = true

-- `s.starts_with(p)`
unfoldable pub starts_with : Str → Str → Bool
unfolding strip_prefix
starts_with p s = is_some (strip_prefix p s)

-- `char::is_whitespace`, the property White_Space of Unicode
unfoldable pub is_whitespace : ℕ → Bool
is_whitespace c =
    leb 9 c && leb c 13
    || c == 32
    || c == 0x85
    || c == 0xa0
    || c == 0x1680
    || leb 0x2000 c && leb c 0x200a
    || c == 0x2028
    || c == 0x2029
    || c == 0x202f
    || c == 0x205f
    || c == 0x3000

-- `trim_start`, `trim_end` and `trim`
unfoldable pub trim_start : Str → Str
trim_start [] = []
trim_start (c ∷ s) = if is_whitespace c then trim_start s else c ∷ s

-- puts a character before a text whose end is trimmed already
abbrev keep_unless : Bool → ℕ → Str → Str
keep_unless dropped c [] = if dropped then [] else c ∷ []
keep_unless dropped c (d ∷ t) = c ∷ d ∷ t

-- drops the longest suffix of characters that pass the test
unfoldable pub trim_end_by : (ℕ → Bool) → Str → Str
trim_end_by p [] = []
trim_end_by p (c ∷ s) = keep_unless (p c) c (trim_end_by p s)

unfoldable pub trim : Str → Str
trim s = trim_end_by is_whitespace (trim_start s)

-- `s.trim_end_matches(ch)`
unfoldable pub trim_end_matches : ℕ → Str → Str
unfolding trim_end_by
trim_end_matches ch s = trim_end_by (λ c. c == ch) s

-- `s.split(ch).next()`: an iterator of `split` always has a first item
unfoldable pub split_first : ℕ → Str → Str
split_first ch [] = []
split_first ch (c ∷ s) = if c == ch then [] else c ∷ split_first ch s

-- `s.split_once(p)?.1`: what follows the first occurrence of `p`
unfoldable pub after_first : Str → Str → Option Str
unfolding strip_prefix
after_first p [] = strip_prefix p []
after_first p (c ∷ s) = elim (strip_prefix p (c ∷ s)) [
  | some rest ↦ some rest
  | none ↦ after_first p s
]

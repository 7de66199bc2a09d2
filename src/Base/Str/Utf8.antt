-- ===== src/Base/Str/Utf8.antt =====
-- `as_bytes()`: the UTF-8 encoding of a text, and that it loses nothing.
use mathlib.Core.Path.{◌≡◌, refl, sym, ap₂}
use mathlib.Core.List.{List, [], ◌∷◌, ◌++◌}
use Prim.Native.Nat.{ℕ, ◌+◌, ◌/◌, ◌%◌, ◌<◌}
use native.Mathlib.Omega.{arith}
use paratro_sdk_rust.Base.Tests.{ltb, if◌then◌else◌}
use paratro_sdk_rust.Base.Lists.{All}
use paratro_sdk_rust.Base.Str.{Str}

unfoldable pub utf8 : ℕ → List ℕ
utf8 c =
    if ltb c 0x80
    then c ∷ []
    else if ltb c 0x800
    then (0xc0 + c / 64) ∷ (0x80 + c % 64) ∷ []
    else if ltb c 0x10000
    then (0xe0 + c / 4096) ∷ (0x80 + c / 64 % 64) ∷ (0x80 + c % 64) ∷ []
    else (0xf0 + c / 262144) ∷ (0x80 + c / 4096 % 64) ∷ (0x80 + c / 64 % 64) ∷ (0x80 + c % 64) ∷ []

unfoldable pub as_bytes : Str → List ℕ
as_bytes [] = []
as_bytes (c ∷ s) = utf8 c ++ as_bytes s

-- The values that a `char` can have lie below this bound.
abbrev pub IsChar : ℕ → Type 0
IsChar c = c < 0x110000

utf8_prefix_free :
    (c d : ℕ) (x y : List ℕ) → IsChar c → IsChar d → utf8 c ++ x ≡ utf8 d ++ y → (c ≡ d) × (x ≡ y)
unfolding utf8
utf8_prefix_free c d x y hc hd e = ground arith

utf8-ne-nil : (c : ℕ) (x : List ℕ) → utf8 c ++ x ≡ [] → ⊥
unfolding utf8
utf8-ne-nil c x e = ground arith

-- Two texts with the same bytes are the same text.
pub as_bytes_injective : (s t : Str) → All IsChar s → All IsChar t → as_bytes s ≡ as_bytes t → s ≡ t
unfolding as_bytes
as_bytes_injective [] [] hs ht e = refl
as_bytes_injective [] (d ∷ t) hs ht e = absurd (utf8-ne-nil d (as_bytes t) (sym e))
as_bytes_injective (c ∷ s) [] hs ht e = absurd (utf8-ne-nil c (as_bytes s) e)
as_bytes_injective (c ∷ s) (d ∷ t) hs ht e =
    let (h, r) = utf8_prefix_free c d (as_bytes s) (as_bytes t) hs.0 ht.0 e in
    ap₂ ◌∷◌ h (as_bytes_injective s t hs.1 ht.1 r)

-- ===== src/Error/Regex.antt =====
-- Regular expressions and the texts that they match, for the shape of a reason tag that
-- src/error.rs documents.
use paratro_sdk_rust.Base.{ℕ, Bool, true, ◌&&◌, ◌||◌, ◌≡◌, [], ◌∷◌, ◌++◌, leb, ◌==◌}
use paratro_sdk_rust.Base.Str.{Str}

pub data Regex : Type 0 where
  set : (ℕ → Bool) → Regex
  seq : Regex → Regex → Regex
  star : Regex → Regex

-- Zero or more pieces one after the other.
pub data Star (P : Str → Type 0) : Str → Type 0 where
  done : Star P []
  more : {s t u : Str} → P s → Star P t → u ≡ s ++ t → Star P u

abbrev pub Matches : Regex → Str → Type 0
Matches (set p) u = (c : ℕ) × (u ≡ c ∷ []) × (p c ≡ true)
Matches (seq r q) u = (s : Str) × (t : Str) × (u ≡ s ++ t) × Matches r s × Matches q t
Matches (star r) u = Star (Matches r) u

abbrev pub plus : Regex → Regex
plus r = seq r (star r)

unfoldable pub lower : ℕ → Bool
lower c = leb b'a' c && leb c b'z'

unfoldable pub alnum : ℕ → Bool
unfolding lower
alnum c = lower c || leb b'0' c && leb c b'9'

unfoldable pub underscore : ℕ → Bool
underscore c = c == b'_'

-- `(?:_[a-z0-9]+)*`
abbrev pub groups : Regex
groups = star (seq (set underscore) (plus (set alnum)))

-- `[a-z0-9]*(?:_[a-z0-9]+)*`
abbrev pub word : Regex
word = seq (star (set alnum)) groups

-- `^[a-z][a-z0-9]*(?:_[a-z0-9]+)*$`
abbrev pub tag_shape : Regex
tag_shape = seq (set lower) word

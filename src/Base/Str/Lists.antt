-- ===== src/Base/Str/Lists.antt =====
-- What the unit tests call of the standard library: `str::contains`, and `sort_unstable` and `dedup`
-- on a vector of texts. Texts are ordered by their UTF-8 bytes, which is the order of the code points.
use mathlib.Core.Bool.{Bool, true, false, ◌&&◌, ◌||◌}
use mathlib.Core.List.{List, [], ◌∷◌}
use Prim.Native.Nat.{ℕ, zero, suc}
use paratro_sdk_rust.Base.Tests.{ltb, ◌==◌, if◌then◌else◌}
use paratro_sdk_rust.Base.Str.{Str, ◌=ₛ◌, starts_with}

unfoldable pub contains : Str → Str → Bool
unfolding starts_with
contains p [] = starts_with p []
contains p (c ∷ s) = starts_with p (c ∷ s) || contains p s

unfoldable pub ends_with : Str → Str → Bool
unfolding ◌=ₛ◌
ends_with p [] = p =ₛ []
ends_with p (c ∷ s) = p =ₛ c ∷ s || ends_with p s

unfoldable pub is_before : Str → Str → Bool
is_before [] [] = false
is_before [] (d ∷ t) = true
is_before (c ∷ s) [] = false
is_before (c ∷ s) (d ∷ t) = ltb c d || (c == d && is_before s t)

unfoldable pub insert : Str → List Str → List Str
unfolding is_before
insert s [] = s ∷ []
insert s (t ∷ l) = let rest = t ∷ insert s l in if is_before t s then rest else s ∷ t ∷ l

unfoldable pub sort : List Str → List Str
unfolding insert
sort [] = []
sort (s ∷ l) = insert s (sort l)

abbrev skip : Str → List Str → List Str
skip s [] = s ∷ []
skip s (t ∷ l) = if s =ₛ t then t ∷ l else s ∷ t ∷ l

unfoldable pub dedup : List Str → List Str
unfolding ◌=ₛ◌
dedup [] = []
dedup (s ∷ l) = skip s (dedup l)

unfoldable pub repeated : ℕ → ℕ → Str
repeated zero c = []
repeated (suc n) c = c ∷ repeated n c

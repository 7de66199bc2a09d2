-- ===== src/Base/Str/Laws.antt =====
-- Laws of the text functions: equality, prefixes, trimming and splitting.
use mathlib.Core.Path.{◌≡◌, refl, ap, ◌∙◌}
use mathlib.Core.Logic.{◌↔◌, ◌≢◌, ◌⊎◌, inl, inr}
use mathlib.Core.Bool.{Bool, true, false}
use mathlib.Core.Option.{some}
use mathlib.Core.List.{[], ◌∷◌, ◌++◌}
use Prim.Native.Nat.{ℕ}
use native.Mathlib.Omega.{arith}
use paratro_sdk_rust.Base.Tests.{◌==◌, ==_iff, ==_refl, Bool-cases}
use paratro_sdk_rust.Base.Lists.{All}
use paratro_sdk_rust.Base.Str.{
  Str, ◌=ₛ◌, strip_prefix, trim_start, trim_end_by, trim, keep_unless, split_first, is_whitespace,
}

pub =ₛ_iff : (s t : Str) → ((s =ₛ t) ≡ true) ↔ (s ≡ t)
unfolding ◌=ₛ◌
=ₛ_iff [] [] = ground arith
=ₛ_iff [] (d ∷ t) = ground arith
=ₛ_iff (c ∷ s) [] = ground arith
=ₛ_iff (c ∷ s) (d ∷ t) = ground (arith, =ₛ_iff s t)

pub =ₛ_refl : (s : Str) → (s =ₛ s) ≡ true
=ₛ_refl s = (=ₛ_iff s s).1 refl

pub =ₛ-false_of_ne : (s t : Str) → s ≢ t → (s =ₛ t) ≡ false
=ₛ-false_of_ne s t h = elim (Bool-cases (s =ₛ t)) [
  | inl e ↦ absurd (h ((=ₛ_iff s t).0 e))
  | inr e ↦ e
]

pub strip_prefix-append : (p s : Str) → strip_prefix p (p ++ s) ≡ some s
unfolding strip_prefix
strip_prefix-append [] s = refl
strip_prefix-append (c ∷ p) s = rw ==_refl (strip_prefix-append p s)

-- A prefix that could be stripped was there.
pub append_of_strip_prefix : (p s : Str) {r : Str} → strip_prefix p s ≡ some r → s ≡ p ++ r
unfolding strip_prefix
append_of_strip_prefix [] s e = ground arith
append_of_strip_prefix (c ∷ p) [] e = cc
append_of_strip_prefix (c ∷ p) (d ∷ s) {r} e = ground (arith, append_of_strip_prefix p s {r = r})

-- What `trim_end_by` leaves does not end in a character that passes the test.
abbrev pub LastFails : (ℕ → Bool) → Str → Type 0
LastFails p [] = Unit
LastFails p (c ∷ []) = p c ≡ false
LastFails p (c ∷ d ∷ s) = LastFails p (d ∷ s)

keep_unless-LastFails :
    (p : ℕ → Bool) (c : ℕ) (s : Str) → LastFails p s → LastFails p (keep_unless (p c) c s)
keep_unless-LastFails p c [] h = elim (Bool-cases (p c)) [ inl e ↦ rw e tt | inr e ↦ rw e e ]
keep_unless-LastFails p c (d ∷ s) h = h

pub trim_end_by-LastFails : (p : ℕ → Bool) (s : Str) → LastFails p (trim_end_by p s)
unfolding trim_end_by
trim_end_by-LastFails p [] = tt
trim_end_by-LastFails p (c ∷ s) =
    keep_unless-LastFails p c (trim_end_by p s) (trim_end_by-LastFails p s)

-- A text that does not end in such a character stays as it is.
pub trim_end_by_of_LastFails : (p : ℕ → Bool) (s : Str) → LastFails p s → trim_end_by p s ≡ s
unfolding trim_end_by
trim_end_by_of_LastFails p [] h = refl
trim_end_by_of_LastFails p (c ∷ []) h = rw h
trim_end_by_of_LastFails p (c ∷ d ∷ s) h = rw (trim_end_by_of_LastFails p (d ∷ s) h)

pub trim_end_by_idem : (p : ℕ → Bool) (s : Str) → trim_end_by p (trim_end_by p s) ≡ trim_end_by p s
trim_end_by_idem p s = trim_end_by_of_LastFails p (trim_end_by p s) (trim_end_by-LastFails p s)

-- The trimmed text is followed only by characters that pass the test.
keep_unless-append :
    (p : ℕ → Bool) (c : ℕ) (t r : Str)
    → All (λ x. p x ≡ true) r
    → (r' : Str) × (c ∷ t ++ r ≡ keep_unless (p c) c t ++ r') × All (λ x. p x ≡ true) r'
keep_unless-append p c [] r h = elim (Bool-cases (p c)) [
  | inl e ↦ rw e (c ∷ r, refl, (e, h))
  | inr e ↦ rw e (r, refl, h)
]
keep_unless-append p c (d ∷ t) r h = (r, refl, h)

pub trim_end_by-append :
    (p : ℕ → Bool) (s : Str) → (r : Str) × (s ≡ trim_end_by p s ++ r) × All (λ x. p x ≡ true) r
unfolding trim_end_by
trim_end_by-append p [] = ([], refl, tt)
trim_end_by-append p (c ∷ s) =
    let (r, e, h) = trim_end_by-append p s in
    let (r', e', h') = keep_unless-append p c (trim_end_by p s) r h in (r', ap (◌∷◌ c) e ∙ e', h')

-- Splitting a text at its first separator.
pub split_first-append :
    (ch : ℕ) (s t : Str) → All (λ c. (c == ch) ≡ false) s → split_first ch (s ++ ch ∷ t) ≡ s
unfolding split_first
split_first-append ch [] t h = rw ==_refl
split_first-append ch (c ∷ s) t h = rw (h.0, split_first-append ch s t h.1)

pub split_first_of_none : (ch : ℕ) (s : Str) → All (λ c. (c == ch) ≡ false) s → split_first ch s ≡ s
unfolding split_first
split_first_of_none ch [] h = refl
split_first_of_none ch (c ∷ s) h = rw (h.0, split_first_of_none ch s h.1)

trim_start_of_none : (s : Str) → All (λ c. is_whitespace c ≡ false) s → trim_start s ≡ s
unfolding trim_start
trim_start_of_none [] h = refl
trim_start_of_none (c ∷ s) h = rw h.0

LastFails-of_All : (p : ℕ → Bool) (s : Str) → All (λ c. p c ≡ false) s → LastFails p s
LastFails-of_All p [] h = tt
LastFails-of_All p (c ∷ []) h = h.0
LastFails-of_All p (c ∷ d ∷ s) h = LastFails-of_All p (d ∷ s) h.1

-- A text with no white space stays as it is.
pub trim_of_none : (s : Str) → All (λ c. is_whitespace c ≡ false) s → trim s ≡ s
unfolding trim
trim_of_none s h =
    rw (trim_start_of_none s h)
      (trim_end_by_of_LastFails is_whitespace s (LastFails-of_All is_whitespace s h))

-- Characters that pass the test are dropped from the end.
trim_end_by-nil : (p : ℕ → Bool) (r : Str) → All (λ x. p x ≡ true) r → trim_end_by p r ≡ []
unfolding trim_end_by
trim_end_by-nil p [] h = refl
trim_end_by-nil p (c ∷ r) h = rw (trim_end_by-nil p r h.1, h.0)

pub trim_end_by_append :
    (p : ℕ → Bool) (s r : Str) → All (λ x. p x ≡ true) r → trim_end_by p (s ++ r) ≡ trim_end_by p s
unfolding trim_end_by
trim_end_by_append p [] r h = trim_end_by-nil p r h
trim_end_by_append p (c ∷ s) r h = ap (keep_unless (p c) c) (trim_end_by_append p s r h)

-- A text is its first part and what follows it.
pub split_first-split :
    (ch : ℕ) (s : Str)
    → (t : Str) × (s ≡ split_first ch s ++ t)
      × All (λ c. (c == ch) ≡ false) (split_first ch s)
      × ((t ≡ []) ⊎ ((u : Str) × (t ≡ ch ∷ u)))
unfolding split_first
split_first-split ch [] = ([], refl, tt, inl refl)
split_first-split ch (c ∷ s) =
    let (t, e, h, w) = split_first-split ch s in
    elim (Bool-cases (c == ch)) [
      | inl y ↦ rw y (c ∷ s, refl, tt, inr (s, ap (λ x. x ∷ s) ((==_iff c ch).0 y)))
      | inr n ↦ rw n (t, ap (◌∷◌ c) e, (n, h), w)
    ]

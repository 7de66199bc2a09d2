-- ===== src/Webhook/Canonical.antt =====
-- What the signed bytes say of the timestamp and the payload (src/webhook.rs).
use paratro_sdk_rust.Base.{
  ℕ, ◌+◌, ◌*◌, ◌-◌, ◌<◌, ◌≡◌, ◌≢◌, refl, sym, ap, ◌∙◌, inl, inr, Option, none, some, List, [], ◌∷◌,
  ◌++◌, arith, ◌==◌, All, Bool-cases,
}
use paratro_sdk_rust.Base.Int.{ℤ, pos}
use paratro_sdk_rust.Base.Decimal.{scan, number, parse_i64, signed, negate}
use paratro_sdk_rust.Base.Str.{Str}
use paratro_sdk_rust.Base.Str.Utf8.{utf8, as_bytes}
use paratro_sdk_rust.Webhook.{canonical}

-- The characters of a timestamp that is read: ASCII, and no full stop.
abbrev pub IsNumeric : ℕ → Type 0
IsNumeric c = (c < 128) × (c ≢ b'.')

scan-IsNumeric : (s : Str) (acc n : ℕ) → scan s acc ≡ some n → All IsNumeric s
unfolding scan
scan-IsNumeric [] acc n h = tt
scan-IsNumeric (c ∷ s) acc n h =
    (ground arith, scan-IsNumeric s (acc * 10 + (c - b'0')) n (ground arith))

number-IsNumeric : (s : Str) (n : ℕ) → number s ≡ some n → All IsNumeric s
unfolding number
number-IsNumeric [] n h = tt
number-IsNumeric (c ∷ s) n h = scan-IsNumeric (c ∷ s) 0 n h

signed-some : (f : ℕ → ℤ) (o : Option ℕ) (z : ℤ) → signed f o ≡ some z → (n : ℕ) × (o ≡ some n)
signed-some f none z h = cc
signed-some f (some n) z h = (n, refl)

pub parse_i64-IsNumeric : (t : Str) (z : ℤ) → parse_i64 t ≡ some z → All IsNumeric t
unfolding parse_i64
parse_i64-IsNumeric [] z h = tt
parse_i64-IsNumeric (c ∷ s) z h = elim (Bool-cases (c == b'+')) [
  | inl plus ↦
      let (n, e) = signed-some pos (number s) z (rw plus at h) in
      (ground arith, number-IsNumeric s n e)
  | inr other ↦ elim (Bool-cases (c == b'-')) [
    | inl minus ↦
        let (n, e) = signed-some negate (number s) z (ground arith) in
        (ground arith, number-IsNumeric s n e)
    | inr digit ↦
        let (n, e) = signed-some pos (number (c ∷ s)) z (ground arith) in
        number-IsNumeric (c ∷ s) n e
  ]
]

-- An ASCII text is its own encoding.
as_bytes_of_IsNumeric : (t : Str) → All IsNumeric t → as_bytes t ≡ t
unfolding as_bytes utf8
as_bytes_of_IsNumeric [] h = refl
as_bytes_of_IsNumeric (c ∷ t) h = ground (arith, as_bytes_of_IsNumeric t h.1)

split_unique :
    (s t : Str) (p q : List ℕ)
    → All IsNumeric s
    → All IsNumeric t
    → s ++ b'.' ∷ p ≡ t ++ b'.' ∷ q
    → (s ≡ t) × (p ≡ q)
split_unique [] [] p q hs ht e = (refl, ground arith)
split_unique [] (d ∷ t) p q hs ht e = ground arith
split_unique (c ∷ s) [] p q hs ht e = ground arith
split_unique (c ∷ s) (d ∷ t) p q hs ht e =
    let (h, r) = split_unique s t p q hs.1 ht.1 (ground arith) in (ground arith, r)

-- Two requests with timestamps that are accepted and with the same signed bytes have the same
-- timestamp and the same payload.
pub canonical_injective :
    (s t : Str) (p q : List ℕ) (y z : ℤ)
    → parse_i64 s ≡ some y
    → parse_i64 t ≡ some z
    → canonical s p ≡ canonical t q
    → (s ≡ t) × (p ≡ q)
unfolding canonical
canonical_injective s t p q y z hs ht e =
    let ns = parse_i64-IsNumeric s y hs in
    let nt = parse_i64-IsNumeric t z ht in
    split_unique s t p q ns nt (
      ap (λ b. b ++ b'.' ∷ p) (sym (as_bytes_of_IsNumeric s ns))
      ∙ e
      ∙ ap (λ b. b ++ b'.' ∷ q) (as_bytes_of_IsNumeric t nt))

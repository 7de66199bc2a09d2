-- ===== src/Webhook/Verify.antt =====
-- What `verify_payload` accepts, and the error of everything else (src/webhook.rs).
use paratro_sdk_rust.Base.{
  ℕ, ◌+◌, ◌^◌, ◌≤◌, ◌<◌, true, ◌≡◌, ◌≢◌, refl, sym, ap, ◌∙◌, ◌↔◌, ◌⊎◌, inl, inr, Option, none, some,
  List, [], ◌∷◌, arith, Result, ok, err, ◌>>=◌, ltb, if◌then◌else◌, ◌-◌, ◌==◌, All, Bool-cases,
  Option-cases,
}
use paratro_sdk_rust.Base.Int.{ℤ, pos, negsuc, dist, IsI64, wrap_i64, sub_i64}
use paratro_sdk_rust.Base.Decimal.{parse_i64, signed, negate, number, in_range}
use paratro_sdk_rust.Base.Str.{Str}
use paratro_sdk_rust.Base.Str.Utf8.{as_bytes, IsChar, as_bytes_injective}
use paratro_sdk_rust.Base.Time.{Duration, is_zero, as_secs}
use paratro_sdk_rust.Webhook.{
  Crypto, WebhookError, invalid_timestamp, timestamp_expired, signature_mismatch, constant_time_eq,
  secs_as_i64, time_drift, check_freshness, compute_signature, check_signature, verify_payload,
}
use paratro_sdk_rust.Webhook.Compare.{constant_time_eq_iff}

-- A timestamp that is read fits `i64`.
in_range-IsI64 : (y z : ℤ) → in_range y ≡ some z → IsI64 z
in_range-IsI64 (pos n) (pos m) h = ground arith
in_range-IsI64 (pos n) (negsuc m) h = ground arith
in_range-IsI64 (negsuc n) (pos m) h = ground arith
in_range-IsI64 (negsuc n) (negsuc m) h = ground arith

signed-IsI64 : (f : ℕ → ℤ) (o : Option ℕ) (z : ℤ) → signed f o ≡ some z → IsI64 z
signed-IsI64 f none z h = cc
signed-IsI64 f (some n) z h = in_range-IsI64 (f n) z h

pub parse_i64-IsI64 : (t : Str) (z : ℤ) → parse_i64 t ≡ some z → IsI64 z
unfolding parse_i64
parse_i64-IsI64 [] z h = cc
parse_i64-IsI64 (c ∷ s) z h = elim (Bool-cases (c == b'+')) [
  | inl plus ↦ signed-IsI64 pos (number s) z (rw plus at h)
  | inr other ↦ elim (Bool-cases (c == b'-')) [
    | inl minus ↦ signed-IsI64 negate (number s) z (ground arith)
    | inr digit ↦ signed-IsI64 pos (number (c ∷ s)) z (ground arith)
  ]
]

-- The wrapped difference is within the tolerance exactly when the true one is.
drift_exact :
    (now secs : ℕ) (ts : ℤ)
    → now + secs < 2 ^ 63
    → IsI64 ts
    → (time_drift now ts ≤ secs) ↔ (dist (pos now) ts ≤ secs)
unfolding time_drift secs_as_i64 wrap_i64 sub_i64
drift_exact now secs (pos n) h k = ground arith
drift_exact now secs (negsuc n) h k = ground arith

-- The age that an error names: the distance of the clock and the timestamp below 2^63 seconds, and
-- from there on what it lacks to 2^64
abbrev pub named_age : ℕ → ℤ → ℕ
named_age now ts =
    if ltb (dist (pos now) ts) (2 ^ 63) then dist (pos now) ts else 2 ^ 64 - dist (pos now) ts

time_drift-named_age :
    (now : ℕ) (ts : ℤ) → now < 2 ^ 63 → IsI64 ts → time_drift now ts ≡ named_age now ts
unfolding time_drift secs_as_i64 wrap_i64 sub_i64
time_drift-named_age now (pos n) h k = ground arith
time_drift-named_age now (negsuc n) h k = ground arith

-- The time of signing is within the tolerance of now, or the tolerance is zero.
abbrev pub IsFresh : ℕ → ℤ → Duration → Type 0
IsFresh now ts tolerance = (is_zero tolerance ≡ true) ⊎ (dist (pos now) ts ≤ as_secs tolerance)

pub expected-IsChar :
    (c : Crypto) (secret timestamp : Str) (payload : List ℕ)
    → All IsChar (compute_signature c secret timestamp payload)
unfolding compute_signature
expected-IsChar c secret timestamp payload =
    (omega arith, (omega arith, (omega arith, c.hex_chars _)))

freshness_cases :
    (now : ℕ) (ts : ℤ) (tolerance : Duration)
    → now + as_secs tolerance < 2 ^ 63
    → IsI64 ts
    → ((check_freshness now ts tolerance ≡ ok tt) × IsFresh now ts tolerance)
      ⊎ ((check_freshness now ts tolerance
            ≡ err (timestamp_expired (time_drift now ts) (as_secs tolerance)))
          × ¬ IsFresh now ts tolerance)
unfolding check_freshness
freshness_cases now ts tolerance h k = elim (Bool-cases (is_zero tolerance)) [
  | inl z ↦ inl (ground arith, inl z)
  | inr n ↦ elim (Bool-cases (ltb (as_secs tolerance) (time_drift now ts))) [
    | inl late ↦ inr (ground arith, λ f. ground (arith, drift_exact now (as_secs tolerance) ts h k))
    | inr near ↦
        inl (ground arith, inr (ground (arith, drift_exact now (as_secs tolerance) ts h k)))
  ]
]

signature_cases :
    (c : Crypto) (expected signature : Str)
    → All IsChar expected
    → All IsChar signature
    → ((check_signature c expected signature ≡ ok tt) × (signature ≡ expected))
      ⊎ ((check_signature c expected signature ≡ err signature_mismatch) × (signature ≢ expected))
unfolding check_signature
signature_cases c expected signature he hs =
    let same = constant_time_eq_iff (as_bytes expected) (as_bytes signature) in
    elim (Bool-cases (constant_time_eq (as_bytes expected) (as_bytes signature))) [
      | inl eq ↦ inl (rw eq refl, sym (as_bytes_injective expected signature he hs (same.0 eq)))
      | inr ne ↦ inr (rw ne refl, λ e. cc (ne, same.1 (ap as_bytes (sym e))))
    ]

module _ (c : Crypto) (now : ℕ) (secret timestamp : Str) (payload : List ℕ) (signature : Str)
    (tolerance : Duration) where
  abbrev answer : Result (Unit {0}) WebhookError
  answer = verify_payload c now secret timestamp payload signature tolerance

  abbrev expected : Str
  expected = compute_signature c secret timestamp payload

  -- The three steps, each by its outcome.
  verify_unread : parse_i64 timestamp ≡ none → answer ≡ err (invalid_timestamp timestamp)
  unfolding verify_payload
  verify_unread h = rw h

  pub verify_read :
      (ts : ℤ)
      → parse_i64 timestamp ≡ some ts
      → answer ≡ (check_freshness now ts tolerance >>= λ _. check_signature c expected signature)
  unfolding verify_payload
  verify_read ts h = rw h

  -- The conditions of the four outcomes.
  abbrev pub Unread : Type 0
  Unread = (parse_i64 timestamp ≡ none) × (answer ≡ err (invalid_timestamp timestamp))

  abbrev pub Expired : ℤ → Type 0
  Expired ts =
      (¬ IsFresh now ts tolerance)
      × (answer ≡ err (timestamp_expired (named_age now ts) (as_secs tolerance)))

  abbrev pub Forged : ℤ → Type 0
  Forged ts = IsFresh now ts tolerance × (signature ≢ expected) × (answer ≡ err signature_mismatch)

  abbrev pub Genuine : ℤ → Type 0
  Genuine ts = IsFresh now ts tolerance × (signature ≡ expected) × (answer ≡ ok tt)

  module _ (bounded : now + as_secs tolerance < 2 ^ 63) (chars : All IsChar signature) where
    outcome_of_read : (ts : ℤ) → parse_i64 timestamp ≡ some ts → Expired ts ⊎ Forged ts ⊎ Genuine ts
    outcome_of_read ts read =
        let parsed = verify_read ts read in
        let fits = parse_i64-IsI64 timestamp ts read in
        let age = time_drift-named_age now ts (omega arith) fits in
        elim (freshness_cases now ts tolerance bounded fits) [
          | inr (e, stale) ↦
              inl
                (stale, parsed ∙ rw e (ap (λ a. err (timestamp_expired a (as_secs tolerance))) age))
          | inl (f, fresh) ↦
              elim (signature_cases c expected signature
                (expected-IsChar c secret timestamp payload) chars) [
                  | inl (e, same) ↦ inr (inr (fresh, same, parsed ∙ rw f e))
                  | inr (e, differs) ↦ inr (inl (fresh, differs, parsed ∙ rw f e))
                ]
        ]

    -- The outcome of `verify_payload`: a timestamp that is no `i64` is refused as it is; else a
    -- timestamp further from the clock than a tolerance that is not zero is refused, with its distance
    -- as its age, or with what the distance lacks to 2^64 if it is 2^63 seconds or more; else a
    -- signature that is not the computed one is refused; and else the answer is `Ok`. The clock and
    -- the tolerance together stay below 2^63 seconds, and the signature is of characters.
    pub verify_payload_cases :
        Unread
        ⊎ ((ts : ℤ) × (parse_i64 timestamp ≡ some ts) × (Expired ts ⊎ Forged ts ⊎ Genuine ts))
    verify_payload_cases = elim (Option-cases (parse_i64 timestamp)) [
      | inl e ↦ inl (e, verify_unread e)
      | inr (ts, e) ↦ inr (ts, e, outcome_of_read ts e)
    ]

    accepted_inv :
        answer ≡ ok tt
        → (ts : ℤ) × (parse_i64 timestamp ≡ some ts)
          × IsFresh now ts tolerance
          × (signature ≡ expected)
    accepted_inv h = elim verify_payload_cases [
      | inl (none_read, e) ↦ cc (h, e)
      | inr (ts, read, inl (stale, e)) ↦ cc (h, e)
      | inr (ts, read, inr (inl (fresh, differs, e))) ↦ cc (h, e)
      | inr (ts, read, inr (inr (fresh, same, e))) ↦ (ts, read, fresh, same)
    ]

    accepted_of :
        (ts : ℤ)
        → parse_i64 timestamp ≡ some ts
        → IsFresh now ts tolerance
        → signature ≡ expected
        → answer ≡ ok tt
    accepted_of ts read fresh same = elim (outcome_of_read ts read) [
      | inl (stale, e) ↦ absurd (stale fresh)
      | inr (inl (f, differs, e)) ↦ absurd (differs same)
      | inr (inr (f, s, e)) ↦ e
    ]

    -- A payload is accepted exactly when its timestamp is an `i64`, the clock is no further from
    -- it than the tolerance or the tolerance is zero, and the signature is the one computed from
    -- the secret, that timestamp and that payload. The clock and the tolerance together stay below
    -- 2^63 seconds, and the signature is of characters.
    pub verify_payload_iff : (answer ≡ ok tt) ↔ (
        (ts : ℤ) × (parse_i64 timestamp ≡ some ts)
        × IsFresh now ts tolerance
        × (signature ≡ expected))
    verify_payload_iff = (accepted_inv, λ (ts, read, fresh, same). accepted_of ts read fresh same)

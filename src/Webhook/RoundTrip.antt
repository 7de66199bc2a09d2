-- ===== src/Webhook/RoundTrip.antt =====
-- When a signed payload is accepted and when it is refused (src/webhook.rs).
use paratro_sdk_rust.Base.{
  ℕ, ◌+◌, ◌-◌, ◌^◌, ◌≤◌, ◌<◌, false, ◌≡◌, refl, ◌∙◌, inr, some, List, arith, ok, err,
}
use paratro_sdk_rust.Base.Int.{pos, wrap_i64, sub_i64}
use paratro_sdk_rust.Base.Decimal.{nat_to_string, to_string, parse_i64}
use paratro_sdk_rust.Base.Decimal.RoundTrip.{parse_i64-to_string}
use paratro_sdk_rust.Base.Str.{Str}
use paratro_sdk_rust.Base.Time.{Duration, is_zero, as_secs}
use paratro_sdk_rust.Webhook.{
  Crypto, timestamp_expired, time_drift, secs_as_i64, compute_signature, verify_payload,
  sign_payload, check_freshness,
}
use paratro_sdk_rust.Webhook.Verify.{verify_payload_iff, verify_read, expected-IsChar}

read_clock : (now : ℕ) → now < 2 ^ 63 → parse_i64 (nat_to_string now) ≡ some (pos now)
unfolding to_string
read_clock now h = parse_i64-to_string (pos now) h

drift_later :
    (now later : ℕ) → now ≤ later → later < 2 ^ 63 → time_drift later (pos now) ≡ later - now
unfolding time_drift secs_as_i64 wrap_i64 sub_i64
drift_later now later h k = ground arith

module _ (c : Crypto) (now later : ℕ) (secret : Str) (payload : List ℕ) (tolerance : Duration)
    (after : now ≤ later) (bounded : later + as_secs tolerance < 2 ^ 63) where
  too_late :
      is_zero tolerance ≡ false
      → as_secs tolerance < later - now
      → check_freshness later (pos now) tolerance
        ≡ err (timestamp_expired (later - now) (as_secs tolerance))
  unfolding check_freshness
  too_late nonzero late = ground (arith, drift_later now later after)

  -- What `sign_payload` produces is accepted by `verify_payload` with the same secret and payload
  -- at every later time within the tolerance. The later time and the tolerance together stay below
  -- 2^63 seconds.
  pub verify-sign_payload :
      later - now ≤ as_secs tolerance
      → verify_payload c later secret
          (sign_payload c now secret payload).0
          payload
          (sign_payload c now secret payload).1
          tolerance
        ≡ ok tt
  unfolding sign_payload
  verify-sign_payload near =
      (verify_payload_iff c later secret (nat_to_string now) payload
          (compute_signature c secret (nat_to_string now) payload) tolerance bounded
          (expected-IsChar c secret (nat_to_string now) payload)).1
        (pos now, read_clock now (omega arith), inr (omega arith), refl)

  -- Replayed when more time than the tolerance has passed, it is refused with its age, unless the
  -- tolerance is zero. The later time and the tolerance together stay below 2^63 seconds.
  pub verify-sign_payload_replayed :
      is_zero tolerance ≡ false
      → as_secs tolerance < later - now
      → verify_payload c later secret
          (sign_payload c now secret payload).0
          payload
          (sign_payload c now secret payload).1
          tolerance
        ≡ err (timestamp_expired (later - now) (as_secs tolerance))
  unfolding sign_payload
  verify-sign_payload_replayed nonzero late =
      verify_read c later secret (nat_to_string now) payload
        (compute_signature c secret (nat_to_string now) payload) tolerance (pos now)
        (read_clock now (omega arith))
      ∙ rw (too_late nonzero late) refl

-- ===== src/Webhook/Overflow.antt =====
-- Timestamps so far in the past that `now - ts` leaves `i64` (src/webhook.rs), in a build without
-- overflow checks.
use paratro_sdk_rust.Base.{
  ℕ, ◌+◌, ◌-◌, ◌^◌, ◌≤◌, ◌<◌, ◌≡◌, refl, ◌∙◌, true, false, some, List, err, arith, ltb,
}
use paratro_sdk_rust.Base.Int.{ℤ, pos, negsuc, dist, IsI64, wrap_i64, sub_i64}
use paratro_sdk_rust.Base.Decimal.{parse_i64}
use paratro_sdk_rust.Base.Str.{Str}
use paratro_sdk_rust.Base.Time.{Duration, is_zero, as_secs}
use paratro_sdk_rust.Webhook.{
  Crypto, timestamp_expired, secs_as_i64, time_drift, check_freshness, verify_payload,
}
use paratro_sdk_rust.Webhook.Verify.{parse_i64-IsI64, verify_read}

drift_wrapped :
    (now : ℕ) (ts : ℤ)
    → now < 2 ^ 63
    → IsI64 ts
    → 2 ^ 63 ≤ dist (pos now) ts
    → time_drift now ts ≡ 2 ^ 64 - dist (pos now) ts
unfolding time_drift secs_as_i64 wrap_i64 sub_i64
drift_wrapped now (pos n) h k far = ground arith
drift_wrapped now (negsuc n) h k far = ground arith

dist-le :
    (now : ℕ) (ts : ℤ)
    → now < 2 ^ 63
    → IsI64 ts
    → 2 ^ 63 ≤ dist (pos now) ts
    → dist (pos now) ts ≤ 2 ^ 63 + now
dist-le now (pos n) h k far = omega arith
dist-le now (negsuc n) h k far = omega arith

freshness_wrapped :
    (now : ℕ) (ts : ℤ) (tolerance : Duration)
    → now + as_secs tolerance < 2 ^ 63
    → is_zero tolerance ≡ false
    → IsI64 ts
    → 2 ^ 63 ≤ dist (pos now) ts
    → check_freshness now ts tolerance
      ≡ err (timestamp_expired (2 ^ 64 - dist (pos now) ts) (as_secs tolerance))
unfolding check_freshness
freshness_wrapped now ts tolerance h n k far =
    let drift = drift_wrapped now ts (omega arith) k far in
    let near = dist-le now ts (omega arith) k far in
    let late : ltb (as_secs tolerance) (time_drift now ts) ≡ true = ground arith in
    rw (n, late, drift) refl

module _ (c : Crypto) (now : ℕ) (secret timestamp : Str) (payload : List ℕ) (signature : Str)
    (tolerance : Duration) where
  -- A timestamp that lies more than 2^63 seconds before the clock is refused, genuine or not, by a
  -- tolerance that is not zero; but the age that the error names is what the distance lacks to
  -- 2^64, which is less than the distance. The clock and the tolerance together stay below 2^63
  -- seconds.
  pub verify_payload-wrapped :
      (ts : ℤ)
      → now + as_secs tolerance < 2 ^ 63
      → is_zero tolerance ≡ false
      → parse_i64 timestamp ≡ some ts
      → 2 ^ 63 < dist (pos now) ts
      → (verify_payload c now secret timestamp payload signature tolerance
          ≡ err (timestamp_expired (2 ^ 64 - dist (pos now) ts) (as_secs tolerance)))
        × (2 ^ 64 - dist (pos now) ts < dist (pos now) ts)
  verify_payload-wrapped ts bounded n read far =
      let fits = parse_i64-IsI64 timestamp ts read in
      (
        verify_read c now secret timestamp payload signature tolerance ts read
            ∙ rw (freshness_wrapped now ts tolerance bounded n fits (omega arith)) refl,
        omega arith,
      )

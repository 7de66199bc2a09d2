-- ===== src/Webhook/UnitTests.antt =====
-- The unit tests of the signatures of src/webhook.rs, run on the model: each is the conjunction of its
-- assertions, and holds with a simple hash in the place of HMAC-SHA256.
use paratro_sdk_rust.Base.{
  ℕ, zero, suc, ◌+◌, ◌*◌, ◌/◌, ◌%◌, ◌^◌, ◌-◌, ◌<◌, Bool, ◌≡◌, refl, true, false, List, [], ◌∷◌,
  ◌++◌, Result, ok, err, All, length, ltb, if◌then◌else◌, arith,
}
use paratro_sdk_rust.Base.Decimal.{parse_i64, number, scan, nat_to_string, digits_of}
use paratro_sdk_rust.Base.Int.{sub_i64, wrap_i64, ◌-ℤ◌}
use paratro_sdk_rust.Base.Str.{Str, codes, ◌=ₛ◌, starts_with, strip_prefix}
use paratro_sdk_rust.Base.Str.Utf8.{as_bytes, utf8, IsChar}
use paratro_sdk_rust.Base.Time.{from_secs}
use paratro_sdk_rust.Webhook.{
  Crypto, WebhookError, invalid_timestamp, timestamp_expired, signature_mismatch, constant_time_eq,
  sign_payload, sign_payload_with_timestamp, compute_signature, canonical, check_freshness,
  check_signature, time_drift, secs_as_i64, fold_differences, verify_payload, default_tolerance,
}

abbrev test_secret : Str
test_secret = codes "whsec_test_secret_key_12345"

abbrev test_payload : List ℕ
test_payload = codes "{\"event_id\":\"evt_123\",\"chain\":\"ethereum\",\"txhash\":\"0xabc\"}"

abbrev tampered : List ℕ
tampered = codes "{\"id\":\"evt_456\",\"chain\":\"ethereum\",\"txhash\":\"0xabc\"}"

-- `matches!(result, Err(WebhookError::TimestampExpired { .. }))`
abbrev is_expired : Result (Unit {0}) WebhookError → Bool
is_expired (err (timestamp_expired age tolerance)) = true
is_expired _ = false

-- `matches!(result, Err(WebhookError::InvalidTimestamp(_)))`
abbrev is_invalid : Result (Unit {0}) WebhookError → Bool
is_invalid (err (invalid_timestamp timestamp)) = true
is_invalid _ = false

-- Both readings of the clock give the same second.
module _ (c : Crypto) (now : ℕ) where
  abbrev pub TestSignAndVerify : Type 0
  TestSignAndVerify =
      verify_payload c now (test_secret) (sign_payload c now test_secret test_payload).0
        (test_payload) (sign_payload c now test_secret test_payload).1 default_tolerance
      ≡ ok tt

  abbrev pub TestWrongSecret : Type 0
  TestWrongSecret =
      verify_payload c now (codes "wrong_secret") (sign_payload c now test_secret test_payload).0
        (test_payload) (sign_payload c now test_secret test_payload).1 default_tolerance
      ≡ err signature_mismatch

  abbrev pub TestTamperedPayload : Type 0
  TestTamperedPayload =
      verify_payload c now (test_secret) (sign_payload c now test_secret test_payload).0 (tampered)
        (sign_payload c now test_secret test_payload).1 default_tolerance
      ≡ err signature_mismatch

  abbrev pub TestExpiredTimestamp : Type 0
  TestExpiredTimestamp =
      is_expired (
        verify_payload c now (test_secret) (codes "1000000000") (test_payload)
          (sign_payload_with_timestamp c test_secret (test_payload) (codes "1000000000"))
          default_tolerance)
      ≡ true

  abbrev pub TestFutureTimestamp : Type 0
  TestFutureTimestamp =
      is_expired (
        verify_payload c now (test_secret) (codes "9999999999") (test_payload)
          (sign_payload_with_timestamp c test_secret (test_payload) (codes "9999999999"))
          default_tolerance)
      ≡ true

  abbrev pub TestInvalidTimestamp : Type 0
  TestInvalidTimestamp =
      is_invalid (
        verify_payload c now (test_secret) (codes "not-a-number") (test_payload) (codes "v1=abc")
          default_tolerance)
      ≡ true

  abbrev pub TestZeroToleranceSkipsTimeCheck : Type 0
  TestZeroToleranceSkipsTimeCheck =
      verify_payload c now (test_secret) (codes "1000000000") (test_payload)
        (sign_payload_with_timestamp c test_secret (test_payload) (codes "1000000000"))
        (from_secs 0)
      ≡ ok tt

  abbrev pub TestSignatureFormat : Type 0
  TestSignatureFormat =
      (starts_with (codes "v1=") (sign_payload c now test_secret test_payload).1 ≡ true)
      × (length (as_bytes (sign_payload c now test_secret test_payload).1) ≡ 67)

  abbrev pub TestDeterministicSignature : Type 0
  TestDeterministicSignature =
      (sign_payload_with_timestamp c test_secret (test_payload) (codes "1704067200"))
      ≡ (sign_payload_with_timestamp c test_secret (test_payload) (codes "1704067200"))

  abbrev pub TestDifferentPayloadsDifferentSignatures : Type 0
  TestDifferentPayloadsDifferentSignatures =
      ((sign_payload_with_timestamp c test_secret (codes "payload1") (codes "1704067200"))
        =ₛ (sign_payload_with_timestamp c test_secret (codes "payload2") (codes "1704067200")))
      ≡ false

abbrev pub TestConstantTimeEq : Type 0
TestConstantTimeEq =
    (constant_time_eq (codes "hello") (codes "hello") ≡ true)
    × (constant_time_eq (codes "hello") (codes "world") ≡ false)
    × (constant_time_eq (codes "hello") (codes "hell") ≡ false)
    × (constant_time_eq [] (codes "a") ≡ false)
    × (constant_time_eq [] [] ≡ true)

-- The bytes as the digits of a number, modulo 2^32
abbrev mixed : ℕ → List ℕ → ℕ
mixed n [] = n
mixed n (b ∷ bs) = mixed ((n * 257 + b + 1) % 2 ^ 32) bs

abbrev spread : ℕ → ℕ → List ℕ
spread zero n = []
spread (suc k) n = (n / 2 ^ 16 % 256) ∷ spread k ((n * 1103515245 + 12345) % 2 ^ 32)

abbrev hex_digit : ℕ → ℕ
hex_digit n = if ltb n 10 then b'0' + n else b'a' + (n % 16 - 10)

abbrev hex : List ℕ → Str
hex [] = []
hex (b ∷ bs) = hex_digit (b / 16 % 16) ∷ hex_digit (b % 16) ∷ hex bs

hex_digit-IsChar : (n : ℕ) → n < 16 → IsChar (hex_digit n)
hex_digit-IsChar n h = ground arith

hex-IsChar : (bs : List ℕ) → All IsChar (hex bs)
hex-IsChar [] = tt
hex-IsChar (b ∷ bs) = (
  hex_digit-IsChar (b / 16 % 16) (omega arith),
  (hex_digit-IsChar (b % 16) (omega arith), hex-IsChar bs),
)

-- 32 bytes from the key and the message
abbrev simple : Crypto
simple = record {
  hmac_sha256 = λ key message. spread 32 (mixed 7 (key ++ message));
  hex_encode = hex;
  hex_chars = hex-IsChar;
}

TestSignAndVerify_holds : TestSignAndVerify simple 1789449058
unfolding verify_payload sign_payload sign_payload_with_timestamp compute_signature canonical
    check_freshness check_signature time_drift secs_as_i64 constant_time_eq fold_differences
    as_bytes utf8 starts_with strip_prefix ◌=ₛ◌ parse_i64 number scan nat_to_string digits_of
    sub_i64 wrap_i64 ◌-ℤ◌
TestSignAndVerify_holds = refl

TestWrongSecret_holds : TestWrongSecret simple 1789449058
unfolding verify_payload sign_payload sign_payload_with_timestamp compute_signature canonical
    check_freshness check_signature time_drift secs_as_i64 constant_time_eq fold_differences
    as_bytes utf8 starts_with strip_prefix ◌=ₛ◌ parse_i64 number scan nat_to_string digits_of
    sub_i64 wrap_i64 ◌-ℤ◌
TestWrongSecret_holds = refl

TestTamperedPayload_holds : TestTamperedPayload simple 1789449058
unfolding verify_payload sign_payload sign_payload_with_timestamp compute_signature canonical
    check_freshness check_signature time_drift secs_as_i64 constant_time_eq fold_differences
    as_bytes utf8 starts_with strip_prefix ◌=ₛ◌ parse_i64 number scan nat_to_string digits_of
    sub_i64 wrap_i64 ◌-ℤ◌
TestTamperedPayload_holds = refl

TestExpiredTimestamp_holds : TestExpiredTimestamp simple 1789449058
unfolding verify_payload sign_payload sign_payload_with_timestamp compute_signature canonical
    check_freshness check_signature time_drift secs_as_i64 constant_time_eq fold_differences
    as_bytes utf8 starts_with strip_prefix ◌=ₛ◌ parse_i64 number scan nat_to_string digits_of
    sub_i64 wrap_i64 ◌-ℤ◌
TestExpiredTimestamp_holds = refl

TestFutureTimestamp_holds : TestFutureTimestamp simple 1789449058
unfolding verify_payload sign_payload sign_payload_with_timestamp compute_signature canonical
    check_freshness check_signature time_drift secs_as_i64 constant_time_eq fold_differences
    as_bytes utf8 starts_with strip_prefix ◌=ₛ◌ parse_i64 number scan nat_to_string digits_of
    sub_i64 wrap_i64 ◌-ℤ◌
TestFutureTimestamp_holds = refl

TestInvalidTimestamp_holds : TestInvalidTimestamp simple 1789449058
unfolding verify_payload sign_payload sign_payload_with_timestamp compute_signature canonical
    check_freshness check_signature time_drift secs_as_i64 constant_time_eq fold_differences
    as_bytes utf8 starts_with strip_prefix ◌=ₛ◌ parse_i64 number scan nat_to_string digits_of
    sub_i64 wrap_i64 ◌-ℤ◌
TestInvalidTimestamp_holds = refl

TestZeroToleranceSkipsTimeCheck_holds : TestZeroToleranceSkipsTimeCheck simple 1789449058
unfolding verify_payload sign_payload sign_payload_with_timestamp compute_signature canonical
    check_freshness check_signature time_drift secs_as_i64 constant_time_eq fold_differences
    as_bytes utf8 starts_with strip_prefix ◌=ₛ◌ parse_i64 number scan nat_to_string digits_of
    sub_i64 wrap_i64 ◌-ℤ◌
TestZeroToleranceSkipsTimeCheck_holds = refl

TestSignatureFormat_holds : TestSignatureFormat simple 1789449058
unfolding verify_payload sign_payload sign_payload_with_timestamp compute_signature canonical
    check_freshness check_signature time_drift secs_as_i64 constant_time_eq fold_differences
    as_bytes utf8 starts_with strip_prefix ◌=ₛ◌ parse_i64 number scan nat_to_string digits_of
    sub_i64 wrap_i64 ◌-ℤ◌
TestSignatureFormat_holds = (refl, refl)

TestDeterministicSignature_holds : TestDeterministicSignature simple 1789449058
unfolding verify_payload sign_payload sign_payload_with_timestamp compute_signature canonical
    check_freshness check_signature time_drift secs_as_i64 constant_time_eq fold_differences
    as_bytes utf8 starts_with strip_prefix ◌=ₛ◌ parse_i64 number scan nat_to_string digits_of
    sub_i64 wrap_i64 ◌-ℤ◌
TestDeterministicSignature_holds = refl

TestDifferentPayloadsDifferentSignatures_holds :
    TestDifferentPayloadsDifferentSignatures simple 1789449058
unfolding verify_payload sign_payload sign_payload_with_timestamp compute_signature canonical
    check_freshness check_signature time_drift secs_as_i64 constant_time_eq fold_differences
    as_bytes utf8 starts_with strip_prefix ◌=ₛ◌ parse_i64 number scan nat_to_string digits_of
    sub_i64 wrap_i64 ◌-ℤ◌
TestDifferentPayloadsDifferentSignatures_holds = refl

TestConstantTimeEq_holds : TestConstantTimeEq
unfolding constant_time_eq fold_differences
TestConstantTimeEq_holds = (refl, refl, refl, refl, refl)

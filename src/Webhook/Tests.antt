-- ===== src/Webhook/Tests.antt =====
-- Signing and verification run on concrete payloads, with stand-ins for the hash and its text.
use paratro_sdk_rust.Base.{
  ℕ, ◌+◌, ◌%◌, ◌≡◌, ◌<◌, ◌⊎◌, refl, true, false, List, [], ◌∷◌, ◌++◌, Result, ok, err, All, some,
  inl, inr, arith,
}
use paratro_sdk_rust.Base.Int.{ℤ, pos, negsuc}
use paratro_sdk_rust.Base.Decimal.{parse_i64, nat_to_string}
use paratro_sdk_rust.Base.Str.{Str, codes}
use paratro_sdk_rust.Base.Str.Utf8.{IsChar}
use paratro_sdk_rust.Base.Time.{from_secs}
use paratro_sdk_rust.Webhook.{
  Crypto, constant_time_eq, canonical, compute_signature, sign_payload, verify_payload,
  default_tolerance, timestamp_expired, signature_mismatch, invalid_timestamp,
}
use paratro_sdk_rust.Webhook.Compare.{constant_time_eq_iff}
use paratro_sdk_rust.Webhook.Canonical.{canonical_injective}
use paratro_sdk_rust.Webhook.Verify.{
  Unread, Expired, Forged, Genuine, verify_payload_iff, verify_payload_cases, expected-IsChar,
}
use paratro_sdk_rust.Webhook.Overflow.{verify_payload-wrapped}
use paratro_sdk_rust.Webhook.RoundTrip.{verify-sign_payload, verify-sign_payload_replayed}

abbrev sum : List ℕ → ℕ
sum [] = 0
sum (x ∷ xs) = x + sum xs

abbrev letter : ℕ → Str
letter n = (b'a' + n % 16) ∷ []

letter-IsChar : (b : List ℕ) → All IsChar (letter (sum b))
letter-IsChar b = (omega arith, tt)

-- A checksum of one letter in place of the hash
abbrev checksum : Crypto
checksum = record {
  hmac_sha256 = λ key message. sum key ∷ sum message ∷ [];
  hex_encode = λ b. letter (sum b);
  hex_chars = letter-IsChar;
}

abbrev payload : List ℕ
payload = codes "{}"

abbrev secret : Str
secret = codes "whsec"

constant_time_eq_iff_example : constant_time_eq (1 ∷ 2 ∷ []) (1 ∷ 2 ∷ []) ≡ true
constant_time_eq_iff_example = (constant_time_eq_iff (1 ∷ 2 ∷ []) (1 ∷ 2 ∷ [])).1 refl

canonical_injective_example : (codes "17" ≡ codes "17") × (payload ≡ payload)
unfolding parse_i64 paratro_sdk_rust.Base.Decimal.number paratro_sdk_rust.Base.Decimal.scan
canonical_injective_example =
    canonical_injective (codes "17") (codes "17") payload payload (pos 17) (pos 17) refl refl refl

-- A signature of the clock at 17 is checked at 20.
verify_payload_iff_example :
    verify_payload checksum 20 secret
      (codes "17")
      payload
      (compute_signature checksum secret (codes "17") payload)
      (from_secs 5)
    ≡ ok tt
unfolding parse_i64 paratro_sdk_rust.Base.Decimal.number paratro_sdk_rust.Base.Decimal.scan
verify_payload_iff_example =
    (verify_payload_iff checksum 20 secret (codes "17") payload
        (compute_signature checksum secret (codes "17") payload) (from_secs 5) (omega arith)
        (expected-IsChar checksum secret (codes "17") payload)).1
      (pos 17, refl, inr (omega arith), refl)

verify_payload_cases_example :
    Unread checksum 20 secret (codes "17") payload (codes "v1=a") (from_secs 5)
    ⊎ ((ts : ℤ) × (parse_i64 (codes "17") ≡ some ts)
        × (Expired checksum 20 secret (codes "17") payload (codes "v1=a") (from_secs 5) ts
            ⊎ Forged checksum 20 secret (codes "17") payload (codes "v1=a") (from_secs 5) ts
            ⊎ Genuine checksum 20 secret (codes "17") payload (codes "v1=a") (from_secs 5) ts))
verify_payload_cases_example =
    verify_payload_cases checksum 20 secret (codes "17") payload (codes "v1=a") (from_secs 5)
      (omega arith) (omega arith, (omega arith, (omega arith, (omega arith, tt))))

verify-sign_payload_example :
    verify_payload checksum 20 secret
      (sign_payload checksum 17 secret payload).0
      payload
      (sign_payload checksum 17 secret payload).1
      (from_secs 5)
    ≡ ok tt
verify-sign_payload_example =
    verify-sign_payload checksum 17 20 secret payload (from_secs 5) (omega arith) (omega arith)
      (omega arith)

verify-sign_payload_replayed_example :
    verify_payload checksum 30 secret
      (sign_payload checksum 17 secret payload).0
      payload
      (sign_payload checksum 17 secret payload).1
      (from_secs 5)
    ≡ err (timestamp_expired 13 5)
verify-sign_payload_replayed_example =
    verify-sign_payload_replayed checksum 17 30 secret payload (from_secs 5) (omega arith)
      (omega arith) refl (omega arith)

forged :
    verify_payload checksum 20 secret (codes "17") payload (codes "v1=") (from_secs 5)
    ≡ err signature_mismatch
unfolding verify_payload parse_i64 compute_signature canonical constant_time_eq
    paratro_sdk_rust.Base.Decimal.number paratro_sdk_rust.Base.Decimal.scan
    paratro_sdk_rust.Webhook.check_freshness paratro_sdk_rust.Webhook.time_drift
    paratro_sdk_rust.Base.Int.sub_i64 paratro_sdk_rust.Webhook.secs_as_i64
    paratro_sdk_rust.Webhook.check_signature paratro_sdk_rust.Base.Str.Utf8.as_bytes
    paratro_sdk_rust.Base.Str.Utf8.utf8
forged = refl

unread :
    verify_payload checksum 20 secret (codes "soon") payload (codes "v1=a") default_tolerance
    ≡ err (invalid_timestamp (codes "soon"))
unfolding verify_payload parse_i64 paratro_sdk_rust.Base.Decimal.number
    paratro_sdk_rust.Base.Decimal.scan
unread = refl

-- The least `i64`: the error names an age of 2^63 - 20 seconds, and not of 2^63 + 20.
verify_payload-wrapped_example :
    (verify_payload checksum 20 secret
        (codes "-9223372036854775808")
        payload
        (codes "v1=a")
        (from_secs 5)
      ≡ err (timestamp_expired 9223372036854775788 5))
    × (9223372036854775788 < 9223372036854775828)
unfolding parse_i64 paratro_sdk_rust.Base.Decimal.number paratro_sdk_rust.Base.Decimal.scan
verify_payload-wrapped_example =
    verify_payload-wrapped checksum 20 secret (codes "-9223372036854775808") payload (codes "v1=a")
      (from_secs 5) (negsuc 9223372036854775807) (omega arith) refl refl (omega arith)

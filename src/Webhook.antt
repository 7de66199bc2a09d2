-- ===== src/Webhook.antt =====
-- Signing and verification of webhook payloads (src/webhook.rs).
pub mod Compare
pub mod Display
pub mod Event
pub mod Canonical
pub mod Verify
pub mod RoundTrip
pub mod Overflow
mod Tests
mod UnitTests
use Prim.Native.Nat.{bit_or, bit_xor}
use paratro_sdk_rust.Base.{
  ℕ, ◌*◌, Bool, true, false, not, ◌&&◌, ◌≡◌, Option, none, some, List, [], ◌∷◌, ◌++◌, Result, ok,
  err, ok_or, ◌>>=◌, length, ltb, ◌==◌, if◌then◌else◌, All,
}
use paratro_sdk_rust.Base.Int.{ℤ, pos, wrap_i64, sub_i64, unsigned_abs}
use paratro_sdk_rust.Base.Decimal.{nat_to_string, parse_i64}
use paratro_sdk_rust.Base.Str.{Str, codes}
use paratro_sdk_rust.Base.Str.Utf8.{as_bytes, IsChar}
use paratro_sdk_rust.Base.Time.{Duration, from_secs, is_zero, as_secs}

abbrev pub header_timestamp : Str
header_timestamp = codes "X-Paratro-Timestamp"

abbrev pub header_signature : Str
header_signature = codes "X-Paratro-Signature"

abbrev pub signature_version : Str
signature_version = codes "v1"

abbrev pub default_tolerance : Duration
default_tolerance = from_secs (5 * 60)

pub data WebhookError : Type 0 where
  invalid_timestamp : Str → WebhookError
  timestamp_expired : (age_secs tolerance_secs : ℕ) → WebhookError
  signature_mismatch : WebhookError

-- The crates `hmac`, `sha2` and `hex`: the functions that the SDK calls; a
-- hexadecimal text is of characters.
pub record Crypto : Type 0 where
  pub hmac_sha256 : List ℕ → List ℕ → List ℕ
  pub hex_encode : List ℕ → Str
  pub hex_chars : (b : List ℕ) → All IsChar (hex_encode b)

-- The fold of `constant_time_eq` over the zipped bytes
unfoldable pub fold_differences : ℕ → List ℕ → List ℕ → ℕ
fold_differences acc [] b = acc
fold_differences acc (x ∷ a) [] = acc
fold_differences acc (x ∷ a) (y ∷ b) = fold_differences (bit_or acc (bit_xor x y)) a b

unfoldable pub constant_time_eq : List ℕ → List ℕ → Bool
constant_time_eq a b = if not (length a == length b) then false else fold_differences 0 a b == 0

-- `{timestamp}.{payload}`, the bytes that are signed
unfoldable pub canonical : Str → List ℕ → List ℕ
canonical timestamp payload = as_bytes timestamp ++ b'.' ∷ payload

-- `as_secs() as i64`
unfoldable pub secs_as_i64 : ℕ → ℤ
secs_as_i64 n = wrap_i64 (pos n)

-- `(now - ts).unsigned_abs()`, in a build without overflow checks
unfoldable pub time_drift : ℕ → ℤ → ℕ
time_drift now ts = unsigned_abs (sub_i64 (secs_as_i64 now) ts)

-- Step 2 of `verify_payload`
unfoldable pub check_freshness : ℕ → ℤ → Duration → Result (Unit {0}) WebhookError
check_freshness now ts tolerance =
    if not (is_zero tolerance)
    then (if ltb (as_secs tolerance) (time_drift now ts)
        then err (timestamp_expired (time_drift now ts) (as_secs tolerance))
        else ok tt)
    else ok tt

module _ (c : Crypto) where
  open c use {hmac_sha256, hex_encode}

  unfoldable pub compute_signature : Str → Str → List ℕ → Str
  compute_signature secret timestamp payload =
      signature_version
      ++ (codes "=" ++ hex_encode (hmac_sha256 (as_bytes secret) (canonical timestamp payload)))

  -- `now` is the clock, in whole seconds since 1970.
  unfoldable pub sign_payload : ℕ → Str → List ℕ → Str × Str
  sign_payload now secret payload =
      let ts = nat_to_string now in (ts, compute_signature secret ts payload)

  unfoldable pub sign_payload_with_timestamp : Str → List ℕ → Str → Str
  sign_payload_with_timestamp secret payload timestamp = compute_signature secret timestamp payload

  -- Step 4 of `verify_payload`
  unfoldable pub check_signature : Str → Str → Result (Unit {0}) WebhookError
  check_signature expected signature =
      if not (constant_time_eq (as_bytes expected) (as_bytes signature))
      then err signature_mismatch
      else ok tt

  unfoldable pub verify_payload :
      ℕ → Str → Str → List ℕ → Str → Duration → Result (Unit {0}) WebhookError
  verify_payload now secret timestamp payload signature tolerance = do
    ts ← ok_or (parse_i64 timestamp) (invalid_timestamp timestamp)
    fresh ← check_freshness now ts tolerance
    check_signature (compute_signature secret timestamp payload) signature

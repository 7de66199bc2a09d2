-- ===== src/X402/Wire/RoundTrip.antt =====
-- When reading a written facilitator request gives it back (src/x402.rs).
use paratro_sdk_rust.Base.{◌≡◌, ◌≢◌, ◌↔◌, Option, none, some, arith}
use paratro_sdk_rust.Base.Int.{ℤ, IsI32}
use paratro_sdk_rust.Base.Str.{◌=ₛ◌}
use paratro_sdk_rust.Json.Laws.{in_i32_of}
use paratro_sdk_rust.Json.{Value, null, boolean, int, float, str, arr, obj, find}
use paratro_sdk_rust.X402.Wire.{X402FacilitatorRequest, facilitator_fields, facilitator_from}

abbrev request_of : ℤ → Value → Option Value → X402FacilitatorRequest
request_of z v o = record { x402_version = z; payment_payload = v; payment_requirements = o }

-- What reading makes of optional requirements: null and an absent field are the same.
abbrev without_null : Option Value → Option Value
without_null (some null) = none
without_null o = o

facilitator_parts :
    (z : ℤ) (v : Value) (o : Option Value)
    → IsI32 z
    → facilitator_from (facilitator_fields (request_of z v o))
      ≡ some (request_of z v (without_null o))
unfolding facilitator_from facilitator_fields find ◌=ₛ◌
facilitator_parts z v none h = rw (in_i32_of z h)
facilitator_parts z v (some null) h = rw (in_i32_of z h)
facilitator_parts z v (some (boolean b)) h = rw (in_i32_of z h)
facilitator_parts z v (some (int n)) h = rw (in_i32_of z h)
facilitator_parts z v (some (float b)) h = rw (in_i32_of z h)
facilitator_parts z v (some (str x)) h = rw (in_i32_of z h)
facilitator_parts z v (some (arr vs)) h = rw (in_i32_of z h)
facilitator_parts z v (some (obj fs)) h = rw (in_i32_of z h)

without_null_iff : (o : Option Value) → (without_null o ≡ o) ↔ (o ≢ some null)
without_null_iff none = ground arith
without_null_iff (some null) = ground arith
without_null_iff (some (boolean b)) = ground arith
without_null_iff (some (int n)) = ground arith
without_null_iff (some (float b)) = ground arith
without_null_iff (some (str x)) = ground arith
without_null_iff (some (arr vs)) = ground arith
without_null_iff (some (obj fs)) = ground arith

-- A written facilitator request whose version is an `i32` reads back as itself exactly unless its
-- payment requirements are set to the JSON value null, which reads back as none.
pub facilitator_round_trip :
    (r : X402FacilitatorRequest)
    → IsI32 r.x402_version
    → (facilitator_from (facilitator_fields r) ≡ some r) ↔ (r.payment_requirements ≢ some null)
facilitator_round_trip r h = ground (
  arith,
  facilitator_parts r.x402_version r.payment_payload r.payment_requirements h,
  without_null_iff r.payment_requirements,
)

-- ===== src/X402/Tests.antt =====
-- Documents of the x402 facilitator on concrete values (src/x402.rs).
use paratro_sdk_rust.Base.{◌≡◌, refl, true, false, some, none, [], arith}
use paratro_sdk_rust.Base.Int.{pos}
use paratro_sdk_rust.Base.Str.{codes, ◌=ₛ◌}
use paratro_sdk_rust.Json.{Value, obj, end, field, str, boolean, find}
use paratro_sdk_rust.Session.{Session}
use paratro_sdk_rust.Client.Replaying
use paratro_sdk_rust.Client.Replaying.{replaying, begun}
use paratro_sdk_rust.X402.{x402_settle_with_idempotency_key}
use paratro_sdk_rust.X402.Wire.{
  X402SettleResponse, X402FacilitatorRequest, facilitator_fields, facilitator_from, verified,
  verified_from,
}
use paratro_sdk_rust.X402.Wire.RoundTrip.{facilitator_round_trip}

abbrev payment : X402FacilitatorRequest
payment = record { x402_version = pos 2; payment_payload = obj end; payment_requirements = none }

facilitator_round_trip_example : facilitator_from (facilitator_fields payment) ≡ some payment
facilitator_round_trip_example =
    (facilitator_round_trip payment (omega arith)).1 (λ e. ground arith)

refused :
    verified (
      obj (
        field
          (codes "isValid")
          (boolean false)
          (field (codes "invalidReason") (str (codes "expired")) end)))
    ≡ some (record { is_valid = false; invalid_reason = some (codes "expired"); payer = [] })
unfolding verified_from find ◌=ₛ◌
refused = refl

abbrev settlement : Value
settlement = obj (
    field (codes "success") (boolean true) (
      field (codes "txId") (str (codes "st-1")) (
        field (codes "transaction") (str (codes "0xhash")) (
          field (codes "payer") (str (codes "0xp"))
            (field (codes "network") (str (codes "base-sepolia")) end)))))

abbrev settled_once : Session (replaying settlement)
settled_once =
    (x402_settle_with_idempotency_key (Replaying.client settlement) (obj end) (codes "key-1")
      (begun settlement)).1

abbrev settled_twice : Session (replaying settlement)
settled_twice =
    (x402_settle_with_idempotency_key (Replaying.client settlement) (obj end) (codes "key-1")
      settled_once).1

abbrev receipt : X402SettleResponse
receipt = record {
  success = true;
  error_reason = none;
  tx_id = codes "st-1";
  transaction = codes "0xhash";
  payer = codes "0xp";
  network = codes "base-sepolia";
}

-- ===== src/X402/UnitTests.antt =====
-- The unit tests of src/x402.rs, run on the model: each is the conjunction of its assertions.
use paratro_sdk_rust.Base.{◌≡◌, refl, true, false, some, none, []}
use paratro_sdk_rust.Base.Int.{pos}
use mathlib.Core.Option
use paratro_sdk_rust.Base.Str.{codes}
use paratro_sdk_rust.Json.{Value, boolean, str, int, obj, field, end}
use paratro_sdk_rust.X402.Wire.{
  X402VerifyResponse, X402SettleResponse, X402SettleStatusResponse, X402Settlement,
  facilitator_fields, verified, settled, settle_status, settlement,
}

abbrev verify_document : Value
verify_document = obj (
    field (codes "isValid") (boolean false)
      (field (codes "invalidReason") (str (codes "expired")) (end)))

abbrev settle_document : Value
settle_document = obj (
    field (codes "success") (boolean true) (
      field (codes "txId") (str (codes "st-1")) (
        field (codes "transaction") (str (codes "0xhash")) (
          field (codes "payer") (str (codes "0xp"))
            (field (codes "network") (str (codes "base-sepolia")) (end))))))

abbrev status_document : Value
status_document = obj (
    field (codes "success") (boolean true) (
      field (codes "txId") (str (codes "st-1")) (
        field (codes "status") (str (codes "SETTLED")) (
          field (codes "txHash") (str (codes "0xhash"))
            (field (codes "network") (str (codes "base-sepolia")) (end))))))

abbrev settlement_document : Value
settlement_document = obj (
    field (codes "tx_id") (str (codes "st-1")) (
      field (codes "chain") (str (codes "base")) (
        field (codes "from_address") (str (codes "a")) (
          field (codes "to_address") (str (codes "b")) (
            field (codes "amount") (str (codes "1000000")) (
              field (codes "status") (str (codes "SETTLED")) (
                field (codes "valid_before") (int (pos 1800000000)) (
                  field (codes "signature_v") (int (pos 27)) (
                    field (codes "signature_r") (str (codes "0xr")) (
                      field (codes "signature_s") (str (codes "0xs")) (
                        field (codes "created_at") (str (codes "2026-09-15T00:00:00Z"))
                          (end))))))))))))

abbrev minimal_document : Value
minimal_document = obj (
    field (codes "tx_id") (str (codes "st-2")) (
      field (codes "chain") (str (codes "base")) (
        field (codes "from_address") (str (codes "a")) (
          field (codes "to_address") (str (codes "b")) (
            field (codes "amount") (str (codes "1")) (
              field (codes "status") (str (codes "PENDING")) (
                field (codes "valid_before") (int (pos 0))
                  (field (codes "created_at") (str (codes "2026-09-15T00:00:00Z")) (end)))))))))

abbrev pub FacilitatorRequestIsCamelCase : Type 0
FacilitatorRequestIsCamelCase =
    obj (
      facilitator_fields (record {
        x402_version = pos 2;
        payment_payload =
            obj (field (codes "payload") (obj (end)) (field (codes "accepted") (obj (end)) (end)));
        payment_requirements = none;
      }))
    ≡ obj (
        field (codes "x402Version") (int (pos 2)) (
          field (codes "paymentPayload")
            (obj (field (codes "payload") (obj (end)) (field (codes "accepted") (obj (end)) (end))))
            (end)))

FacilitatorRequestIsCamelCase_holds : FacilitatorRequestIsCamelCase
unfolding facilitator_fields
FacilitatorRequestIsCamelCase_holds = refl

abbrev pub VerifyAndSettleRepliesParse : Type 0
VerifyAndSettleRepliesParse =
    (Option.map (λ (r : X402VerifyResponse). r.is_valid) (verified verify_document) ≡ some false)
    × (Option.map (λ (r : X402VerifyResponse). r.invalid_reason) (verified verify_document)
        ≡ some (some (codes "expired")))
    × (Option.map (λ (r : X402VerifyResponse). r.payer) (verified verify_document) ≡ some [])
    × (Option.map (λ (r : X402SettleResponse). r.tx_id) (settled settle_document)
        ≡ some (codes "st-1"))
    × (Option.map (λ (r : X402SettleResponse). r.error_reason) (settled settle_document)
        ≡ some none)
    × (Option.map (λ (r : X402SettleStatusResponse). r.tx_hash) (settle_status status_document)
        ≡ some (codes "0xhash"))

VerifyAndSettleRepliesParse_holds : VerifyAndSettleRepliesParse
unfolding facilitator_fields paratro_sdk_rust.X402.Wire.verified_from paratro_sdk_rust.Json.find
    paratro_sdk_rust.Base.Str.◌=ₛ◌ paratro_sdk_rust.X402.Wire.settled_from
    paratro_sdk_rust.X402.Wire.settle_status_from
VerifyAndSettleRepliesParse_holds = (refl, refl, refl, refl, refl, refl)

abbrev pub SettlementItemParses : Type 0
SettlementItemParses =
    (Option.map (λ (r : X402Settlement). r.signature_v) (settlement settlement_document)
      ≡ some (some (pos 27)))
    × (Option.map (λ (r : X402Settlement). r.signature_r) (settlement minimal_document) ≡ some none)

SettlementItemParses_holds : SettlementItemParses
unfolding facilitator_fields paratro_sdk_rust.X402.Wire.settlement_from paratro_sdk_rust.Json.find
    paratro_sdk_rust.Base.Str.◌=ₛ◌
SettlementItemParses_holds = (refl, refl)

-- ===== src/Transaction/UnitTests.antt =====
-- The unit tests of src/transaction.rs, run on the model: each is the conjunction of its assertions.
use paratro_sdk_rust.Base.{ℕ, ◌≡◌, refl, true, false, Option, some, none, []}
use paratro_sdk_rust.Base.Int.{pos}
use mathlib.Core.Option
use paratro_sdk_rust.Base.Str.{Str, codes}
use paratro_sdk_rust.Json.{Value, str, int, obj, field, end}
use paratro_sdk_rust.Transaction
use paratro_sdk_rust.Transaction.{
  CreateTransactionRequest, CreateTransactionResponse, Transaction, reference_id, is_accepted,
  is_broadcast, status_pending, status_broadcast, operation_transfer, operation_program_call,
  operation_contract_call,
}
use paratro_sdk_rust.Transaction.Builders.{
  new_transfer, transfer_with_memo, transfer_with_reference_id, new_program_call, new_quote,
  quote_with_permit_deadline, new_contract_call, contract_call_with_receive_address,
  contract_call_with_reference_id, transfer_request, from_program_call, contract_call_request,
}
use paratro_sdk_rust.Transaction.Wire.{request}
use paratro_sdk_rust.Transaction.Reply.{created, transaction}

abbrev swap_request : CreateTransactionRequest
swap_request = contract_call_request (
    contract_call_with_reference_id
      (contract_call_with_receive_address
        (new_contract_call (codes "0x9658") (codes "ethereum") (
          quote_with_permit_deadline
            (new_quote (codes "0xquote") (pos 1789449058)
              (record { to = codes "0xcf8a"; token = codes "0x59fb"; amount = codes "10000000" })
              (record {
                from = codes "0xcf8a";
                to = codes "0x9658";
                token = codes "0xa55a";
                amount = codes "42000000000000000";
              })
              (codes "0xsig"))
            (pos 1789449358)))
        (codes "0x9658"))
      (codes "quote-1"))

abbrev broadcast_reply : Value
broadcast_reply = obj (
    field (codes "tx_id") (str (codes "t1")) (
      field (codes "status") (str (codes "BROADCAST")) (
        field (codes "message") (str (codes "CONTRACT_CALL broadcast"))
          (field (codes "tx_hash") (str (codes "0xabc")) (end)))))

abbrev pending_reply : Value
pending_reply = obj (
    field (codes "tx_id") (str (codes "t2")) (
      field (codes "status") (str (codes "PENDING"))
        (field (codes "message") (str (codes "Transfer task created")) (end))))

abbrev pending : Str → ℕ → CreateTransactionResponse
pending operation http_status = record {
  tx_id = codes "t";
  status = status_pending;
  message = [];
  tx_hash = none;
  http_status = http_status;
  operation = operation;
}

abbrev transaction_document : Value
transaction_document = obj (
    field (codes "tx_id") (str (codes "t")) (
      field (codes "wallet_id") (str (codes "w")) (
        field (codes "client_id") (str (codes "c")) (
          field (codes "chain") (str (codes "ethereum")) (
            field (codes "transaction_type") (str (codes "OUTBOUND")) (
              field (codes "from_address") (str (codes "a")) (
                field (codes "to_address") (str (codes "b")) (
                  field (codes "token_symbol") (str (codes "USDT")) (
                    field (codes "amount") (str (codes "1")) (
                      field (codes "status") (str (codes "CONFIRMED")) (
                        field (codes "tx_hash") (str (codes "0x")) (
                          field (codes "created_at") (str (codes "2026-09-15T00:00:00Z"))
                            (end)))))))))))))

-- The text of the document is that of serde_json; the document has its keys in this order.
abbrev pub TransferSerializesWithOperationTagFirst : Type 0
TransferSerializesWithOperationTagFirst =
    request.to_value (
      transfer_request (
        transfer_with_reference_id
          (transfer_with_memo
            (new_transfer (codes "0xfrom") (codes "0xto") (codes "ethereum") (codes "USDT")
              (codes "10.5"))
            (codes "invoice 1"))
          (codes "order-1")))
    ≡ obj (
        field (codes "operation") (str (codes "TRANSFER")) (
          field (codes "from_address") (str (codes "0xfrom")) (
            field (codes "to_address") (str (codes "0xto")) (
              field (codes "chain") (str (codes "ethereum")) (
                field (codes "token_symbol") (str (codes "USDT")) (
                  field (codes "amount") (str (codes "10.5")) (
                    field (codes "memo") (str (codes "invoice 1"))
                      (field (codes "reference_id") (str (codes "order-1")) (end)))))))))

TransferSerializesWithOperationTagFirst_holds : TransferSerializesWithOperationTagFirst
unfolding Transaction.operation reference_id is_accepted is_broadcast paratro_sdk_rust.Base.Str.◌=ₛ◌
    paratro_sdk_rust.Json.find paratro_sdk_rust.Json.has_key
    paratro_sdk_rust.Transaction.Wire.request_fields
TransferSerializesWithOperationTagFirst_holds = refl

abbrev pub OptionalFieldsAreOmittedNotNulled : Type 0
OptionalFieldsAreOmittedNotNulled =
    request.to_value
      (from_program_call (new_program_call (codes "payer") (codes "solana") (codes "AQID")))
    ≡ obj (
        field (codes "operation") (str (codes "PROGRAM_CALL")) (
          field (codes "from_address") (str (codes "payer")) (
            field (codes "chain") (str (codes "solana"))
              (field (codes "signed_transaction") (str (codes "AQID")) (end)))))

OptionalFieldsAreOmittedNotNulled_holds : OptionalFieldsAreOmittedNotNulled
unfolding Transaction.operation reference_id is_accepted is_broadcast paratro_sdk_rust.Base.Str.◌=ₛ◌
    paratro_sdk_rust.Json.find paratro_sdk_rust.Json.has_key
    paratro_sdk_rust.Transaction.Wire.request_fields
OptionalFieldsAreOmittedNotNulled_holds = refl

abbrev pub ContractCallShape : Type 0
ContractCallShape =
    (request.to_value swap_request
      ≡ obj (
          field (codes "operation") (str (codes "CONTRACT_CALL")) (
            field (codes "from_address") (str (codes "0x9658")) (
              field (codes "chain") (str (codes "ethereum")) (
                field (codes "receive_address") (str (codes "0x9658")) (
                  field (codes "contract_call")
                    (obj (
                      field (codes "quote_id") (str (codes "0xquote")) (
                        field (codes "expiration") (int (pos 1789449058)) (
                          field (codes "incoming")
                            (obj (
                              field (codes "to") (str (codes "0xcf8a")) (
                                field (codes "token") (str (codes "0x59fb"))
                                  (field (codes "amount") (str (codes "10000000")) (end)))))
                            (field (codes "outgoing")
                              (obj (
                                field (codes "from") (str (codes "0xcf8a")) (
                                  field (codes "to") (str (codes "0x9658")) (
                                    field (codes "token") (str (codes "0xa55a")) (
                                      field (codes "amount") (str (codes "42000000000000000"))
                                        (end))))))
                              (field (codes "counterparty_signature") (str (codes "0xsig"))
                                (field (codes "permit_deadline") (int (pos 1789449358)) (end))))))))
                    (field (codes "reference_id") (str (codes "quote-1")) (end))))))))
    × (Transaction.operation swap_request ≡ operation_contract_call)
    × (reference_id swap_request ≡ some (codes "quote-1"))

ContractCallShape_holds : ContractCallShape
unfolding Transaction.operation reference_id is_accepted is_broadcast paratro_sdk_rust.Base.Str.◌=ₛ◌
    paratro_sdk_rust.Json.find paratro_sdk_rust.Json.has_key
    paratro_sdk_rust.Transaction.Wire.request_fields paratro_sdk_rust.Transaction.Wire.quote_fields
    paratro_sdk_rust.Transaction.Wire.incoming_fields
    paratro_sdk_rust.Transaction.Wire.outgoing_fields
ContractCallShape_holds = (refl, refl, refl)

abbrev pub ResponseParsesWithAndWithoutTxHash : Type 0
ResponseParsesWithAndWithoutTxHash =
    (Option.map (λ (r : CreateTransactionResponse). r.tx_hash) (created broadcast_reply)
      ≡ some (some (codes "0xabc")))
    × (Option.map is_broadcast (created broadcast_reply) ≡ some true)
    × (Option.map (λ (r : CreateTransactionResponse). r.http_status) (created broadcast_reply)
        ≡ some 0)
    × (Option.map (λ (r : CreateTransactionResponse). r.tx_hash) (created pending_reply)
        ≡ some none)
    × (Option.map is_broadcast (created pending_reply) ≡ some false)
    × (Option.map (λ (r : CreateTransactionResponse). r.operation) (created pending_reply)
        ≡ some [])
    × (Option.map is_accepted (created pending_reply) ≡ some false)

ResponseParsesWithAndWithoutTxHash_holds : ResponseParsesWithAndWithoutTxHash
unfolding Transaction.operation reference_id is_accepted is_broadcast paratro_sdk_rust.Base.Str.◌=ₛ◌
    paratro_sdk_rust.Json.find paratro_sdk_rust.Json.has_key
    paratro_sdk_rust.Transaction.Reply.created_from
ResponseParsesWithAndWithoutTxHash_holds = (refl, refl, refl, refl, refl, refl, refl)

abbrev pub IsAcceptedFollowsStatusAndOperationNotOnlyHttpStatus : Type 0
IsAcceptedFollowsStatusAndOperationNotOnlyHttpStatus =
    (is_accepted (pending operation_contract_call 202) ≡ true)
    × (is_accepted (pending operation_contract_call 200) ≡ true)
    × (is_accepted (pending operation_program_call 200) ≡ true)
    × (is_accepted (pending operation_transfer 200) ≡ false)
    × (is_accepted (record (pending operation_contract_call 200) { status = status_broadcast })
        ≡ false)

IsAcceptedFollowsStatusAndOperationNotOnlyHttpStatus_holds :
    IsAcceptedFollowsStatusAndOperationNotOnlyHttpStatus
unfolding Transaction.operation reference_id is_accepted is_broadcast paratro_sdk_rust.Base.Str.◌=ₛ◌
    paratro_sdk_rust.Json.find paratro_sdk_rust.Json.has_key
IsAcceptedFollowsStatusAndOperationNotOnlyHttpStatus_holds = (refl, refl, refl, refl, refl)

abbrev pub TransactionParsesWithoutRiskFields : Type 0
TransactionParsesWithoutRiskFields =
    (Option.map (λ (r : Transaction). r.risk_score) (transaction transaction_document) ≡ some none)
    × (Option.map (λ (r : Transaction). r.risk_level) (transaction transaction_document)
        ≡ some none)

TransactionParsesWithoutRiskFields_holds : TransactionParsesWithoutRiskFields
unfolding Transaction.operation reference_id is_accepted is_broadcast paratro_sdk_rust.Base.Str.◌=ₛ◌
    paratro_sdk_rust.Json.find paratro_sdk_rust.Json.has_key
    paratro_sdk_rust.Transaction.Reply.transaction_from
TransactionParsesWithoutRiskFields_holds = (refl, refl)

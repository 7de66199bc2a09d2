-- ===== src/Contract/Transactions.antt =====
-- The contract tests of the unified entry (tests/http_contract.rs): each is the conjunction of its
-- assertions.
use paratro_sdk_rust.Base.{ℕ, ◌≡◌, refl, true, false, none, some, List, [], ◌∷◌, map, ◌++◌}
use mathlib.Core.Option
use paratro_sdk_rust.Base.Int.{pos, sub_i64, wrap_i64, ◌-ℤ◌}
use paratro_sdk_rust.Base.Str.{
  Str, codes, is_whitespace, split_first, starts_with, trim, trim_end_by, trim_start, ◌=ₛ◌,
}
use paratro_sdk_rust.Json.{Value, str, obj, field, end, find, has_key}
use paratro_sdk_rust.Error.{
  is_rejected, rank, ApiErrorKind, kind, status, reason_tag, is_reason_tag, kind_400, kind_of,
  tag_loop, tag_of_rest, tag_step, tagged_rest,
}
use paratro_sdk_rust.ReasonTag.{is_known}
use paratro_sdk_rust.Session.{Request, call, from_slice}
use paratro_sdk_rust.Client.{
  header_idempotency_key, after_first, decode_reply, exchanges, execute, is_token_expired,
  post_request, post_with_status_and_headers, retries, retry, send, url,
}
use paratro_sdk_rust.Transaction.{
  CreateTransactionRequest, CreateTransactionResponse, is_accepted, is_broadcast, status_pending,
  operation,
}
use paratro_sdk_rust.Transaction.Builders.{
  new_transfer, transfer_with_memo, transfer_with_reference_id, transfer_request, new_quote,
  new_contract_call, contract_call_with_receive_address, contract_call_with_reference_id,
  contract_call_with_memo, contract_call_request,
}
use paratro_sdk_rust.Transaction.Endpoints.{
  create_transaction, create_transaction_with_idempotency_key, create_transaction_with_headers,
  filled,
}
use paratro_sdk_rust.Transfer.{create_transfer}
use paratro_sdk_rust.Base.Str.Utf8.{as_bytes, utf8}
use paratro_sdk_rust.Error.Wire.{error_body_from}
use paratro_sdk_rust.Token.{
  auth_error, auth_request, expires_at, get_token, kept, refresh, refresh_after_expiry, refuse,
  renew, renewed, store,
}
use paratro_sdk_rust.Token.Wire.{client_info_from, token_response_from}
use paratro_sdk_rust.Transaction.Reply.{created_from}
use paratro_sdk_rust.Transaction.Wire.{
  contract_call_fields, request_fields, transfer_fields, variant_fields,
}
use paratro_sdk_rust.Contract.{
  start, client, error_body, api_calls, header, failed, replied, failed, replied,
}

abbrev from : Str
from = codes "0x96586e99CE724F45bAb65cf963533b810147c1F4"

abbrev counterparty : Str
counterparty = codes "0xcf8a9d1e489c58f4c3d69b45380fb4a6c03ada47"

abbrev pub fixture_call : CreateTransactionRequest
fixture_call = contract_call_request (
    contract_call_with_memo
      (contract_call_with_reference_id
        (contract_call_with_receive_address
          (new_contract_call from (codes "ethereum") (
            new_quote (codes "0x1111111111111111111111111111111111111111111111111111111111111111")
              (pos 1789449058)
              (record {
                to = counterparty;
                token = codes "0x59fb67f6778cff089484cf7115906725dfc44293";
                amount = codes "10000000";
              })
              (record {
                from = counterparty;
                to = from;
                token = codes "0xa55a927f2211fe52188526ed7e779b7298646e75";
                amount = codes "42000000000000000";
              })
              (codes "0xsig")))
          from)
        (codes "quote-1"))
      (codes "optional"))

abbrev reply : Str → Str → Str → Value
reply tx_id state message = obj (
    field (codes "tx_id") (str tx_id)
      (field (codes "status") (str state) (field (codes "message") (str message) end)))

abbrev created_task : List (ℕ × Value)
created_task = (200, reply (codes "tx-1") (codes "PENDING") (codes "Transfer task created")) ∷ []

abbrev invoice : CreateTransactionRequest
invoice = transfer_request (
    transfer_with_reference_id
      (transfer_with_memo
        (new_transfer from (codes "0xbbbb") (codes "ethereum") (codes "USDT") (codes "10.5"))
        (codes "invoice 42"))
      (codes "order-42"))

abbrev pub TransferWireFormatAnd200Pending : Type 0
TransferWireFormatAnd200Pending =
    let run = create_transaction (client created_task) invoice (start created_task) in
    let api = api_calls run.1.sent in
    (map (λ (r : Request). r.method) api ≡ codes "POST" ∷ [])
    × (map (λ (r : Request). r.url) api ≡ codes "http://127.0.0.1:1/api/v1/transactions" ∷ [])
    × (map (header (codes "Authorization")) api ≡ some (codes "Bearer token-1") ∷ [])
    × (map (header (codes "Content-Type")) api ≡ some (codes "application/json") ∷ [])
    × (map (λ (r : Request). r.body) api
        ≡ some (
            codes
              "{\"operation\":\"TRANSFER\",\"from_address\":\"0x96586e99CE724F45bAb65cf963533b810147c1F4\",\"to_address\":\"0xbbbb\",\"chain\":\"ethereum\",\"token_symbol\":\"USDT\",\"amount\":\"10.5\",\"memo\":\"invoice 42\",\"reference_id\":\"order-42\"}")
          ∷ [])
    × (Option.map (λ (r : CreateTransactionResponse). r.http_status) (replied run.0) ≡ some 200)
    × (Option.map is_accepted (replied run.0) ≡ some false)
    × (Option.map (λ (r : CreateTransactionResponse). r.tx_id) (replied run.0)
        ≡ some (codes "tx-1"))
    × (Option.map (λ (r : CreateTransactionResponse). r.status) (replied run.0)
        ≡ some status_pending)
    × (Option.map (λ (r : CreateTransactionResponse). r.tx_hash) (replied run.0) ≡ some none)

TransferWireFormatAnd200Pending_holds : TransferWireFormatAnd200Pending
unfolding call from_slice get_token refresh refresh_after_expiry kept renew renewed store refuse
    auth_error expires_at auth_request token_response_from client_info_from sub_i64 wrap_i64 ◌-ℤ◌
    ◌=ₛ◌ find has_key url send exchanges after_first retries retry is_token_expired decode_reply
    execute error_body_from post_with_status_and_headers post_request create_transaction
    create_transaction_with_headers create_transaction_with_idempotency_key filled operation
    created_from request_fields variant_fields transfer_fields as_bytes utf8 is_accepted
TransferWireFormatAnd200Pending_holds = (refl, refl, refl, refl, refl, refl, refl, refl, refl, refl)

abbrev late : Str
late = codes "CONTRACT_CALL accepted but the signing engine did not answer in time"

abbrev replayed : List (ℕ × Value)
replayed =
    (202, reply (codes "tx-k") (codes "PENDING") late)
    ∷ (200, reply (codes "tx-k") (codes "PENDING") late)
    ∷ (
      200,
      obj (
          field (codes "tx_id") (str (codes "tx-n")) (
            field (codes "status") (str (codes "BROADCAST")) (
              field (codes "message") (str (codes "CONTRACT_CALL broadcast"))
                (field (codes "tx_hash") (str (codes "0xh")) end)))),
    )
    ∷ []

abbrev pub CreateTransactionSendsIdempotencyKeyAndPlainCallDoesNot : Type 0
CreateTransactionSendsIdempotencyKeyAndPlainCallDoesNot =
    let key = codes "idem-1" in
    let first =
      create_transaction_with_idempotency_key (client replayed) fixture_call key (start replayed) in
    let replay =
      create_transaction_with_idempotency_key (client replayed) fixture_call key first.1 in
    let plain = create_transaction (client replayed) fixture_call replay.1 in
    (Option.map (λ (r : CreateTransactionResponse). r.http_status) (replied first.0) ≡ some 202)
    × (Option.map is_accepted (replied first.0) ≡ some true)
    × (Option.map (λ (r : CreateTransactionResponse). r.http_status) (replied replay.0) ≡ some 200)
    × (Option.map (λ (r : CreateTransactionResponse). r.tx_id) (replied replay.0)
        ≡ some (codes "tx-k"))
    × (Option.map is_accepted (replied replay.0) ≡ some true)
    × (Option.map is_broadcast (replied plain.0) ≡ some true)
    × (map (header header_idempotency_key) (api_calls plain.1.sent)
        ≡ some key ∷ some key ∷ none ∷ [])
    × (map (λ (r : Request). r.body) (api_calls replay.1.sent)
        ≡ map (λ (r : Request). r.body) (api_calls first.1.sent)
          ++ map (λ (r : Request). r.body) (api_calls first.1.sent))
    × (map (λ (r : Request). r.url) (api_calls first.1.sent)
        ≡ codes "http://127.0.0.1:1/api/v1/transactions" ∷ [])
    × (map (header (codes "Authorization")) (api_calls first.1.sent)
        ≡ some (codes "Bearer token-1") ∷ [])

CreateTransactionSendsIdempotencyKeyAndPlainCallDoesNot_holds :
    CreateTransactionSendsIdempotencyKeyAndPlainCallDoesNot
unfolding call from_slice get_token refresh refresh_after_expiry kept renew renewed store refuse
    auth_error expires_at auth_request token_response_from client_info_from sub_i64 wrap_i64 ◌-ℤ◌
    ◌=ₛ◌ find has_key url send exchanges after_first retries retry is_token_expired decode_reply
    execute error_body_from post_with_status_and_headers post_request create_transaction
    create_transaction_with_headers create_transaction_with_idempotency_key filled operation
    created_from request_fields variant_fields contract_call_fields is_accepted is_broadcast
CreateTransactionSendsIdempotencyKeyAndPlainCallDoesNot_holds =
    (refl, refl, refl, refl, refl, refl, refl, refl, refl, refl)

abbrev legacy : List (ℕ × Value)
legacy = (200, reply (codes "tx-6") (codes "PENDING") (codes "Transfer task created")) ∷ []

abbrev pub LegacyCreateTransferGoesThroughUnifiedEntry : Type 0
LegacyCreateTransferGoesThroughUnifiedEntry =
    let run =
      create_transfer (client legacy)
        (record {
          from_address = from;
          to_address = codes "0xbbbb";
          chain = codes "ethereum";
          token_symbol = codes "USDT";
          amount = codes "1";
          memo = none;
          reference_id = some (codes "legacy-1");
        })
        (start legacy) in
    (map (λ (r : Request). r.url) (api_calls run.1.sent)
      ≡ codes "http://127.0.0.1:1/api/v1/transactions" ∷ [])
    × (map (λ (r : Request). r.body) (api_calls run.1.sent)
        ≡ some (
            codes
              "{\"operation\":\"TRANSFER\",\"from_address\":\"0x96586e99CE724F45bAb65cf963533b810147c1F4\",\"to_address\":\"0xbbbb\",\"chain\":\"ethereum\",\"token_symbol\":\"USDT\",\"amount\":\"1\",\"reference_id\":\"legacy-1\"}")
          ∷ [])
    × (Option.map (λ (r : CreateTransactionResponse). r.tx_id) (replied run.0)
        ≡ some (codes "tx-6"))
    × (Option.map (λ (r : CreateTransactionResponse). r.http_status) (replied run.0) ≡ some 200)

LegacyCreateTransferGoesThroughUnifiedEntry_holds : LegacyCreateTransferGoesThroughUnifiedEntry
unfolding call from_slice get_token refresh refresh_after_expiry kept renew renewed store refuse
    auth_error expires_at auth_request token_response_from client_info_from sub_i64 wrap_i64 ◌-ℤ◌
    ◌=ₛ◌ find has_key url send exchanges after_first retries retry is_token_expired decode_reply
    execute error_body_from post_with_status_and_headers post_request create_transaction
    create_transaction_with_headers create_transaction_with_idempotency_key filled operation
    created_from request_fields variant_fields transfer_fields as_bytes utf8 create_transfer
LegacyCreateTransferGoesThroughUnifiedEntry_holds = (refl, refl, refl, refl)

abbrev passed : List (ℕ × Value)
passed =
    (
      400,
      error_body (codes "invalid_parameter") (codes "invalid_request_error")
          (codes "Rejected: expiration_passed: quote expired at 1789449058 (now 1789449100)"),
    )
    ∷ []

abbrev pub Rejected400ExposesReasonTag : Type 0
Rejected400ExposesReasonTag =
    let run = create_transaction (client passed) fixture_call (start passed) in
    (Option.map status (failed run.0) ≡ some (some 400))
    × (Option.map kind (failed run.0) ≡ some (some ApiErrorKind.rejected))
    × (Option.map is_rejected (failed run.0) ≡ some true)
    × (Option.map reason_tag (failed run.0) ≡ some (some (codes "expiration_passed")))
    × (is_known (codes "expiration_passed") ≡ true)

Rejected400ExposesReasonTag_holds : Rejected400ExposesReasonTag
unfolding is_rejected rank call from_slice get_token refresh refresh_after_expiry kept renew renewed
    store refuse auth_error expires_at auth_request token_response_from client_info_from sub_i64
    wrap_i64 ◌-ℤ◌ ◌=ₛ◌ find has_key url send exchanges after_first retries retry is_token_expired
    decode_reply execute error_body_from post_with_status_and_headers post_request
    create_transaction create_transaction_with_headers create_transaction_with_idempotency_key
    filled operation created_from request_fields variant_fields status kind kind_of reason_tag
    is_known kind_400 starts_with tagged_rest tag_of_rest is_reason_tag trim trim_end_by trim_start
    split_first is_whitespace as_bytes utf8 tag_loop tag_step
Rejected400ExposesReasonTag_holds = (refl, refl, refl, refl, refl)

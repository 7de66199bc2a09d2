-- ===== src/Transaction/Tests.antt =====
-- Requests and replies of the unified entry on concrete values (src/transaction.rs).
use paratro_sdk_rust.Base.{◌≡◌, inr, refl, true, false, some, none, [], ◌∷◌, err, arith}
use paratro_sdk_rust.Base.Int.{pos}
use paratro_sdk_rust.Base.Str.{codes, ◌=ₛ◌}
use paratro_sdk_rust.Json.{str, obj, field, end, find}
use paratro_sdk_rust.Session.{Session}
use paratro_sdk_rust.Session.Trace.{Adds}
use paratro_sdk_rust.Session.Scripted.{scripted, start, answers, pending_document}
use paratro_sdk_rust.Client.Scripted.{client}
use paratro_sdk_rust.Client.Replaying
use paratro_sdk_rust.Client.Replaying.{replaying, begun}
use paratro_sdk_rust.Transaction.Rejected.{created_rejected}
use paratro_sdk_rust.Client.{Reply, post_request, header_idempotency_key}
use paratro_sdk_rust.Client.Retry.{Attempts}
use paratro_sdk_rust.Client.{
  post_with_status_and_headers, url, send, exchanges, after_first, retries, retry, is_token_expired,
  decode_reply, execute,
}
use paratro_sdk_rust.Session.{Failure, call, from_slice}
use paratro_sdk_rust.Token.{
  auth_request, get_token, refresh_after_expiry, refresh, kept, renew, renewed, store, refuse,
  auth_error, expires_at,
}
use paratro_sdk_rust.Token.Wire.{token_response_from, client_info_from}
use paratro_sdk_rust.Error.{
  ErrorBody, ApiErrorKind, kind, reason_tag, is_reason_tag, tag_loop, tag_step,
}
use paratro_sdk_rust.Error.Wire.{error_body_from, error_body_fields}
use paratro_sdk_rust.Base.Str.Utf8.{as_bytes, utf8}
use paratro_sdk_rust.Json.{has_key}
use paratro_sdk_rust.Base.Int.{sub_i64, wrap_i64, ◌-ℤ◌}
use paratro_sdk_rust.Query.{shown}
use paratro_sdk_rust.Query.Lookup.{lookup}
use paratro_sdk_rust.Transaction.{
  TransferRequest, ContractCallRequest, CreateTransactionResponse, ListTransactionsRequest,
  transfer, contract_call, operation, is_accepted, status_pending, transactions_path,
}
use paratro_sdk_rust.Transaction.Builders.{
  new_transfer, transfer_with_memo, transfer_with_reference_id, new_quote,
  quote_with_permit_deadline, new_contract_call, contract_call_with_reference_id,
}
use paratro_sdk_rust.Transaction.Wire.{request, request_fields}
use paratro_sdk_rust.Transaction.Wire.RoundTrip.{request_round_trip}
use paratro_sdk_rust.Transaction.Reply.{created, created_fields, created_from}
use paratro_sdk_rust.Transaction.Endpoints.{
  query, filled, create_transaction_with_headers, create_transaction_with_idempotency_key,
}
use paratro_sdk_rust.Transaction.Outcome.{
  filled-is_accepted, replayed-is_accepted, created_round_trip, by_hand-is_accepted,
  create_transaction-is_accepted,
}
use paratro_sdk_rust.Transaction.Requests.{create_transaction-Adds}
use paratro_sdk_rust.Transaction.Filters.{query-lookup}

abbrev invoice : TransferRequest
invoice =
    transfer_with_reference_id
      (transfer_with_memo
        (new_transfer (codes "0xa") (codes "0xb") (codes "ethereum") (codes "USDT") (codes "10.5"))
        (codes "invoice 1"))
      (codes "order-1")

abbrev swap : ContractCallRequest
swap =
    contract_call_with_reference_id
      (new_contract_call (codes "0xa") (codes "base") (
        quote_with_permit_deadline
          (new_quote (codes "0x1") (pos 1800000000)
            (record { to = codes "0xc"; token = codes "0xt"; amount = codes "1" })
            (record {
              from = codes "0xd";
              to = codes "0xa";
              token = codes "0xu";
              amount = codes "2";
            })
            (codes "0xs"))
          (pos 1800000300)))
      (codes "swap-1")

abbrev pending : CreateTransactionResponse
pending = record {
  tx_id = codes "tx-1";
  status = status_pending;
  message = codes "ok";
  tx_hash = none;
  http_status = 0;
  operation = [];
}

abbrev accepted : Reply CreateTransactionResponse
accepted = record { status = 200; body = pending }

request_round_trip_example :
    request.from_value (request.to_value (contract_call swap)) ≡ some (contract_call swap)
request_round_trip_example = request_round_trip (contract_call swap) (omega arith, omega arith)

pending_call : is_accepted (filled (contract_call swap) accepted) ≡ true
pending_call = (filled-is_accepted (contract_call swap) accepted).1 (inr (tt, refl))

replayed-is_accepted_example :
    is_accepted (filled (contract_call swap) accepted)
    ≡ is_accepted (filled (contract_call swap) (record { status = 202; body = pending }))
replayed-is_accepted_example =
    (replayed-is_accepted (contract_call swap) pending 200 refl (λ e. ground arith)).1 tt

reply_again : created (obj (created_fields pending)) ≡ some pending
reply_again = created_round_trip pending

read_by_hand : is_accepted pending ≡ false
unfolding created_from find ◌=ₛ◌
read_by_hand = by_hand-is_accepted pending_document pending refl

-- A token, then a pending reply under 200
abbrev answering : Session scripted
answering = start (answers 200 (codes "tT1") ∷ answers 200 (codes "p") ∷ [])

create_transaction-is_accepted_example : is_accepted (filled (contract_call swap) accepted) ≡ true
unfolding create_transaction_with_headers create_transaction_with_idempotency_key
    post_with_status_and_headers url send exchanges after_first retries retry is_token_expired
    decode_reply execute call from_slice get_token refresh refresh_after_expiry kept renew renewed
    store refuse auth_error expires_at auth_request token_response_from client_info_from
    error_body_from created_from find has_key ◌=ₛ◌ sub_i64 wrap_i64 ◌-ℤ◌ filled operation
create_transaction-is_accepted_example =
    (create_transaction-is_accepted client (contract_call swap) [] answering
        (filled (contract_call swap) accepted) refl).2.1
      (inr (tt, refl))

one_key :
    Adds
      (Attempts client (
        post_request
          (codes "https://g.io/api/v1/transactions")
          ((header_idempotency_key, codes "key-1") ∷ [])
          (codes "{}")))
      answering
      (create_transaction_with_idempotency_key client
        (transfer invoice)
        (codes "key-1")
        answering).1
unfolding url
one_key =
    create_transaction-Adds client (transfer invoice) (codes "key-1") (codes "{}") answering refl

abbrev filters : ListTransactionsRequest
filters = record {
  wallet_id = some (codes "w");
  account_id = none;
  chain = some (codes "base");
  page = some (pos 2);
  page_size = none;
}

filters_found :
    (lookup (codes "wallet_id") (query filters) ≡ some (codes "w"))
    × (lookup (codes "account_id") (query filters) ≡ none)
    × (lookup (codes "chain") (query filters) ≡ some (codes "base"))
    × (lookup (codes "page") (query filters) ≡ shown (some (pos 2)))
    × (lookup (codes "page_size") (query filters) ≡ none)
filters_found = query-lookup filters

tag_first :
    request_fields
      (transfer (new_transfer (codes "a") (codes "b") (codes "c") (codes "d") (codes "e")))
    ≡ field (codes "operation") (str (codes "TRANSFER")) (
        field (codes "from_address") (str (codes "a")) (
          field (codes "to_address") (str (codes "b")) (
            field (codes "chain") (str (codes "c")) (
              field
                (codes "token_symbol")
                (str (codes "d"))
                (field (codes "amount") (str (codes "e")) end)))))
unfolding request_fields
tag_first = refl

-- The first answer has status 202, the second one 200.
abbrev once : Session (replaying pending_document)
once =
    (create_transaction_with_idempotency_key (Replaying.client pending_document)
      (contract_call swap) (codes "key-1") (begun pending_document)).1

abbrev twice : Session (replaying pending_document)
twice =
    (create_transaction_with_idempotency_key (Replaying.client pending_document)
      (contract_call swap) (codes "key-1") once).1

abbrev first_reply : CreateTransactionResponse
first_reply = filled (contract_call swap) (record { status = 202; body = pending })

abbrev blacklisted : ErrorBody
blacklisted = record {
  code = codes "invalid_parameter";
  error_type = codes "invalid_request";
  message = codes "Rejected: address_blacklisted: 0xdead";
}

-- A token, then the rejection
abbrev rejecting : Session scripted
rejecting = start (answers 200 (codes "tT1") ∷ answers 400 (codes "r") ∷ [])

abbrev with_token : Session scripted
with_token = (get_token client.token_manager rejecting).1

abbrev refused_at : Session scripted
refused_at =
    (execute client (post_request (url client transactions_path) [] (codes "{}") (codes "T1"))
      with_token).1

created_rejected_example :
    (e : Failure scripted) × (create_transaction_with_headers client (transfer invoice) [] rejecting
      ≡ (err e, refused_at))
    × (reason_tag e ≡ some (codes "address_blacklisted"))
    × (kind e ≡ some ApiErrorKind.rejected)
unfolding execute call get_token refresh kept renew renewed store refuse auth_error expires_at
    auth_request from_slice token_response_from client_info_from error_body_from error_body_fields
    find has_key ◌=ₛ◌ sub_i64 wrap_i64 ◌-ℤ◌ post_request url is_reason_tag as_bytes utf8 tag_loop
    tag_step
created_rejected_example =
    created_rejected client (transfer invoice) [] rejecting with_token refused_at (codes "T1")
      (codes "{}") (codes "r") blacklisted (codes "address_blacklisted") (codes " 0xdead") refl refl
      refl refl refl refl

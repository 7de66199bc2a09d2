-- ===== src/Contract/Auth.antt =====
-- The contract tests of the token and its single renewal (tests/http_contract.rs): each is the
-- conjunction of its assertions.
use paratro_sdk_rust.Base.{
  ℕ, ◌≡◌, refl, true, Option, none, some, List, [], ◌∷◌, Result, ok, err, map, length,
}
use mathlib.Core.Option
use paratro_sdk_rust.Base.Str.{Str, codes, ◌=ₛ◌}
use paratro_sdk_rust.Json.{Value, str, obj, field, end, find, has_key}
use paratro_sdk_rust.Error.{ApiErrorKind, kind, code, status, is_token_expired, kind_of, rank}
use paratro_sdk_rust.Session.{Request, call, from_slice}
use paratro_sdk_rust.Token.{
  header_api_key, header_api_secret, auth_error, auth_request, expires_at, get_token, kept, refresh,
  refresh_after_expiry, refuse, renew, renewed, store,
}
use paratro_sdk_rust.Client.{
  header_idempotency_key, after_first, decode_reply, exchanges, execute, get, get_request,
  get_with_query, post_request, post_with_status_and_headers, retries, retry, send, url,
}
use paratro_sdk_rust.Transaction.{CreateTransactionRequest, CreateTransactionResponse, operation}
use paratro_sdk_rust.Transaction.Builders.{new_program_call, from_program_call}
use paratro_sdk_rust.Transaction.Endpoints.{
  create_transaction, create_transaction_with_idempotency_key, get_transaction,
  create_transaction_with_headers, filled,
}
use paratro_sdk_rust.Base.Int.{sub_i64, wrap_i64, ◌-ℤ◌}
use paratro_sdk_rust.Base.Str.Utf8.{as_bytes, utf8}
use paratro_sdk_rust.Error.Wire.{error_body_from}
use paratro_sdk_rust.Token.Wire.{client_info_from, token_response_from}
use paratro_sdk_rust.Transaction.Reply.{created_from, transaction_from}
use paratro_sdk_rust.Transaction.Wire.{program_call_fields, request_fields, variant_fields}
use paratro_sdk_rust.Contract.{start, client, error_body, auth_calls, api_calls, header, failed}

abbrev broadcast : Str → Value
broadcast tx_id = obj (
    field (codes "tx_id") (str tx_id) (
      field (codes "status") (str (codes "BROADCAST")) (
        field (codes "message") (str (codes "PROGRAM_CALL broadcast"))
          (field (codes "tx_hash") (str (codes "sig")) end))))

abbrev expired : ℕ × Value
expired =
    (401, error_body (codes "token_expired") (codes "authentication_error") (codes "Token expired"))

abbrev payment : CreateTransactionRequest
payment = from_program_call (new_program_call (codes "Payer") (codes "solana") (codes "AQ=="))

abbrev expired_once : List (ℕ × Value)
expired_once = expired ∷ (200, broadcast (codes "tx-9")) ∷ []

-- The body of the request, as it is sent
abbrev payment_text : List ℕ
payment_text =
    codes
      "{\"operation\":\"PROGRAM_CALL\",\"from_address\":\"Payer\",\"chain\":\"solana\",\"signed_transaction\":\"AQ==\"}"

abbrev authorization : Str
authorization = codes "Authorization"

abbrev tx_id_of : {F : Type 0} → Result CreateTransactionResponse F → Option Str
tx_id_of (ok r) = some r.tx_id
tx_id_of (err e) = none

abbrev pub TokenExpiredRefreshesOnceAndRetries : Type 0
TokenExpiredRefreshesOnceAndRetries =
    let run = create_transaction (client expired_once) payment (start expired_once) in
    let api = api_calls run.1.sent in
    (tx_id_of run.0 ≡ some (codes "tx-9"))
    × (map (header authorization) api
        ≡ some (codes "Bearer token-1") ∷ some (codes "Bearer token-2") ∷ [])
    × (map (λ (r : Request). r.body) api ≡ some payment_text ∷ some payment_text ∷ [])
    × (length (auth_calls run.1.sent) ≡ 2)

TokenExpiredRefreshesOnceAndRetries_holds : TokenExpiredRefreshesOnceAndRetries
unfolding call from_slice get_token refresh refresh_after_expiry kept renew renewed store refuse
    auth_error expires_at auth_request token_response_from client_info_from sub_i64 wrap_i64 ◌-ℤ◌
    ◌=ₛ◌ find has_key url send exchanges after_first retries retry
    paratro_sdk_rust.Client.is_token_expired decode_reply execute error_body_from
    post_with_status_and_headers post_request create_transaction create_transaction_with_headers
    create_transaction_with_idempotency_key filled operation created_from request_fields
    variant_fields program_call_fields as_bytes utf8
TokenExpiredRefreshesOnceAndRetries_holds = (refl, refl, refl, refl)

abbrev expired_twice : List (ℕ × Value)
expired_twice = expired ∷ expired ∷ []

abbrev pub TokenExpiredTwiceIsReturnedNotLooped : Type 0
TokenExpiredTwiceIsReturnedNotLooped =
    let run = get_transaction (client expired_twice) (codes "t") (start expired_twice) in
    (Option.map is_token_expired (failed run.0) ≡ some true)
    × (Option.map kind (failed run.0) ≡ some (some ApiErrorKind.token_expired))
    × (length (api_calls run.1.sent) ≡ 2)
    × (length (auth_calls run.1.sent) ≡ 2)

TokenExpiredTwiceIsReturnedNotLooped_holds : TokenExpiredTwiceIsReturnedNotLooped
unfolding call from_slice get_token refresh refresh_after_expiry kept renew renewed store refuse
    auth_error expires_at auth_request token_response_from client_info_from sub_i64 wrap_i64 ◌-ℤ◌
    ◌=ₛ◌ find has_key url send exchanges after_first retries retry
    paratro_sdk_rust.Client.is_token_expired decode_reply execute error_body_from get get_request
    get_with_query get_transaction transaction_from kind is_token_expired rank kind_of
TokenExpiredTwiceIsReturnedNotLooped_holds = (refl, refl, refl, refl)

abbrev invalid : List (ℕ × Value)
invalid =
    (401, error_body (codes "invalid_token") (codes "authentication_error") (codes "Invalid token"))
    ∷ []

abbrev pub Other401IsNotRetried : Type 0
Other401IsNotRetried =
    let run = get_transaction (client invalid) (codes "t") (start invalid) in
    (Option.map kind (failed run.0) ≡ some (some ApiErrorKind.unauthorized))
    × (length (api_calls run.1.sent) ≡ 1)
    × (length (auth_calls run.1.sent) ≡ 1)

Other401IsNotRetried_holds : Other401IsNotRetried
unfolding call from_slice get_token refresh refresh_after_expiry kept renew renewed store refuse
    auth_error expires_at auth_request token_response_from client_info_from sub_i64 wrap_i64 ◌-ℤ◌
    ◌=ₛ◌ find has_key url send exchanges after_first retries retry
    paratro_sdk_rust.Client.is_token_expired decode_reply execute error_body_from get get_request
    get_with_query get_transaction transaction_from kind kind_of
Other401IsNotRetried_holds = (refl, refl, refl)

abbrev bad_gateway : List (ℕ × Value)
bad_gateway = (502, str (codes "bad gateway")) ∷ []

abbrev pub UndecodableErrorBodyStillSurfacesStatus : Type 0
UndecodableErrorBodyStillSurfacesStatus =
    let run = get_transaction (client bad_gateway) (codes "tx") (start bad_gateway) in
    (Option.map status (failed run.0) ≡ some (some 502))
    × (Option.map kind (failed run.0) ≡ some (some ApiErrorKind.server_error))
    × (Option.map code (failed run.0) ≡ some (some (codes "unknown")))

UndecodableErrorBodyStillSurfacesStatus_holds : UndecodableErrorBodyStillSurfacesStatus
unfolding call from_slice get_token refresh refresh_after_expiry kept renew renewed store refuse
    auth_error expires_at auth_request token_response_from client_info_from sub_i64 wrap_i64 ◌-ℤ◌
    ◌=ₛ◌ find has_key url send exchanges after_first retries retry
    paratro_sdk_rust.Client.is_token_expired decode_reply execute error_body_from get get_request
    get_with_query get_transaction transaction_from kind status code kind_of
UndecodableErrorBodyStillSurfacesStatus_holds = (refl, refl, refl)

abbrev confirmed : List (ℕ × Value)
confirmed =
    (
      200,
      obj (
          field (codes "tx_id") (str (codes "t")) (
            field (codes "wallet_id") (str (codes "w")) (
              field (codes "client_id") (str (codes "c")) (
                field (codes "chain") (str (codes "ethereum")) (
                  field (codes "transaction_type") (str (codes "OUTBOUND")) (
                    field (codes "from_address") (str (codes "a")) (
                      field (codes "to_address") (str (codes "b")) (
                        field (codes "token_symbol") (str (codes "USDT")) (
                          field (codes "amount") (str (codes "1")) (
                            field (codes "status") (str (codes "CONFIRMED")) (
                              field (codes "tx_hash") (str (codes "0x")) (
                                field (codes "created_at") (str (codes "2026-09-15T00:00:00Z"))
                                  end)))))))))))),
    )
    ∷ []

abbrev pub AuthUsesApiKeyAndSecretHeaders : Type 0
AuthUsesApiKeyAndSecretHeaders =
    let run = get_transaction (client confirmed) (codes "t") (start confirmed) in
    let again = get_transaction (client confirmed) (codes "t") run.1 in
    let auth = auth_calls run.1.sent in
    (Option.map status (failed run.0) ≡ none)
    × (map (λ (r : Request). r.method) auth ≡ codes "POST" ∷ [])
    × (map (λ (r : Request). r.url) auth ≡ codes "http://127.0.0.1:1/api/v1/auth/token" ∷ [])
    × (map (header header_api_key) auth ≡ some (codes "fixture-key") ∷ [])
    × (map (header header_api_secret) auth ≡ some (codes "fixture-secret") ∷ [])
    × (map (header authorization) auth ≡ none ∷ [])
    × (map (λ (r : Request). r.body) auth ≡ none ∷ [])
    × (Option.map status (failed again.0) ≡ some (some 500))
    × (length (auth_calls again.1.sent) ≡ 1)

AuthUsesApiKeyAndSecretHeaders_holds : AuthUsesApiKeyAndSecretHeaders
unfolding call from_slice get_token refresh refresh_after_expiry kept renew renewed store refuse
    auth_error expires_at auth_request token_response_from client_info_from sub_i64 wrap_i64 ◌-ℤ◌
    ◌=ₛ◌ find has_key url send exchanges after_first retries retry
    paratro_sdk_rust.Client.is_token_expired decode_reply execute error_body_from get get_request
    get_with_query get_transaction transaction_from status
AuthUsesApiKeyAndSecretHeaders_holds = (refl, refl, refl, refl, refl, refl, refl, refl, refl)

abbrev expired_first : List (ℕ × Value)
expired_first = expired ∷ (200, broadcast (codes "tx-r")) ∷ []

abbrev pub IdempotencyKeySurvivesTheTokenExpiredRetry : Type 0
IdempotencyKeySurvivesTheTokenExpiredRetry =
    let run =
      create_transaction_with_idempotency_key (client expired_first) payment (codes "idem-2")
        (start expired_first) in
    let api = api_calls run.1.sent in
    (tx_id_of run.0 ≡ some (codes "tx-r"))
    × (map (header header_idempotency_key) api ≡ some (codes "idem-2") ∷ some (codes "idem-2") ∷ [])
    × (map (header authorization) api
        ≡ some (codes "Bearer token-1") ∷ some (codes "Bearer token-2") ∷ [])

IdempotencyKeySurvivesTheTokenExpiredRetry_holds : IdempotencyKeySurvivesTheTokenExpiredRetry
unfolding call from_slice get_token refresh refresh_after_expiry kept renew renewed store refuse
    auth_error expires_at auth_request token_response_from client_info_from sub_i64 wrap_i64 ◌-ℤ◌
    ◌=ₛ◌ find has_key url send exchanges after_first retries retry
    paratro_sdk_rust.Client.is_token_expired decode_reply execute error_body_from
    post_with_status_and_headers post_request create_transaction create_transaction_with_headers
    create_transaction_with_idempotency_key filled operation created_from request_fields
    variant_fields
IdempotencyKeySurvivesTheTokenExpiredRetry_holds = (refl, refl, refl)

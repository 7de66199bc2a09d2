-- ===== src/Error/UnitTests.antt =====
-- The unit tests of src/error.rs, run on the model: each is the conjunction of its assertions.
use paratro_sdk_rust.Base.{ℕ, ◌≡◌, refl, true, false, none, some}
use paratro_sdk_rust.Base.Str.{Str, codes}
use paratro_sdk_rust.Base.Str.Lists.{repeated}
use paratro_sdk_rust.Error
use paratro_sdk_rust.Error.{
  Error, ApiErrorKind, api, invalid_config, kind, reason_tag, is_reason_tag, engine_busy_message,
  chain_rpc_unavailable_message,
}
use paratro_sdk_rust.Error.Checks

abbrev pub TestError : Type 0
TestError = Error (Unit {0}) (Unit {0})

abbrev pub test_api : ℕ → Str → Str → Str → TestError
test_api status code error_type message =
    api status (record { code = code; error_type = error_type; message = message })

abbrev pub config_error : TestError
config_error = invalid_config (codes "x")

abbrev pub ReasonTagFromRejected : Type 0
ReasonTagFromRejected =
    (reason_tag (
        test_api 400 (codes "invalid_parameter") (codes "invalid_request_error")
          (codes "Rejected: expiration_passed: quote expired at 1789449058"))
      ≡ some (codes "expiration_passed"))
    × (kind (
          test_api 400 (codes "invalid_parameter") (codes "invalid_request_error")
            (codes "Rejected: expiration_passed: quote expired at 1789449058"))
        ≡ some ApiErrorKind.rejected)
    × (Error.is_rejected (
          test_api 400 (codes "invalid_parameter") (codes "invalid_request_error")
            (codes "Rejected: expiration_passed: quote expired at 1789449058"))
        ≡ true)

ReasonTagFromRejected_holds : ReasonTagFromRejected
unfolding reason_tag kind Error.kind_of Error.kind_400 Error.tagged_rest Error.tag_of_rest
    is_reason_tag Error.tag_loop Error.tag_step Error.is_rejected Error.rank repeated
    paratro_sdk_rust.Base.Str.strip_prefix paratro_sdk_rust.Base.Str.trim
    paratro_sdk_rust.Base.Str.trim_end_by paratro_sdk_rust.Base.Str.trim_start
    paratro_sdk_rust.Base.Str.split_first paratro_sdk_rust.Base.Str.is_whitespace
    paratro_sdk_rust.Base.Str.Utf8.as_bytes paratro_sdk_rust.Base.Str.Utf8.utf8
    paratro_sdk_rust.Base.Str.starts_with
ReasonTagFromRejected_holds = (refl, refl, refl)

abbrev pub ReasonTagDetailWithColons : Type 0
ReasonTagDetailWithColons =
    reason_tag (
      test_api 400 (codes "invalid_parameter") (codes "invalid_request_error")
        (codes "Rejected: malformed: signed_transaction cannot be decoded: bad base64: x"))
    ≡ some (codes "malformed")

ReasonTagDetailWithColons_holds : ReasonTagDetailWithColons
unfolding reason_tag kind Error.kind_of Error.kind_400 Error.tagged_rest Error.tag_of_rest
    is_reason_tag Error.tag_loop Error.tag_step Error.is_rejected Error.rank repeated
    paratro_sdk_rust.Base.Str.strip_prefix paratro_sdk_rust.Base.Str.trim
    paratro_sdk_rust.Base.Str.trim_end_by paratro_sdk_rust.Base.Str.trim_start
    paratro_sdk_rust.Base.Str.split_first paratro_sdk_rust.Base.Str.is_whitespace
    paratro_sdk_rust.Base.Str.Utf8.as_bytes paratro_sdk_rust.Base.Str.Utf8.utf8
ReasonTagDetailWithColons_holds = refl

abbrev pub ReasonTagFromEngineFailure : Type 0
ReasonTagFromEngineFailure =
    (reason_tag (
        test_api 400 (codes "transaction_failed") (codes "business_error")
          (codes "CONTRACT_CALL failed: receiver_not_ours"))
      ≡ some (codes "receiver_not_ours"))
    × (kind (
          test_api 400 (codes "transaction_failed") (codes "business_error")
            (codes "CONTRACT_CALL failed: receiver_not_ours"))
        ≡ some ApiErrorKind.transaction_failed)
    × (reason_tag (
          test_api 400 (codes "transaction_failed") (codes "business_error")
            (codes "PROGRAM_CALL failed: engine rejected the transaction"))
        ≡ none)
    × (Error.is_transaction_failed (
          test_api 400 (codes "transaction_failed") (codes "business_error")
            (codes "PROGRAM_CALL failed: engine rejected the transaction"))
        ≡ true)

ReasonTagFromEngineFailure_holds : ReasonTagFromEngineFailure
unfolding reason_tag kind Error.kind_of Error.kind_400 Error.tagged_rest Error.tag_of_rest
    is_reason_tag Error.tag_loop Error.tag_step Error.is_rejected Error.rank repeated
    paratro_sdk_rust.Base.Str.strip_prefix paratro_sdk_rust.Base.Str.◌=ₛ◌
    paratro_sdk_rust.Base.Str.after_first paratro_sdk_rust.Base.Str.trim
    paratro_sdk_rust.Base.Str.trim_end_by paratro_sdk_rust.Base.Str.trim_start
    paratro_sdk_rust.Base.Str.split_first paratro_sdk_rust.Base.Str.is_whitespace
    paratro_sdk_rust.Base.Str.Utf8.as_bytes paratro_sdk_rust.Base.Str.Utf8.utf8
    paratro_sdk_rust.Base.Str.starts_with Error.is_transaction_failed
ReasonTagFromEngineFailure_holds = (refl, refl, refl, refl)

abbrev pub ReasonTagAbsentForOtherErrors : Type 0
ReasonTagAbsentForOtherErrors =
    (reason_tag (
        test_api 400 (codes "insufficient_balance") (codes "business_error")
          (codes "Insufficient balance"))
      ≡ none)
    × (reason_tag
          (test_api 403 (codes "forbidden") (codes "permission_error") (codes "Rejected: x: y"))
        ≡ none)
    × (reason_tag (config_error) ≡ none)

ReasonTagAbsentForOtherErrors_holds : ReasonTagAbsentForOtherErrors
unfolding reason_tag kind Error.kind_of Error.kind_400 Error.tagged_rest Error.tag_of_rest
    is_reason_tag Error.tag_loop Error.tag_step Error.is_rejected Error.rank repeated
    paratro_sdk_rust.Base.Str.strip_prefix paratro_sdk_rust.Base.Str.◌=ₛ◌
ReasonTagAbsentForOtherErrors_holds = (refl, refl, refl)

abbrev pub TagShape : Type 0
TagShape =
    (is_reason_tag (codes "limit_daily") ≡ true)
    × (is_reason_tag (codes "shape") ≡ true)
    × (is_reason_tag (codes "limit_per_transaction") ≡ true)
    × (is_reason_tag (codes "") ≡ false)
    × (is_reason_tag (codes "_leading") ≡ false)
    × (is_reason_tag (codes "trailing_") ≡ false)
    × (is_reason_tag (codes "double__underscore") ≡ false)
    × (is_reason_tag (codes "1starts_with_digit") ≡ false)
    × (is_reason_tag (codes "Upper") ≡ false)
    × (is_reason_tag (codes "has space") ≡ false)
    × (is_reason_tag (repeated 65 b'a') ≡ false)

TagShape_holds : TagShape
unfolding reason_tag kind Error.kind_of Error.kind_400 Error.tagged_rest Error.tag_of_rest
    is_reason_tag Error.tag_loop Error.tag_step Error.is_rejected Error.rank repeated
    paratro_sdk_rust.Base.Str.Utf8.as_bytes paratro_sdk_rust.Base.Str.Utf8.utf8
TagShape_holds = (refl, refl, refl, refl, refl, refl, refl, refl, refl, refl, refl)

abbrev pub Kinds : Type 0
Kinds =
    (kind (
        test_api 400 (codes "invalid_parameter") (codes "invalid_request_error")
          (codes "Duplicate reference_id: this reference has already been used"))
      ≡ some ApiErrorKind.duplicate_reference_id)
    × (kind (
          test_api 400 (codes "invalid_parameter") (codes "invalid_request_error") (
            codes
              "Unsupported operation: only TRANSFER, PROGRAM_CALL and CONTRACT_CALL are available"))
        ≡ some ApiErrorKind.unsupported_operation)
    × (kind (
          test_api 400 (codes "insufficient_balance") (codes "business_error")
            (codes "Insufficient balance"))
        ≡ some ApiErrorKind.insufficient_balance)
    × (kind (
          test_api 400 (codes "wallet_not_active") (codes "business_error")
            (codes "Wallet is not active"))
        ≡ some ApiErrorKind.bad_request)
    × (kind (
          test_api 401 (codes "token_expired") (codes "authentication_error")
            (codes "Token expired"))
        ≡ some ApiErrorKind.token_expired)
    × (kind (
          test_api 401 (codes "invalid_token") (codes "authentication_error")
            (codes "Invalid token"))
        ≡ some ApiErrorKind.unauthorized)
    × (kind (test_api 403 (codes "forbidden") (codes "permission_error") (codes "no policy"))
        ≡ some ApiErrorKind.forbidden)
    × (kind (test_api 404 (codes "resource_not_found") (codes "not_found_error") (codes "no asset"))
        ≡ some ApiErrorKind.not_found)
    × (kind (test_api 410 (codes "invalid_parameter") (codes "endpoint_retired") (codes "retired"))
        ≡ some ApiErrorKind.endpoint_retired)
    × (kind
          (test_api 429 (codes "too_many_requests") (codes "rate_limit_error") (codes "slow down"))
        ≡ some ApiErrorKind.rate_limited)
    × (kind (
          test_api 503 (codes "service_unavailable") (codes "api_error")
            (codes "CONTRACT_CALL is not enabled on this gateway"))
        ≡ some ApiErrorKind.service_unavailable)
    × (kind (test_api 500 (codes "internal_error") (codes "api_error") (codes "boom"))
        ≡ some ApiErrorKind.server_error)
    × (kind (config_error) ≡ none)

Kinds_holds : Kinds
unfolding reason_tag kind Error.kind_of Error.kind_400 Error.tagged_rest Error.tag_of_rest
    is_reason_tag Error.tag_loop Error.tag_step Error.is_rejected Error.rank repeated
    paratro_sdk_rust.Base.Str.starts_with paratro_sdk_rust.Base.Str.◌=ₛ◌
Kinds_holds = (refl, refl, refl, refl, refl, refl, refl, refl, refl, refl, refl, refl, refl)

abbrev pub ServiceUnavailableSplitByMessage : Type 0
ServiceUnavailableSplitByMessage =
    (kind (test_api 503 (codes "service_unavailable") (codes "api_error") (engine_busy_message))
      ≡ some ApiErrorKind.engine_busy)
    × (Error.is_engine_busy
          (test_api 503 (codes "service_unavailable") (codes "api_error") (engine_busy_message))
        ≡ true)
    × (Error.is_chain_rpc_unavailable
          (test_api 503 (codes "service_unavailable") (codes "api_error") (engine_busy_message))
        ≡ false)
    × (Error.is_service_unavailable
          (test_api 503 (codes "service_unavailable") (codes "api_error") (engine_busy_message))
        ≡ true)
    × (kind (
          test_api 503 (codes "service_unavailable") (codes "api_error")
            (chain_rpc_unavailable_message))
        ≡ some ApiErrorKind.chain_rpc_unavailable)
    × (Error.is_chain_rpc_unavailable (
          test_api 503 (codes "service_unavailable") (codes "api_error")
            (chain_rpc_unavailable_message))
        ≡ true)
    × (Error.is_engine_busy (
          test_api 503 (codes "service_unavailable") (codes "api_error")
            (chain_rpc_unavailable_message))
        ≡ false)
    × (Error.is_service_unavailable (
          test_api 503 (codes "service_unavailable") (codes "api_error")
            (chain_rpc_unavailable_message))
        ≡ true)
    × (kind (
          test_api 503 (codes "service_unavailable") (codes "api_error")
            (codes "PROGRAM_CALL is not enabled on this gateway"))
        ≡ some ApiErrorKind.service_unavailable)
    × (Error.is_service_unavailable (
          test_api 503 (codes "service_unavailable") (codes "api_error")
            (codes "PROGRAM_CALL is not enabled on this gateway"))
        ≡ true)
    × (Error.is_engine_busy (
          test_api 503 (codes "service_unavailable") (codes "api_error")
            (codes "PROGRAM_CALL is not enabled on this gateway"))
        ≡ false)
    × (Error.is_chain_rpc_unavailable (
          test_api 503 (codes "service_unavailable") (codes "api_error")
            (codes "PROGRAM_CALL is not enabled on this gateway"))
        ≡ false)
    × (kind (test_api 500 (codes "internal_error") (codes "api_error") (engine_busy_message))
        ≡ some ApiErrorKind.server_error)

ServiceUnavailableSplitByMessage_holds : ServiceUnavailableSplitByMessage
unfolding reason_tag kind Error.kind_of Error.kind_400 Error.tagged_rest Error.tag_of_rest
    is_reason_tag Error.tag_loop Error.tag_step Error.is_rejected Error.rank repeated
    paratro_sdk_rust.Base.Str.◌=ₛ◌ Error.is_engine_busy Error.is_chain_rpc_unavailable
    Error.is_service_unavailable
ServiceUnavailableSplitByMessage_holds =
    (refl, refl, refl, refl, refl, refl, refl, refl, refl, refl, refl, refl, refl)

abbrev pub LegacyHelpersStillWork : Type 0
LegacyHelpersStillWork =
    (Checks.is_not_found (test_api 404 (codes "not_found") (codes "not_found_error") (codes "x"))
      ≡ true)
    × (Checks.is_rate_limited
          (test_api 404 (codes "not_found") (codes "not_found_error") (codes "x"))
        ≡ false)
    × (Checks.is_auth_error (test_api 404 (codes "not_found") (codes "not_found_error") (codes "x"))
        ≡ false)
    × (Checks.is_auth_error
          (test_api 401 (codes "unauthorized") (codes "authentication_error") (codes "x"))
        ≡ true)
    × (Checks.is_auth_error
          (test_api 403 (codes "forbidden") (codes "permission_error") (codes "x"))
        ≡ true)
    × (Checks.is_rate_limited
          (test_api 429 (codes "too_many_requests") (codes "rate_limit_error") (codes "x"))
        ≡ true)

LegacyHelpersStillWork_holds : LegacyHelpersStillWork
unfolding reason_tag kind Error.kind_of Error.kind_400 Error.tagged_rest Error.tag_of_rest
    is_reason_tag Error.tag_loop Error.tag_step Error.is_rejected Error.rank repeated
    Checks.is_not_found Checks.is_rate_limited Checks.is_auth_error
LegacyHelpersStillWork_holds = (refl, refl, refl, refl, refl, refl)

-- ===== src/Error/Tests.antt =====
-- Classification and reason tags of concrete answers (src/error.rs).
use paratro_sdk_rust.Base.{
  ℕ, ◌≤◌, ◌≡◌, ◌⊎◌, inl, inr, refl, true, false, Option, none, some, List, [], ◌∷◌, ◌++◌, arith,
  length, All,
}
use paratro_sdk_rust.Base.Str.{Str, codes, starts_with}
use paratro_sdk_rust.Base.Str.Utf8.{as_bytes}
use paratro_sdk_rust.Error
use paratro_sdk_rust.Error.{
  Error, ErrorBody, ApiErrorKind, api, http, kind, reason_tag, is_reason_tag, display_body,
  rejected_message_prefix, engine_busy_message,
}
use paratro_sdk_rust.Error.Code
use paratro_sdk_rust.Error.Checks
use paratro_sdk_rust.Error.Regex.{Matches, tag_shape}
use paratro_sdk_rust.Error.Tag.{is_reason_tag_iff}
use paratro_sdk_rust.Error.Kind.{Documented}
use paratro_sdk_rust.Error.Predicates.{
  kind-Documented, engine_busy_iff, is_service_unavailable_iff, checks_agree,
}
use paratro_sdk_rust.Error.Reason.{
  IsOperationChar, reason_tag_sound, reason_tag-rejected, reason_tag-failed,
}

abbrev SdkError : Type 0
SdkError = Error (Unit {0}) (Unit {0})

abbrev body : Str → Str → ErrorBody
body code message = record { code = code; error_type = codes "invalid_request"; message = message }

abbrev blacklisted : ErrorBody
blacklisted = body (codes "bad_request") (codes "Rejected: address_blacklisted: 0xdead")

abbrev failed : ErrorBody
failed = body Code.transaction_failed (codes "CONTRACT_CALL failed: post_sign_check")

abbrev busy : ErrorBody
busy = body (codes "service_unavailable") engine_busy_message

abbrev busy_error : SdkError
busy_error = api 503 busy

abbrev blacklisted_error : SdkError
blacklisted_error = api 400 blacklisted

abbrev failed_error : SdkError
failed_error = api 400 failed

abbrev missing_error : SdkError
missing_error = api 404 busy

is_reason_tag_iff_example : Matches tag_shape (codes "a_1") × (length (as_bytes (codes "a_1")) ≤ 64)
unfolding is_reason_tag as_bytes paratro_sdk_rust.Base.Str.Utf8.utf8 Error.tag_loop Error.tag_step
is_reason_tag_iff_example = (is_reason_tag_iff (codes "a_1")).0 refl

kind-Documented_example :
    (s : ℕ) × (b : ErrorBody) × (busy_error ≡ api s b) × Documented ApiErrorKind.engine_busy s
unfolding kind Error.kind_of paratro_sdk_rust.Base.Str.◌=ₛ◌
kind-Documented_example = kind-Documented busy_error ApiErrorKind.engine_busy refl

engine_busy_iff_example : Error.is_engine_busy busy_error ≡ true
engine_busy_iff_example = (engine_busy_iff busy_error).0.1 (busy, refl, refl)

busy_is_unavailable : Error.is_service_unavailable busy_error ≡ true
busy_is_unavailable = (is_service_unavailable_iff busy_error).1 (busy, refl)

functions_agree : Checks.is_not_found missing_error ≡ Error.is_not_found missing_error
functions_agree = (checks_agree missing_error).0

reason_tag_sound_example :
    (b : ErrorBody) × (blacklisted_error ≡ api 400 b)
    × Matches tag_shape (codes "address_blacklisted")
    × (length (as_bytes (codes "address_blacklisted")) ≤ 64)
    × ((starts_with rejected_message_prefix b.message ≡ true) ⊎ (b.code ≡ Code.transaction_failed))
unfolding reason_tag Error.tagged_rest paratro_sdk_rust.Base.Str.strip_prefix Error.tag_of_rest
    is_reason_tag paratro_sdk_rust.Base.Str.trim paratro_sdk_rust.Base.Str.trim_end_by
    paratro_sdk_rust.Base.Str.trim_start paratro_sdk_rust.Base.Str.split_first
    paratro_sdk_rust.Base.Str.is_whitespace as_bytes paratro_sdk_rust.Base.Str.Utf8.utf8
    Error.tag_loop Error.tag_step
reason_tag_sound_example = reason_tag_sound blacklisted_error (codes "address_blacklisted") refl

reason_tag-rejected_example :
    (reason_tag blacklisted_error ≡ some (codes "address_blacklisted"))
    × (kind blacklisted_error ≡ some ApiErrorKind.rejected)
unfolding is_reason_tag as_bytes paratro_sdk_rust.Base.Str.Utf8.utf8 Error.tag_loop Error.tag_step
reason_tag-rejected_example =
    reason_tag-rejected blacklisted_error blacklisted (codes "address_blacklisted")
      (codes " 0xdead") refl refl refl

capitals : All IsOperationChar (codes "CONTRACT_CALL")
capitals = ground arith

reason_tag-failed_example :
    (reason_tag failed_error ≡ some (codes "post_sign_check"))
    × (kind failed_error ≡ some ApiErrorKind.transaction_failed)
unfolding is_reason_tag as_bytes paratro_sdk_rust.Base.Str.Utf8.utf8 Error.tag_loop Error.tag_step
reason_tag-failed_example =
    reason_tag-failed failed_error failed (codes "CONTRACT_CALL") (codes "post_sign_check") refl
      refl capitals refl refl

shown :
    display_body busy
    ≡ codes "service_unavailable - Signing service is busy, retry later (type: invalid_request)"
unfolding display_body
shown = refl

no_tag_of_capitals : is_reason_tag (codes "Not_a_tag") ≡ false
unfolding is_reason_tag as_bytes paratro_sdk_rust.Base.Str.Utf8.utf8 Error.tag_loop Error.tag_step
no_tag_of_capitals = refl

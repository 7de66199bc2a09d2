-- ===== src/Error.antt =====
-- The error type of the SDK, its classification and its reason tag (src/error.rs).
pub mod Code
pub mod Wire
pub mod Checks
pub mod Display
mod UnitTests
pub mod Regex
pub mod Tag
pub mod Kind
pub mod Predicates
pub mod Reason
mod Tests
use paratro_sdk_rust.Base.{
  ℕ, ◌+◌, Bool, true, false, not, ◌&&◌, ◌||◌, Option, none, some, [], ◌∷◌, ◌++◌, leb, ltb, ◌==◌,
  if◌then◌else◌, length, is_empty,
}
use paratro_sdk_rust.Base.Int.{ℤ, pos}
use paratro_sdk_rust.Base.Decimal.{nat_to_string}
use paratro_sdk_rust.Base.Str.{
  Str, codes, ◌=ₛ◌, strip_prefix, starts_with, trim, split_first, after_first,
}
use paratro_sdk_rust.Base.Str.Utf8.{as_bytes}

-- The body of every answer of the gateway that is not 2xx.
pub record ErrorBody : Type 0 where
  pub code : Str
  pub error_type : Str
  pub message : Str

-- `{code} - {message} (type: {error_type})`
unfoldable pub display_body : ErrorBody → Str
display_body b =
    b.code ++ (codes " - " ++ (b.message ++ (codes " (type: " ++ (b.error_type ++ codes ")"))))

abbrev pub error_type_endpoint_retired : Str
error_type_endpoint_retired = codes "endpoint_retired"

abbrev pub rejected_message_prefix : Str
rejected_message_prefix = codes "Rejected: "

abbrev pub duplicate_reference_id_prefix : Str
duplicate_reference_id_prefix = codes "Duplicate reference_id"

abbrev pub unsupported_operation_prefix : Str
unsupported_operation_prefix = codes "Unsupported operation"

abbrev pub engine_busy_message : Str
engine_busy_message = codes "Signing service is busy, retry later"

abbrev pub chain_rpc_unavailable_message : Str
chain_rpc_unavailable_message = codes "Chain RPC unavailable; cannot verify request"

-- `H` stands for `reqwest::Error` and `J` for `serde_json::Error`.
pub data Error (H J : Type 0) : Type 0 where
  api : (status : ℕ) → ErrorBody → Error H J
  http : H → Error H J
  decode : (status : ℕ) → J → Error H J
  invalid_config : Str → Error H J

pub data ApiErrorKind : Type 0 where
  rejected duplicate_reference_id unsupported_operation insufficient_balance : ApiErrorKind
  transaction_failed bad_request token_expired unauthorized forbidden not_found : ApiErrorKind
  conflict endpoint_retired rate_limited engine_busy chain_rpc_unavailable : ApiErrorKind
  service_unavailable server_error other : ApiErrorKind

-- The arm of status 400.
unfoldable pub kind_400 : ErrorBody → ApiErrorKind
kind_400 body =
    if starts_with rejected_message_prefix body.message
    then rejected
    else if starts_with duplicate_reference_id_prefix body.message
    then duplicate_reference_id
    else if starts_with unsupported_operation_prefix body.message
    then unsupported_operation
    else if body.code =ₛ Code.insufficient_balance
    then insufficient_balance
    else if body.code =ₛ Code.transaction_failed
    then transaction_failed
    else bad_request

-- The arms of `match *status`, first match first.
unfoldable pub kind_of : ℕ → ErrorBody → ApiErrorKind
kind_of status body =
    if status == 400
    then kind_400 body
    else if status == 401 && body.code =ₛ Code.token_expired
    then token_expired
    else if status == 401
    then unauthorized
    else if status == 403
    then forbidden
    else if status == 404
    then not_found
    else if status == 409
    then conflict
    else if status == 410
    then endpoint_retired
    else if status == 429
    then rate_limited
    else if status == 503 && body.message =ₛ engine_busy_message
    then engine_busy
    else if status == 503 && body.message =ₛ chain_rpc_unavailable_message
    then chain_rpc_unavailable
    else if status == 503
    then service_unavailable
    else if leb 500 status && leb status 599
    then server_error
    else other

-- One character of `is_reason_tag`: the new `prev_underscore`, or `none` for `return false`.
unfoldable pub tag_step : ℕ → (prev_underscore first : Bool) → Option Bool
tag_step c prev_underscore first =
    if leb b'a' c && leb c b'z'
    then some false
    else if leb b'0' c && leb c b'9' && not first
    then some false
    else if c == b'_' && not prev_underscore
    then some true
    else none

unfoldable pub tag_loop : Str → (prev_underscore first : Bool) → Bool
tag_loop [] prev_underscore first = not prev_underscore
tag_loop (c ∷ s) prev_underscore first = elim (tag_step c prev_underscore first) [
  | none ↦ false
  | some p ↦ tag_loop s p false
]

unfoldable pub is_reason_tag : Str → Bool
is_reason_tag tag =
    if is_empty tag || ltb 64 (length (as_bytes tag)) then false else tag_loop tag true true

-- `is_reason_tag(tag).then_some(tag)` of the first part of what follows the prefix
unfoldable pub tag_of_rest : Str → Option Str
tag_of_rest rest =
    let tag = trim (split_first b':' rest) in if is_reason_tag tag then some tag else none

abbrev and_then {ℓ} : {A B : Type ℓ} → Option A → (A → Option B) → Option B
and_then none f = none
and_then (some a) f = f a

-- The two messages that carry a tag.
unfoldable pub tagged_rest : ErrorBody → Option Str
tagged_rest body = elim (strip_prefix rejected_message_prefix body.message) [
  | some rest ↦ some rest
  | none ↦
      if body.code =ₛ Code.transaction_failed
      then after_first (codes " failed: ") body.message
      else none
]

-- The discriminant of the two fieldless enums that `==` compares.
unfoldable pub rank : ApiErrorKind → ℕ
rank rejected = 0
rank duplicate_reference_id = 1
rank unsupported_operation = 2
rank insufficient_balance = 3
rank transaction_failed = 4
rank bad_request = 5
rank token_expired = 6
rank unauthorized = 7
rank forbidden = 8
rank not_found = 9
rank conflict = 10
rank endpoint_retired = 11
rank rate_limited = 12
rank engine_busy = 13
rank chain_rpc_unavailable = 14
rank service_unavailable = 15
rank server_error = 16
rank other = 17

abbrev kind_is : ApiErrorKind → Option ApiErrorKind → Bool
kind_is k none = false
kind_is k (some k') = rank k' == rank k

module _ {H J : Type 0} where
  unfoldable pub status : Error H J → Option ℕ
  status (api s body) = some s
  status (decode s source) = some s
  status _ = none

  unfoldable pub code : Error H J → Option Str
  code (api s body) = some body.code
  code _ = none

  unfoldable pub error_type : Error H J → Option Str
  error_type (api s body) = some body.error_type
  error_type _ = none

  unfoldable pub message : Error H J → Option Str
  message (api s body) = some body.message
  message _ = none

  unfoldable pub kind : Error H J → Option ApiErrorKind
  kind (api s body) = some (kind_of s body)
  kind _ = none

  unfoldable pub reason_tag : Error H J → Option Str
  reason_tag (api s body) = if s == 400 then and_then (tagged_rest body) tag_of_rest else none
  reason_tag _ = none

  unfoldable pub is_rejected : Error H J → Bool
  is_rejected e = kind_is rejected (kind e)

  unfoldable pub is_duplicate_reference_id : Error H J → Bool
  is_duplicate_reference_id e = kind_is duplicate_reference_id (kind e)

  unfoldable pub is_unsupported_operation : Error H J → Bool
  is_unsupported_operation e = kind_is unsupported_operation (kind e)

  unfoldable pub is_insufficient_balance : Error H J → Bool
  is_insufficient_balance e = kind_is insufficient_balance (kind e)

  unfoldable pub is_transaction_failed : Error H J → Bool
  is_transaction_failed e = kind_is transaction_failed (kind e)

  unfoldable pub is_token_expired : Error H J → Bool
  is_token_expired e = kind_is token_expired (kind e)

  unfoldable pub is_forbidden : Error H J → Bool
  is_forbidden e = kind_is forbidden (kind e)

  unfoldable pub is_not_found : Error H J → Bool
  is_not_found e = kind_is not_found (kind e)

  unfoldable pub is_endpoint_retired : Error H J → Bool
  is_endpoint_retired e = kind_is endpoint_retired (kind e)

  unfoldable pub is_rate_limited : Error H J → Bool
  is_rate_limited e = kind_is rate_limited (kind e)

  unfoldable pub is_engine_busy : Error H J → Bool
  is_engine_busy e = kind_is engine_busy (kind e)

  unfoldable pub is_chain_rpc_unavailable : Error H J → Bool
  is_chain_rpc_unavailable e = kind_is chain_rpc_unavailable (kind e)

  -- `matches!(self.kind(), Some(EngineBusy | ChainRpcUnavailable | ServiceUnavailable))`
  unfoldable pub is_service_unavailable : Error H J → Bool
  is_service_unavailable e =
      kind_is engine_busy (kind e)
      || kind_is chain_rpc_unavailable (kind e)
      || kind_is service_unavailable (kind e)

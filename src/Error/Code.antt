-- ===== src/Error/Code.antt =====
-- The values of `code` in an error body (src/error.rs, module `code`).
use paratro_sdk_rust.Base.Str.{Str, codes}

abbrev pub bad_request : Str
bad_request = codes "bad_request"

abbrev pub invalid_parameter : Str
invalid_parameter = codes "invalid_parameter"

abbrev pub validation_failed : Str
validation_failed = codes "validation_failed"

abbrev pub unauthorized : Str
unauthorized = codes "unauthorized"

abbrev pub invalid_token : Str
invalid_token = codes "invalid_token"

abbrev pub token_expired : Str
token_expired = codes "token_expired"

abbrev pub forbidden : Str
forbidden = codes "forbidden"

abbrev pub not_found : Str
not_found = codes "not_found"

abbrev pub resource_not_found : Str
resource_not_found = codes "resource_not_found"

abbrev pub conflict : Str
conflict = codes "conflict"

abbrev pub resource_exists : Str
resource_exists = codes "resource_exists"

abbrev pub too_many_requests : Str
too_many_requests = codes "too_many_requests"

abbrev pub internal_error : Str
internal_error = codes "internal_error"

abbrev pub database_error : Str
database_error = codes "database_error"

abbrev pub cache_error : Str
cache_error = codes "cache_error"

abbrev pub service_unavailable : Str
service_unavailable = codes "service_unavailable"

abbrev pub business_error : Str
business_error = codes "business_error"

abbrev pub wallet_limit_reached : Str
wallet_limit_reached = codes "wallet_limit_reached"

abbrev pub account_limit_reached : Str
account_limit_reached = codes "account_limit_reached"

abbrev pub chain_not_allowed : Str
chain_not_allowed = codes "chain_not_allowed"

abbrev pub withdrawal_limit_reached : Str
withdrawal_limit_reached = codes "withdrawal_limit_reached"

abbrev pub api_quota_exceeded : Str
api_quota_exceeded = codes "api_quota_exceeded"

abbrev pub insufficient_balance : Str
insufficient_balance = codes "insufficient_balance"

abbrev pub invalid_address : Str
invalid_address = codes "invalid_address"

abbrev pub transaction_failed : Str
transaction_failed = codes "transaction_failed"

abbrev pub concurrency_error : Str
concurrency_error = codes "concurrency_error"

abbrev pub asset_already_exists : Str
asset_already_exists = codes "asset_already_exists"

abbrev pub wallet_not_active : Str
wallet_not_active = codes "wallet_not_active"

abbrev pub account_not_active : Str
account_not_active = codes "account_not_active"

abbrev pub address_blacklisted : Str
address_blacklisted = codes "address_blacklisted"

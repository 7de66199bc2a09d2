-- ===== src/Token/Wire.antt =====
-- The reply of the token endpoint and its JSON (src/token.rs). It is only read.
use paratro_sdk_rust.Base.{Option, some, []}
use paratro_sdk_rust.Base.Int.{ℤ, pos}
use paratro_sdk_rust.Base.Str.{Str, codes}
use paratro_sdk_rust.Json.{Fields, Reader, text, i64, fields_of, required, defaulted, ◌>>=◌}

pub record ClientInfo : Type 0 where
  pub client_id : Str
  pub client_name : Str
  pub status : Str
  pub subscription_tier : Str
  pub max_wallets : ℤ

pub record TokenResponse : Type 0 where
  pub token : Str
  pub expires_in : ℤ
  pub token_type : Str
  pub client : ClientInfo

unfoldable pub client_info_from : Fields → Option ClientInfo
client_info_from fs = do
  client_id ← required text (codes "client_id") fs
  client_name ← required text (codes "client_name") fs
  state ← required text (codes "status") fs
  subscription_tier ← defaulted text [] (codes "subscription_tier") fs
  max_wallets ← defaulted i64 (pos 0) (codes "max_wallets") fs
  some (record {
    client_id = client_id;
    client_name = client_name;
    status = state;
    subscription_tier = subscription_tier;
    max_wallets = max_wallets;
  })

abbrev client_info : Reader ClientInfo
client_info v = fields_of v >>= client_info_from

unfoldable pub token_response_from : Fields → Option TokenResponse
token_response_from fs = do
  token ← required text (codes "token") fs
  expires_in ← required i64 (codes "expires_in") fs
  token_type ← required text (codes "token_type") fs
  client ← required client_info (codes "client") fs
  some (record { token = token; expires_in = expires_in; token_type = token_type; client = client })

abbrev pub token_response : Reader TokenResponse
token_response v = fields_of v >>= token_response_from

-- ===== src/Client.antt =====
-- The client: how a request is built, sent, retried and its answer read (src/client.rs).
pub mod Decode
pub mod Retry
pub mod Outcome
pub mod Calls
pub mod Tokens
pub mod Refused
pub mod Answered
pub mod Replay
pub mod Tasks
pub mod New
pub mod Scripted
pub mod Replaying
mod Tests
mod UnitTests
use paratro_sdk_rust.Base.{
  ℕ, Bool, true, false, ◌&&◌, Option, none, some, List, [], ◌∷◌, ◌++◌, Result, ok, err, leb, ◌==◌,
  is_empty, if◌then◌else◌,
}
use paratro_sdk_rust.Base.Str.{Str, codes, ◌=ₛ◌}
use paratro_sdk_rust.Config
use paratro_sdk_rust.Config.{Config, normalize_base_url}
use paratro_sdk_rust.Error.{Error, ErrorBody, api, http, decode, invalid_config}
use paratro_sdk_rust.Error.Code
use paratro_sdk_rust.Error.Wire.{error_body}
use paratro_sdk_rust.Json.{Value, Reader}
use paratro_sdk_rust.Session.{
  Env, Request, Response, Session, Failure, Action, lift, or_http, call, from_slice, to_vec, ◌>>=◌,
}
use paratro_sdk_rust.Token.{
  TokenManager, manager, unwrap_or, or_decode, get_token, refresh_after_expiry,
}

abbrev pub header_idempotency_key : Str
header_idempotency_key = codes "Idempotency-Key"

pub record MpcClient (E : Env) : Type 0 where
  pub config : Config
  pub token_manager : TokenManager E
  pub http_client : E.HttpClient

pub record Reply (A : Type 0) : Type 0 where
  pub status : ℕ
  pub body : A

-- The name of a type and how it is read
pub record Target (A : Type 0) : Type 0 where
  pub name : Str
  pub reader : Reader A

module _ (E : Env) where
  abbrev connected :
      Config → TokenManager E → Result E.HttpClient E.HttpError → Result (MpcClient E) (Failure E)
  connected config m (ok c) = ok (record { config = config; token_manager = m; http_client = c })
  connected config m (err e) = err (http e)

  abbrev managed : Config → Result (TokenManager E) (Failure E) → Result (MpcClient E) (Failure E)
  managed config (ok m) = connected config m (E.build config.timeout)
  managed config (err e) = err e

  abbrev normalized : Str → Str → Config → Result Str (Failure E) → Result (MpcClient E) (Failure E)
  normalized key secret config (ok url) =
      managed (record config { base_url = url }) (manager E key secret url config.timeout)
  normalized key secret config (err e) = err e

  unfoldable pub new : Str → Str → Config → Result (MpcClient E) (Failure E)
  new key secret config =
      if is_empty key
      then err (invalid_config (codes "apiKey is required"))
      else if is_empty secret
      then err (invalid_config (codes "apiSecret is required"))
      else normalized key secret config (normalize_base_url config.base_url)

  abbrev has_expired : Result ErrorBody E.JsonError → Bool
  has_expired (ok b) = b.code =ₛ Code.token_expired
  has_expired (err e) = false

  unfoldable pub is_token_expired : List ℕ → Bool
  is_token_expired bytes = has_expired (from_slice E (codes "ErrorBody") error_body bytes)

  -- The first attempt was not the last one.
  unfoldable pub retries : ℕ → List ℕ → Bool
  retries status bytes = status == 401 && is_token_expired bytes

  abbrev pub unknown_body : ErrorBody
  unknown_body = record {
    code = codes "unknown";
    error_type = codes "unknown";
    message = codes "failed to decode error response";
  }

  module _ {A : Type 0} where
    abbrev reply : ℕ → Result A (Failure E) → Result (Reply A) (Failure E)
    reply status (ok a) = ok (record { status = status; body = a })
    reply status (err e) = err e

    unfoldable pub decode_reply : Target A → ℕ → List ℕ → Result (Reply A) (Failure E)
    decode_reply t status bytes =
        if leb 400 status
        then err (
            api status (unwrap_or (from_slice E (codes "ErrorBody") error_body bytes) unknown_body))
        else reply status (or_decode status (from_slice E t.name t.reader bytes))

abbrev pub bearer : Str → Str × Str
bearer token = (codes "Authorization", codes "Bearer " ++ token)

-- The closures `build` of the callers of `send`
unfoldable pub post_request : Str → List (Str × Str) → List ℕ → Str → Request
post_request to headers payload token = record {
  method = codes "POST";
  url = to;
  headers = (codes "Content-Type", codes "application/json") ∷ bearer token ∷ headers;
  query = [];
  body = some payload;
}

unfoldable pub get_request : Str → List (Str × Str) → Str → Request
get_request to params token = record {
  method = codes "GET";
  url = to;
  headers = bearer token ∷ [];
  query = params;
  body = none;
}

-- `.await?.body`
abbrev pub body_of : {A : Type 0} → Reply A → A
body_of r = r.body

module _ {E : Env} where
  -- `MpcClient::config`
  abbrev pub config : MpcClient E → Config
  config client = client.config

  unfoldable pub url : MpcClient E → Str → Str
  url client path = client.config.base_url ++ path

  unfoldable pub execute : MpcClient E → Request → Action E (ℕ × List ℕ)
  execute client r = do
    resp ← call client.http_client r
    bytes ← lift (or_http resp.body)
    lift (ok (resp.status, bytes))

  unfoldable pub retry : MpcClient E → (Str → Request) → Str → Action E (ℕ × List ℕ)
  retry client build token = do
    renewed ← refresh_after_expiry client.token_manager token
    execute client (build renewed)

  unfoldable pub after_first :
      MpcClient E → (Str → Request) → Str → ℕ × List ℕ → Action E (ℕ × List ℕ)
  after_first client build token (status, bytes) =
      if retries E status bytes then retry client build token else lift (ok (status, bytes))

  unfoldable pub exchanges : MpcClient E → (Str → Request) → Action E (ℕ × List ℕ)
  exchanges client build = do
    token ← get_token client.token_manager
    answer ← execute client (build token)
    after_first client build token answer

  module _ {A : Type 0} where
    unfoldable pub send : MpcClient E → Target A → (Str → Request) → Action E (Reply A)
    send client t build = do
      answer ← exchanges client build
      lift (decode_reply E t answer.0 answer.1)

    unfoldable pub post_with_status_and_headers :
        MpcClient E → Target A → Str → Value → List (Str × Str) → Action E (Reply A)
    post_with_status_and_headers client t path v headers = do
      payload ← lift (or_decode 0 (to_vec E v))
      send client t (post_request (url client path) headers payload)

    unfoldable pub post_with_status : MpcClient E → Target A → Str → Value → Action E (Reply A)
    post_with_status client t path v = post_with_status_and_headers client t path v []

    unfoldable pub post_with_headers :
        MpcClient E → Target A → Str → Value → List (Str × Str) → Action E A
    post_with_headers client t path v headers = do
      r ← post_with_status_and_headers client t path v headers
      lift (ok (body_of r))

    unfoldable pub post : MpcClient E → Target A → Str → Value → Action E A
    post client t path v = do r ← post_with_status client t path v; lift (ok (body_of r))

    unfoldable pub get : MpcClient E → Target A → Str → Action E A
    get client t path = do
      r ← send client t (get_request (url client path) [])
      lift (ok (body_of r))

    unfoldable pub get_with_query : MpcClient E → Target A → Str → List (Str × Str) → Action E A
    get_with_query client t path params = do
      r ← send client t (get_request (url client path) params)
      lift (ok (body_of r))

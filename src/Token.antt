-- ===== src/Token.antt =====
-- The token of a client and its renewal (src/token.rs). The state the lock guards is in the session.
pub mod Wire
pub mod Renewal
pub mod Requests
pub mod Lifetime
pub mod Issued
mod Tests
use paratro_sdk_rust.Base.{
  ℕ, ◌+◌, ◌*◌, Bool, true, false, not, ◌&&◌, ◌||◌, Option, none, some, List, [], ◌∷◌, ◌++◌, Result,
  ok, err, leb, ltb, if◌then◌else◌,
}
use paratro_sdk_rust.Base.Decimal.{nat_to_string}
use paratro_sdk_rust.Base.Int.{ℤ, pos, max_zero, sub_i64}
use paratro_sdk_rust.Base.Str.{Str, codes, ◌=ₛ◌}
use paratro_sdk_rust.Base.Time.{Duration}
use paratro_sdk_rust.Error.{Error, ErrorBody, api, decode}
use paratro_sdk_rust.Error.Wire.{error_body}
use paratro_sdk_rust.Token.Wire.{TokenResponse, token_response}
use paratro_sdk_rust.Session.{
  Env, Request, Response, Session, TokenState, Failure, Action, lift, or_http, call, from_slice,
  ◌>>=◌,
}

abbrev pub header_api_key : Str
header_api_key = codes "X-API-Key"

abbrev pub header_api_secret : Str
header_api_secret = codes "X-API-Secret"

abbrev pub refresh_buffer_secs : ℤ
refresh_buffer_secs = pos 120

-- What the manager holds besides the guarded state.
pub record TokenManager (E : Env) : Type 0 where
  pub api_key : Str
  pub api_secret : Str
  pub base_url : Str
  pub http_client : E.HttpClient

-- `map_err(|source| Error::Decode { status, source })`
abbrev pub or_decode : {A H J : Type 0} → ℕ → Result A J → Result A (Error H J)
or_decode status (ok a) = ok a
or_decode status (err source) = err (decode status source)

-- `unwrap_or(d)`
abbrev pub unwrap_or : {A F : Type 0} → Result A F → A → A
unwrap_or (ok a) d = a
unwrap_or (err e) d = d

module _ (E : Env) where
  unfoldable pub manager : Str → Str → Str → Duration → Result (TokenManager E) (Failure E)
  manager key secret url timeout = elim (E.build timeout) [
    | ok c ↦ ok (record { api_key = key; api_secret = secret; base_url = url; http_client = c })
    | err e ↦ or_http (err e)
  ]

  -- `Instant::now() < s.expires_at`
  abbrev pub is_fresh : E.World → TokenState → Bool
  is_fresh w t = ltb (E.now w) t.expires_at

  -- The token that `refresh` hands out without asking for a new one
  abbrev pub usable : Option Str → E.World → TokenState → Bool
  usable none w t = is_fresh w t
  usable (some stale) w t = not (stale =ₛ t.token)

  abbrev kept_if : Bool → TokenState → Option Str
  kept_if true t = some t.token
  kept_if false t = none

  unfoldable pub kept : Option Str → E.World → Option TokenState → Option Str
  kept stale w none = none
  kept stale w (some t) = kept_if (usable stale w t) t

  -- What `get_token` reads under the read lock
  abbrev pub fresh_of : E.World → Option TokenState → Option Str
  fresh_of w none = none
  fresh_of w (some t) = kept_if (is_fresh w t) t

  -- The body of an answer that is an error: `resp.json()`, and what stands in for it
  abbrev json : Result (List ℕ) E.HttpError → Option ErrorBody
  json (err e) = none
  json (ok bytes) = elim (from_slice E (codes "ErrorBody") error_body bytes) [
    | ok b ↦ some b
    | err e ↦ none
  ]

  unfoldable pub auth_error : ℕ → Result (List ℕ) E.HttpError → ErrorBody
  auth_error status body = elim (json body) [
    | some b ↦ b
    | none ↦ record {
      code = codes "unknown";
      error_type = codes "unknown";
      message = codes "auth request failed with status " ++ nat_to_string status;
    }
  ]

  -- `Instant::now() + Duration::from_secs(..)`, in nanoseconds
  unfoldable pub expires_at : E.World → ℤ → ℕ
  expires_at w expires_in = E.now w + 1000000000 * max_zero (sub_i64 expires_in refresh_buffer_secs)

  unfoldable pub store : TokenResponse → Action E Str
  store r s = (
    ok r.token,
    record s {
      state = some (record { token = r.token; expires_at = expires_at s.world r.expires_in });
    },
  )

  unfoldable pub refuse : ℕ → ErrorBody → Action E Str
  refuse status body s = (err (api status body), record s { state = none })

  unfoldable pub renewed : Response E.HttpError → Action E Str
  renewed resp =
      if leb 400 resp.status then refuse resp.status (auth_error resp.status resp.body) else (do
        bytes ← lift (or_http resp.body)
        r ← lift (or_decode resp.status (from_slice E (codes "TokenResponse") token_response bytes))
        store r)

module _ {E : Env} where
  unfoldable pub auth_request : TokenManager E → Request
  auth_request m = record {
    method = codes "POST";
    url = m.base_url ++ codes "/api/v1/auth/token";
    headers = (header_api_key, m.api_key) ∷ (header_api_secret, m.api_secret) ∷ [];
    query = [];
    body = none;
  }

  unfoldable pub renew : TokenManager E → Action E Str
  renew m = do resp ← call m.http_client (auth_request m); renewed E resp

  unfoldable pub refresh : TokenManager E → Option Str → Action E Str
  refresh m stale s = elim (kept E stale s.world s.state) [
    | some token ↦ (ok token, s)
    | none ↦ renew m s
  ]

  unfoldable pub get_token : TokenManager E → Action E Str
  get_token m s = elim (fresh_of E s.world s.state) [
    | some token ↦ (ok token, s)
    | none ↦ refresh m none s
  ]

  unfoldable pub refresh_after_expiry : TokenManager E → Str → Action E Str
  refresh_after_expiry m stale = refresh m (some stale)

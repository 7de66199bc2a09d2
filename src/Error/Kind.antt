-- ===== src/Error/Kind.antt =====
-- What `kind` and the predicates built on it say of an answer (src/error.rs).
use paratro_sdk_rust.Base.{ℕ, ◌≤◌, ◌≡◌, ◌≢◌, ◌↔◌, ◌⊎◌, arith}
use paratro_sdk_rust.Base.Str.Laws.{=ₛ_iff}
use paratro_sdk_rust.Error.{
  ErrorBody, ApiErrorKind, kind_400, kind_of, engine_busy_message, chain_rpc_unavailable_message,
}

-- The statuses under which the gateway's documentation lists a kind.
abbrev pub Documented : ApiErrorKind → ℕ → Type 0
Documented ApiErrorKind.token_expired s = s ≡ 401
Documented ApiErrorKind.unauthorized s = s ≡ 401
Documented ApiErrorKind.forbidden s = s ≡ 403
Documented ApiErrorKind.not_found s = s ≡ 404
Documented ApiErrorKind.conflict s = s ≡ 409
Documented ApiErrorKind.endpoint_retired s = s ≡ 410
Documented ApiErrorKind.rate_limited s = s ≡ 429
Documented ApiErrorKind.engine_busy s = s ≡ 503
Documented ApiErrorKind.chain_rpc_unavailable s = s ≡ 503
Documented ApiErrorKind.service_unavailable s = s ≡ 503
Documented ApiErrorKind.server_error s = (500 ≤ s) × (s ≤ 599) × (s ≢ 503)
Documented ApiErrorKind.other s =
    (s ≢ 400)
    × (s ≢ 401)
    × (s ≢ 403)
    × (s ≢ 404)
    × (s ≢ 409)
    × (s ≢ 410)
    × (s ≢ 429)
    × ((s ≤ 499) ⊎ (600 ≤ s))
Documented _ s = s ≡ 400

kind_400-Documented : (b : ErrorBody) (k : ApiErrorKind) → kind_400 b ≡ k → Documented k 400
unfolding kind_400
kind_400-Documented b ApiErrorKind.other h = ground arith
kind_400-Documented b _ h = ground arith

pub kind_of-Documented :
    (s : ℕ) (b : ErrorBody) (k : ApiErrorKind) → kind_of s b ≡ k → Documented k s
unfolding kind_of
kind_of-Documented s b ApiErrorKind.other h =
    ground (arith, kind_400-Documented b ApiErrorKind.other)
kind_of-Documented s b k h = ground (arith, kind_400-Documented b k)

pub engine_busy-kind_of :
    (s : ℕ) (b : ErrorBody)
    → (kind_of s b ≡ ApiErrorKind.engine_busy) ↔ ((s ≡ 503) × (b.message ≡ engine_busy_message))
unfolding kind_of
engine_busy-kind_of s b =
    ground
      (arith, =ₛ_iff b.message engine_busy_message, kind_400-Documented b ApiErrorKind.engine_busy)

pub chain_rpc-kind_of :
    (s : ℕ) (b : ErrorBody)
    → (kind_of s b ≡ ApiErrorKind.chain_rpc_unavailable)
      ↔ ((s ≡ 503) × (b.message ≡ chain_rpc_unavailable_message))
unfolding kind_of
chain_rpc-kind_of s b = ground (
  arith,
  =ₛ_iff b.message chain_rpc_unavailable_message,
  =ₛ_iff b.message engine_busy_message,
  kind_400-Documented b ApiErrorKind.chain_rpc_unavailable,
)

-- The kinds below that one status decides.
pub not_found-kind_of : (s : ℕ) (b : ErrorBody) → (kind_of s b ≡ ApiErrorKind.not_found) ↔ (s ≡ 404)
unfolding kind_of
not_found-kind_of s b = ground (arith, kind_400-Documented b ApiErrorKind.not_found)

pub rate_limited-kind_of :
    (s : ℕ) (b : ErrorBody) → (kind_of s b ≡ ApiErrorKind.rate_limited) ↔ (s ≡ 429)
unfolding kind_of
rate_limited-kind_of s b = ground (arith, kind_400-Documented b ApiErrorKind.rate_limited)

pub forbidden-kind_of : (s : ℕ) (b : ErrorBody) → (kind_of s b ≡ ApiErrorKind.forbidden) ↔ (s ≡ 403)
unfolding kind_of
forbidden-kind_of s b = ground (arith, kind_400-Documented b ApiErrorKind.forbidden)

pub kind_of-401 :
    (s : ℕ) (b : ErrorBody)
    → ((kind_of s b ≡ ApiErrorKind.token_expired) ⊎ (kind_of s b ≡ ApiErrorKind.unauthorized))
      ↔ (s ≡ 401)
unfolding kind_of
kind_of-401 s b = ground (
  arith,
  kind_400-Documented b ApiErrorKind.token_expired,
  kind_400-Documented b ApiErrorKind.unauthorized,
)

pub kind_of-503 :
    (s : ℕ) (b : ErrorBody)
    → ((kind_of s b ≡ ApiErrorKind.engine_busy)
        ⊎ (kind_of s b ≡ ApiErrorKind.chain_rpc_unavailable)
        ⊎ (kind_of s b ≡ ApiErrorKind.service_unavailable))
      ↔ (s ≡ 503)
unfolding kind_of
kind_of-503 s b = ground (
  arith,
  kind_400-Documented b ApiErrorKind.engine_busy,
  kind_400-Documented b ApiErrorKind.chain_rpc_unavailable,
  kind_400-Documented b ApiErrorKind.service_unavailable,
)

-- ===== src/Error/Predicates.antt =====
-- The predicates on an error and what each says of the answer behind it (src/error.rs).
use paratro_sdk_rust.Base.{ℕ, true, ◌≡◌, refl, ◌↔◌, ◌⊎◌, some, arith}
use paratro_sdk_rust.Error
use paratro_sdk_rust.Error.{
  Error, ErrorBody, api, http, decode, invalid_config, ApiErrorKind, kind_of, kind, kind_is,
  engine_busy_message, chain_rpc_unavailable_message, rank,
}
use paratro_sdk_rust.Error.Checks
use paratro_sdk_rust.Error.Kind.{
  Documented, kind_of-Documented, engine_busy-kind_of, chain_rpc-kind_of, not_found-kind_of,
  rate_limited-kind_of, forbidden-kind_of, kind_of-401, kind_of-503,
}

-- The comparison of two kinds is equality.
kind_is_iff : (k k' : ApiErrorKind) → (kind_is k (some k') ≡ true) ↔ (k' ≡ k)
unfolding rank
kind_is_iff ApiErrorKind.other k' = ground arith
kind_is_iff _ k' = ground arith

module _ {H J : Type 0} where
  -- An error that has a kind is an answer of the gateway, and the kind is one that is documented
  -- for its status: no other error has a kind.
  pub kind-Documented :
      (e : Error H J) (k : ApiErrorKind)
      → kind e ≡ some k
      → (s : ℕ) × (b : ErrorBody) × (e ≡ api s b) × Documented k s
  unfolding kind
  kind-Documented (api s b) k h = (s, b, refl, kind_of-Documented s b k (ground arith))
  kind-Documented (http x) k h = cc
  kind-Documented (decode s j) k h = cc
  kind-Documented (invalid_config m) k h = cc

  -- An answer is `EngineBusy`, the 503 after which the reference id is consumed, exactly when its
  -- status is 503 and its message is the engine's; `ChainRpcUnavailable`, the 503 after which it
  -- is free, exactly when the message is that of the chain read.
  pub engine_busy_iff :
      (e : Error H J)
      → ((Error.is_engine_busy e ≡ true)
          ↔ ((b : ErrorBody) × (e ≡ api 503 b) × (b.message ≡ engine_busy_message)))
        × ((Error.is_chain_rpc_unavailable e ≡ true)
            ↔ ((b : ErrorBody) × (e ≡ api 503 b) × (b.message ≡ chain_rpc_unavailable_message)))
  unfolding Error.is_engine_busy Error.is_chain_rpc_unavailable kind
  engine_busy_iff (api s b) =
      let busy = kind_is_iff ApiErrorKind.engine_busy (kind_of s b) in
      let rpc = kind_is_iff ApiErrorKind.chain_rpc_unavailable (kind_of s b) in
      let busy_means = engine_busy-kind_of s b in
      let rpc_means = chain_rpc-kind_of s b in
      (
        ((λ h. (b, ground arith, ground arith)), λ x. ground arith),
        ((λ h. (b, ground arith, ground arith)), λ x. ground arith),
      )
  engine_busy_iff _ = ground arith

  -- `is_service_unavailable` holds exactly of the answers with status 503.
  pub is_service_unavailable_iff :
      (e : Error H J)
      → (Error.is_service_unavailable e ≡ true) ↔ ((b : ErrorBody) × (e ≡ api 503 b))
  unfolding Error.is_service_unavailable kind
  is_service_unavailable_iff (api s b) =
      let busy = kind_is_iff ApiErrorKind.engine_busy (kind_of s b) in
      let rpc = kind_is_iff ApiErrorKind.chain_rpc_unavailable (kind_of s b) in
      let unavailable = kind_is_iff ApiErrorKind.service_unavailable (kind_of s b) in
      let means = kind_of-503 s b in ((λ h. (b, ground arith)), λ x. ground arith)
  is_service_unavailable_iff _ = ground arith

  -- The functions of the module agree with the methods: not found, rate limited, and an
  -- authentication error exactly for the kinds token expired, unauthorized and forbidden.
  pub checks_agree :
      (e : Error H J)
      → (Checks.is_not_found e ≡ Error.is_not_found e)
        × (Checks.is_rate_limited e ≡ Error.is_rate_limited e)
        × ((Checks.is_auth_error e ≡ true) ↔ (
            (kind e ≡ some ApiErrorKind.token_expired)
            ⊎ (kind e ≡ some ApiErrorKind.unauthorized)
            ⊎ (kind e ≡ some ApiErrorKind.forbidden)))
  unfolding Checks.is_not_found Checks.is_rate_limited Checks.is_auth_error Error.is_not_found
      Error.is_rate_limited kind
  checks_agree (api s b) = (
    ground (arith, kind_is_iff ApiErrorKind.not_found (kind_of s b), not_found-kind_of s b),
    ground (arith, kind_is_iff ApiErrorKind.rate_limited (kind_of s b), rate_limited-kind_of s b),
    ground (arith, kind_of-401 s b, forbidden-kind_of s b),
  )
  checks_agree _ = ground arith

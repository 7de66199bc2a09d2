-- ===== src/Token/Renewal.antt =====
-- What a renewal does to the guarded state, and what it sends (src/token.rs).
use paratro_sdk_rust.Base.{
  ◌≤◌, ◌<◌, ◌≡◌, refl, Option, none, some, Result, ok, err, arith, inl, inr, Option-cases,
}
use paratro_sdk_rust.Base.Str.{Str}
use paratro_sdk_rust.Error.{Error, api, http, decode, invalid_config}
use paratro_sdk_rust.Session.{Env, Response, Session, TokenState, or_http, call, continue_with}
use paratro_sdk_rust.Token.{TokenManager, kept, renewed, renew, refresh, get_token, store, refuse}

-- A state that holds a given token
abbrev pub Holds : Str → Option TokenState → Type 0
Holds token none = ⊥
Holds token (some t) = t.token ≡ token

module _ {H J : Type 0} where
  -- What an operation on the token leaves in the guarded state, for each kind of result
  abbrev pub Settled : Option TokenState → Result Str (Error H J) → Option TokenState → Type 0
  Settled before (ok token) after = Holds token after
  Settled before (err (api status body)) after = 400 ≤ status × after ≡ none
  Settled before (err (http e)) after = after ≡ before
  Settled before (err (decode status e)) after = after ≡ before × status < 400
  Settled before (err (invalid_config x)) after = ⊥

module _ (E : Env) where
  kept-Holds :
      (stale : Option Str) (w : E.World) (held : Option TokenState) (token : Str)
      → kept E stale w held ≡ some token
      → Holds token held
  unfolding kept
  kept-Holds stale w none token h = ground arith
  kept-Holds stale w (some t) token h = ground arith

module _ {E : Env} where
  renewed-Settled :
      (resp : Response E.HttpError) (s : Session E)
      → Settled s.state (renewed E resp s).0 (renewed E resp s).1.state
  unfolding renewed store refuse
  renewed-Settled resp s = ground arith

  after_exchange-Settled :
      (s : Session E) (x : Result (Response E.HttpError) E.HttpError)
      → Settled s.state
          (continue_with (or_http x) (renewed E) s).0
          (continue_with (or_http x) (renewed E) s).1.state
  after_exchange-Settled s (ok resp) = renewed-Settled resp s
  after_exchange-Settled s (err e) = refl

  renew-Settled :
      (m : TokenManager E) (s : Session E) → Settled s.state (renew m s).0 (renew m s).1.state
  unfolding renew call
  renew-Settled m s = after_exchange-Settled _ _

  module _ (m : TokenManager E) (stale : Option Str) (s : Session E) where
    pub refresh-kept :
        (token : Str)
        → kept E stale s.world s.state ≡ some token
        → refresh m stale s ≡ (ok token, s)
    unfolding refresh
    refresh-kept token h = ground arith

    pub refresh-renew : kept E stale s.world s.state ≡ none → refresh m stale s ≡ renew m s
    unfolding refresh
    refresh-renew h = ground arith

  -- Whatever a renewal answers, the guarded state fits: a token that is handed out is the one that
  -- is held, an answer of status 400 and above leaves none, and any other failure leaves the state
  -- as it was.
  pub refresh-Settled :
      (m : TokenManager E) (stale : Option Str) (s : Session E)
      → Settled s.state (refresh m stale s).0 (refresh m stale s).1.state
  unfolding refresh
  refresh-Settled m stale s = elim (Option-cases (kept E stale s.world s.state)) [
    | inl h ↦ ground (arith, renew-Settled m s)
    | inr (token, h) ↦ ground (arith, kept-Holds E stale s.world s.state token h)
  ]

  -- The look at the held token before the lock is taken changes nothing: `get_token` is the renewal
  -- with no token named as stale.
  pub get_token-refresh : (m : TokenManager E) (s : Session E) → get_token m s ≡ refresh m none s
  unfolding get_token refresh kept
  get_token-refresh m s = ground arith

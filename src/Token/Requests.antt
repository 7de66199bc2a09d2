-- ===== src/Token/Requests.antt =====
-- The requests that operations on the token send (src/token.rs).
use paratro_sdk_rust.Base.{
  ◌≡◌, ◌≢◌, refl, sym, subst, Option, none, some, List, [], ◌∷◌, ◌++◌, append-nil, Result, ok, err,
  arith, inl, inr, Option-cases, All, map,
}
use paratro_sdk_rust.Base.Str.{Str}
use paratro_sdk_rust.Base.Str.Laws.{=ₛ-false_of_ne}
use paratro_sdk_rust.Session.{
  Env, Request, Response, Session, Failure, or_http, call, continue_with,
}
use paratro_sdk_rust.Session.Trace.{Adds}
use paratro_sdk_rust.Token.{
  TokenManager, kept, auth_request, renewed, renew, refresh, get_token, refresh_after_expiry, store,
  refuse,
}
use paratro_sdk_rust.Token.Renewal.{Holds, Settled, refresh-Settled, get_token-refresh}

module _ {E : Env} where
  -- None, or one to the token endpoint
  pub data Renewed (m : TokenManager E) : List Request → Type 0 where
    held : Renewed m []
    asked : Renewed m (auth_request m ∷ [])

  renewed-sent : (resp : Response E.HttpError) (s : Session E) → (renewed E resp s).1.sent ≡ s.sent
  unfolding renewed store refuse
  renewed-sent resp s = ground arith

  after_exchange-sent :
      (s : Session E) (x : Result (Response E.HttpError) E.HttpError)
      → (continue_with (or_http x) (renewed E) s).1.sent ≡ s.sent
  after_exchange-sent s (ok resp) = renewed-sent resp s
  after_exchange-sent s (err e) = refl

  pub renew-sent :
      (m : TokenManager E) (s : Session E) → (renew m s).1.sent ≡ s.sent ++ (auth_request m ∷ [])
  unfolding renew call
  renew-sent m s = after_exchange-sent _ _

  -- A renewal sends nothing, or the one request for a token that carries the credentials.
  pub refresh-Adds :
      (m : TokenManager E) (stale : Option Str) (s : Session E)
      → Adds (Renewed m) s (refresh m stale s).1
  unfolding refresh
  refresh-Adds m stale s = elim (Option-cases (kept E stale s.world s.state)) [
    | inl h ↦ (auth_request m ∷ [], ground (arith, renew-sent m s), asked)
    | inr (token, h) ↦ ([], ground (arith, append-nil s.sent), held)
  ]

  pub get_token-Adds : (m : TokenManager E) (s : Session E) → Adds (Renewed m) s (get_token m s).1
  get_token-Adds m s =
      subst (λ p. Adds (Renewed m) s p.1) (sym (get_token-refresh m s)) (refresh-Adds m none s)

  -- Tasks that one after the other take the lock, each with the token it saw expire
  abbrev pub refresh_all :
      TokenManager E → List Str → Session E → List (Result Str (Failure E)) × Session E
  refresh_all m [] s = ([], s)
  refresh_all m (stale ∷ others) s = (
    (refresh_after_expiry m stale s).0
        ∷ (refresh_all m others (refresh_after_expiry m stale s).1).0,
    (refresh_all m others (refresh_after_expiry m stale s).1).1,
  )

  replaced :
      (m : TokenManager E) (stale token : Str) (s : Session E)
      → stale ≢ token
      → Holds token s.state
      → refresh_after_expiry m stale s ≡ (ok token, s)
  unfolding refresh_after_expiry refresh kept
  replaced m stale token s n h = ground (arith, =ₛ-false_of_ne stale token n, h)

  each_replaced :
      (m : TokenManager E) (stales : List Str) (token : Str) (s : Session E)
      → All (λ x. x ≢ token) stales
      → Holds token s.state
      → refresh_all m stales s ≡ (map (λ _. ok token) stales, s)
  each_replaced m [] token s n h = refl
  each_replaced m (x ∷ xs) token s n h =
      rw (replaced m x token s n.0 h, each_replaced m xs token s n.1 h)

  -- Once a renewal gave a token, tasks that saw any other token expire get this one, whatever their
  -- number, and nothing more is sent: they leave the session as it is.
  pub renewed_once :
      (m : TokenManager E) (stale token : Str) (others : List Str) (s : Session E)
      → (refresh_after_expiry m stale s).0 ≡ ok token
      → All (λ x. x ≢ token) others
      → refresh_all m others (refresh_after_expiry m stale s).1
        ≡ (map (λ _. ok token) others, (refresh_after_expiry m stale s).1)
  unfolding refresh_after_expiry
  renewed_once m stale token others s h n = each_replaced m others token _ n (
      subst (λ r. Settled s.state r (refresh m (some stale) s).1.state) h
        (refresh-Settled m (some stale) s))

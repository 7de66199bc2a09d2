-- ===== src/Client/Tokens.antt =====
-- Which tokens the requests of one call carry (src/client.rs, src/token.rs).
use paratro_sdk_rust.Base.{
  ℕ, ◌≡◌, ◌⊎◌, inl, inr, refl, sym, ap, subst, ◌∙◌, Bool, true, false, List, [], ◌∷◌, ◌++◌,
  append_assoc, append-nil, Result, ok, All, All-append, if◌then◌else◌, Option, none, some,
}
use paratro_sdk_rust.Base.Str.{Str}
use paratro_sdk_rust.Session.{
  Env, Request, Session, Failure, Action, call, or_http, lift, continue_with, ◌>>=◌,
}
use paratro_sdk_rust.Session.Trace.{Adds, continue_with-induction}
use paratro_sdk_rust.Token.{auth_request, refresh, refresh_after_expiry}
use paratro_sdk_rust.Token.Renewal.{get_token-refresh}
use paratro_sdk_rust.Token.Requests.{Renewed, held, asked, refresh-Adds}
use paratro_sdk_rust.Token.Issued.{Issues, Held, Given, refresh-Given}
use paratro_sdk_rust.Client.{MpcClient, execute, retry, retries, after_first, exchanges}
use paratro_sdk_rust.Client.Retry.{execute-sent}

pub execute-state :
    {E : Env} (client : MpcClient E) (r : Request) (s : Session E)
    → (execute client r s).1.state ≡ s.state
unfolding execute call
execute-state {E = E} client r s =
    continue_with-induction (λ p. p.1.state ≡ s.state)
      (or_http (E.exchange client.http_client r s.world).0) _ _
      (λ resp h.
        continue_with-induction (λ p. p.1.state ≡ s.state) (or_http resp.body) _ _ (λ bytes k. refl)
          (λ e k. refl))
      (λ e h. refl)

module _ {E : Env} (P : Str → Type 0) (client : MpcClient E) (build : Str → Request) where
  -- The request for a token, or the request of the call under a token of which P holds
  abbrev pub IsOwn : Request → Type 0
  IsOwn r = (r ≡ auth_request client.token_manager) ⊎ ((token : Str) × P token × (r ≡ build token))

  abbrev Sends : Session E → Session E → Type 0
  Sends s t = Adds (All IsOwn) s t

  Sends-nothing : (s : Session E) → Sends s s
  Sends-nothing s = ([], sym (append-nil s.sent), tt)

  Sends-trans : (s t u : Session E) → Sends s t → Sends t u → Sends s u
  Sends-trans s t u (l, e, p) (k, e', q) =
      (l ++ k, e' ∙ ap (λ x. x ++ k) e ∙ append_assoc s.sent l k, All-append IsOwn l k p q)

  Renewed-IsOwn : {l : List Request} → Renewed client.token_manager l → All IsOwn l
  Renewed-IsOwn held = tt
  Renewed-IsOwn asked = (inl refl, tt)

  refresh-Sends :
      (stale : Option Str) (s : Session E) → Sends s (refresh client.token_manager stale s).1
  refresh-Sends stale s =
      let (l, e, p) = refresh-Adds client.token_manager stale s in (l, e, Renewed-IsOwn p)

  execute-Sends :
      (token : Str) (s : Session E) → P token → Sends s (execute client (build token) s).1
  execute-Sends token s h =
      (build token ∷ [], execute-sent client (build token) s, (inr (token, h, refl), tt))

  module _ (issues : Issues E P client.token_manager) where
    given_token : (x : Result Str (Failure E)) (token : Str) → x ≡ ok token → Given E P x → P token
    given_token x token e h = subst (Given E P) e h

    retry-Sends :
        (token : Str) (s : Session E) → Held E P s.state → Sends s (retry client build token s).1
    unfolding retry refresh_after_expiry
    retry-Sends token s h =
        let (given, keeps) = refresh-Given E P client.token_manager issues (some token) s h in
        let first = refresh-Sends (some token) s in
        continue_with-induction (λ p. Sends s p.1) (refresh client.token_manager (some token) s).0 _
          _
          (λ a e.
            Sends-trans s (refresh client.token_manager (some token) s).1
              (execute client (build a) (refresh client.token_manager (some token) s).1).1 first
              (execute-Sends a (refresh client.token_manager (some token) s).1
                (given_token _ a e given)))
          (λ e e'. first)

    if-Sends :
        (b : Bool) (m n : Action E (ℕ × List ℕ)) (s : Session E)
        → Sends s (m s).1
        → Sends s (n s).1
        → Sends s ((if b then m else n) s).1
    if-Sends true m n s h k = h
    if-Sends false m n s h k = k

    after_first-Sends :
        (token : Str) (answer : ℕ × List ℕ) (s : Session E)
        → Held E P s.state
        → Sends s (after_first client build token answer s).1
    unfolding after_first
    after_first-Sends token (status, bytes) s h =
        if-Sends (retries E status bytes) (retry client build token) (lift (ok (status, bytes))) s
          (retry-Sends token s h) (Sends-nothing s)

    begun-Sends :
        (token : Str) (s : Session E)
        → P token
        → Held E P s.state
        → Sends s ((execute client (build token) >>= after_first client build token) s).1
    begun-Sends token s h k =
        let first = execute-Sends token s h in
        continue_with-induction (λ p. Sends s p.1) (execute client (build token) s).0 _ _
          (λ a e.
            Sends-trans s (execute client (build token) s).1
              (after_first client build token a (execute client (build token) s).1).1 first
              (after_first-Sends token a (execute client (build token) s).1
                (subst (Held E P) (sym (execute-state client (build token) s)) k)))
          (λ e e'. first)

    refreshed-Sends :
        (s : Session E)
        → Held E P s.state
        → Sends s
            ((refresh client.token_manager none >>= λ token.
                execute client (build token) >>= after_first client build token)
              s).1
    refreshed-Sends s h =
        let (given, keeps) = refresh-Given E P client.token_manager issues none s h in
        let first = refresh-Sends none s in
        continue_with-induction (λ p. Sends s p.1) (refresh client.token_manager none s).0 _ _
          (λ a e.
            Sends-trans s (refresh client.token_manager none s).1
              ((execute client (build a) >>= after_first client build a)
                (refresh client.token_manager none s).1).1
              first
              (begun-Sends a (refresh client.token_manager none s).1 (given_token _ a e given)
                keeps))
          (λ e e'. first)

    -- The exchanges of one call send the request for a token, and the request of the call under
    -- tokens that were held at the start or that the gateway has issued.
    pub exchanges-Sends : (s : Session E) → Held E P s.state → Sends s (exchanges client build s).1
    unfolding exchanges
    exchanges-Sends s h =
        subst
          (λ (p : Result Str (Failure E) × Session E).
            Sends s
              (continue_with p.0
                (λ token. execute client (build token) >>= after_first client build token) p.1).1)
          (sym (get_token-refresh client.token_manager s)) (refreshed-Sends s h)

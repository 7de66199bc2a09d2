-- ===== src/Client/Retry.antt =====
-- The requests of one call, and when it asks twice (src/client.rs).
use paratro_sdk_rust.Base.{
  ℕ, ◌+◌, ◌≤◌, ◌≡◌, refl, sym, ap, ◌∙◌, Bool, true, false, List, [], ◌∷◌, ◌++◌, append-nil,
  if◌then◌else◌, some, ok, arith, length, length-append,
}
use paratro_sdk_rust.Base.Str.{Str}
use paratro_sdk_rust.Session.{Env, Request, Session, Action, call, or_http, lift, ◌>>=◌}
use paratro_sdk_rust.Session.Trace.{Adds, Adds->>=, continue_with-induction}
use paratro_sdk_rust.Token.{get_token, refresh, refresh_after_expiry}
use paratro_sdk_rust.Token.Requests.{Renewed, held, asked, get_token-Adds, refresh-Adds}
use paratro_sdk_rust.Client.{
  MpcClient, Target, execute, retries, retry, after_first, exchanges, send,
}

module _ {E : Env} where
  module _ (client : MpcClient E) (build : Str → Request) where
    -- The request itself, with some token
    pub data Attempt : List Request → Type 0 where
      attempt : (token : Str) → Attempt (build token ∷ [])

    -- The requests after the first answer: none if that answer is final
    pub data Rest : List Request → Type 0 where
      final : Rest []
      refused : {l : List Request} → Renewed client.token_manager l → Rest l
      again : {l k : List Request} → Renewed client.token_manager l → Attempt k → Rest (l ++ k)

    -- The requests once there is a token
    pub data First : List Request → Type 0 where
      failed : {l : List Request} → Attempt l → First l
      answered : {l k : List Request} → Attempt l → Rest k → First (l ++ k)

    -- The requests of one call
    pub data Attempts : List Request → Type 0 where
      no_token : {l : List Request} → Renewed client.token_manager l → Attempts l
      given : {l k : List Request} → Renewed client.token_manager l → First k → Attempts (l ++ k)

  pub execute-sent :
      (client : MpcClient E) (r : Request) (s : Session E)
      → (execute client r s).1.sent ≡ s.sent ++ (r ∷ [])
  unfolding execute call
  execute-sent client r s =
      continue_with-induction (λ p. p.1.sent ≡ s.sent ++ (r ∷ []))
        (or_http (E.exchange client.http_client r s.world).0) _ _
        (λ resp h.
          continue_with-induction (λ p. p.1.sent ≡ s.sent ++ (r ∷ [])) (or_http resp.body) _ _
            (λ bytes k. refl) (λ e k. refl))
        (λ e h. refl)

  module _ (client : MpcClient E) (build : Str → Request) where
    execute-Adds :
        (token : Str) (s : Session E)
        → Adds (Attempt client build) s (execute client (build token) s).1
    execute-Adds token s = (build token ∷ [], execute-sent client (build token) s, attempt token)

    retry-Adds :
        (token : Str) (s : Session E) → Adds (Rest client build) s (retry client build token s).1
    unfolding retry refresh_after_expiry
    retry-Adds token s =
        Adds->>= (refresh client.token_manager (some token)) (λ t. execute client (build t)) s
          (λ l p. refused p) (λ l k p q. again p q)
          (refresh-Adds client.token_manager (some token) s) execute-Adds

    if-Adds :
        (b : Bool) (m n : Action E (ℕ × List ℕ)) (s : Session E)
        → Adds (Rest client build) s (m s).1
        → Adds (Rest client build) s (n s).1
        → Adds (Rest client build) s ((if b then m else n) s).1
    if-Adds true m n s h k = h
    if-Adds false m n s h k = k

    after_first-Adds :
        (token : Str) (answer : ℕ × List ℕ) (s : Session E)
        → Adds (Rest client build) s (after_first client build token answer s).1
    unfolding after_first
    after_first-Adds token (status, bytes) s =
        if-Adds (retries E status bytes) (retry client build token) (lift (ok (status, bytes))) s
          (retry-Adds token s) ([], sym (append-nil s.sent), final)

    -- The request under a token, then what can follow
    abbrev pub Begun : Str → List Request → Type 0
    Begun token l = (k : List Request) × (l ≡ build token ∷ k) × Rest client build k

    pub executed-Adds :
        (token : Str) (s : Session E)
        → Adds
            (Begun token)
            s
            ((execute client (build token) >>= after_first client build token) s).1
    executed-Adds token s =
        Adds->>= {P = λ l. l ≡ build token ∷ []} (execute client (build token))
          (after_first client build token) s (λ l e. ([], e, final))
          (λ l k e q. (k, ap (λ x. x ++ k) e, q))
          (build token ∷ [], execute-sent client (build token) s, refl) (after_first-Adds token)

    exchanges-Adds : (s : Session E) → Adds (Attempts client build) s (exchanges client build s).1
    unfolding exchanges
    exchanges-Adds s =
        Adds->>= (get_token client.token_manager) _ s (λ l p. no_token p) (λ l k p q. given p q)
          (get_token-Adds client.token_manager s)
          (λ token t.
            Adds->>= (execute client (build token)) (after_first client build token) t
              (λ l p. failed p) (λ l k p q. answered p q) (execute-Adds token t)
              (after_first-Adds token))

    -- The requests that one call sends are, in this order: none or one for a token; then, unless
    -- that was the end, the request itself; then nothing more, or none or one for a token and
    -- after it possibly the request a second time. There is no third attempt.
    pub send-Adds :
        {A : Type 0} (t : Target A) (s : Session E)
        → Adds (Attempts client build) s (send client t build s).1
    unfolding send
    send-Adds t s =
        continue_with-induction (λ p. Adds (Attempts client build) s p.1)
          (exchanges client build s).0 _ _ (λ a e. exchanges-Adds s) (λ a e. exchanges-Adds s)

    Renewed-length : {l : List Request} → Renewed client.token_manager l → length l ≤ 1
    Renewed-length held = omega arith
    Renewed-length asked = omega arith

    Attempt-length : {l : List Request} → Attempt client build l → length l ≡ 1
    Attempt-length (attempt t) = refl

    Rest-length : {l : List Request} → Rest client build l → length l ≤ 2
    Rest-length final = omega arith
    Rest-length (refused p) = omega (arith, Renewed-length p)
    Rest-length (again {l} {k} p q) =
        omega (arith, length-append l k, Renewed-length p, Attempt-length q)

    First-length : {l : List Request} → First client build l → length l ≤ 3
    First-length (failed p) = omega (arith, Attempt-length p)
    First-length (answered {l} {k} p q) =
        omega (arith, length-append l k, Attempt-length p, Rest-length q)

    Attempts-length : {l : List Request} → Attempts client build l → length l ≤ 4
    Attempts-length (no_token p) = omega (arith, Renewed-length p)
    Attempts-length (given {l} {k} p q) =
        omega (arith, length-append l k, Renewed-length p, First-length q)

    -- One call sends four requests at most, whatever the gateway answers.
    pub send-length :
        {A : Type 0} (t : Target A) (s : Session E)
        → length (send client t build s).1.sent ≤ length s.sent + 4
    send-length t s =
        let (l, e, p) = send-Adds t s in
        omega (arith, ap length e ∙ length-append s.sent l, Attempts-length p)

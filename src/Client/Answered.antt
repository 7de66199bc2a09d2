-- ===== src/Client/Answered.antt =====
-- Where the reply of a call comes from (src/client.rs, src/token.rs).
use paratro_sdk_rust.Base.{
  ℕ, ◌≡◌, sym, ap, subst, Bool, true, false, Option, some, none, List, Result, ok, arith,
  Option-cases, inl, inr, if◌then◌else◌,
}
use paratro_sdk_rust.Base.Str.{Str}
use paratro_sdk_rust.Session.{Env, Request, Response, Session, Failure, or_http, call, lift, ◌>>=◌}
use paratro_sdk_rust.Session.World.{Later, here, Later-trans, Moves, call-Moves, >>=-Moves, >>=-ok}
use paratro_sdk_rust.Token.{
  TokenManager, kept, renew, renewed, refresh, get_token, refresh_after_expiry, auth_request, store,
  refuse,
}
use paratro_sdk_rust.Token.Renewal.{get_token-refresh, refresh-kept, refresh-renew}
use paratro_sdk_rust.Client.Decode.{decode_reply_iff}
use paratro_sdk_rust.Client.{
  MpcClient, Target, Reply, execute, retries, retry, after_first, exchanges, send, decode_reply,
}

module _ {E : Env} where
  renewed-world :
      (resp : Response E.HttpError) (s : Session E) → (renewed E resp s).1.world ≡ s.world
  unfolding renewed store refuse
  renewed-world resp s = ground arith

  renewed-Moves : (resp : Response E.HttpError) (s : Session E) → Moves (renewed E resp) s
  renewed-Moves resp s = subst (λ w. Later E s.world w) (sym (renewed-world resp s)) here

  renew-Moves : (m : TokenManager E) (s : Session E) → Moves (renew m) s
  unfolding renew
  renew-Moves m s =
      >>=-Moves (call m.http_client (auth_request m)) (renewed E) s
        (call-Moves m.http_client (auth_request m) s) renewed-Moves

  refresh-Moves :
      (m : TokenManager E) (stale : Option Str) (s : Session E) → Moves (refresh m stale) s
  refresh-Moves m stale s = elim (Option-cases (kept E stale s.world s.state)) [
    | inl e ↦ rw (refresh-renew m stale s e) (renew-Moves m s)
    | inr (token, e) ↦ rw (refresh-kept m stale s token e) here
  ]

  get_token-Moves : (m : TokenManager E) (s : Session E) → Moves (get_token m) s
  get_token-Moves m s =
      subst (λ p. Later E s.world p.1.world) (sym (get_token-refresh m s)) (refresh-Moves m none s)

  -- An answer that was received: its status and the whole of its body
  abbrev Received : E.HttpClient → Request → Session E → ℕ → List ℕ → Session E → Type 0
  Received c r s status bytes u =
      E.exchange c r s.world ≡ (ok (record { status = status; body = ok bytes }), u.world)

  execute-Received :
      (client : MpcClient E) (r : Request) (s u : Session E) (status : ℕ) (bytes : List ℕ)
      → execute client r s ≡ (ok (status, bytes), u)
      → Received client.http_client r s status bytes u
  unfolding execute call
  execute-Received client r s u status bytes h = ground arith

  -- The answer of some attempt, in some world that the call has come to
  abbrev pub Answered : MpcClient E → (Str → Request) → Session E → ℕ × List ℕ → Session E → Type 0
  Answered client build s (status, bytes) u =
      (token : Str) × (w : E.World) × Later E s.world w
      × (E.exchange client.http_client (build token) w
          ≡ (ok (record { status = status; body = ok bytes }), u.world))

  module _ (client : MpcClient E) (build : Str → Request) where
    execute-Answered :
        (token : Str) (s u : Session E) (answer : ℕ × List ℕ)
        → execute client (build token) s ≡ (ok answer, u)
        → Answered client build s answer u
    execute-Answered token s u (status, bytes) h =
        (token, s.world, here, execute-Received client (build token) s u status bytes h)

    Answered-Later :
        (s t u : Session E) (answer : ℕ × List ℕ)
        → Later E s.world t.world
        → Answered client build t answer u
        → Answered client build s answer u
    Answered-Later s t u (status, bytes) l (token, w, k, e) = (token, w, Later-trans l k, e)

    retry-Answered :
        (token : Str) (s u : Session E) (answer : ℕ × List ℕ)
        → retry client build token s ≡ (ok answer, u)
        → Answered client build s answer u
    unfolding retry refresh_after_expiry
    retry-Answered token s u answer h =
        let (renewed, e, k) =
          >>=-ok (refresh client.token_manager (some token)) (λ t. execute client (build t)) s u
            answer h in
        Answered-Later s (refresh client.token_manager (some token) s).1 u answer
          (refresh-Moves client.token_manager (some token) s)
          (execute-Answered renewed _ u answer k)

    if-Answered :
        (b : Bool) (token : Str) (s t u : Session E) (first answer : ℕ × List ℕ)
        → Later E s.world t.world
        → Answered client build s first t
        → (if b then retry client build token else lift (ok first)) t ≡ (ok answer, u)
        → Answered client build s answer u
    if-Answered true token s t u first answer l a h =
        Answered-Later s t u answer l (retry-Answered token t u answer h)
    if-Answered false token s t u first answer l a h =
        let same : ◌≡◌ {A = Result (ℕ × List ℕ) (Failure E) × Session E} (ok first, t)
            (ok answer, u) =
          h in
        let there : first ≡ answer = ground arith in
        let then_ : t ≡ u = ap (λ p. p.1) same in
        subst (λ x. Answered client build s x u) there
          (subst (λ x. Answered client build s first x) then_ a)

    execute-Moves : (token : Str) (s : Session E) → Moves (execute client (build token)) s
    unfolding execute
    execute-Moves token s =
        >>=-Moves (call client.http_client (build token)) _ s
          (call-Moves client.http_client (build token) s)
          (λ resp t. >>=-Moves (lift (or_http resp.body)) _ t here (λ bytes v. here))

    first-Answered :
        (token : Str) (s u : Session E) (answer : ℕ × List ℕ)
        → (execute client (build token) >>= after_first client build token) s ≡ (ok answer, u)
        → Answered client build s answer u
    unfolding after_first
    first-Answered token s u answer h =
        let (first, e, k) =
          >>=-ok (execute client (build token)) (after_first client build token) s u answer h in
        if-Answered (retries E first.0 first.1) token s (execute client (build token) s).1 u first
          answer (execute-Moves token s)
          (execute-Answered token s (execute client (build token) s).1 first
            (ap (λ r. (r, (execute client (build token) s).1)) e))
          k

    exchanges-Answered :
        (s u : Session E) (answer : ℕ × List ℕ)
        → exchanges client build s ≡ (ok answer, u)
        → Answered client build s answer u
    unfolding exchanges
    exchanges-Answered s u answer h =
        let (token, e, k) =
          >>=-ok (get_token client.token_manager)
            (λ t. execute client (build t) >>= after_first client build t) s u answer h in
        Answered-Later s (get_token client.token_manager s).1 u answer
          (get_token-Moves client.token_manager s) (first-Answered token _ u answer k)

    -- A reply was received: it is read from the answer to the request under some token, in a world
    -- that the call had come to, and that answer was the last one.
    pub send-Answered :
        {A : Type 0} (t : Target A) (s u : Session E) (r : Reply A)
        → send client t build s ≡ (ok r, u)
        → (bytes : List ℕ) × Answered client build s (r.status, bytes) u
          × (decode_reply E t r.status bytes ≡ ok r)
    unfolding send
    send-Answered t s u r h =
        let (answer, e, k) =
          >>=-ok (exchanges client build) (λ a. lift (decode_reply E t a.0 a.1)) s u r h in
        let read : decode_reply E t answer.0 answer.1 ≡ ok r = ap (λ p. p.0) k in
        let there : (exchanges client build s).1 ≡ u = ap (λ p. p.1) k in
        let status : r.status ≡ answer.0 = ((decode_reply_iff E t answer.0 answer.1 r).0 read).1 in
        let answered =
          exchanges-Answered s (exchanges client build s).1 answer
            (ap (λ x. (x, (exchanges client build s).1)) e) in
        (
          answer.1,
          subst (λ n. Answered client build s (n, answer.1) u) (sym status)
              (subst (λ v. Answered client build s answer v) there answered),
          subst (λ n. decode_reply E t n answer.1 ≡ ok r) (sym status) read,
        )

-- ===== src/Client/Replay.antt =====
-- A request that is repeated under its idempotency key (src/client.rs).
use paratro_sdk_rust.Base.{
  ℕ, ◌+◌, ◌*◌, ◌≤◌, ◌<◌, ◌≡◌, refl, ap, subst, Option, some, List, [], ◌∷◌, ok, arith,
}
use paratro_sdk_rust.Base.Str.{Str, codes, ◌=ₛ◌}
use paratro_sdk_rust.Json.{Value}
use paratro_sdk_rust.Query.Lookup.{lookup}
use paratro_sdk_rust.Session.{Env, Request, Session, lift, from_slice, to_vec}
use paratro_sdk_rust.Session.World.{Later, Later-trans, Later-keeps, >>=-ok}
use paratro_sdk_rust.Token.{or_decode}
use paratro_sdk_rust.Client.{
  MpcClient, Target, Reply, url, post_request, send, decode_reply, post_with_status_and_headers,
  header_idempotency_key,
}
use paratro_sdk_rust.Client.Decode.{decode_reply_iff}
use paratro_sdk_rust.Client.Answered.{Answered, send-Answered}

-- How long the gateway keeps an answer: 24 hours, in nanoseconds
abbrev pub day : ℕ
day = 24 * 3600 * 1000000000

-- The gateway as its documentation has it, towards one client and at one URL that honours the header
-- `Idempotency-Key`: it keeps the body of every answer below 400 to a request under a key, which is a
-- 2xx, for 24 hours, and repeats it, always with status 200. `cached` is the body that it keeps in a
-- world, with the time since when. The clock does not run backwards.
pub record Replays (E : Env) (endpoint : Str) : Type 0 where
  pub cached : (key : Str) → E.World → Option (List ℕ × ℕ)
  pub forward :
      (c : E.HttpClient) (r : Request) (w : E.World) → E.now w ≤ E.now (E.exchange c r w).1
  pub stored :
      (c : E.HttpClient) (r : Request) (key : Str) (w v : E.World) (status : ℕ) (bytes : List ℕ)
      → r.url ≡ endpoint
      → lookup (codes "Idempotency-Key") r.headers ≡ some key
      → E.exchange c r w ≡ (ok (record { status = status; body = ok bytes }), v)
      → status < 400
      → (since : ℕ) × (cached key v ≡ some (bytes, since)) × (E.now w ≤ since)
  pub kept :
      (c : E.HttpClient) (r : Request) (key : Str) (w : E.World) (saved : List ℕ) (since : ℕ)
      → cached key w ≡ some (saved, since)
      → E.now (E.exchange c r w).1 < since + day
      → cached key (E.exchange c r w).1 ≡ some (saved, since)
  pub repeated :
      (c : E.HttpClient) (r : Request) (key : Str) (w v : E.World) (status since : ℕ)
      (bytes saved : List ℕ)
      → r.url ≡ endpoint
      → lookup (codes "Idempotency-Key") r.headers ≡ some key
      → cached key w ≡ some (saved, since)
      → E.now v < since + day
      → E.exchange c r w ≡ (ok (record { status = status; body = ok bytes }), v)
      → status < 400
      → (status ≡ 200) × (bytes ≡ saved)

module _ {E : Env} (client : MpcClient E) {A : Type 0} (t : Target A) (path : Str) (v : Value) where
  -- Where the reply to a posted document comes from
  posted-Answered :
      (headers : List (Str × Str)) (s u : Session E) (r : Reply A)
      → post_with_status_and_headers client t path v headers s ≡ (ok r, u)
      → (payload bytes : List ℕ) × Answered client
          (post_request (url client path) headers payload)
          s
          (r.status, bytes)
          u
        × (decode_reply E t r.status bytes ≡ ok r)
  unfolding post_with_status_and_headers
  posted-Answered headers s u r h =
      let (payload, e, k) =
        >>=-ok (lift (or_decode 0 (to_vec E v)))
          (λ payload. send client t (post_request (url client path) headers payload)) s u r h in
      let (bytes, a, d) =
        send-Answered client (post_request (url client path) headers payload) t s u r k in
      (payload, bytes, a, d)

  module _ (key : Str) (g : Replays E (url client path)) where
    -- The clock in a later world
    clock-le : {w v : E.World} → Later E w v → E.now w ≤ E.now v
    clock-le {w} l =
        Later-keeps (λ x. E.now w ≤ E.now x) (λ c a x h. omega (arith, h, g.forward c a x)) l
          (omega arith)

    -- Within its time, a kept answer stays.
    abbrev AsLong : List ℕ → ℕ → E.World → Type 0
    AsLong saved since x = (E.now x < since + day) → g.cached key x ≡ some (saved, since)

    exchange-AsLong :
        (saved : List ℕ) (since : ℕ) (c : E.HttpClient) (a : Request) (x : E.World)
        → AsLong saved since x
        → AsLong saved since (E.exchange c a x).1
    exchange-AsLong saved since c a x h below =
        g.kept c a key x saved since (h (omega (arith, g.forward c a x))) below

    own_key :
        (payload : List ℕ) (token : Str)
        → lookup
            (codes "Idempotency-Key")
            (post_request
              (url client path)
              ((header_idempotency_key, key) ∷ [])
              payload
              token).headers
          ≡ some key
    unfolding post_request ◌=ₛ◌
    own_key payload token = refl

    here_url :
        (payload : List ℕ) (token : Str)
        → (post_request (url client path) ((header_idempotency_key, key) ∷ []) payload token).url
          ≡ url client path
    unfolding post_request
    here_url payload token = refl

    -- Two replies under one key, whatever was exchanged in between, have the same body, and the
    -- second one has status 200, if the second call ends within 24 hours of the start of the first.
    pub posted_again :
        (s s' u u' : Session E) (r q : Reply A)
        → post_with_status_and_headers client t path v ((header_idempotency_key, key) ∷ []) s
          ≡ (ok r, s')
        → Later E s'.world u.world
        → post_with_status_and_headers client t path v ((header_idempotency_key, key) ∷ []) u
          ≡ (ok q, u')
        → E.now u'.world < E.now s.world + day
        → (q.status ≡ 200) × (q.body ≡ r.body)
    posted_again s s' u u' r q first between second soon =
        let (payload, bytes, (token, w, l, e), d) =
          posted-Answered ((header_idempotency_key, key) ∷ []) s s' r first in
        let (payload', bytes', (token', w', l', e'), d') =
          posted-Answered ((header_idempotency_key, key) ∷ []) u u' q second in
        let (below, same, body) = (decode_reply_iff E t r.status bytes r).0 d in
        let (below', same', body') = (decode_reply_iff E t q.status bytes' q).0 d' in
        let ask =
          post_request (url client path) ((header_idempotency_key, key) ∷ []) payload token in
        let ask' =
          post_request (url client path) ((header_idempotency_key, key) ∷ []) payload' token' in
        let (since, saved, after) =
          g.stored client.http_client ask key w s'.world r.status bytes (here_url payload token)
            (own_key payload token) e below in
        let last =
          subst (λ x. E.now w' ≤ E.now x) (ap (λ x. x.1) e')
            (g.forward client.http_client ask' w') in
        let begin = clock-le l in
        let still =
          Later-keeps (AsLong bytes since) (exchange-AsLong bytes since) (Later-trans between l')
            (λ h. saved) (omega arith) in
        let (fresh, again) =
          g.repeated client.http_client ask' key w' u'.world q.status since bytes' bytes
            (here_url payload' token') (own_key payload' token') still (omega arith) e' below' in
        let read : from_slice E t.name t.reader bytes ≡ ok q.body =
          subst (λ b. from_slice E t.name t.reader b ≡ ok q.body) again body' in
        (fresh, cc)

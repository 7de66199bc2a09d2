-- ===== src/Token/Issued.antt =====
-- Where the tokens that are handed out come from (src/token.rs).
use paratro_sdk_rust.Base.{
  ℕ, ◌≡◌, refl, Option, none, some, List, Result, ok, err, arith, leb, Bool-cases, Option-cases,
  inl, inr,
}
use paratro_sdk_rust.Base.Str.{Str, codes}
use paratro_sdk_rust.Session.{
  Env, Response, Session, TokenState, Failure, or_http, call, continue_with, from_slice,
}
use paratro_sdk_rust.Token.Wire.{TokenResponse, token_response}
use paratro_sdk_rust.Token.Renewal.{refresh-kept, refresh-renew}
use paratro_sdk_rust.Token.{
  TokenManager, auth_request, kept, fresh_of, renewed, renew, refresh, store, refuse,
}

module _ (E : Env) (P : Str → Type 0) where
  -- The gateway has answered the token request with it.
  abbrev pub Issues : TokenManager E → Type 0
  Issues m =
      (w v : E.World) (status : ℕ) (bytes : List ℕ) (r : TokenResponse)
      → E.exchange m.http_client (auth_request m) w
        ≡ (ok (record { status = status; body = ok bytes }), v)
      → from_slice E (codes "TokenResponse") token_response bytes ≡ ok r
      → P r.token

  abbrev pub Held : Option TokenState → Type 0
  Held none = Unit
  Held (some t) = P t.token

  abbrev pub Given : Result Str (Failure E) → Type 0
  Given (ok token) = P token
  Given (err e) = Unit

  abbrev pub Looked : Option Str → Type 0
  Looked none = Unit
  Looked (some token) = P token

  pub fresh_of-Looked : (w : E.World) (o : Option TokenState) → Held o → Looked (fresh_of E w o)
  fresh_of-Looked w none h = tt
  fresh_of-Looked w (some t) h = ground arith

  pub kept-Looked :
      (stale : Option Str) (w : E.World) (o : Option TokenState)
      → Held o
      → Looked (kept E stale w o)
  unfolding kept
  kept-Looked stale w none h = tt
  kept-Looked stale w (some t) h = ground arith

  -- `renewed` for an answer, by what its body reads as
  read-Given :
      (status : ℕ) (bytes : List ℕ) (s : Session E) (x : Result TokenResponse E.JsonError)
      → from_slice E (codes "TokenResponse") token_response bytes ≡ x
      → ((r : TokenResponse) → x ≡ ok r → P r.token)
      → Held s.state
      → Given (renewed E (record { status = status; body = ok bytes }) s).0
        × Held (renewed E (record { status = status; body = ok bytes }) s).1.state
  unfolding renewed store refuse
  read-Given status bytes s (ok r) e issued h =
      let fit = issued r refl in
      elim (Bool-cases (leb 400 status)) [
        | inl above ↦ rw above (tt, tt)
        | inr below ↦ rw (below, e) (fit, fit)
      ]
  read-Given status bytes s (err x) e issued h = elim (Bool-cases (leb 400 status)) [
    | inl above ↦ rw above (tt, tt)
    | inr below ↦ rw (below, e) (tt, h)
  ]

  broken-Given :
      (status : ℕ) (e : E.HttpError) (s : Session E)
      → Held s.state
      → Given (renewed E (record { status = status; body = err e }) s).0
        × Held (renewed E (record { status = status; body = err e }) s).1.state
  unfolding renewed store refuse
  broken-Given status e s h = elim (Bool-cases (leb 400 status)) [
    | inl above ↦ rw above (tt, tt)
    | inr below ↦ rw below (tt, h)
  ]

  module _ (m : TokenManager E) (issues : Issues m) where
    answered-Given :
        (w v : E.World) (status : ℕ) (body : Result (List ℕ) E.HttpError) (s : Session E)
        → E.exchange m.http_client (auth_request m) w
          ≡ (ok (record { status = status; body = body }), v)
        → Held s.state
        → Given (renewed E (record { status = status; body = body }) s).0
          × Held (renewed E (record { status = status; body = body }) s).1.state
    answered-Given w v status (err e) s h held = broken-Given status e s held
    answered-Given w v status (ok bytes) s h held =
        read-Given status bytes s (from_slice E (codes "TokenResponse") token_response bytes) refl
          (λ r e. issues w v status bytes r h e) held

    exchanged-Given :
        (w v : E.World) (x : Result (Response E.HttpError) E.HttpError) (s : Session E)
        → E.exchange m.http_client (auth_request m) w ≡ (x, v)
        → Held s.state
        → Given (continue_with (or_http x) (renewed E) s).0
          × Held (continue_with (or_http x) (renewed E) s).1.state
    exchanged-Given w v (ok resp) s h held = answered-Given w v resp.status resp.body s h held
    exchanged-Given w v (err e) s h held = (tt, held)

    pub renew-Given :
        (s : Session E) → Held s.state → Given (renew m s).0 × Held (renew m s).1.state
    unfolding renew call
    renew-Given s held = exchanged-Given s.world _ _ _ refl held

    -- Whatever holds of the held token and of every token that the gateway issues holds of the token
    -- that a renewal hands out, and of the one that is held then.
    pub refresh-Given :
        (stale : Option Str) (s : Session E)
        → Held s.state
        → Given (refresh m stale s).0 × Held (refresh m stale s).1.state
    refresh-Given stale s held =
        let looked = kept-Looked stale s.world s.state held in
        elim (Option-cases (kept E stale s.world s.state)) [
          | inl e ↦ rw (refresh-renew m stale s e) (renew-Given s held)
          | inr (token, e) ↦ rw (refresh-kept m stale s token e) (rw e at looked, held)
        ]

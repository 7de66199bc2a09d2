-- ===== src/Token/Lifetime.antt =====
-- How long a token is handed out (src/token.rs).
use paratro_sdk_rust.Base.{
  ℕ, ◌+◌, ◌-◌, ◌*◌, ◌^◌, ◌≤◌, ◌<◌, ◌≡◌, ◌↔◌, ap, ◌∙◌, some, [], ◌∷◌, ok, arith, length,
  length-append,
}
use paratro_sdk_rust.Base.Int.{pos, max_zero, sub_i64, ◌-ℤ◌, wrap_i64}
use paratro_sdk_rust.Session.{Env, Session, TokenState}
use paratro_sdk_rust.Token.{
  TokenManager, auth_request, expires_at, store, get_token, renew, refresh, kept,
}
use paratro_sdk_rust.Token.Wire.{TokenResponse}
use paratro_sdk_rust.Token.Requests.{renew-sent}

max_zero-sub_i64 : (n : ℕ) → n < 2 ^ 63 → max_zero (sub_i64 (pos n) (pos 120)) ≡ n - 120
unfolding sub_i64 wrap_i64 ◌-ℤ◌
max_zero-sub_i64 n h = ground arith

module _ {E : Env} where
  renew-not_held :
      (m : TokenManager E) (s : Session E) → length (renew m s).1.sent ≡ length s.sent + 1
  renew-not_held m s = ap length (renew-sent m s) ∙ length-append s.sent (auth_request m ∷ [])

  -- With a token in the state, `get_token` answers with it and sends nothing exactly while its
  -- time has not come.
  get_token_held :
      (m : TokenManager E) (s : Session E) (t : TokenState)
      → s.state ≡ some t
      → (get_token m s ≡ (ok t.token, s)) ↔ (E.now s.world < t.expires_at)
  unfolding get_token refresh kept
  get_token_held m s t h = ground (arith, renew-not_held m s)

  -- After a renewal was answered with a lifetime of n seconds, an `i64`, `get_token` hands out
  -- this token, and sends nothing, exactly while more than 120 seconds of the lifetime are left,
  -- on a clock that does not run backwards.
  pub get_token-store :
      (m : TokenManager E) (r : TokenResponse) (n : ℕ) (issued later : Session E)
      → r.expires_in ≡ pos n
      → n < 2 ^ 63
      → E.now issued.world ≤ E.now later.world
      → later.state ≡ (store E r issued).1.state
      → (get_token m later ≡ (ok r.token, later))
        ↔ (E.now later.world + 120 * 1000000000 < E.now issued.world + n * 1000000000)
  unfolding store expires_at
  get_token-store m r n issued later e h k l =
      let fact = max_zero-sub_i64 n h in let held = get_token_held m later _ l in ground arith

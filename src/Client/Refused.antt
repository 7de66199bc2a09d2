-- ===== src/Client/Refused.antt =====
-- How an error of the gateway reaches the caller (src/client.rs, src/error.rs).
use paratro_sdk_rust.Base.{
  ℕ, ◌≤◌, ◌≡◌, ◌≢◌, ◌⊎◌, refl, ap, ◌∙◌, false, List, some, ok, err, arith, inl, inr,
}
use paratro_sdk_rust.Base.Str.{Str, codes, ◌=ₛ◌}
use paratro_sdk_rust.Base.Str.Laws.{=ₛ-false_of_ne}
use paratro_sdk_rust.Error.{ErrorBody, api}
use paratro_sdk_rust.Error.Code
use paratro_sdk_rust.Error.Wire.{error_body, error_body_fields, error_body_from}
use paratro_sdk_rust.Json.{obj, find}
use paratro_sdk_rust.Session.{Env, Request, Session, from_slice}
use paratro_sdk_rust.Token.{get_token}
use paratro_sdk_rust.Client.{
  MpcClient, Target, execute, retries, is_token_expired, send, decode_reply,
}
use paratro_sdk_rust.Client.Outcome.{send_final}

-- An error body is written and read.
pub error_body_round_trip : (b : ErrorBody) → error_body (obj (error_body_fields b)) ≡ some b
unfolding error_body_fields error_body_from find ◌=ₛ◌
error_body_round_trip b = refl

module _ (E : Env) (b : ErrorBody) (bytes : List ℕ)
    (document : E.parse bytes ≡ ok (obj (error_body_fields b))) where
  read_body : from_slice E (codes "ErrorBody") error_body bytes ≡ ok b
  unfolding from_slice
  read_body = rw (document, error_body_round_trip b) refl

  pub decode_reply-refused :
      {A : Type 0} (t : Target A) (status : ℕ)
      → 400 ≤ status
      → decode_reply E t status bytes ≡ err (api status b)
  unfolding decode_reply
  decode_reply-refused t status h = ground (arith, read_body)

  pub retries-refused :
      (status : ℕ) → (status ≢ 401) ⊎ (b.code ≢ Code.token_expired) → retries E status bytes ≡ false
  unfolding retries is_token_expired
  retries-refused status (inl n) = ground arith
  retries-refused status (inr n) =
      ground (arith, read_body, =ₛ-false_of_ne b.code Code.token_expired n)

module _ {E : Env} (client : MpcClient E) (build : Str → Request) {A : Type 0} (t : Target A) where
  -- Where there is a token and the first attempt is answered by a status of 400 and above and an
  -- error document, which does not say that the token has expired, the call returns that status
  -- and that document, and sends nothing more.
  pub send_refused :
      (s s1 s2 : Session E) (token : Str) (status : ℕ) (bytes : List ℕ) (b : ErrorBody)
      → get_token client.token_manager s ≡ (ok token, s1)
      → execute client (build token) s1 ≡ (ok (status, bytes), s2)
      → 400 ≤ status
      → E.parse bytes ≡ ok (obj (error_body_fields b))
      → (status ≢ 401) ⊎ (b.code ≢ Code.token_expired)
      → send client t build s ≡ (err (api status b), s2)
  send_refused s s1 s2 token status bytes b h k above document other =
      send_final client build s s1 s2 token status bytes t h k
        (retries-refused E b bytes document status other)
      ∙ ap (λ r. (r, s2)) (decode_reply-refused E b bytes document t status above)

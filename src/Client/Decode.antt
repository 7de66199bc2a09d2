-- ===== src/Client/Decode.antt =====
-- How an answer is read, and which answers are retried (src/client.rs).
use paratro_sdk_rust.Base.{
  ℕ, ◌<◌, ◌≡◌, ◌↔◌, refl, true, List, some, Result, ok, err, arith, ◌==◌, ◌&&◌,
}
use paratro_sdk_rust.Base.Str.{codes, ◌=ₛ◌}
use paratro_sdk_rust.Error.{
  ErrorBody, ApiErrorKind, api, http, decode, invalid_config, kind, kind_of, kind_400,
}
use paratro_sdk_rust.Error.Wire.{error_body}
use paratro_sdk_rust.Session.{Env, Failure, from_slice}
use paratro_sdk_rust.Client.{
  Target, Reply, decode_reply, is_token_expired, retries, has_expired, unknown_body,
}
use paratro_sdk_rust.Token.{unwrap_or}
use paratro_sdk_rust.Error.Code

module _ (E : Env) {A : Type 0} (t : Target A) (status : ℕ) (bytes : List ℕ) where
  -- A reply is read exactly from an answer below 400 whose body is a document of the type.
  pub decode_reply_iff :
      (r : Reply A)
      → (decode_reply E t status bytes ≡ ok r)
        ↔ (status < 400 × r.status ≡ status × from_slice E t.name t.reader bytes ≡ ok r.body)
  unfolding decode_reply
  decode_reply_iff r = ground arith

  -- A body that is no error document does not say that the token has expired.
  has_expired-unwrap_or :
      (x : Result ErrorBody E.JsonError)
      → has_expired E x ≡ ((unwrap_or x (unknown_body E)).code =ₛ Code.token_expired)
  unfolding ◌=ₛ◌
  has_expired-unwrap_or (ok b) = refl
  has_expired-unwrap_or (err e) = refl

  expired_kind :
      (b : ErrorBody)
      → (kind_of status b ≡ ApiErrorKind.token_expired)
        ↔ ((status == 401 && b.code =ₛ Code.token_expired) ≡ true)
  unfolding kind_of kind_400
  expired_kind b = ground arith

  read_body : ErrorBody
  read_body = unwrap_or (from_slice E (codes "ErrorBody") error_body bytes) (unknown_body E)

  retries-kind_of :
      (retries E status bytes ≡ true) ↔ (kind_of status read_body ≡ ApiErrorKind.token_expired)
  unfolding retries is_token_expired read_body
  retries-kind_of =
      let same = has_expired-unwrap_or (from_slice E (codes "ErrorBody") error_body bytes) in
      let expired = expired_kind read_body in ground arith

  kind-kind_of :
      (e : Failure E)
      → decode_reply E t status bytes ≡ err e
      → (kind e ≡ some ApiErrorKind.token_expired)
        ↔ (kind_of status read_body ≡ ApiErrorKind.token_expired)
  unfolding decode_reply kind read_body
  kind-kind_of (api c b) h = let expired = expired_kind read_body in ground arith
  kind-kind_of (decode c x) h = let expired = expired_kind read_body in ground arith
  kind-kind_of (http x) h = ground arith
  kind-kind_of (invalid_config x) h = ground arith

  refused-decode_reply :
      kind_of status read_body ≡ ApiErrorKind.token_expired
      → decode_reply E t status bytes ≡ err (api status read_body)
  unfolding decode_reply read_body
  refused-decode_reply h = let expired = expired_kind read_body in ground arith

  -- The request is sent again for exactly the answers that the error type classifies as an expired
  -- token.
  pub retries_iff : (retries E status bytes ≡ true) ↔ (
      (e : Failure E) × decode_reply E t status bytes ≡ err e
      × kind e ≡ some ApiErrorKind.token_expired)
  retries_iff = (
    λ h.
        let d = refused-decode_reply (retries-kind_of.0 h) in
        (api status read_body, d, (kind-kind_of _ d).1 (retries-kind_of.0 h)),
    λ (e, d, k). retries-kind_of.1 ((kind-kind_of e d).0 k),
  )

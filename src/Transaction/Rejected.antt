-- ===== src/Transaction/Rejected.antt =====
-- What a caller learns when the gateway rejects a transaction (src/transaction.rs, src/error.rs).
use paratro_sdk_rust.Base.{ℕ, ◌≡◌, refl, true, List, ◌∷◌, ◌++◌, some, ok, err, arith, inl}
use paratro_sdk_rust.Base.Str.{Str}
use paratro_sdk_rust.Error.{
  ErrorBody, api, rejected, kind, reason_tag, is_reason_tag, rejected_message_prefix,
}
use paratro_sdk_rust.Error.Reason.{reason_tag-rejected}
use paratro_sdk_rust.Error.Wire.{error_body_fields}
use paratro_sdk_rust.Json.{obj}
use paratro_sdk_rust.Session.{Env, Session, Failure}
use paratro_sdk_rust.Token.{get_token}
use paratro_sdk_rust.Client.{MpcClient, execute, url, post_request, post_with_status_and_headers}
use paratro_sdk_rust.Client.Refused.{send_refused}
use paratro_sdk_rust.Transaction.{CreateTransactionRequest, transactions_path}
use paratro_sdk_rust.Transaction.Wire.{request}
use paratro_sdk_rust.Transaction.Endpoints.{create_transaction_with_headers, created_target}

module _ {E : Env} (client : MpcClient E) (r : CreateTransactionRequest)
    (headers : List (Str × Str)) where
  created_refused :
      (s s1 s2 : Session E) (token : Str) (payload bytes : List ℕ) (b : ErrorBody)
      → E.print (request.to_value r) ≡ ok payload
      → get_token client.token_manager s ≡ (ok token, s1)
      → execute client (post_request (url client transactions_path) headers payload token) s1
        ≡ (ok (400, bytes), s2)
      → E.parse bytes ≡ ok (obj (error_body_fields b))
      → create_transaction_with_headers client r headers s ≡ (err (api 400 b), s2)
  unfolding create_transaction_with_headers post_with_status_and_headers
  created_refused s s1 s2 token payload bytes b written h k document =
      let sent =
        send_refused client (post_request (url client transactions_path) headers payload)
          created_target s s1 s2 token 400 bytes b h k (omega arith) document
          (inl (λ e. omega arith)) in
      rw (written, sent) refl

  -- Where the answer to the written request is a 400 whose message is `Rejected: <tag>: <detail>` with
  -- a well-formed tag, creating the transaction returns an error that is classified as a
  -- rejection and that has this tag, and sends nothing more.
  pub created_rejected :
      (s s1 s2 : Session E) (token : Str) (payload bytes : List ℕ) (b : ErrorBody)
      (tag detail : Str)
      → E.print (request.to_value r) ≡ ok payload
      → get_token client.token_manager s ≡ (ok token, s1)
      → execute client (post_request (url client transactions_path) headers payload token) s1
        ≡ (ok (400, bytes), s2)
      → E.parse bytes ≡ ok (obj (error_body_fields b))
      → b.message ≡ rejected_message_prefix ++ (tag ++ b':' ∷ detail)
      → is_reason_tag tag ≡ true
      → (e : Failure E) × (create_transaction_with_headers client r headers s ≡ (err e, s2))
        × (reason_tag e ≡ some tag)
        × (kind e ≡ some rejected)
  created_rejected s s1 s2 token payload bytes b tag detail written h k document message shape =
      let (found, kinds) =
        reason_tag-rejected {H = E.HttpError} {J = E.JsonError} (api 400 b) b tag detail refl shape
          message in
      (api 400 b, created_refused s s1 s2 token payload bytes b written h k document, found, kinds)

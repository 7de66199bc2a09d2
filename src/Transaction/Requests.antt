-- ===== src/Transaction/Requests.antt =====
-- The requests that creating a transaction sends (src/transaction.rs).
use paratro_sdk_rust.Base.{ℕ, ◌≡◌, [], ◌∷◌, List, ok}
use paratro_sdk_rust.Base.Str.{Str}
use paratro_sdk_rust.Session.{Env, Session}
use paratro_sdk_rust.Session.Trace.{Adds, Adds-map}
use paratro_sdk_rust.Client.{
  MpcClient, post_with_status_and_headers, post_request, url, header_idempotency_key,
}
use paratro_sdk_rust.Client.Retry.{Attempts}
use paratro_sdk_rust.Client.Calls.{posted-Adds}
use paratro_sdk_rust.Transaction.{CreateTransactionRequest, transactions_path}
use paratro_sdk_rust.Transaction.Wire.{request}
use paratro_sdk_rust.Transaction.Endpoints.{
  filled, created_target, create_transaction_with_headers, create_transaction_with_idempotency_key,
}

module _ {E : Env} (client : MpcClient E) where
  pub created-Adds :
      (r : CreateTransactionRequest) (headers : List (Str × Str)) (payload : List ℕ) (s : Session E)
      → E.print (request.to_value r) ≡ ok payload
      → Adds
          (Attempts client (post_request (url client transactions_path) headers payload))
          s
          (create_transaction_with_headers client r headers s).1
  unfolding create_transaction_with_headers
  created-Adds r headers payload s h =
      Adds-map
        (post_with_status_and_headers client created_target transactions_path (request.to_value r)
          headers)
        (filled r) s
        (posted-Adds client created_target transactions_path s (request.to_value r) headers payload
          h)

  -- Under an idempotency key, the requests that creating a transaction sends are those of one call
  -- that posts the written request to the path of transactions under the base URL with that key as
  -- its last header: the same body and key in both attempts. It holds if the request can be
  -- written as JSON.
  pub create_transaction-Adds :
      (r : CreateTransactionRequest) (key : Str) (payload : List ℕ) (s : Session E)
      → E.print (request.to_value r) ≡ ok payload
      → Adds
          (Attempts client (
            post_request
              (url client transactions_path)
              ((header_idempotency_key, key) ∷ [])
              payload))
          s
          (create_transaction_with_idempotency_key client r key s).1
  unfolding create_transaction_with_idempotency_key
  create_transaction-Adds r key payload s h =
      created-Adds r ((header_idempotency_key, key) ∷ []) payload s h

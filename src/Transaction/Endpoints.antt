-- ===== src/Transaction/Endpoints.antt =====
-- The endpoints of the unified entry (src/transaction.rs).
use paratro_sdk_rust.Base.{List, [], ◌∷◌, ◌++◌, ok}
use paratro_sdk_rust.Base.Str.{Str, codes}
use paratro_sdk_rust.Query.{push_text, push_number}
use paratro_sdk_rust.Session.{Env, Action, lift, ◌>>=◌}
use paratro_sdk_rust.Client.{
  MpcClient, Target, Reply, post_with_status_and_headers, get, get_with_query,
  header_idempotency_key,
}
use paratro_sdk_rust.Transaction.{
  CreateTransactionRequest, CreateTransactionResponse, Transaction, ListTransactionsRequest,
  ListTransactionsResponse, operation, transactions_path,
}
use paratro_sdk_rust.Transaction.Wire.{request}
use paratro_sdk_rust.Transaction.Reply.{created, transaction, list}

abbrev pub created_target : Target CreateTransactionResponse
created_target = record { name = codes "CreateTransactionResponse"; reader = created }

abbrev pub transaction_target : Target Transaction
transaction_target = record { name = codes "Transaction"; reader = transaction }

abbrev pub list_target : Target ListTransactionsResponse
list_target = record { name = codes "ListTransactionsResponse"; reader = list }

-- The assignments to the fields of the reply that are not in its body
unfoldable pub filled :
    CreateTransactionRequest → Reply CreateTransactionResponse → CreateTransactionResponse
filled r answer = record answer.body { http_status = answer.status; operation = operation r }

unfoldable pub query : ListTransactionsRequest → List (Str × Str)
query r = push_number (codes "page_size") r.page_size (
    push_number (codes "page") r.page (
      push_text (codes "chain") r.chain (
        push_text (codes "account_id") r.account_id
          (push_text (codes "wallet_id") r.wallet_id []))))

module _ {E : Env} where
  unfoldable pub create_transaction_with_headers :
      MpcClient E → CreateTransactionRequest → List (Str × Str) → Action E CreateTransactionResponse
  create_transaction_with_headers client r headers = do
    answer ←
        post_with_status_and_headers client created_target transactions_path (request.to_value r)
          headers
    lift (ok (filled r answer))

  unfoldable pub create_transaction :
      MpcClient E → CreateTransactionRequest → Action E CreateTransactionResponse
  create_transaction client r = create_transaction_with_headers client r []

  unfoldable pub create_transaction_with_idempotency_key :
      MpcClient E → CreateTransactionRequest → Str → Action E CreateTransactionResponse
  create_transaction_with_idempotency_key client r key =
      create_transaction_with_headers client r ((header_idempotency_key, key) ∷ [])

  unfoldable pub get_transaction : MpcClient E → Str → Action E Transaction
  get_transaction client tx_id =
      get client transaction_target (transactions_path ++ (codes "/" ++ tx_id))

  unfoldable pub list_transactions :
      MpcClient E → ListTransactionsRequest → Action E ListTransactionsResponse
  list_transactions client r = get_with_query client list_target transactions_path (query r)

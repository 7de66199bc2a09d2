-- ===== src/Transaction/Reply.antt =====
-- The JSON of the replies of the unified entry (src/transaction.rs).
use paratro_sdk_rust.Base.{Option, some, []}
use paratro_sdk_rust.Base.Str.{codes}
use paratro_sdk_rust.Json.{
  str, Fields, end, field, field_unless_none, Reader, text, bool, i64, fields_of, required,
  optional, vec, ◌>>=◌,
}
use paratro_sdk_rust.Transaction.{CreateTransactionResponse, Transaction, ListTransactionsResponse}

unfoldable pub created_fields : CreateTransactionResponse → Fields
created_fields r = field (codes "tx_id") (str r.tx_id) (
    field (codes "status") (str r.status) (
      field (codes "message") (str r.message)
        (field_unless_none (codes "tx_hash") (str) r.tx_hash end)))

unfoldable pub created_from : Fields → Option CreateTransactionResponse
created_from fs = do
  tx_id ← required text (codes "tx_id") fs
  state ← required text (codes "status") fs
  message ← required text (codes "message") fs
  tx_hash ← optional text (codes "tx_hash") fs
  some (record {
    tx_id = tx_id;
    status = state;
    message = message;
    tx_hash = tx_hash;
    http_status = 0;
    operation = [];
  })

abbrev pub created : Reader CreateTransactionResponse
created v = fields_of v >>= created_from

unfoldable pub transaction_fields : Transaction → Fields
transaction_fields r = field (codes "tx_id") (str r.tx_id) (
    field (codes "wallet_id") (str r.wallet_id) (
      field (codes "client_id") (str r.client_id) (
        field (codes "chain") (str r.chain) (
          field (codes "transaction_type") (str r.transaction_type) (
            field (codes "from_address") (str r.from_address) (
              field (codes "to_address") (str r.to_address) (
                field (codes "token_symbol") (str r.token_symbol) (
                  field (codes "amount") (str r.amount) (
                    field (codes "status") (str r.status) (
                      field (codes "tx_hash") (str r.tx_hash) (
                        field_unless_none (codes "risk_score") (str) r.risk_score (
                          field_unless_none (codes "risk_level") (str) r.risk_level
                            (field (codes "created_at") (str r.created_at) end)))))))))))))

unfoldable pub transaction_from : Fields → Option Transaction
transaction_from fs = do
  tx_id ← required text (codes "tx_id") fs
  wallet_id ← required text (codes "wallet_id") fs
  client_id ← required text (codes "client_id") fs
  chain ← required text (codes "chain") fs
  transaction_type ← required text (codes "transaction_type") fs
  from_address ← required text (codes "from_address") fs
  to_address ← required text (codes "to_address") fs
  token_symbol ← required text (codes "token_symbol") fs
  amount ← required text (codes "amount") fs
  state ← required text (codes "status") fs
  tx_hash ← required text (codes "tx_hash") fs
  risk_score ← optional text (codes "risk_score") fs
  risk_level ← optional text (codes "risk_level") fs
  created_at ← required text (codes "created_at") fs
  some (record {
    tx_id = tx_id;
    wallet_id = wallet_id;
    client_id = client_id;
    chain = chain;
    transaction_type = transaction_type;
    from_address = from_address;
    to_address = to_address;
    token_symbol = token_symbol;
    amount = amount;
    status = state;
    tx_hash = tx_hash;
    risk_score = risk_score;
    risk_level = risk_level;
    created_at = created_at;
  })

abbrev pub transaction : Reader Transaction
transaction v = fields_of v >>= transaction_from

unfoldable pub list_from : Fields → Option ListTransactionsResponse
list_from fs = do
  list ← required (vec transaction) (codes "data") fs
  total ← required i64 (codes "total") fs
  has_more ← required bool (codes "has_more") fs
  some (record { items = list; total = total; has_more = has_more })

abbrev pub list : Reader ListTransactionsResponse
list v = fields_of v >>= list_from

-- ===== src/Webhook/Event/Wire.antt =====
-- The JSON of an event (src/webhook.rs).
pub mod RoundTrip
use paratro_sdk_rust.Base.{ℕ, Option, none, some, List, [], Result}
use paratro_sdk_rust.Base.Str.{codes}
use paratro_sdk_rust.Json.{
  Value, null, str, boolean, int, obj, Fields, end, field, field_unless_none, or_null, nat_to,
  float_to, Reader, text, bool, i32, u64, f64, fields_of, required, optional, defaulted, ◌>>=◌,
}
use paratro_sdk_rust.Session.{Env, from_slice}
use paratro_sdk_rust.Webhook.Event.{SwapIncoming, WebhookEvent}

unfoldable pub swap_incoming_fields : SwapIncoming → Fields
swap_incoming_fields r = field (codes "token_address") (str r.token_address) (
    field (codes "symbol") (str r.symbol) (
      field (codes "amount") (str r.amount) (
        field (codes "decimals") (int r.decimals) (
          field (codes "booked") (boolean r.booked) (
            field (codes "accounting_status") (str r.accounting_status) (
              field_unless_none (codes "reason") (str) r.reason
                (field_unless_none (codes "audit_type") (str) r.audit_type end)))))))

unfoldable pub event_fields : WebhookEvent → Fields
unfolding swap_incoming_fields
event_fields r = field (codes "event_id") (str r.event_id) (
    field (codes "event_type") (str r.event_type) (
      field (codes "event_time") (str r.event_time) (
        field (codes "source_id") (str r.source_id) (
          field (codes "wallet_id") (str r.wallet_id) (
            field (codes "account_id") (str r.account_id) (
              field (codes "status") (str r.status) (
                field (codes "transaction_type") (str r.transaction_type) (
                  field (codes "chain") (str r.chain) (
                    field (codes "network") (str r.network) (
                      field (codes "txhash") (str r.txhash) (
                        field (codes "block_number") (nat_to r.block_number) (
                          field (codes "from") (str r.from) (
                            field (codes "to") (str r.to) (
                              field (codes "symbol") (str r.symbol) (
                                field (codes "contract_address") (str r.contract_address) (
                                  field (codes "amount") (str r.amount) (
                                    field (codes "decimals") (int r.decimals) (
                                      field (codes "confirmations") (nat_to r.confirmations) (
                                        field (codes "required_confirmations")
                                          (nat_to r.required_confirmations)
                                          (field (codes "created_at") (str r.created_at) (
                                            field (codes "confirmed_at")
                                              (or_null (str) r.confirmed_at)
                                              (field (codes "risk_checked") (boolean r.risk_checked)
                                                (field (codes "risk_score") (float_to r.risk_score)
                                                  (field (codes "risk_level") (str r.risk_level) (
                                                    field (codes "data") (str r.«data») (
                                                      field (codes "operation") (str r.operation) (
                                                        field_unless_none (codes "swap_incoming")
                                                          (λ (x : SwapIncoming).
                                                            obj (swap_incoming_fields x))
                                                          r.swap_incoming
                                                          end)))))))))))))))))))))))))))

unfoldable pub swap_incoming_from : Fields → Option SwapIncoming
swap_incoming_from fs = do
  token_address ← required text (codes "token_address") fs
  symbol ← required text (codes "symbol") fs
  amount ← required text (codes "amount") fs
  decimals ← required i32 (codes "decimals") fs
  booked ← required bool (codes "booked") fs
  accounting_status ← required text (codes "accounting_status") fs
  reason ← optional text (codes "reason") fs
  audit_type ← optional text (codes "audit_type") fs
  some (record {
    token_address = token_address;
    symbol = symbol;
    amount = amount;
    decimals = decimals;
    booked = booked;
    accounting_status = accounting_status;
    reason = reason;
    audit_type = audit_type;
  })

abbrev pub swap : Reader SwapIncoming
swap v = fields_of v >>= swap_incoming_from

unfoldable pub event_from : Fields → Option WebhookEvent
event_from fs = do
  event_id ← required text (codes "event_id") fs
  event_type ← required text (codes "event_type") fs
  event_time ← required text (codes "event_time") fs
  source_id ← required text (codes "source_id") fs
  wallet_id ← required text (codes "wallet_id") fs
  account_id ← required text (codes "account_id") fs
  state ← required text (codes "status") fs
  transaction_type ← required text (codes "transaction_type") fs
  chain ← required text (codes "chain") fs
  network ← required text (codes "network") fs
  txhash ← required text (codes "txhash") fs
  block_number ← required u64 (codes "block_number") fs
  from ← required text (codes "from") fs
  to ← required text (codes "to") fs
  symbol ← required text (codes "symbol") fs
  contract_address ← required text (codes "contract_address") fs
  amount ← required text (codes "amount") fs
  decimals ← required i32 (codes "decimals") fs
  confirmations ← required u64 (codes "confirmations") fs
  required_confirmations ← required u64 (codes "required_confirmations") fs
  created_at ← required text (codes "created_at") fs
  confirmed_at ← optional text (codes "confirmed_at") fs
  risk_checked ← required bool (codes "risk_checked") fs
  risk_score ← required f64 (codes "risk_score") fs
  risk_level ← required text (codes "risk_level") fs
  «data» ← required text (codes "data") fs
  operation ← defaulted text [] (codes "operation") fs
  swap_incoming ← optional swap (codes "swap_incoming") fs
  some (record {
    event_id = event_id;
    event_type = event_type;
    event_time = event_time;
    source_id = source_id;
    wallet_id = wallet_id;
    account_id = account_id;
    status = state;
    transaction_type = transaction_type;
    chain = chain;
    network = network;
    txhash = txhash;
    block_number = block_number;
    from = from;
    to = to;
    symbol = symbol;
    contract_address = contract_address;
    amount = amount;
    decimals = decimals;
    confirmations = confirmations;
    required_confirmations = required_confirmations;
    created_at = created_at;
    confirmed_at = confirmed_at;
    risk_checked = risk_checked;
    risk_score = risk_score;
    risk_level = risk_level;
    «data» = «data»;
    operation = operation;
    swap_incoming = swap_incoming;
  })

abbrev pub event : Reader WebhookEvent
event v = fields_of v >>= event_from

unfoldable pub parse_event : (E : Env) → List ℕ → Result WebhookEvent E.JsonError
parse_event E body = from_slice E (codes "WebhookEvent") event body

-- ===== src/Webhook/Event.antt =====
-- The event that a webhook delivers (src/webhook.rs).
pub mod Wire
mod Tests
mod UnitTests
use paratro_sdk_rust.Base.{ℕ, Bool, Option, List, [], ◌∷◌}
use paratro_sdk_rust.Base.Int.{ℤ}
use paratro_sdk_rust.Base.Str.{Str, codes}

abbrev pub event_transaction_confirming : Str
event_transaction_confirming = codes "transaction.confirming"

abbrev pub event_transaction_confirmed : Str
event_transaction_confirmed = codes "transaction.confirmed"

abbrev pub event_transaction_failed : Str
event_transaction_failed = codes "transaction.failed"

abbrev pub event_transfer_credited : Str
event_transfer_credited = codes "transfer.credited"

abbrev pub event_x402_settlement_confirmed : Str
event_x402_settlement_confirmed = codes "x402.settlement.confirmed"

abbrev pub operation_deposit : Str
operation_deposit = codes "DEPOSIT"

abbrev pub operation_x402 : Str
operation_x402 = codes "X402"

abbrev pub swap_accounting_applied : Str
swap_accounting_applied = codes "APPLIED"

abbrev pub swap_accounting_review_required : Str
swap_accounting_review_required = codes "REVIEW_REQUIRED"

abbrev pub swap_accounting_not_applicable : Str
swap_accounting_not_applicable = codes "NOT_APPLICABLE"

abbrev pub event_types : List Str
event_types =
    event_transaction_confirming ∷ event_transaction_confirmed ∷ event_transaction_failed
    ∷ event_transfer_credited ∷ event_x402_settlement_confirmed ∷ []

pub record SwapIncoming : Type 0 where
  pub token_address : Str
  pub symbol : Str
  pub amount : Str
  pub decimals : ℤ
  pub booked : Bool
  pub accounting_status : Str
  pub reason : Option Str
  pub audit_type : Option Str

pub record WebhookEvent : Type 0 where
  pub event_id : Str
  pub event_type : Str
  pub event_time : Str
  pub source_id : Str
  pub wallet_id : Str
  pub account_id : Str
  pub status : Str
  pub transaction_type : Str
  pub chain : Str
  pub network : Str
  pub txhash : Str
  pub block_number : ℕ
  pub from : Str
  pub to : Str
  pub symbol : Str
  pub contract_address : Str
  pub amount : Str
  pub decimals : ℤ
  pub confirmations : ℕ
  pub required_confirmations : ℕ
  pub created_at : Str
  pub confirmed_at : Option Str
  pub risk_checked : Bool
  pub risk_score : ℕ
  pub risk_level : Str
  pub «data» : Str
  pub operation : Str
  pub swap_incoming : Option SwapIncoming

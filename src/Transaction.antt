-- ===== src/Transaction.antt =====
-- The unified transaction entry (src/transaction.rs): its requests, its replies and their JSON.
pub mod Wire
pub mod Reply
pub mod Builders
pub mod Endpoints
pub mod Outcome
pub mod Requests
pub mod Rejected
pub mod Replay
pub mod Filters
mod Tests
mod UnitTests
use paratro_sdk_rust.Base.{
  ℕ, Bool, true, not, ◌&&◌, Option, none, some, List, ◌==◌, if◌then◌else◌, is_empty,
}
use paratro_sdk_rust.Base.Int.{ℤ}
use paratro_sdk_rust.Base.Str.{Str, codes, ◌=ₛ◌}

abbrev pub transactions_path : Str
transactions_path = codes "/api/v1/transactions"

abbrev pub operation_transfer : Str
operation_transfer = codes "TRANSFER"

abbrev pub operation_program_call : Str
operation_program_call = codes "PROGRAM_CALL"

abbrev pub operation_contract_call : Str
operation_contract_call = codes "CONTRACT_CALL"

abbrev pub status_pending : Str
status_pending = codes "PENDING"

abbrev pub status_broadcast : Str
status_broadcast = codes "BROADCAST"

pub record TransferRequest : Type 0 where
  pub from_address : Str
  pub to_address : Str
  pub chain : Str
  pub token_symbol : Str
  pub amount : Str
  pub memo : Option Str
  pub reference_id : Option Str

pub record ProgramCallRequest : Type 0 where
  pub from_address : Str
  pub chain : Str
  pub signed_transaction : Str
  pub receive_address : Option Str
  pub reference_id : Option Str
  pub memo : Option Str

pub record ContractCallIncomingLeg : Type 0 where
  pub to : Str
  pub token : Str
  pub amount : Str

pub record ContractCallOutgoingLeg : Type 0 where
  pub from : Str
  pub to : Str
  pub token : Str
  pub amount : Str

pub record ContractCall : Type 0 where
  pub quote_id : Str
  pub expiration : ℤ
  pub incoming : ContractCallIncomingLeg
  pub outgoing : ContractCallOutgoingLeg
  pub counterparty_signature : Str
  pub permit_deadline : Option ℤ

pub record ContractCallRequest : Type 0 where
  pub from_address : Str
  pub chain : Str
  pub receive_address : Option Str
  pub contract_call : ContractCall
  pub reference_id : Option Str
  pub memo : Option Str

pub data CreateTransactionRequest : Type 0 where
  transfer : TransferRequest → CreateTransactionRequest
  program_call : ProgramCallRequest → CreateTransactionRequest
  contract_call : ContractCallRequest → CreateTransactionRequest

-- `CreateTransactionRequest::operation` and `reference_id`
unfoldable pub operation : CreateTransactionRequest → Str
operation (transfer r) = operation_transfer
operation (program_call r) = operation_program_call
operation (contract_call r) = operation_contract_call

unfoldable pub reference_id : CreateTransactionRequest → Option Str
reference_id (transfer r) = r.reference_id
reference_id (program_call r) = r.reference_id
reference_id (contract_call r) = r.reference_id

pub record CreateTransactionResponse : Type 0 where
  pub tx_id : Str
  pub status : Str
  pub message : Str
  pub tx_hash : Option Str
  pub http_status : ℕ
  pub operation : Str

unfoldable pub is_accepted : CreateTransactionResponse → Bool
is_accepted r =
    if r.http_status == 202
    then true
    else not (is_empty r.operation)
      && not (r.operation =ₛ operation_transfer)
      && r.status =ₛ status_pending

unfoldable pub is_broadcast : CreateTransactionResponse → Bool
is_broadcast r = r.status =ₛ status_broadcast

pub record Transaction : Type 0 where
  pub tx_id : Str
  pub wallet_id : Str
  pub client_id : Str
  pub chain : Str
  pub transaction_type : Str
  pub from_address : Str
  pub to_address : Str
  pub token_symbol : Str
  pub amount : Str
  pub status : Str
  pub tx_hash : Str
  pub risk_score : Option Str
  pub risk_level : Option Str
  pub created_at : Str

pub record ListTransactionsRequest : Type 0 where
  pub wallet_id : Option Str
  pub account_id : Option Str
  pub chain : Option Str
  pub page : Option ℤ
  pub page_size : Option ℤ

pub record ListTransactionsResponse : Type 0 where
  pub items : List Transaction
  pub total : ℤ
  pub has_more : Bool

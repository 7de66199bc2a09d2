-- ===== src/Transfer.antt =====
-- The entry kept for older callers (src/transfer.rs): it goes through the unified entry.
use paratro_sdk_rust.Session.{Env, Action}
use paratro_sdk_rust.Client.{MpcClient}
use paratro_sdk_rust.Transaction.{TransferRequest, CreateTransactionResponse, transfer}
use paratro_sdk_rust.Transaction.Endpoints.{create_transaction}

abbrev pub CreateTransferRequest : Type 0
CreateTransferRequest = TransferRequest

abbrev pub TransferResponse : Type 0
TransferResponse = CreateTransactionResponse

module _ {E : Env} where
  unfoldable pub create_transfer : MpcClient E → CreateTransferRequest → Action E TransferResponse
  create_transfer client r = create_transaction client (transfer r)

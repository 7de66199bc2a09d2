-- ===== src/Api.antt =====
-- The public operations of a client, all of them as one type (src/wallet.rs, src/account.rs,
-- src/asset.rs, src/transaction.rs, src/transfer.rs, src/x402.rs), and how one is run.
pub mod Route
pub mod Asks
pub mod Confined
mod Tests
use paratro_sdk_rust.Base.Str.{Str}
use paratro_sdk_rust.Json.{Value}
use paratro_sdk_rust.Session.{Env, Action}
use paratro_sdk_rust.Client.{MpcClient}
use paratro_sdk_rust.Wallet
use paratro_sdk_rust.Wallet.Wire.{
  Wallet, CreateWalletRequest, ListWalletsRequest, ListWalletsResponse,
}
use paratro_sdk_rust.Account
use paratro_sdk_rust.Account.Wire.{
  Account, CreateAccountRequest, ListAccountsRequest, ListAccountsResponse,
}
use paratro_sdk_rust.Asset
use paratro_sdk_rust.Asset.Wire.{Asset, CreateAssetRequest, ListAssetsRequest, ListAssetsResponse}
use paratro_sdk_rust.Transaction.{
  CreateTransactionRequest, CreateTransactionResponse, Transaction, ListTransactionsRequest,
  ListTransactionsResponse,
}
use paratro_sdk_rust.Transaction.Endpoints
use paratro_sdk_rust.Transfer
use paratro_sdk_rust.Transfer.{CreateTransferRequest, TransferResponse}
use paratro_sdk_rust.X402
use paratro_sdk_rust.X402.Wire.{
  X402VerifyResponse, X402SettleResponse, X402SettleStatusResponse, ListX402SettlementsRequest,
  ListX402SettlementsResponse,
}

pub data Call : Type 0 where
  create_wallet : CreateWalletRequest → Call
  get_wallet : (wallet_id : Str) → Call
  list_wallets : ListWalletsRequest → Call
  create_account : CreateAccountRequest → Call
  get_account : (account_id : Str) → Call
  list_accounts : ListAccountsRequest → Call
  create_asset : CreateAssetRequest → Call
  get_asset : (asset_id : Str) → Call
  list_assets : ListAssetsRequest → Call
  create_transaction : CreateTransactionRequest → Call
  create_transaction_with_idempotency_key : CreateTransactionRequest → (key : Str) → Call
  get_transaction : (tx_id : Str) → Call
  list_transactions : ListTransactionsRequest → Call
  create_transfer : CreateTransferRequest → Call
  x402_verify : (payload : Value) → Call
  x402_settle : (payload : Value) → Call
  x402_settle_with_idempotency_key : (payload : Value) → (key : Str) → Call
  x402_settle_status : (tx_id : Str) → Call
  x402_list_settlements : ListX402SettlementsRequest → Call

abbrev pub Answer : Call → Type 0
Answer (create_wallet r) = Wallet
Answer (get_wallet id) = Wallet
Answer (list_wallets r) = ListWalletsResponse
Answer (create_account r) = Account
Answer (get_account id) = Account
Answer (list_accounts r) = ListAccountsResponse
Answer (create_asset r) = Asset
Answer (get_asset id) = Asset
Answer (list_assets r) = ListAssetsResponse
Answer (create_transaction r) = CreateTransactionResponse
Answer (create_transaction_with_idempotency_key r key) = CreateTransactionResponse
Answer (get_transaction id) = Transaction
Answer (list_transactions r) = ListTransactionsResponse
Answer (create_transfer r) = TransferResponse
Answer (x402_verify v) = X402VerifyResponse
Answer (x402_settle v) = X402SettleResponse
Answer (x402_settle_with_idempotency_key v key) = X402SettleResponse
Answer (x402_settle_status id) = X402SettleStatusResponse
Answer (x402_list_settlements r) = ListX402SettlementsResponse

unfoldable pub perform : {E : Env} → MpcClient E → (c : Call) → Action E (Answer c)
perform client (create_wallet r) = Wallet.create_wallet client r
perform client (get_wallet id) = Wallet.get_wallet client id
perform client (list_wallets r) = Wallet.list_wallets client r
perform client (create_account r) = Account.create_account client r
perform client (get_account id) = Account.get_account client id
perform client (list_accounts r) = Account.list_accounts client r
perform client (create_asset r) = Asset.create_asset client r
perform client (get_asset id) = Asset.get_asset client id
perform client (list_assets r) = Asset.list_assets client r
perform client (create_transaction r) = Endpoints.create_transaction client r
perform client (create_transaction_with_idempotency_key r key) =
    Endpoints.create_transaction_with_idempotency_key client r key
perform client (get_transaction id) = Endpoints.get_transaction client id
perform client (list_transactions r) = Endpoints.list_transactions client r
perform client (create_transfer r) = Transfer.create_transfer client r
perform client (x402_verify v) = X402.x402_verify client v
perform client (x402_settle v) = X402.x402_settle client v
perform client (x402_settle_with_idempotency_key v key) =
    X402.x402_settle_with_idempotency_key client v key
perform client (x402_settle_status id) = X402.x402_settle_status client id
perform client (x402_list_settlements r) = X402.x402_list_settlements client r

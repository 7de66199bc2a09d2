-- ===== src/Api/Route.antt =====
-- The interface of the gateway as its documentation lists it: the path, the filters, the body and the
-- idempotency key of every operation. A body is what the encoder of its type makes of the arguments.
use paratro_sdk_rust.Base.{ℕ, Option, none, some, List, [], ◌∷◌, ◌++◌, Result, ok, err}
use paratro_sdk_rust.Base.Str.{Str, codes}
use paratro_sdk_rust.Json.{Value, obj}
use paratro_sdk_rust.Query.{shown}
use paratro_sdk_rust.Session.{Env, Request}
use paratro_sdk_rust.Transaction.{transfer}
use paratro_sdk_rust.Transaction.Wire.{request}
use paratro_sdk_rust.Wallet.Wire as WalletWire
use paratro_sdk_rust.Account.Wire as AccountWire
use paratro_sdk_rust.Asset.Wire as AssetWire
use paratro_sdk_rust.Api.{
  Call, create_wallet, get_wallet, list_wallets, create_account, get_account, list_accounts,
  create_asset, get_asset, list_assets, create_transaction, create_transaction_with_idempotency_key,
  get_transaction, list_transactions, create_transfer, x402_verify, x402_settle,
  x402_settle_with_idempotency_key, x402_settle_status, x402_list_settlements,
}

pub data Route : Type 0 where
  read : (path : Str) → (filters : List (Str × Option Str)) → Route
  write : (path : Str) → (body : Value) → (key : Option Str) → Route

abbrev pub route : Call → Route
route (create_wallet r) = write (codes "/api/v1/wallets") (obj (WalletWire.create_fields r)) none
route (get_wallet id) = read (codes "/api/v1/wallets/" ++ id) []
route (list_wallets r) =
    read (codes "/api/v1/wallets")
      ((codes "page", shown r.page) ∷ (codes "page_size", shown r.page_size) ∷ [])
route (create_account r) = write (codes "/api/v1/accounts") (obj (AccountWire.create_fields r)) none
route (get_account id) = read (codes "/api/v1/accounts/" ++ id) []
route (list_accounts r) = read (codes "/api/v1/accounts") (
    (codes "wallet_id", r.wallet_id)
    ∷ (codes "page", shown r.page)
    ∷ (codes "page_size", shown r.page_size)
    ∷ [])
route (create_asset r) = write (codes "/api/v1/assets") (obj (AssetWire.create_fields r)) none
route (get_asset id) = read (codes "/api/v1/assets/" ++ id) []
route (list_assets r) = read (codes "/api/v1/assets") (
    (codes "account_id", r.account_id)
    ∷ (codes "page", shown r.page)
    ∷ (codes "page_size", shown r.page_size)
    ∷ [])
route (create_transaction r) = write (codes "/api/v1/transactions") (request.to_value r) none
route (create_transaction_with_idempotency_key r key) =
    write (codes "/api/v1/transactions") (request.to_value r) (some key)
route (get_transaction id) = read (codes "/api/v1/transactions/" ++ id) []
route (list_transactions r) = read (codes "/api/v1/transactions") (
    (codes "wallet_id", r.wallet_id)
    ∷ (codes "account_id", r.account_id)
    ∷ (codes "chain", r.chain)
    ∷ (codes "page", shown r.page)
    ∷ (codes "page_size", shown r.page_size)
    ∷ [])
route (create_transfer r) =
    write (codes "/api/v1/transactions") (request.to_value (transfer r)) none
route (x402_verify v) = write (codes "/api/v1/x402/verify") v none
route (x402_settle v) = write (codes "/api/v1/x402/settle") v none
route (x402_settle_with_idempotency_key v key) = write (codes "/api/v1/x402/settle") v (some key)
route (x402_settle_status id) = read (codes "/api/v1/x402/settle/" ++ id) []
route (x402_list_settlements r) = read (codes "/api/v1/x402/settlements") (
    (codes "status", r.status)
    ∷ (codes "page", shown r.page)
    ∷ (codes "page_size", shown r.page_size)
    ∷ [])

abbrev pub path_of : Route → Str
path_of (read path filters) = path
path_of (write path body key) = path

-- The filters that are set, in their order
abbrev pub those_set : List (Str × Option Str) → List (Str × Str)
those_set [] = []
those_set ((key, none) ∷ filters) = those_set filters
those_set ((key, some x) ∷ filters) = (key, x) ∷ those_set filters

abbrev pub key_header : Option Str → List (Str × Str)
key_header none = []
key_header (some key) = (codes "Idempotency-Key", key) ∷ []

-- The bytes of the body, if there is one and it can be written
abbrev wrap : (E : Env) → Result (List ℕ) E.JsonError → Result (Option (List ℕ)) E.JsonError
wrap E (ok bytes) = ok (some bytes)
wrap E (err e) = err e

abbrev pub payload : (E : Env) → Route → Result (Option (List ℕ)) E.JsonError
payload E (read path filters) = ok none
payload E (write path body key) = wrap E (E.print body)

-- The request of a route under a token
abbrev pub routed : (base : Str) → Route → Option (List ℕ) → (token : Str) → Request
routed base (read path filters) bytes token = record {
  method = codes "GET";
  url = base ++ path;
  headers = (codes "Authorization", codes "Bearer " ++ token) ∷ [];
  query = those_set filters;
  body = none;
}
routed base (write path v key) bytes token = record {
  method = codes "POST";
  url = base ++ path;
  headers =
      (codes "Content-Type", codes "application/json")
      ∷ (codes "Authorization", codes "Bearer " ++ token)
      ∷ key_header key;
  query = [];
  body = bytes;
}

-- ===== src/Account.antt =====
-- The endpoints of accounts (src/account.rs).
pub mod Wire
use paratro_sdk_rust.Base.{Option, none, some, List, [], ◌∷◌, ◌++◌}
use paratro_sdk_rust.Base.Str.{Str, codes}
use paratro_sdk_rust.Json.{Value, obj}
use paratro_sdk_rust.Query.{push_text, push_number}
use paratro_sdk_rust.Session.{Env, Action, lift, ◌>>=◌}
use paratro_sdk_rust.Client.{
  MpcClient, Target, post, post_with_headers, get, get_with_query, header_idempotency_key,
}
use paratro_sdk_rust.Account.Wire.{
  Account, CreateAccountRequest, ListAccountsRequest, ListAccountsResponse, create_fields, account,
  list,
}

abbrev pub accounts_path : Str
accounts_path = codes "/api/v1/accounts"

abbrev pub account_target : Target Account
account_target = record { name = codes "Account"; reader = account }

abbrev pub list_target : Target ListAccountsResponse
list_target = record { name = codes "ListAccountsResponse"; reader = list }

unfoldable pub query : ListAccountsRequest → List (Str × Str)
query r =
    push_number (codes "page_size") r.page_size
      (push_number (codes "page") r.page (push_text (codes "wallet_id") r.wallet_id []))

module _ {E : Env} where
  unfoldable pub create_account : MpcClient E → CreateAccountRequest → Action E Account
  create_account client r = post client account_target accounts_path (obj (create_fields r))

  unfoldable pub get_account : MpcClient E → Str → Action E Account
  get_account client id = get client account_target (accounts_path ++ (codes "/" ++ id))

  unfoldable pub list_accounts : MpcClient E → ListAccountsRequest → Action E ListAccountsResponse
  list_accounts client r = get_with_query client list_target accounts_path (query r)

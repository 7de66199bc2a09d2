-- ===== src/Wallet.antt =====
-- The endpoints of wallets (src/wallet.rs).
pub mod Wire
use paratro_sdk_rust.Base.{Option, none, some, List, [], ◌∷◌, ◌++◌}
use paratro_sdk_rust.Base.Str.{Str, codes}
use paratro_sdk_rust.Json.{Value, obj}
use paratro_sdk_rust.Query.{push_text, push_number}
use paratro_sdk_rust.Session.{Env, Action, lift, ◌>>=◌}
use paratro_sdk_rust.Client.{
  MpcClient, Target, post, post_with_headers, get, get_with_query, header_idempotency_key,
}
use paratro_sdk_rust.Wallet.Wire.{
  Wallet, CreateWalletRequest, ListWalletsRequest, ListWalletsResponse, create_fields, wallet, list,
}

abbrev pub wallets_path : Str
wallets_path = codes "/api/v1/wallets"

abbrev pub wallet_target : Target Wallet
wallet_target = record { name = codes "Wallet"; reader = wallet }

abbrev pub list_target : Target ListWalletsResponse
list_target = record { name = codes "ListWalletsResponse"; reader = list }

unfoldable pub query : ListWalletsRequest → List (Str × Str)
query r = push_number (codes "page_size") r.page_size (push_number (codes "page") r.page [])

module _ {E : Env} where
  unfoldable pub create_wallet : MpcClient E → CreateWalletRequest → Action E Wallet
  create_wallet client r = post client wallet_target wallets_path (obj (create_fields r))

  unfoldable pub get_wallet : MpcClient E → Str → Action E Wallet
  get_wallet client id = get client wallet_target (wallets_path ++ (codes "/" ++ id))

  unfoldable pub list_wallets : MpcClient E → ListWalletsRequest → Action E ListWalletsResponse
  list_wallets client r = get_with_query client list_target wallets_path (query r)

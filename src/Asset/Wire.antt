-- ===== src/Asset/Wire.antt =====
-- The records of an asset and their JSON (src/asset.rs).
use paratro_sdk_rust.Base.{Bool, Option, some, List}
use paratro_sdk_rust.Base.Int.{ℤ}
use paratro_sdk_rust.Base.Str.{Str, codes}
use paratro_sdk_rust.Json.{
  str, Fields, end, field, field_unless_none, Reader, text, bool, i32, i64, fields_of, required,
  vec, ◌>>=◌,
}

pub record CreateAssetRequest : Type 0 where
  pub account_id : Str
  pub symbol : Str
  pub chain : Option Str

pub record Asset : Type 0 where
  pub asset_id : Str
  pub account_id : Str
  pub wallet_id : Str
  pub client_id : Str
  pub chain : Str
  pub network : Str
  pub symbol : Str
  pub name : Str
  pub contract_address : Str
  pub decimals : ℤ
  pub asset_type : Str
  pub balance : Str
  pub locked_balance : Str
  pub is_active : Bool
  pub created_at : Str

pub record ListAssetsRequest : Type 0 where
  pub account_id : Option Str
  pub page : Option ℤ
  pub page_size : Option ℤ

pub record ListAssetsResponse : Type 0 where
  pub items : List Asset
  pub total : ℤ
  pub has_more : Bool

unfoldable pub create_fields : CreateAssetRequest → Fields
create_fields r =
    field (codes "account_id") (str r.account_id)
      (field (codes "symbol") (str r.symbol) (field_unless_none (codes "chain") (str) r.chain end))

unfoldable pub asset_from : Fields → Option Asset
asset_from fs = do
  asset_id ← required text (codes "asset_id") fs
  account_id ← required text (codes "account_id") fs
  wallet_id ← required text (codes "wallet_id") fs
  client_id ← required text (codes "client_id") fs
  chain ← required text (codes "chain") fs
  network ← required text (codes "network") fs
  symbol ← required text (codes "symbol") fs
  name ← required text (codes "name") fs
  contract_address ← required text (codes "contract_address") fs
  decimals ← required i32 (codes "decimals") fs
  asset_type ← required text (codes "asset_type") fs
  balance ← required text (codes "balance") fs
  locked_balance ← required text (codes "locked_balance") fs
  is_active ← required bool (codes "is_active") fs
  created_at ← required text (codes "created_at") fs
  some (record {
    asset_id = asset_id;
    account_id = account_id;
    wallet_id = wallet_id;
    client_id = client_id;
    chain = chain;
    network = network;
    symbol = symbol;
    name = name;
    contract_address = contract_address;
    decimals = decimals;
    asset_type = asset_type;
    balance = balance;
    locked_balance = locked_balance;
    is_active = is_active;
    created_at = created_at;
  })

abbrev pub asset : Reader Asset
asset v = fields_of v >>= asset_from

unfoldable pub list_from : Fields → Option ListAssetsResponse
list_from fs = do
  list ← required (vec asset) (codes "data") fs
  total ← required i64 (codes "total") fs
  has_more ← required bool (codes "has_more") fs
  some (record { items = list; total = total; has_more = has_more })

abbrev pub list : Reader ListAssetsResponse
list v = fields_of v >>= list_from

-- ===== src/Wallet/Wire.antt =====
-- The records of a wallet and their JSON (src/wallet.rs).
use paratro_sdk_rust.Base.{Bool, Option, some, List}
use paratro_sdk_rust.Base.Int.{ℤ}
use paratro_sdk_rust.Base.Str.{Str, codes}
use paratro_sdk_rust.Json.{
  str, Fields, end, field, field_unless_none, Reader, text, bool, i64, fields_of, required, vec,
  ◌>>=◌,
}

pub record CreateWalletRequest : Type 0 where
  pub wallet_name : Str
  pub description : Option Str

pub record Wallet : Type 0 where
  pub wallet_id : Str
  pub client_id : Str
  pub wallet_name : Str
  pub description : Str
  pub status : Str
  pub key_status : Str
  pub created_at : Str
  pub updated_at : Str

pub record ListWalletsRequest : Type 0 where
  pub page : Option ℤ
  pub page_size : Option ℤ

pub record ListWalletsResponse : Type 0 where
  pub items : List Wallet
  pub total : ℤ
  pub has_more : Bool

unfoldable pub create_fields : CreateWalletRequest → Fields
create_fields r =
    field (codes "wallet_name") (str r.wallet_name)
      (field_unless_none (codes "description") (str) r.description end)

unfoldable pub wallet_from : Fields → Option Wallet
wallet_from fs = do
  wallet_id ← required text (codes "wallet_id") fs
  client_id ← required text (codes "client_id") fs
  wallet_name ← required text (codes "wallet_name") fs
  description ← required text (codes "description") fs
  state ← required text (codes "status") fs
  key_status ← required text (codes "key_status") fs
  created_at ← required text (codes "created_at") fs
  updated_at ← required text (codes "updated_at") fs
  some (record {
    wallet_id = wallet_id;
    client_id = client_id;
    wallet_name = wallet_name;
    description = description;
    status = state;
    key_status = key_status;
    created_at = created_at;
    updated_at = updated_at;
  })

abbrev pub wallet : Reader Wallet
wallet v = fields_of v >>= wallet_from

unfoldable pub list_from : Fields → Option ListWalletsResponse
list_from fs = do
  list ← required (vec wallet) (codes "data") fs
  total ← required i64 (codes "total") fs
  has_more ← required bool (codes "has_more") fs
  some (record { items = list; total = total; has_more = has_more })

abbrev pub list : Reader ListWalletsResponse
list v = fields_of v >>= list_from

-- ===== src/Account/Wire.antt =====
-- The records of an account and their JSON (src/account.rs).
use paratro_sdk_rust.Base.{Bool, Option, some, List}
use paratro_sdk_rust.Base.Int.{ℤ}
use paratro_sdk_rust.Base.Str.{Str, codes}
use paratro_sdk_rust.Json.{
  str, Fields, end, field, field_unless_none, Reader, text, bool, i64, fields_of, required, vec,
  ◌>>=◌,
}

pub record CreateAccountRequest : Type 0 where
  pub wallet_id : Str
  pub chain : Str
  pub account_type : Option Str
  pub label : Option Str

pub record Account : Type 0 where
  pub account_id : Str
  pub wallet_id : Str
  pub client_id : Str
  pub address : Str
  pub network : Str
  pub address_type : Str
  pub label : Str
  pub status : Str
  pub created_at : Str

pub record ListAccountsRequest : Type 0 where
  pub wallet_id : Option Str
  pub page : Option ℤ
  pub page_size : Option ℤ

pub record ListAccountsResponse : Type 0 where
  pub items : List Account
  pub total : ℤ
  pub has_more : Bool

unfoldable pub create_fields : CreateAccountRequest → Fields
create_fields r = field (codes "wallet_id") (str r.wallet_id) (
    field (codes "chain") (str r.chain) (
      field_unless_none (codes "account_type") (str) r.account_type
        (field_unless_none (codes "label") (str) r.label end)))

unfoldable pub account_from : Fields → Option Account
account_from fs = do
  account_id ← required text (codes "account_id") fs
  wallet_id ← required text (codes "wallet_id") fs
  client_id ← required text (codes "client_id") fs
  address ← required text (codes "address") fs
  network ← required text (codes "network") fs
  address_type ← required text (codes "address_type") fs
  label ← required text (codes "label") fs
  state ← required text (codes "status") fs
  created_at ← required text (codes "created_at") fs
  some (record {
    account_id = account_id;
    wallet_id = wallet_id;
    client_id = client_id;
    address = address;
    network = network;
    address_type = address_type;
    label = label;
    status = state;
    created_at = created_at;
  })

abbrev pub account : Reader Account
account v = fields_of v >>= account_from

unfoldable pub list_from : Fields → Option ListAccountsResponse
list_from fs = do
  list ← required (vec account) (codes "data") fs
  total ← required i64 (codes "total") fs
  has_more ← required bool (codes "has_more") fs
  some (record { items = list; total = total; has_more = has_more })

abbrev pub list : Reader ListAccountsResponse
list v = fields_of v >>= list_from

-- ===== src/Asset.antt =====
-- The endpoints of assets (src/asset.rs).
pub mod Wire
use paratro_sdk_rust.Base.{Option, none, some, List, [], ◌∷◌, ◌++◌}
use paratro_sdk_rust.Base.Str.{Str, codes}
use paratro_sdk_rust.Json.{Value, obj}
use paratro_sdk_rust.Query.{push_text, push_number}
use paratro_sdk_rust.Session.{Env, Action, lift, ◌>>=◌}
use paratro_sdk_rust.Client.{
  MpcClient, Target, post, post_with_headers, get, get_with_query, header_idempotency_key,
}
use paratro_sdk_rust.Asset.Wire.{
  Asset, CreateAssetRequest, ListAssetsRequest, ListAssetsResponse, create_fields, asset, list,
}

abbrev pub assets_path : Str
assets_path = codes "/api/v1/assets"

abbrev pub asset_target : Target Asset
asset_target = record { name = codes "Asset"; reader = asset }

abbrev pub list_target : Target ListAssetsResponse
list_target = record { name = codes "ListAssetsResponse"; reader = list }

unfoldable pub query : ListAssetsRequest → List (Str × Str)
query r =
    push_number (codes "page_size") r.page_size
      (push_number (codes "page") r.page (push_text (codes "account_id") r.account_id []))

module _ {E : Env} where
  unfoldable pub create_asset : MpcClient E → CreateAssetRequest → Action E Asset
  create_asset client r = post client asset_target assets_path (obj (create_fields r))

  unfoldable pub get_asset : MpcClient E → Str → Action E Asset
  get_asset client id = get client asset_target (assets_path ++ (codes "/" ++ id))

  unfoldable pub list_assets : MpcClient E → ListAssetsRequest → Action E ListAssetsResponse
  list_assets client r = get_with_query client list_target assets_path (query r)

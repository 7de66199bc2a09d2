-- ===== src/Token/Tests.antt =====
-- Renewals against a scripted gateway (src/token.rs).
use paratro_sdk_rust.Base.{
  ℕ, ◌+◌, ◌*◌, ◌≡◌, ◌≢◌, ◌<◌, refl, true, false, Option, some, none, List, [], ◌∷◌, ◌++◌, Result,
  ok, err, All, map, arith, inl, inr,
}
use paratro_sdk_rust.Base.Int.{pos}
use paratro_sdk_rust.Base.Str.{Str, codes}
use paratro_sdk_rust.Session.{Session, TokenState}
use paratro_sdk_rust.Session.Trace.{Adds}
use paratro_sdk_rust.Session.Scripted.{scripted, start, answers}
use paratro_sdk_rust.Token.{
  TokenManager, store, refresh, get_token, refresh_after_expiry, auth_request,
}
use paratro_sdk_rust.Token.Wire.{TokenResponse, ClientInfo}
use paratro_sdk_rust.Token.Renewal.{Settled, refresh-Settled, get_token-refresh}
use paratro_sdk_rust.Token.Requests.{Renewed, refresh-Adds, refresh_all, renewed_once}
use paratro_sdk_rust.Token.Lifetime.{get_token-store}

abbrev keys : TokenManager scripted
keys = record {
  api_key = codes "k";
  api_secret = codes "s";
  base_url = codes "https://g.io";
  http_client = tt;
}

abbrev granted : Session scripted
granted = start (answers 200 (codes "tT1") ∷ [])

abbrev refused : Session scripted
refused = start (answers 401 (codes "x") ∷ [])

abbrev response : TokenResponse
response = record {
  token = codes "T1";
  expires_in = pos 900;
  token_type = codes "Bearer";
  client = record {
    client_id = codes "c";
    client_name = codes "n";
    status = codes "ACTIVE";
    subscription_tier = [];
    max_wallets = pos 0;
  };
}

-- A second after the token was stored
abbrev later : Session scripted
later = record {
  state = some (record { token = codes "T1"; expires_at = 780000000000 });
  world = (1000000000, []);
  sent = [];
}

refresh-Settled_example :
    Settled none (refresh keys none refused).0 (refresh keys none refused).1.state
refresh-Settled_example = refresh-Settled keys none refused

look_changes_nothing : get_token keys granted ≡ refresh keys none granted
look_changes_nothing = get_token-refresh keys granted

renewal_sends : Adds (Renewed keys) granted (refresh keys none granted).1
renewal_sends = refresh-Adds keys none granted

get_token-store_example : get_token keys later ≡ (ok (codes "T1"), later)
unfolding store paratro_sdk_rust.Token.expires_at paratro_sdk_rust.Base.Int.sub_i64
get_token-store_example =
    (get_token-store keys response 900 (start []) later refl (omega arith) (omega arith) refl).1
      (omega arith)

others_differ : All (λ x. x ≢ codes "T1") (codes "T0" ∷ codes "T0" ∷ [])
others_differ = ((λ e. ground arith), ((λ e. ground arith), tt))

renewed_once_example :
    refresh_all keys
      (codes "T0" ∷ codes "T0" ∷ [])
      (refresh_after_expiry keys (codes "T0") granted).1
    ≡ (
      map (λ _. ok (codes "T1")) (codes "T0" ∷ codes "T0" ∷ []),
      (refresh_after_expiry keys (codes "T0") granted).1,
    )
unfolding refresh_after_expiry refresh paratro_sdk_rust.Token.kept paratro_sdk_rust.Token.renew
    paratro_sdk_rust.Session.call paratro_sdk_rust.Token.renewed paratro_sdk_rust.Session.from_slice
    paratro_sdk_rust.Token.Wire.token_response_from paratro_sdk_rust.Json.find
    paratro_sdk_rust.Base.Str.◌=ₛ◌ paratro_sdk_rust.Token.Wire.client_info_from store
renewed_once_example =
    renewed_once keys (codes "T0") (codes "T1") (codes "T0" ∷ codes "T0" ∷ []) granted refl
      others_differ

given : (get_token keys granted).0 ≡ ok (codes "T1")
unfolding get_token refresh paratro_sdk_rust.Token.kept paratro_sdk_rust.Token.renew
    paratro_sdk_rust.Session.call paratro_sdk_rust.Token.renewed paratro_sdk_rust.Session.from_slice
    paratro_sdk_rust.Token.Wire.token_response_from paratro_sdk_rust.Json.find
    paratro_sdk_rust.Base.Str.◌=ₛ◌ paratro_sdk_rust.Token.Wire.client_info_from store
given = refl

asked_once : (get_token keys granted).1.sent ≡ auth_request keys ∷ []
unfolding get_token refresh paratro_sdk_rust.Token.kept paratro_sdk_rust.Token.renew
    paratro_sdk_rust.Session.call paratro_sdk_rust.Token.renewed paratro_sdk_rust.Session.from_slice
    paratro_sdk_rust.Token.Wire.token_response_from paratro_sdk_rust.Json.find
    paratro_sdk_rust.Base.Str.◌=ₛ◌ paratro_sdk_rust.Token.Wire.client_info_from store
asked_once = refl

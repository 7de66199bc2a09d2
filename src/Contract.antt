-- ===== src/Contract.antt =====
-- The fake gateway of the contract tests (tests/common/mod.rs): it issues the tokens "token-1",
-- "token-2", ... and answers everything else from a list of replies.
pub mod Transactions
pub mod Auth
use paratro_sdk_rust.Base.{
  ℕ, zero, suc, ◌+◌, ◌==◌, Bool, true, false, Option, none, some, List, [], ◌∷◌, ◌++◌, Result, ok,
  err, not, if◌then◌else◌,
}
use paratro_sdk_rust.Base.Int.{pos}
use paratro_sdk_rust.Base.Decimal.{nat_to_string, to_string}
use paratro_sdk_rust.Base.Str.{Str, codes, ◌=ₛ◌}
use paratro_sdk_rust.Base.Str.Utf8.{as_bytes}
use paratro_sdk_rust.Config.{default_timeout}
use paratro_sdk_rust.Json.{
  Value, null, boolean, float, str, int, arr, obj, Items, nil, cons, Fields, field, end,
}
use paratro_sdk_rust.Session.{Env, Session, Request, Response}
use paratro_sdk_rust.Client.{MpcClient}

abbrev base_url : Str
base_url = codes "http://127.0.0.1:1"

abbrev auth_path : Str
auth_path = codes "/api/v1/auth/token"

-- The tokens issued so far, the replies given so far
abbrev pub Played : Type 0
Played = ℕ × ℕ

abbrev token_reply : ℕ → Value
token_reply n = obj (
    field (codes "token") (str (codes "token-" ++ ((b'0' + n) ∷ []))) (
      field (codes "expires_in") (int (pos 900)) (
        field (codes "token_type") (str (codes "Bearer")) (
          field (codes "client")
            (obj (
              field (codes "client_id") (str (codes "fixture")) (
                field (codes "client_name") (str (codes "fixture")) (
                  field (codes "status") (str (codes "ACTIVE")) (
                    field (codes "subscription_tier") (str [])
                      (field (codes "max_wallets") (int (pos 1)) end))))))
            end))))

abbrev pub error_body : Str → Str → Str → Value
error_body code error_type message = obj (
    field (codes "code") (str code)
      (field (codes "type") (str error_type) (field (codes "message") (str message) end)))

abbrev unmocked : ℕ × Value
unmocked = (
  500,
  error_body (codes "internal_error") (codes "api_error")
      (codes "unmocked request in test fixture"),
)

abbrev reply_at : List (ℕ × Value) → ℕ → ℕ × Value
reply_at [] n = unmocked
reply_at (r ∷ rs) zero = r
reply_at (r ∷ rs) (suc n) = reply_at rs n

-- The bodies of the replies are 0 and the number of a token, or 1 and the number of a reply.
abbrev answered : List (ℕ × Value) → Str → Played → Response (Unit {0}) × Played
answered replies to (issued, given) =
    if to =ₛ (base_url ++ auth_path)
    then (record { status = 200; body = ok (0 ∷ suc issued ∷ []) }, (suc issued, given))
    else (
      record { status = (reply_at replies given).0; body = ok (1 ∷ given ∷ []) },
      (issued, suc given),
    )

abbrev document : List (ℕ × Value) → List ℕ → Result Value (Unit {0})
document replies (c ∷ n ∷ []) = if c == 0 then ok (token_reply n) else ok (reply_at replies n).1
document replies _ = err tt

abbrev quoted : Str → Str
quoted s = b'"' ∷ s ++ (b'"' ∷ [])

-- The compact text of a document whose strings need no escapes
abbrev mutual
  compact : Value → Str
  compact null = codes "null"
  compact (boolean b) = if b then codes "true" else codes "false"
  compact (int z) = to_string z
  compact (float bits) = nat_to_string bits
  compact (str s) = quoted s
  compact (arr vs) = b'[' ∷ compact_items vs
  compact (obj fs) = b'{' ∷ compact_fields fs

  compact_items : Items → Str
  compact_items nil = codes "]"
  compact_items (cons v nil) = compact v ++ codes "]"
  compact_items (cons v vs) = compact v ++ (b',' ∷ compact_items vs)

  compact_fields : Fields → Str
  compact_fields end = codes "}"
  compact_fields (field k v end) = quoted k ++ (b':' ∷ compact v ++ codes "}")
  compact_fields (field k v fs) = quoted k ++ (b':' ∷ compact v ++ (b',' ∷ compact_fields fs))

abbrev pub fake_gateway : List (ℕ × Value) → Env
fake_gateway replies = record {
  HttpError = Unit {0};
  JsonError = Unit {0};
  HttpClient = Unit {0};
  World = Played;
  build = λ timeout. ok tt;
  exchange = λ client r w. (ok (answered replies r.url w).0, (answered replies r.url w).1);
  now = λ w. w.0 + w.1;
  parse = document replies;
  print = λ v. ok (as_bytes (compact v));
  mismatch = λ name v. tt;
}

abbrev pub start : (replies : List (ℕ × Value)) → Session (fake_gateway replies)
start replies = record { state = none; world = (0, 0); sent = [] }

abbrev pub client : (replies : List (ℕ × Value)) → MpcClient (fake_gateway replies)
client replies = record {
  config = record { base_url = base_url; timeout = default_timeout };
  token_manager = record {
    api_key = codes "fixture-key";
    api_secret = codes "fixture-secret";
    base_url = base_url;
    http_client = tt;
  };
  http_client = tt;
}

abbrev to_auth : Request → Bool
to_auth r = r.url =ₛ (base_url ++ auth_path)

abbrev filter_calls : (Request → Bool) → List Request → List Request
filter_calls test [] = []
filter_calls test (r ∷ rs) = if test r then r ∷ filter_calls test rs else filter_calls test rs

-- The recorded requests, those for a token and the others
abbrev pub auth_calls : List Request → List Request
auth_calls = filter_calls to_auth

abbrev pub api_calls : List Request → List Request
api_calls = filter_calls (λ r. not (to_auth r))

abbrev header_among : Str → List (Str × Str) → Option Str
header_among name [] = none
header_among name ((key, x) ∷ headers) = if key =ₛ name then some x else header_among name headers

abbrev pub header : Str → Request → Option Str
header name r = header_among name r.headers

-- `unwrap` and `unwrap_err`
abbrev pub replied : {A F : Type 0} → Result A F → Option A
replied (ok a) = some a
replied (err e) = none

abbrev pub failed : {A F : Type 0} → Result A F → Option F
failed (ok a) = none
failed (err e) = some e

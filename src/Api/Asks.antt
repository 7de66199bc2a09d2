-- ===== src/Api/Asks.antt =====
-- What each operation asks of the gateway (the endpoints of src/wallet.rs, src/account.rs,
-- src/asset.rs, src/transaction.rs, src/transfer.rs and src/x402.rs).
use paratro_sdk_rust.Base.{
  ℕ, ◌≡◌, refl, sym, ap, ◌∙◌, Option, none, some, List, [], ◌∷◌, ◌++◌, append_assoc, append-nil,
  Result, ok, err,
}
use paratro_sdk_rust.Base.Str.{Str}
use paratro_sdk_rust.Json.{Value}
use paratro_sdk_rust.Query.{push_text}
use paratro_sdk_rust.Session.{Env, Request, Session, Failure, lift, ◌>>=◌}
use paratro_sdk_rust.Session.Trace.{lift-session}
use paratro_sdk_rust.Token.{get_token}
use paratro_sdk_rust.Client.{
  MpcClient, Target, Reply, body_of, url, exchanges, send, decode_reply, get_request, post_request,
  get_with_query, get, post, post_with_headers, post_with_status_and_headers, post_with_status,
}
use paratro_sdk_rust.Client.Retry.{Rest}
use paratro_sdk_rust.Wallet
use paratro_sdk_rust.Account
use paratro_sdk_rust.Asset
use paratro_sdk_rust.Transaction.{transfer}
use paratro_sdk_rust.Transaction.Endpoints
use paratro_sdk_rust.Transfer
use paratro_sdk_rust.X402
use paratro_sdk_rust.Api.{
  Call, perform, create_wallet, get_wallet, list_wallets, create_account, get_account,
  list_accounts, create_asset, get_asset, list_assets, create_transaction,
  create_transaction_with_idempotency_key, get_transaction, list_transactions, create_transfer,
  x402_verify, x402_settle, x402_settle_with_idempotency_key, x402_settle_status,
  x402_list_settlements,
}
use paratro_sdk_rust.Api.Route.{Route, read, write, route, those_set, key_header, payload, routed}

-- The pushes of a list endpoint, the first filter first
abbrev pushes : List (Str × Option Str) → List (Str × Str) → List (Str × Str)
pushes [] params = params
pushes ((key, o) ∷ filters) params = pushes filters (push_text key o params)

pushes-those_set :
    (filters : List (Str × Option Str)) (params : List (Str × Str))
    → pushes filters params ≡ params ++ those_set filters
pushes-those_set [] params = sym (append-nil params)
pushes-those_set ((key, none) ∷ filters) params = pushes-those_set filters params
pushes-those_set ((key, some x) ∷ filters) params =
    pushes-those_set filters (params ++ ((key, x) ∷ []))
    ∙ append_assoc params ((key, x) ∷ []) (those_set filters)

abbrev filters_of : Route → List (Str × Option Str)
filters_of (read path filters) = filters
filters_of (write path body key) = []

module _ {E : Env} (client : MpcClient E) where
  -- The session after the exchanges of a route, of which there are none if its body cannot be written
  abbrev pub after_payload : Route → Result (Option (List ℕ)) E.JsonError → Session E → Session E
  after_payload r (ok bytes) s = (exchanges client (routed client.config.base_url r bytes) s).1
  after_payload r (err e) s = s

  abbrev pub asking : Route → Session E → Session E
  asking r s = after_payload r (payload E r) s

  module _ {A : Type 0} (t : Target A) (path : Str) (s : Session E) where
    sent-asking : (build : Str → Request) → (send client t build s).1 ≡ (exchanges client build s).1
    unfolding send
    sent-asking build =
        lift-session (exchanges client build) (λ answer. decode_reply E t answer.0 answer.1) s

    get-asking : (get client t path s).1 ≡ asking (read path []) s
    unfolding get get_request url
    get-asking =
        lift-session (send client t (get_request (url client path) [])) (λ r. ok (body_of r)) s
        ∙ sent-asking (get_request (url client path) [])

    query-asking :
        (filters : List (Str × Option Str))
        → (get_with_query client t path (pushes filters []) s).1 ≡ asking (read path filters) s
    unfolding get_with_query get_request url
    query-asking filters =
        lift-session (send client t (get_request (url client path) (pushes filters [])))
          (λ r. ok (body_of r)) s
        ∙ sent-asking (get_request (url client path) (pushes filters []))
        ∙ ap (λ params. (exchanges client (get_request (url client path) params) s).1)
            (pushes-those_set filters [])

    posted-asking :
        (v : Value) (key : Option Str) (x : Result (List ℕ) E.JsonError)
        → E.print v ≡ x
        → (post_with_status_and_headers client t path v (key_header key) s).1
          ≡ asking (write path v key) s
    unfolding post_with_status_and_headers post_request url
    posted-asking v key (ok bytes) h =
        let sent = sent-asking (post_request (url client path) (key_header key) bytes) in rw h sent
    posted-asking v key (err e) h = rw h refl

    replied-asking :
        {B : Type 0} (f : Reply A → B) (v : Value) (key : Option Str)
        → ((post_with_status_and_headers client t path v (key_header key) >>= λ r. lift (ok (f r)))
            s).1
          ≡ asking (write path v key) s
    replied-asking f v key =
        lift-session (post_with_status_and_headers client t path v (key_header key)) (λ r. ok (f r))
          s
        ∙ posted-asking v key (E.print v) refl

  -- An operation is one round of exchanges, of the request of its route.
  pub perform-asking : (c : Call) (s : Session E) → (perform client c s).1 ≡ asking (route c) s
  unfolding perform post post_with_status post_with_headers Wallet.create_wallet Wallet.get_wallet
      Wallet.list_wallets Wallet.query Account.create_account Account.get_account
      Account.list_accounts Account.query Asset.create_asset Asset.get_asset Asset.list_assets
      Asset.query Endpoints.create_transaction Endpoints.create_transaction_with_idempotency_key
      Endpoints.query Endpoints.create_transaction_with_headers Endpoints.get_transaction
      Endpoints.list_transactions Transfer.create_transfer X402.x402_verify X402.x402_settle
      X402.x402_settle_with_idempotency_key X402.x402_settle_status X402.x402_list_settlements
      X402.query
  perform-asking (create_wallet r) s = replied-asking Wallet.wallet_target _ s body_of _ none
  perform-asking (get_wallet id) s = get-asking Wallet.wallet_target _ s
  perform-asking (list_wallets r) s =
      query-asking Wallet.list_target _ s (filters_of (route (list_wallets r)))
  perform-asking (create_account r) s = replied-asking Account.account_target _ s body_of _ none
  perform-asking (get_account id) s = get-asking Account.account_target _ s
  perform-asking (list_accounts r) s =
      query-asking Account.list_target _ s (filters_of (route (list_accounts r)))
  perform-asking (create_asset r) s = replied-asking Asset.asset_target _ s body_of _ none
  perform-asking (get_asset id) s = get-asking Asset.asset_target _ s
  perform-asking (list_assets r) s =
      query-asking Asset.list_target _ s (filters_of (route (list_assets r)))
  perform-asking (create_transaction r) s =
      replied-asking Endpoints.created_target _ s (Endpoints.filled r) _ none
  perform-asking (create_transaction_with_idempotency_key r key) s =
      replied-asking Endpoints.created_target _ s (Endpoints.filled r) _ (some key)
  perform-asking (get_transaction id) s = get-asking Endpoints.transaction_target _ s
  perform-asking (list_transactions r) s =
      query-asking Endpoints.list_target _ s (filters_of (route (list_transactions r)))
  perform-asking (create_transfer r) s =
      replied-asking Endpoints.created_target _ s (Endpoints.filled (transfer r)) _ none
  perform-asking (x402_verify v) s = replied-asking X402.verify_target _ s body_of v none
  perform-asking (x402_settle v) s = replied-asking X402.settle_target _ s body_of v none
  perform-asking (x402_settle_with_idempotency_key v key) s =
      replied-asking X402.settle_target _ s body_of v (some key)
  perform-asking (x402_settle_status id) s = get-asking X402.status_target _ s
  perform-asking (x402_list_settlements r) s =
      query-asking X402.settlements_target _ s (filters_of (route (x402_list_settlements r)))

  -- The request of a route, from the token and what is written of the body
  abbrev pub under : Route → Option (List ℕ) → Str → Request
  under r bytes = routed client.config.base_url r bytes

  -- What an operation on a route asks in a session, and the session after it: nothing at all if its
  -- body cannot be written as JSON; else it takes a token, and if there is none, that is all; else the
  -- request of the route under that token, and after it what can follow the first answer.
  pub data Asks (r : Route) (s : Session E) : Session E → Type 0 where
    unwritten : {e : E.JsonError} → payload E r ≡ err e → Asks r s s
    no_token :
        {bytes : Option (List ℕ)} {e : Failure E}
        → payload E r ≡ ok bytes
        → (get_token client.token_manager s).0 ≡ err e
        → Asks r s (get_token client.token_manager s).1
    asked :
        {bytes : Option (List ℕ)} {token : Str} {u : Session E} {l : List Request}
        → payload E r ≡ ok bytes
        → (get_token client.token_manager s).0 ≡ ok token
        → u.sent ≡ (get_token client.token_manager s).1.sent ++ (under r bytes token ∷ l)
        → Rest client (under r bytes) l
        → Asks r s u

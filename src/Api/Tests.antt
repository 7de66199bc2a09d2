-- ===== src/Api/Tests.antt =====
-- Operations against the scripted gateway.
use paratro_sdk_rust.Base.{ℕ, ◌≡◌, ◌⊎◌, Option, some, none, List, [], ◌∷◌, ◌++◌, ok, arith}
use paratro_sdk_rust.Base.Int.{pos}
use paratro_sdk_rust.Base.Str.{Str, codes}
use paratro_sdk_rust.Session.{Env, Session}
use paratro_sdk_rust.Session.Scripted.{scripted, start, answers, pending_document}
use paratro_sdk_rust.Token.{auth_request}
use paratro_sdk_rust.Client.{MpcClient}
use paratro_sdk_rust.Client.Replaying
use paratro_sdk_rust.Client.Replaying.{replaying}
use paratro_sdk_rust.Client.Scripted.{client}
use paratro_sdk_rust.Api.{Call, list_accounts}
use paratro_sdk_rust.Api.Asks.{Asks}

abbrev accounts : Call
accounts =
    list_accounts (record { wallet_id = some (codes "w"); page = some (pos 2); page_size = none })

-- A token, then an answer that the gateway has not such a thing
abbrev answering : Session scripted
answering = start (answers 200 (codes "tT1") ∷ answers 404 (codes "?") ∷ [])

abbrev gateway : Env
gateway = replaying pending_document

abbrev gateway_client : MpcClient gateway
gateway_client = Replaying.client pending_document

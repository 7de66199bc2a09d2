-- ===== src/X402.antt =====
-- The endpoints of the x402 facilitator (src/x402.rs).
pub mod Wire
pub mod Replay
mod Tests
mod UnitTests
use paratro_sdk_rust.Base.{Option, none, some, List, [], ◌∷◌, ◌++◌}
use paratro_sdk_rust.Base.Str.{Str, codes}
use paratro_sdk_rust.Json.{Value, obj}
use paratro_sdk_rust.Query.{push_text, push_number}
use paratro_sdk_rust.Session.{Env, Action, lift, ◌>>=◌}
use paratro_sdk_rust.Client.{
  MpcClient, Target, post, post_with_headers, get, get_with_query, header_idempotency_key,
}
use paratro_sdk_rust.X402.Wire.{
  X402VerifyResponse, X402SettleResponse, X402SettleStatusResponse, ListX402SettlementsRequest,
  ListX402SettlementsResponse, verified, settled, settle_status, settlements,
}

abbrev pub verify_target : Target X402VerifyResponse
verify_target = record { name = codes "X402VerifyResponse"; reader = verified }

abbrev pub settle_target : Target X402SettleResponse
settle_target = record { name = codes "X402SettleResponse"; reader = settled }

abbrev pub status_target : Target X402SettleStatusResponse
status_target = record { name = codes "X402SettleStatusResponse"; reader = settle_status }

abbrev pub settlements_target : Target ListX402SettlementsResponse
settlements_target = record { name = codes "ListX402SettlementsResponse"; reader = settlements }

unfoldable pub query : ListX402SettlementsRequest → List (Str × Str)
query r =
    push_number (codes "page_size") r.page_size
      (push_number (codes "page") r.page (push_text (codes "status") r.status []))

module _ {E : Env} where
  unfoldable pub x402_verify : MpcClient E → Value → Action E X402VerifyResponse
  x402_verify client payload = post client verify_target (codes "/api/v1/x402/verify") payload

  unfoldable pub x402_settle : MpcClient E → Value → Action E X402SettleResponse
  x402_settle client payload = post client settle_target (codes "/api/v1/x402/settle") payload

  unfoldable pub x402_settle_with_idempotency_key :
      MpcClient E → Value → Str → Action E X402SettleResponse
  x402_settle_with_idempotency_key client payload key =
      post_with_headers client settle_target (codes "/api/v1/x402/settle") payload
        ((header_idempotency_key, key) ∷ [])

  unfoldable pub x402_settle_status : MpcClient E → Str → Action E X402SettleStatusResponse
  x402_settle_status client tx_id = get client status_target (codes "/api/v1/x402/settle/" ++ tx_id)

  unfoldable pub x402_list_settlements :
      MpcClient E → ListX402SettlementsRequest → Action E ListX402SettlementsResponse
  x402_list_settlements client r =
      get_with_query client settlements_target (codes "/api/v1/x402/settlements") (query r)

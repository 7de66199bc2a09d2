-- ===== src/Client/Tests.antt =====
-- Calls against a scripted gateway (src/client.rs).
use paratro_sdk_rust.Base.{
  ℕ, ◌+◌, ◌≡◌, ◌≢◌, ◌≤◌, ◌<◌, ◌⊎◌, All, refl, true, false, Option, some, none, List, [], ◌∷◌, ◌++◌,
  Result, ok, err, arith, length,
}
use paratro_sdk_rust.Base.Str.{Str, codes}
use paratro_sdk_rust.Config.{Config, default_timeout}
use paratro_sdk_rust.Error.{ApiErrorKind, Error, api, kind}
use paratro_sdk_rust.Json.{Value, text, any_value}
use paratro_sdk_rust.Session.{Session, Request, TokenState, call, from_slice}
use paratro_sdk_rust.Session.Trace.{Adds}
use paratro_sdk_rust.Session.Scripted.{scripted, start, answers, pending_document}
use paratro_sdk_rust.Token.{
  auth_request, get_token, refresh_after_expiry, refresh, kept, renew, renewed, store, refuse,
  auth_error, expires_at,
}
use paratro_sdk_rust.Token.Wire.{token_response_from, client_info_from}
use paratro_sdk_rust.Error.Wire.{error_body_from}
use paratro_sdk_rust.Json.{find, has_key}
use paratro_sdk_rust.Base.Str.{◌=ₛ◌}
use paratro_sdk_rust.Base.Int.{sub_i64, wrap_i64, ◌-ℤ◌}
use paratro_sdk_rust.Base.Decimal.{nat_to_string, digits_of}
use paratro_sdk_rust.Client.Scripted.{client, given}
use paratro_sdk_rust.Client.{
  MpcClient, Target, Reply, new, url, get_request, execute, retries, retry, exchanges, after_first,
  is_token_expired, send, decode_reply, post_with_status_and_headers,
}
use paratro_sdk_rust.Client.Answered.{Answered, send-Answered}
use paratro_sdk_rust.Client.Decode.{decode_reply_iff, retries_iff}
use paratro_sdk_rust.Client.New.{new_iff}
use paratro_sdk_rust.Client.Outcome.{send_final}
use paratro_sdk_rust.Client.Retry.{Attempts, send-Adds, send-length}

-- Any document is read.
abbrev document : Target Value
document = record { name = codes "Value"; reader = any_value }

abbrev wallets : Str → Request
wallets token = get_request (codes "https://g.io/api/v1/wallets") [] token

-- A token, an answer that it has expired, a second token, and the reply
abbrev expiring : Session scripted
expiring = start (
    answers 200 (codes "tT1")
    ∷ answers 401 (codes "x")
    ∷ answers 200 (codes "tT2")
    ∷ answers 200 (codes "p")
    ∷ [])

abbrev with_token : Session scripted
with_token = (get_token client.token_manager expiring).1

abbrev rejected : Session scripted
rejected = (execute client (wallets (codes "T1")) with_token).1

abbrev second_token : Session scripted
second_token = (refresh_after_expiry client.token_manager (codes "T1") rejected).1

abbrev replied : Session scripted
replied = (execute client (wallets (codes "T2")) second_token).1

send-Adds_example :
    Adds (Attempts client wallets) expiring (send client document wallets expiring).1
send-Adds_example = send-Adds client wallets document expiring

four_at_most : length (send client document wallets expiring).1.sent ≤ 0 + 4
four_at_most = send-length client wallets document expiring

-- Any other 401 is final.
other_refusal :
    send client document wallets (start (answers 200 (codes "tT1") ∷ answers 401 (codes "?") ∷ []))
    ≡ (
      decode_reply scripted document 401 (codes "?"),
      (send client document wallets
          (start (answers 200 (codes "tT1") ∷ answers 401 (codes "?") ∷ []))).1,
    )
unfolding send exchanges after_first retries retry is_token_expired decode_reply execute call
    from_slice get_token refresh refresh_after_expiry kept renew renewed store refuse auth_error
    expires_at auth_request token_response_from client_info_from error_body_from find has_key ◌=ₛ◌
    sub_i64 wrap_i64 ◌-ℤ◌ get_request nat_to_string digits_of
other_refusal =
    send_final client wallets (start (answers 200 (codes "tT1") ∷ answers 401 (codes "?") ∷ []))
      (get_token client.token_manager
        (start (answers 200 (codes "tT1") ∷ answers 401 (codes "?") ∷ []))).1
      (send client document wallets
        (start (answers 200 (codes "tT1") ∷ answers 401 (codes "?") ∷ []))).1
      (codes "T1") 401 (codes "?") document refl refl refl

pending_read :
    decode_reply scripted document 200 (codes "p")
    ≡ ok (record { status = 200; body = pending_document })
unfolding paratro_sdk_rust.Session.from_slice
pending_read =
    (decode_reply_iff scripted document 200 (codes "p")
        (record { status = 200; body = pending_document })).1
      (omega arith, refl, refl)

retries_iff_example :
    (e : Error (Unit {0}) (Unit {0})) × decode_reply scripted document 401 (codes "x") ≡ err e
    × kind e ≡ some ApiErrorKind.token_expired
unfolding retries paratro_sdk_rust.Client.is_token_expired paratro_sdk_rust.Session.from_slice
    paratro_sdk_rust.Error.Wire.error_body_from paratro_sdk_rust.Json.find
    paratro_sdk_rust.Base.Str.◌=ₛ◌
retries_iff_example = (retries_iff scripted document 401 (codes "x")).0 refl

new_iff_example : new scripted (codes "k") (codes "s") given ≡ ok client
unfolding paratro_sdk_rust.Config.normalize_base_url paratro_sdk_rust.Config.has_host
    paratro_sdk_rust.Config.after_scheme paratro_sdk_rust.Base.Str.strip_prefix
    paratro_sdk_rust.Base.Str.trim_end_matches paratro_sdk_rust.Config.is_host
    paratro_sdk_rust.Base.Str.split_first paratro_sdk_rust.Base.Str.is_whitespace
new_iff_example =
    (new_iff scripted (codes "k") (codes "s") given client).1
      ((λ e. ground arith), (λ e. ground arith), refl, refl, refl, refl)

four_requests :
    (send client document wallets expiring).1.sent
    ≡ auth_request client.token_manager
      ∷ wallets (codes "T1")
      ∷ auth_request client.token_manager
      ∷ wallets (codes "T2")
      ∷ []
unfolding send exchanges after_first retries retry is_token_expired decode_reply execute call
    from_slice get_token refresh refresh_after_expiry kept renew renewed store refuse auth_error
    expires_at auth_request token_response_from client_info_from error_body_from find has_key ◌=ₛ◌
    sub_i64 wrap_i64 ◌-ℤ◌ get_request nat_to_string digits_of
four_requests = refl

send-Answered_example :
    (bytes : List ℕ) × Answered client wallets expiring (200, bytes) replied
    × (decode_reply scripted document 200 bytes
        ≡ ok (record { status = 200; body = pending_document }))
unfolding send exchanges after_first retries retry is_token_expired decode_reply execute call
    from_slice get_token refresh refresh_after_expiry kept renew renewed store refuse auth_error
    expires_at auth_request token_response_from client_info_from error_body_from find has_key ◌=ₛ◌
    sub_i64 wrap_i64 ◌-ℤ◌ get_request nat_to_string digits_of
send-Answered_example =
    send-Answered client wallets document expiring replied
      (record { status = 200; body = pending_document }) refl

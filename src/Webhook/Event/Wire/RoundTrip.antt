-- ===== src/Webhook/Event/Wire/RoundTrip.antt =====
-- Reading the text of a written event (src/webhook.rs).
use paratro_sdk_rust.Base.{ℕ, ◌^◌, ◌<◌, ◌≡◌, refl, true, List, ok, Option, none, some, ltb, arith}
use paratro_sdk_rust.Base.Int.{IsI32, in_i32}
use paratro_sdk_rust.Base.Str.{Str, ◌=ₛ◌}
use paratro_sdk_rust.Json.{obj, find, is_finite}
use paratro_sdk_rust.Json.Texts.{reread_value, reread_fields}
use paratro_sdk_rust.Session.{Env, from_slice}
use paratro_sdk_rust.Json.Laws.{in_i32_of}
use paratro_sdk_rust.Webhook.Event.{SwapIncoming, WebhookEvent}
use paratro_sdk_rust.Webhook.Event.Wire.{
  swap_incoming_fields, swap_incoming_from, event_fields, event_from, event, parse_event,
}

-- The numbers of a leg and of an event are in the ranges of their types, and the score is a number.
abbrev IsI32Leg : Option SwapIncoming → Type 0
IsI32Leg none = Unit
IsI32Leg (some s) = IsI32 s.decimals

abbrev pub IsRepresentable : WebhookEvent → Type 0
IsRepresentable e =
    IsI32 e.decimals
    × (e.block_number < 2 ^ 64)
    × (e.confirmations < 2 ^ 64)
    × (e.required_confirmations < 2 ^ 64)
    × (is_finite e.risk_score ≡ true)
    × IsI32Leg e.swap_incoming

swap_parts :
    (s : SwapIncoming) (reason audit : Option Str)
    → in_i32 s.decimals ≡ true
    → swap_incoming_from (swap_incoming_fields (record s { reason = reason; audit_type = audit }))
      ≡ some (record s { reason = reason; audit_type = audit })
unfolding swap_incoming_from swap_incoming_fields find ◌=ₛ◌
swap_parts s none none h = rw h
swap_parts s none (some a) h = rw h
swap_parts s (some r) none h = rw h
swap_parts s (some r) (some a) h = rw h

swap_again :
    (s : SwapIncoming) → IsI32 s.decimals → swap_incoming_from (swap_incoming_fields s) ≡ some s
swap_again s h = swap_parts s s.reason s.audit_type (in_i32_of s.decimals h)

ltb_of : (m n : ℕ) → m < n → ltb m n ≡ true
ltb_of m n h = ground arith

event_parts :
    (e : WebhookEvent) (confirmed : Option Str) (leg : Option SwapIncoming)
    → in_i32 e.decimals ≡ true
    → ltb e.block_number (2 ^ 64) ≡ true
    → ltb e.confirmations (2 ^ 64) ≡ true
    → ltb e.required_confirmations (2 ^ 64) ≡ true
    → is_finite e.risk_score ≡ true
    → IsI32Leg leg
    → event_from (event_fields (record e { confirmed_at = confirmed; swap_incoming = leg }))
      ≡ some (record e { confirmed_at = confirmed; swap_incoming = leg })
unfolding event_from event_fields find ◌=ₛ◌
event_parts e none none a b c d f h = rw (a, b, c, d, f)
event_parts e (some t) none a b c d f h = rw (a, b, c, d, f)
event_parts e none (some s) a b c d f h = rw (a, b, c, d, f, swap_again s h)
event_parts e (some t) (some s) a b c d f h = rw (a, b, c, d, f, swap_again s h)

-- A document with the fields of the event, its score being another number, reads as that event.
event_again : (e : WebhookEvent) → IsRepresentable e → event (obj (event_fields e)) ≡ some e
event_again e (a, b, c, d, f, h) =
    event_parts e e.confirmed_at e.swap_incoming (in_i32_of e.decimals a) (ltb_of _ _ b)
      (ltb_of _ _ c) (ltb_of _ _ d) f h

reread-swap :
    (reread : ℕ → ℕ) (s : SwapIncoming) (reason audit : Option Str)
    → reread_fields reread (swap_incoming_fields (record s { reason = reason; audit_type = audit }))
      ≡ swap_incoming_fields (record s { reason = reason; audit_type = audit })
unfolding swap_incoming_fields
reread-swap reread s none none = refl
reread-swap reread s none (some a) = refl
reread-swap reread s (some r) none = refl
reread-swap reread s (some r) (some a) = refl

reread-parts :
    (reread : ℕ → ℕ) (e : WebhookEvent) (confirmed : Option Str) (leg : Option SwapIncoming)
    → is_finite e.risk_score ≡ true
    → is_finite (reread e.risk_score) ≡ true
    → reread_fields reread
        (event_fields (record e { confirmed_at = confirmed; swap_incoming = leg }))
      ≡ event_fields (record e {
        confirmed_at = confirmed;
        swap_incoming = leg;
        risk_score = reread e.risk_score;
      })
unfolding event_fields
reread-parts reread e none none f g = rw (f, g)
reread-parts reread e (some t) none f g = rw (f, g)
reread-parts reread e none (some s) f g = rw (f, g, reread-swap reread s s.reason s.audit_type)
reread-parts reread e (some t) (some s) f g = rw (f, g, reread-swap reread s s.reason s.audit_type)

-- The text that is written for an event parses as that event, with or without its optional parts, but
-- for the score, which is the number that the text of the score is read as. The numbers of the event
-- are in the ranges of their types, the score and what it is read as are finite, and the crate
-- serde_json reads the text that it wrote as the same document, but for its floats.
pub event_round_trip :
    (E : Env) (reread : ℕ → ℕ) (e : WebhookEvent) (bytes : List ℕ)
    → IsRepresentable e
    → is_finite (reread e.risk_score) ≡ true
    → ((b : List ℕ)
        → E.print (obj (event_fields e)) ≡ ok b
        → E.parse b ≡ ok (reread_value reread (obj (event_fields e))))
    → E.print (obj (event_fields e)) ≡ ok bytes
    → parse_event E bytes ≡ ok (record e { risk_score = reread e.risk_score })
unfolding parse_event from_slice
event_round_trip E reread e bytes (a, b, c, d, f, h) g texts written =
    let read = texts bytes written in
    let same = reread-parts reread e e.confirmed_at e.swap_incoming f g in
    let again = event_again (record e { risk_score = reread e.risk_score }) (a, b, c, d, g, h) in
    rw (read, same, again)

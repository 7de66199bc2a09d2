-- ===== src/Webhook/Event/Tests.antt =====
-- Events on concrete values (src/webhook.rs).
use paratro_sdk_rust.Base.{◌≡◌, refl, true, none, some, [], ok, err, ℕ, arith}
use paratro_sdk_rust.Base.Int.{pos}
use paratro_sdk_rust.Base.Str.{codes}
use paratro_sdk_rust.Json.{int, f64, obj}
use paratro_sdk_rust.Json.Texts.{reread_value}
use paratro_sdk_rust.Session.{Env}
use paratro_sdk_rust.Webhook.Event.{
  SwapIncoming, WebhookEvent, event_transfer_credited, operation_deposit, swap_accounting_applied,
}
use paratro_sdk_rust.Webhook.Event.Wire.{event_fields, parse_event}
use paratro_sdk_rust.Webhook.Event.Wire.RoundTrip.{event_round_trip}

half_up : f64 (int (pos 9007199254740993)) ≡ some 0x4340000000000000
half_up = refl

one : f64 (int (pos 1)) ≡ some 0x3ff0000000000000
one = refl

abbrev swapped : SwapIncoming
swapped = record {
  token_address = codes "0xt";
  symbol = codes "USDC";
  amount = codes "12";
  decimals = pos 6;
  booked = true;
  accounting_status = swap_accounting_applied;
  reason = none;
  audit_type = some (codes "SWAP");
}

-- A credited transfer with a score of 1 and the incoming leg of a swap
abbrev credited : WebhookEvent
credited = record {
  event_id = codes "ev-1";
  event_type = event_transfer_credited;
  event_time = codes "2026-01-01T00:00:00Z";
  source_id = codes "tx-1";
  wallet_id = codes "w";
  account_id = codes "a";
  status = codes "CONFIRMED";
  transaction_type = codes "DEPOSIT";
  chain = codes "base";
  network = codes "mainnet";
  txhash = codes "0xh";
  block_number = 123;
  from = codes "0xf";
  to = codes "0xg";
  symbol = codes "ETH";
  contract_address = [];
  amount = codes "1";
  decimals = pos 18;
  confirmations = 12;
  required_confirmations = 12;
  created_at = codes "2026-01-01T00:00:00Z";
  confirmed_at = none;
  risk_checked = true;
  risk_score = 0x3ff0000000000000;
  risk_level = codes "LOW";
  «data» = [];
  operation = operation_deposit;
  swap_incoming = some swapped;
}

-- Every float is read as 2, and every document written as no text.
abbrev two : ℕ → ℕ
two bits = 0x4000000000000000

abbrev rough : Env
rough = record {
  HttpError = Unit {0};
  JsonError = Unit {0};
  HttpClient = Unit {0};
  World = Unit {0};
  build = λ timeout. ok tt;
  exchange = λ client request w. (err tt, tt);
  now = λ w. 0;
  parse = λ bytes. ok (reread_value two (obj (event_fields credited)));
  print = λ v. ok [];
  mismatch = λ name v. tt;
}

event_round_trip_example :
    parse_event rough [] ≡ ok (record credited { risk_score = 0x4000000000000000 })
event_round_trip_example =
    event_round_trip rough two credited []
      (omega arith, omega arith, omega arith, omega arith, refl, omega arith) refl (λ b h. refl)
      refl

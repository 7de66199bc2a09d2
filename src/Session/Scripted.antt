-- ===== src/Session/Scripted.antt =====
-- A gateway that answers from a script, for the runs of the tests: one second passes with every
-- exchange, and a body stands for a document that it names by its first byte.
use paratro_sdk_rust.Base.{ℕ, ◌+◌, none, List, [], ◌∷◌, Result, ok, err, ◌==◌, if◌then◌else◌}
use paratro_sdk_rust.Base.Int.{pos}
use paratro_sdk_rust.Base.Str.{Str, codes}
use paratro_sdk_rust.Json.{Value, str, int, obj, field, end}
use paratro_sdk_rust.Session.{Env, Response, Session}

-- The clock, and the answers that are left
abbrev pub Script : Type 0
Script = ℕ × List (Response (Unit {0}))

abbrev answer : Script → Result (Response (Unit {0})) (Unit {0}) × Script
answer (t, []) = (err tt, (t, []))
answer (t, r ∷ rs) = (ok r, (t + 1000000000, rs))

abbrev pub token_document : Str → Value
token_document token = obj (
    field (codes "token") (str token) (
      field (codes "expires_in") (int (pos 900)) (
        field (codes "token_type") (str (codes "Bearer")) (
          field (codes "client")
            (obj (
              field (codes "client_id") (str (codes "c")) (
                field (codes "client_name") (str (codes "n"))
                  (field (codes "status") (str (codes "ACTIVE")) end))))
            end))))

abbrev pub expired_document : Value
expired_document = obj (
    field (codes "code") (str (codes "token_expired")) (
      field (codes "type") (str (codes "authentication_error"))
        (field (codes "message") (str (codes "expired")) end)))

abbrev pub pending_document : Value
pending_document = obj (
    field (codes "tx_id") (str (codes "tx-1")) (
      field (codes "status") (str (codes "PENDING"))
        (field (codes "message") (str (codes "ok")) end)))

abbrev pub rejected_document : Value
rejected_document = obj (
    field (codes "code") (str (codes "invalid_parameter")) (
      field (codes "type") (str (codes "invalid_request"))
        (field (codes "message") (str (codes "Rejected: address_blacklisted: 0xdead")) end)))

abbrev document : List ℕ → Result Value (Unit {0})
document [] = err tt
document (c ∷ token) =
    if c == b't'
    then ok (token_document token)
    else if c == b'x'
    then ok expired_document
    else if c == b'p'
    then ok pending_document
    else if c == b'r'
    then ok rejected_document
    else err tt

abbrev pub scripted : Env
scripted = record {
  HttpError = Unit {0};
  JsonError = Unit {0};
  HttpClient = Unit {0};
  World = Script;
  build = λ timeout. ok tt;
  exchange = λ client request w. answer w;
  now = λ w. w.0;
  parse = document;
  print = λ v. ok (codes "{}");
  mismatch = λ name v. tt;
}

-- A session without a token, at time 0
abbrev pub start : List (Response (Unit {0})) → Session scripted
start rs = record { state = none; world = (0, rs); sent = [] }

abbrev pub answers : ℕ → Str → Response (Unit {0})
answers status body = record { status = status; body = ok body }

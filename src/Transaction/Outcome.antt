-- ===== src/Transaction/Outcome.antt =====
-- What the reply of the unified entry says (src/transaction.rs).
use paratro_sdk_rust.Base.{
  ℕ, ◌<◌, ◌≡◌, ◌≢◌, ◌↔◌, ◌⊎◌, refl, subst, true, false, List, [], Option, some, none, Result, ok,
  arith,
}
use paratro_sdk_rust.Base.Str.{Str, ◌=ₛ◌}
use paratro_sdk_rust.Base.Str.Laws.{=ₛ_iff}
use paratro_sdk_rust.Session.{Env, Request, Session, to_vec}
use paratro_sdk_rust.Session.Trace.{continue_with-induction}
use paratro_sdk_rust.Client.{
  MpcClient, Reply, Target, send, exchanges, post_with_status_and_headers, post_request, url,
}
use paratro_sdk_rust.Token.{or_decode}
use paratro_sdk_rust.Transaction.Wire.{request}
use paratro_sdk_rust.Client.Decode.{decode_reply_iff}
use paratro_sdk_rust.Json.{Value, obj, find}
use paratro_sdk_rust.Transaction.Reply.{created, created_from, created_fields}
use paratro_sdk_rust.Transaction.{
  CreateTransactionRequest, CreateTransactionResponse, transfer, program_call, contract_call,
  operation, transactions_path, status_pending, is_accepted,
}
use paratro_sdk_rust.Transaction.Endpoints.{filled, created_target, create_transaction_with_headers}

-- The requests that the gateway answers only after the signing engine
abbrev pub IsSynchronous : CreateTransactionRequest → Type 0
IsSynchronous (transfer r) = ⊥
IsSynchronous _ = Unit

-- The outcome is unknown exactly if the answer was a 202, or the request is a call whose reply is
-- still pending, whatever the status of the answer.
pub filled-is_accepted :
    (r : CreateTransactionRequest) (answer : Reply CreateTransactionResponse)
    → (is_accepted (filled r answer) ≡ true)
      ↔ ((answer.status ≡ 202) ⊎ (IsSynchronous r × (answer.body.status ≡ status_pending)))
unfolding is_accepted filled operation ◌=ₛ◌
filled-is_accepted (transfer r) answer = ground (arith, =ₛ_iff answer.body.status status_pending)
filled-is_accepted (program_call r) answer =
    ground (arith, =ₛ_iff answer.body.status status_pending)
filled-is_accepted (contract_call r) answer =
    ground (arith, =ₛ_iff answer.body.status status_pending)

-- A pending reply reads the same under 202 and under any other status, as a replay has it, exactly
-- if the request is a call: for a transfer it does not.
pub replayed-is_accepted :
    (r : CreateTransactionRequest) (body : CreateTransactionResponse) (replayed : ℕ)
    → body.status ≡ status_pending
    → replayed ≢ 202
    → (is_accepted (filled r (record { status = replayed; body = body }))
        ≡ is_accepted (filled r (record { status = 202; body = body })))
      ↔ IsSynchronous r
replayed-is_accepted (transfer r) body replayed h n = ground (
  arith,
  filled-is_accepted (transfer r) (record { status = replayed; body = body }),
  filled-is_accepted (transfer r) (record { status = 202; body = body }),
)
replayed-is_accepted (program_call r) body replayed h n = ground (
  arith,
  filled-is_accepted (program_call r) (record { status = replayed; body = body }),
  filled-is_accepted (program_call r) (record { status = 202; body = body }),
)
replayed-is_accepted (contract_call r) body replayed h n = ground (
  arith,
  filled-is_accepted (contract_call r) (record { status = replayed; body = body }),
  filled-is_accepted (contract_call r) (record { status = 202; body = body }),
)

created_parts :
    (id status message operation : Str) (http_status : ℕ) (hash : Option Str)
    → created_from (
        created_fields (record {
          tx_id = id;
          status = status;
          message = message;
          tx_hash = hash;
          http_status = http_status;
          operation = operation;
        }))
      ≡ some (record {
        tx_id = id;
        status = status;
        message = message;
        tx_hash = hash;
        http_status = 0;
        operation = [];
      })
unfolding created_from created_fields find ◌=ₛ◌
created_parts id status message operation http_status none = refl
created_parts id status message operation http_status (some x) = refl

-- Reading a written reply gives it back without the status of its answer and its operation, which
-- are no part of the JSON.
pub created_round_trip :
    (r : CreateTransactionResponse)
    → created (obj (created_fields r)) ≡ some (record r { http_status = 0; operation = [] })
created_round_trip r = created_parts r.tx_id r.status r.message r.operation r.http_status r.tx_hash

-- A reply that was read by hand, from the JSON of its body alone, is never taken for accepted.
pub by_hand-is_accepted :
    (v : Value) (r : CreateTransactionResponse) → created v ≡ some r → is_accepted r ≡ false
unfolding is_accepted created_from
by_hand-is_accepted v r h = ground (arith, h)

ok-injective : {A F : Type 0} (x y : A) → ◌≡◌ {A = Result A F} (ok x) (ok y) → x ≡ y
ok-injective x y h = ground arith

module _ {E : Env} (client : MpcClient E) where
  send-below_400 :
      {A : Type 0} (t : Target A) (build : Str → Request) (s : Session E) (answer : Reply A)
      → (send client t build s).0 ≡ ok answer
      → answer.status < 400
  unfolding send
  send-below_400 t build s answer =
      continue_with-induction (λ p. p.0 ≡ ok answer → answer.status < 400)
        (exchanges client build s).0 _ _
        (λ a e h. let (b, k, c) = (decode_reply_iff E t a.0 a.1 answer).0 h in ground (arith, b, k))
        (λ a e h. ground (arith, h))

  posted-below_400 :
      {A : Type 0} (t : Target A) (path : Str) (v : Value) (headers : List (Str × Str))
      (s : Session E) (answer : Reply A)
      → (post_with_status_and_headers client t path v headers s).0 ≡ ok answer
      → answer.status < 400
  unfolding post_with_status_and_headers
  posted-below_400 t path v headers s answer =
      continue_with-induction (λ p. p.0 ≡ ok answer → answer.status < 400)
        (or_decode 0 (to_vec E v)) _ s
        (λ payload e h.
          send-below_400 t (post_request (url client path) headers payload) s answer h)
        (λ a e h. ground (arith, h))

  -- What the reply to a request says
  abbrev Says : CreateTransactionRequest → CreateTransactionResponse → Type 0
  Says r resp =
      resp.http_status < 400
      × resp.operation ≡ operation r
      × ((is_accepted resp ≡ true)
          ↔ ((resp.http_status ≡ 202) ⊎ (IsSynchronous r × (resp.status ≡ status_pending))))

  filled-Says :
      (r : CreateTransactionRequest) (answer : Reply CreateTransactionResponse)
      → answer.status < 400
      → Says r (filled r answer)
  unfolding filled
  filled-Says r answer h = (h, refl, filled-is_accepted r answer)

  -- Where creating a transaction returns a reply, its status is below 400, its operation is that
  -- of the request, and it is accepted exactly if the status is 202, or the request is a call and
  -- the reply is still pending.
  pub create_transaction-is_accepted :
      (r : CreateTransactionRequest) (headers : List (Str × Str)) (s : Session E)
      (resp : CreateTransactionResponse)
      → (create_transaction_with_headers client r headers s).0 ≡ ok resp
      → resp.http_status < 400
        × resp.operation ≡ operation r
        × ((is_accepted resp ≡ true)
            ↔ ((resp.http_status ≡ 202) ⊎ (IsSynchronous r × (resp.status ≡ status_pending))))
  unfolding create_transaction_with_headers
  create_transaction-is_accepted r headers s resp =
      continue_with-induction (λ p. p.0 ≡ ok resp → Says r resp)
        (post_with_status_and_headers client created_target transactions_path (request.to_value r)
          headers s).0
        _ _
        (λ answer e h. subst (Says r) (ok-injective _ _ h) (
          filled-Says r answer (
            posted-below_400 created_target transactions_path (request.to_value r) headers s answer
              e)))
        (λ a e h. ground (arith, h))

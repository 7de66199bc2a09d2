-- ===== src/Client/Tasks/Bounds.antt =====
-- The steps and the requests of interleaved calls (src/client.rs, src/token.rs).
use paratro_sdk_rust.Base.{
  ℕ, ◌+◌, ◌*◌, ◌≤◌, ◌≡◌, refl, ap, ◌∙◌, Bool, true, false, Option, some, none, List, [], ◌∷◌,
  Result, ok, err, arith, length, length-append,
}
use paratro_sdk_rust.Base.Str.{Str}
use paratro_sdk_rust.Session.{Env, Request, Session, Failure}
use paratro_sdk_rust.Token.{renew, fresh_of, kept, auth_request}
use paratro_sdk_rust.Token.Requests.{renew-sent}
use paratro_sdk_rust.Client.{MpcClient, execute}
use paratro_sdk_rust.Client.Retry.{execute-sent}
use paratro_sdk_rust.Client.Tasks.{
  Task, start, locking, asking, sending, finished, dropped, advance, after_answer, after_lock,
  after_check, after_look,
}
use paratro_sdk_rust.Client.Tasks.Schedule.{
  Job, IsRunning, steps_left, requests_left, total, StepOf, Step, here, drop, drop_asking,
  drop_sending, there, Steps, stop, more, starting,
}

module _ {E : Env} (client : MpcClient E) where
  look-left :
      (build : Str → Request) (o : Option Str)
      → (steps_left (after_look client build o) ≤ 6)
        × (requests_left (after_look client build o) ≤ 4)
  look-left build none = (omega arith, omega arith)
  look-left build (some token) = (omega arith, omega arith)

  check-left :
      (build : Str → Request) (last : Bool) (stale : Option Str) (o : Option Str)
      → (steps_left (after_check client build last o) + 1 ≤ steps_left {E = E} (locking stale last))
        × (requests_left (after_check client build last o)
            ≤ requests_left {E = E} (locking stale last))
  check-left build true stale (some token) = (omega arith, omega arith)
  check-left build false stale (some token) = (omega arith, omega arith)
  check-left build true stale none = (omega arith, omega arith)
  check-left build false stale none = (omega arith, omega arith)

  lock-left :
      (build : Str → Request) (last : Bool) (x : Result Str (Failure E))
      → (steps_left (after_lock client build last x) + 1 ≤ steps_left {E = E} (asking last))
        × (requests_left (after_lock client build last x) + 1 ≤ requests_left {E = E} (asking last))
  lock-left build true (ok token) = (omega arith, omega arith)
  lock-left build false (ok token) = (omega arith, omega arith)
  lock-left build true (err e) = (omega arith, omega arith)
  lock-left build false (err e) = (omega arith, omega arith)

  answer-left :
      (build : Str → Request) (token : Str) (last : Bool) (x : Result (ℕ × List ℕ) (Failure E))
      → (steps_left (after_answer client build token last x) + 1
          ≤ steps_left {E = E} (sending token last))
        × (requests_left (after_answer client build token last x) + 1
            ≤ requests_left {E = E} (sending token last))
  answer-left build token true (ok (status, bytes)) = (omega arith, omega arith)
  answer-left build token false (ok (status, bytes)) = ground arith
  answer-left build token true (err e) = (omega arith, omega arith)
  answer-left build token false (err e) = (omega arith, omega arith)

  -- A step uses up one of the steps that are left, and sends no more than the requests that are left.
  advance-left :
      (build : Str → Request) (t : Task E) (s : Session E)
      → IsRunning t
      → (steps_left (advance client build t s).0 + 1 ≤ steps_left t)
        × (length (advance client build t s).1.sent + requests_left (advance client build t s).0
            ≤ length s.sent + requests_left t)
  unfolding advance
  advance-left build start s h =
      let left = look-left build (fresh_of E s.world s.state) in
      (omega (arith, left.0), omega (arith, left.1))
  advance-left build (locking stale last) s h =
      let left = check-left build last stale (kept E stale s.world s.state) in
      (left.0, omega (arith, left.1))
  advance-left build (asking last) s h =
      let left = lock-left build last (renew client.token_manager s).0 in
      let sent =
        ap length (renew-sent client.token_manager s)
        ∙ length-append s.sent (auth_request client.token_manager ∷ []) in
      (left.0, omega (arith, left.1, sent))
  advance-left build (sending token last) s h =
      let left = answer-left build token last (execute client (build token) s).0 in
      let sent =
        ap length (execute-sent client (build token) s) ∙ length-append s.sent (build token ∷ []) in
      (left.0, omega (arith, left.1, sent))
  advance-left build (finished r) s h = elim h [ ]
  advance-left build dropped s h = elim h [ ]

  running-left : (t : Task E) → IsRunning t → (1 ≤ steps_left t)
  running-left start h = omega arith
  running-left (locking stale true) h = omega arith
  running-left (locking stale false) h = omega arith
  running-left (asking true) h = omega arith
  running-left (asking false) h = omega arith
  running-left (sending token true) h = omega arith
  running-left (sending token false) h = omega arith
  running-left (finished r) h = elim h [ ]
  running-left dropped h = elim h [ ]

  asking-left :
      (last : Bool)
      → (1 ≤ steps_left {E = E} (asking last)) × (1 ≤ requests_left {E = E} (asking last))
  asking-left true = (omega arith, omega arith)
  asking-left false = (omega arith, omega arith)

  sending-left :
      (token : Str) (last : Bool)
      → (1 ≤ steps_left {E = E} (sending token last))
        × (1 ≤ requests_left {E = E} (sending token last))
  sending-left token true = (omega arith, omega arith)
  sending-left token false = (omega arith, omega arith)

  StepOf-left :
      {all js ks : List (Job E)} {s t : Session E}
      → StepOf client all s js t ks
      → (total steps_left ks + 1 ≤ total steps_left js)
        × (length t.sent + total requests_left ks ≤ length s.sent + total requests_left js)
  StepOf-left (here {j} {js} {s} r granted) =
      let (a, b) = advance-left j.build j.task s r in (omega (arith, a), omega (arith, b))
  StepOf-left (drop {j} r) = (omega (arith, running-left j.task r), omega arith)
  StepOf-left (drop_asking {build} {last} {js} {s}) =
      let left = asking-left last in
      let more = length-append s.sent (auth_request client.token_manager ∷ []) in
      (omega (arith, left.0), omega (arith, left.1, more))
  StepOf-left (drop_sending {build} {token} {last} {js} {s}) =
      let left = sending-left token last in
      let more = length-append s.sent (build token ∷ []) in
      (omega (arith, left.0), omega (arith, left.1, more))
  StepOf-left (there p) = let (a, b) = StepOf-left p in (omega (arith, a), omega (arith, b))

  pub Step-left :
      {js ks : List (Job E)} {s t : Session E}
      → Step client s js t ks
      → (total steps_left ks + 1 ≤ total steps_left js)
        × (length t.sent + total requests_left ks ≤ length s.sent + total requests_left js)
  Step-left p = StepOf-left p

  pub Steps-left :
      {n : ℕ} {js ks : List (Job E)} {s t : Session E}
      → Steps client n s js t ks
      → (n + total steps_left ks ≤ total steps_left js)
        × (length t.sent + total requests_left ks ≤ length s.sent + total requests_left js)
  Steps-left stop = (omega arith, omega arith)
  Steps-left (more p q) =
      let (a, b) = Step-left p in
      let (c, d) = Steps-left q in (omega (arith, a, c), omega (arith, b, d))

  pub starting-total :
      (bs : List (Str → Request))
      → (total steps_left (starting client bs) ≡ 7 * length bs)
        × (total requests_left (starting client bs) ≡ 4 * length bs)
  starting-total [] = (refl, refl)
  starting-total (b ∷ bs) = let (a, c) = starting-total bs in (omega (arith, a), omega (arith, c))

-- ===== src/Client/Tasks/Schedule.antt =====
-- Calls of one client in any interleaving (src/client.rs, src/token.rs).
use paratro_sdk_rust.Base.{ℕ, zero, suc, ◌+◌, ◌≡◌, Bool, true, false, ◌&&◌, List, [], ◌∷◌, ◌++◌}
use paratro_sdk_rust.Base.Str.{Str}
use paratro_sdk_rust.Session.{Env, Request, Session}
use paratro_sdk_rust.Token.{auth_request}
use paratro_sdk_rust.Client.{MpcClient}
use paratro_sdk_rust.Client.Tasks.{
  Task, start, locking, asking, sending, finished, dropped, Guard, guard_of, awaits, gives, advance,
}

-- A call: the request that it builds from a token, and how far it has come
pub record Job (E : Env) : Type 0 where
  pub build : Str → Request
  pub task : Task E

abbrev pub IsFinished : {E : Env} → Task E → Type 0
IsFinished (finished r) = Unit
IsFinished dropped = Unit
IsFinished _ = ⊥

abbrev pub IsRunning : {E : Env} → Task E → Type 0
IsRunning (finished r) = ⊥
IsRunning dropped = ⊥
IsRunning _ = Unit

-- The steps, and the requests, that a task can still make
abbrev pub steps_left : {E : Env} → Task E → ℕ
steps_left start = 7
steps_left (locking stale false) = 6
steps_left (asking false) = 5
steps_left (sending token false) = 4
steps_left (locking stale true) = 3
steps_left (asking true) = 2
steps_left (sending token true) = 1
steps_left (finished r) = 0
steps_left dropped = 0

abbrev pub requests_left : {E : Env} → Task E → ℕ
requests_left start = 4
requests_left (locking stale false) = 4
requests_left (asking false) = 4
requests_left (sending token false) = 3
requests_left (locking stale true) = 2
requests_left (asking true) = 2
requests_left (sending token true) = 1
requests_left (finished r) = 0
requests_left dropped = 0

abbrev pub total : {E : Env} → (Task E → ℕ) → List (Job E) → ℕ
total left [] = 0
total left (j ∷ js) = left j.task + total left js

abbrev pub is_dropped : {E : Env} → Task E → Bool
is_dropped dropped = true
is_dropped _ = false

-- Which of the calls are dropped
abbrev pub drops : {E : Env} → List (Job E) → List Bool
drops [] = []
drops (j ∷ js) = is_dropped j.task ∷ drops js

module _ {E : Env} (client : MpcClient E) where
  abbrev advanced : Job E → Session E → Job E
  advanced j s = record j { task = (advance client j.build j.task s).0 }

  -- A request was handed over, and nobody waits for the answer any more.
  abbrev handed_over : E.HttpClient → Request → Session E → Session E
  handed_over c r s = record s { world = (E.exchange c r s.world).1; sent = s.sent ++ (r ∷ []) }

  -- Whether the lock gives out a guard while the calls hold what they hold
  abbrev pub open_to : Guard → List (Job E) → Bool
  open_to wanted [] = true
  open_to wanted (j ∷ js) = gives wanted (guard_of j.task) && open_to wanted js

  -- One of the calls goes on to its next point, if it is not finished and the lock gives it the guard
  -- it waits for, while all of the calls hold theirs; or it is dropped, with its guard: before anything
  -- is sent, or while it waits for the answer of the token endpoint or to its own request.
  pub data StepOf (all : List (Job E))
      : Session E → List (Job E) → Session E → List (Job E) → Type 0 where
    here :
        {j : Job E} {js : List (Job E)} {s : Session E}
        → IsRunning j.task
        → open_to (awaits j.task) all ≡ true
        → StepOf all s (j ∷ js) (advance client j.build j.task s).1 (advanced j s ∷ js)
    drop :
        {j : Job E} {js : List (Job E)} {s : Session E}
        → IsRunning j.task
        → StepOf all s (j ∷ js) s (record j { task = dropped } ∷ js)
    drop_asking :
        {build : Str → Request} {last : Bool} {js : List (Job E)} {s : Session E}
        → StepOf all s
            (record { build = build; task = asking last } ∷ js)
            (handed_over client.token_manager.http_client (auth_request client.token_manager) s)
            (record { build = build; task = dropped } ∷ js)
    drop_sending :
        {build : Str → Request} {token : Str} {last : Bool} {js : List (Job E)} {s : Session E}
        → StepOf all s
            (record { build = build; task = sending token last } ∷ js)
            (handed_over client.http_client (build token) s)
            (record { build = build; task = dropped } ∷ js)
    there :
        {j : Job E} {js ks : List (Job E)} {s t : Session E}
        → StepOf all s js t ks
        → StepOf all s (j ∷ js) t (j ∷ ks)

  abbrev pub Step : Session E → List (Job E) → Session E → List (Job E) → Type 0
  Step s js t ks = StepOf js s js t ks

  pub data Steps : ℕ → Session E → List (Job E) → Session E → List (Job E) → Type 0 where
    stop : {js : List (Job E)} {s : Session E} → Steps zero s js s js
    more :
        {n : ℕ} {js ks ls : List (Job E)} {s t u : Session E}
        → Step s js t ks
        → Steps n t ks u ls
        → Steps (suc n) s js u ls

  -- Calls that have not begun
  abbrev pub starting : List (Str → Request) → List (Job E)
  starting [] = []
  starting (b ∷ bs) = record { build = b; task = start } ∷ starting bs

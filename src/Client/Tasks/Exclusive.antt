-- ===== src/Client/Tasks/Exclusive.antt =====
-- How many of the interleaved calls hold the lock of the token (src/token.rs).
use paratro_sdk_rust.Base.{ℕ, ◌+◌, ◌≤◌, ◌≡◌, ◌⊎◌, List, [], ◌∷◌}
use paratro_sdk_rust.Base.Str.{Str}
use paratro_sdk_rust.Session.{Env, Session}
use paratro_sdk_rust.Client.{MpcClient}
use paratro_sdk_rust.Client.Tasks.{Task, Guard, writing, guard_of, awaits}
use paratro_sdk_rust.Client.Tasks.Schedule.{Job}

abbrev one_if_writing : Guard → ℕ
one_if_writing writing = 1
one_if_writing _ = 0

-- How many of the calls hold the lock for writing
abbrev pub writers : {E : Env} → List (Job E) → ℕ
writers [] = 0
writers (j ∷ js) = one_if_writing (guard_of j.task) + writers js

module _ {E : Env} (client : MpcClient E) where
  -- What a call may hold after a step: no more than before, unless it was given the lock
  abbrev Holds : Task E → Task E → Type 0
  Holds t u =
      (one_if_writing (guard_of u) ≤ one_if_writing (guard_of t))
      ⊎ ((awaits t ≡ writing) × (one_if_writing (guard_of u) ≤ 1))

  -- No more calls hold the lock after a step, or one more does and none did.
  abbrev Grows : List (Job E) → List (Job E) → List (Job E) → Type 0
  Grows all js ks = (writers ks ≤ writers js) ⊎ ((writers all ≡ 0) × (writers ks ≤ writers js + 1))

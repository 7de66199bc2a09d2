-- ===== src/Client/Tasks/Progress.antt =====
-- How calls of one client go on in an interleaving (src/client.rs, src/token.rs).
use paratro_sdk_rust.Base.{
  ℕ, ◌≡◌, ◌⊎◌, inl, inr, refl, ap, Bool, true, false, Option, some, none, List, [], ◌∷◌, Result, ok,
  err, arith, All,
}
use paratro_sdk_rust.Base.Str.{Str}
use paratro_sdk_rust.Session.{Env, Request, Session, Failure}
use paratro_sdk_rust.Token.{renew, kept, fresh_of}
use paratro_sdk_rust.Client.{MpcClient, execute}
use paratro_sdk_rust.Client.Tasks.{
  Task, start, locking, asking, sending, finished, dropped, Guard, no_guard, reading, writing,
  guard_of, awaits, gives, advance, after_answer, after_lock, after_check, after_look,
}
use paratro_sdk_rust.Client.Tasks.Schedule.{
  Job, IsFinished, IsRunning, is_dropped, drops, open_to, StepOf, here, there,
}

module _ {E : Env} (client : MpcClient E) where
  running : (t : Task E) → IsFinished t ⊎ IsRunning t
  running start = inr tt
  running (locking stale last) = inr tt
  running (asking last) = inr tt
  running (sending token last) = inr tt
  running (finished r) = inl tt
  running dropped = inl tt

  look-alive :
      (build : Str → Request) (o : Option Str) → is_dropped (after_look client build o) ≡ false
  look-alive build none = refl
  look-alive build (some token) = refl

  check-alive :
      (build : Str → Request) (last : Bool) (o : Option Str)
      → is_dropped (after_check client build last o) ≡ false
  check-alive build last none = refl
  check-alive build last (some token) = refl

  lock-alive :
      (build : Str → Request) (last : Bool) (x : Result Str (Failure E))
      → is_dropped (after_lock client build last x) ≡ false
  lock-alive build last (ok token) = refl
  lock-alive build last (err e) = refl

  answer-alive :
      (build : Str → Request) (token : Str) (last : Bool) (x : Result (ℕ × List ℕ) (Failure E))
      → is_dropped (after_answer client build token last x) ≡ false
  answer-alive build token last (ok (status, bytes)) = ground arith
  answer-alive build token last (err e) = refl

  advance-alive :
      (build : Str → Request) (t : Task E) (s : Session E)
      → IsRunning t
      → is_dropped (advance client build t s).0 ≡ is_dropped t
  unfolding advance
  advance-alive build start s h = look-alive build (fresh_of E s.world s.state)
  advance-alive build (locking stale last) s h =
      check-alive build last (kept E stale s.world s.state)
  advance-alive build (asking last) s h = lock-alive build last (renew client.token_manager s).0
  advance-alive build (sending token last) s h =
      answer-alive build token last (execute client (build token) s).0
  advance-alive build (finished r) s h = elim h [ ]
  advance-alive build dropped s h = elim h [ ]

  -- A step of one of the calls, among all of them, that drops none
  abbrev pub GoesOn : List (Job E) → Session E → List (Job E) → Type 0
  GoesOn all s js =
      (t : Session E) × (ks : List (Job E)) × StepOf client all s js t ks × (drops ks ≡ drops js)

  later-GoesOn :
      (all : List (Job E)) (s : Session E) (j : Job E) (js : List (Job E))
      → GoesOn all s js
      → GoesOn all s (j ∷ js)
  later-GoesOn all s j js (t, ks, p, e) = (t, j ∷ ks, there p, ap (λ bs. is_dropped j.task ∷ bs) e)

  here-GoesOn :
      (all : List (Job E)) (s : Session E) (j : Job E) (js : List (Job E))
      → IsRunning j.task
      → open_to client (awaits j.task) all ≡ true
      → GoesOn all s (j ∷ js)
  here-GoesOn all s j js r granted =
      (_, _, here r granted, ap (λ b. b ∷ drops js) (advance-alive j.build j.task s r))

  -- No call holds the lock.
  IsOpen : List (Job E) → Type 0
  IsOpen js = (wanted : Guard) → open_to client wanted js ≡ true

  gives_alone : (wanted : Guard) → gives wanted no_guard ≡ true
  gives_alone no_guard = refl
  gives_alone reading = refl
  gives_alone writing = refl

  -- What holds the lock waits for no lock.
  holder : (t : Task E) → (guard_of t ≡ no_guard) ⊎ (IsRunning t × (awaits t ≡ no_guard))
  unfolding guard_of awaits
  holder start = inl refl
  holder (locking stale last) = inl refl
  holder (asking last) = inr (tt, refl)
  holder (sending token last) = inl refl
  holder (finished r) = inl refl
  holder dropped = inl refl

  open_to_none : (js : List (Job E)) → open_to client no_guard js ≡ true
  open_to_none [] = refl
  open_to_none (j ∷ js) = open_to_none js

  -- A call that holds the lock can go on, or nobody holds it.
  holder_first : (all js : List (Job E)) (s : Session E) → GoesOn all s js ⊎ IsOpen js
  unfolding IsOpen
  holder_first all [] s = inr (λ w. refl)
  holder_first all (j ∷ js) s = elim (holder j.task) [
    | inr (r, e) ↦ inl (here-GoesOn all s j js r (rw e (open_to_none all)))
    | inl free ↦ elim (holder_first all js s) [
      | inl go ↦ inl (later-GoesOn all s j js go)
      | inr open_all ↦ inr (λ w. rw (free, gives_alone w, open_all w) refl)
    ]
  ]

  -- While nobody holds it, whichever call is not finished can go on.
  running_first :
      (all js : List (Job E)) (s : Session E)
      → IsOpen all
      → All (λ j. IsFinished j.task) js ⊎ GoesOn all s js
  unfolding IsOpen
  running_first all [] s h = inl tt
  running_first all (j ∷ js) s h = elim (running j.task) [
    | inr r ↦ inr (here-GoesOn all s j js r (h (awaits j.task)))
    | inl f ↦ elim (running_first all js s h) [
      | inl fs ↦ inl (f, fs)
      | inr go ↦ inr (later-GoesOn all s j js go)
    ]
  ]

  pub go_on : (js : List (Job E)) (s : Session E) → All (λ j. IsFinished j.task) js ⊎ GoesOn js s js
  go_on js s = elim (holder_first js js s) [
    | inl go ↦ inr go
    | inr open_all ↦ running_first js js s open_all
  ]

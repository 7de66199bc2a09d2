-- ===== src/Client/Tasks.antt =====
-- Calls that run at the same time on one client (src/client.rs, src/token.rs): the points at which a
-- call awaits something, where other tasks go on. A call is in its own state between them; the
-- session is shared, and its token is under a lock of readers and a writer.
pub mod Schedule
pub mod Bounds
pub mod Progress
pub mod Complete
pub mod Exclusive
pub mod Issued
mod Tests
use paratro_sdk_rust.Base.{
  ℕ, Bool, true, false, not, ◌&&◌, Option, some, none, List, Result, ok, err, if◌then◌else◌,
}
use paratro_sdk_rust.Base.Str.{Str}
use paratro_sdk_rust.Session.{Env, Request, Session, Failure}
use paratro_sdk_rust.Token.{fresh_of, kept, renew}
use paratro_sdk_rust.Client.{MpcClient, execute, retries}

-- `start` waits for the lock of the token to read it, `locking` to write it; `asking` holds it for
-- writing and awaits the answer of the token endpoint; `sending` has a token and awaits the answer to
-- its request. They know whether the attempt is the last one. `dropped` is a future that was dropped
-- before its end.
pub data Task (E : Env) : Type 0 where
  start : Task E
  locking : (stale : Option Str) (last : Bool) → Task E
  asking : (last : Bool) → Task E
  sending : (token : Str) (last : Bool) → Task E
  finished : Result (ℕ × List ℕ) (Failure E) → Task E
  dropped : Task E

-- A guard of `RwLock`
pub data Guard : Type 0 where
  no_guard : Guard
  reading : Guard
  writing : Guard

-- The guard that a task has while it waits: `get_token` drops the one it reads with before it calls
-- `refresh`, which keeps the one it writes with until the answer of the token endpoint is stored.
unfoldable pub guard_of : {E : Env} → Task E → Guard
guard_of start = no_guard
guard_of (locking stale last) = no_guard
guard_of (asking last) = writing
guard_of (sending token last) = no_guard
guard_of (finished r) = no_guard
guard_of dropped = no_guard

-- The guard that it waits for
unfoldable pub awaits : {E : Env} → Task E → Guard
awaits start = reading
awaits (locking stale last) = writing
awaits (asking last) = no_guard
awaits (sending token last) = no_guard
awaits (finished r) = no_guard
awaits dropped = no_guard

-- Whether the lock gives out a guard while another one is held
abbrev pub gives : (wanted held : Guard) → Bool
gives no_guard held = true
gives reading writing = false
gives reading _ = true
gives writing no_guard = true
gives writing _ = false

module _ {E : Env} (client : MpcClient E) (build : Str → Request) where
  abbrev after_look : Option Str → Task E
  after_look (some token) = sending token false
  after_look none = locking none false

  abbrev after_check : Bool → Option Str → Task E
  after_check last (some token) = sending token last
  after_check last none = asking last

  abbrev after_lock : Bool → Result Str (Failure E) → Task E
  after_lock last (ok token) = sending token last
  after_lock last (err e) = finished (err e)

  abbrev after_answer : Str → Bool → Result (ℕ × List ℕ) (Failure E) → Task E
  after_answer token last (ok (status, bytes)) =
      if not last && retries E status bytes
      then locking (some token) true
      else finished (ok (status, bytes))
  after_answer token last (err e) = finished (err e)

  -- What a task does up to the next point, once it has what it waits for
  unfoldable pub advance : Task E → Session E → Task E × Session E
  advance start s = (after_look (fresh_of E s.world s.state), s)
  advance (locking stale last) s = (after_check last (kept E stale s.world s.state), s)
  advance (asking last) s =
      (after_lock last (renew client.token_manager s).0, (renew client.token_manager s).1)
  advance (sending token last) s = (
    after_answer token last (execute client (build token) s).0,
    (execute client (build token) s).1,
  )
  advance (finished r) s = (finished r, s)
  advance dropped s = (dropped, s)

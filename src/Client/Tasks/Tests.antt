-- ===== src/Client/Tasks/Tests.antt =====
-- Interleaved calls on concrete requests (src/client.rs).
use paratro_sdk_rust.Base.{refl, ℕ, ◌+◌, ◌≤◌, ◌≡◌, false, All, none, List, [], ◌∷◌, ◌++◌}
use paratro_sdk_rust.Base.Str.{Str, codes, ◌=ₛ◌}
use paratro_sdk_rust.Json.{find, has_key}
use paratro_sdk_rust.Session.{Env, Request, Session, call, from_slice}
use paratro_sdk_rust.Session.Scripted.{scripted, start, pending_document}
use paratro_sdk_rust.Token.{
  auth_request, kept, renew, renewed, store, refuse, auth_error, expires_at,
}
use paratro_sdk_rust.Token.Wire.{token_response_from, client_info_from}
use paratro_sdk_rust.Error.Wire.{error_body_from}
use paratro_sdk_rust.Base.Int.{sub_i64, wrap_i64, ◌-ℤ◌}
use paratro_sdk_rust.Client.{MpcClient, get_request, execute}
use paratro_sdk_rust.Client.Scripted.{client}
use paratro_sdk_rust.Client.Replaying
use paratro_sdk_rust.Client.Replaying.{replaying, begun, IsFirst, issues}
use paratro_sdk_rust.Client.Tasks.{Task, locking, asking, reading, guard_of, awaits, advance}
use paratro_sdk_rust.Client.Tasks.Schedule.{
  Job, IsFinished, drops, Steps, here, there, stop, more, starting, open_to,
}
use paratro_sdk_rust.Client.Tasks.Complete.{completed}
use paratro_sdk_rust.Client.Tasks.Issued.{Sound, sent-Sound}

abbrev wallets : Str → Request
wallets token = get_request (codes "https://g.io/api/v1/wallets") [] token

abbrev began : (E : Env) → List (Job E)
began E =
    record { build = wallets; task = Task.start }
    ∷ record { build = wallets; task = locking none false }
    ∷ []

completed_example :
    (m : ℕ) × (u : Session scripted) × (ls : List (Job scripted)) × Steps client m
      (start [])
      (began scripted)
      u
      ls
    × All (λ j. IsFinished j.task) ls
    × (drops ls ≡ drops (began scripted))
    × (1 + m ≤ 14)
unfolding advance guard_of awaits
completed_example = completed client (wallets ∷ wallets ∷ []) (more (there (here tt refl)) stop)

abbrev gateway : Env
gateway = replaying pending_document

abbrev gateway_client : MpcClient gateway
gateway_client = Replaying.client pending_document

-- The second call asks for a token, and the lock is not given to anyone else.
abbrev asks : List (Job gateway)
asks =
    record { build = wallets; task = Task.start }
    ∷ record { build = wallets; task = asking false }
    ∷ []

closed : open_to gateway_client reading asks ≡ false
unfolding guard_of
closed = refl

-- The second call has a token, and has sent its request.
abbrev third : Session gateway
third =
    (advance gateway_client wallets (Task.sending (codes "T1") false)
      (advance gateway_client wallets (asking false) (begun pending_document)).1).1

sent-Sound_example :
    (l : List Request) × (third.sent ≡ [] ++ l)
    × All
        (Sound gateway IsFirst gateway_client (starting gateway_client (wallets ∷ wallets ∷ [])))
        l
unfolding advance guard_of awaits kept renew renewed store refuse auth_error auth_request execute
    call from_slice token_response_from client_info_from error_body_from find has_key ◌=ₛ◌
    expires_at sub_i64 wrap_i64 ◌-ℤ◌ get_request
sent-Sound_example =
    sent-Sound gateway IsFirst gateway_client issues {s = begun pending_document}
      (wallets ∷ wallets ∷ []) tt
      (more (there (here tt refl)) (
        more (there (here tt refl))
          (more (there (here tt refl)) (more (there (here tt refl)) stop))))

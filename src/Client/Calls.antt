-- ===== src/Client/Calls.antt =====
-- The requests of the functions that the endpoints are built from (src/client.rs).
use paratro_sdk_rust.Base.{ℕ, ◌≡◌, List, ok}
use paratro_sdk_rust.Base.Str.{Str}
use paratro_sdk_rust.Json.{Value}
use paratro_sdk_rust.Session.{Env, Session}
use paratro_sdk_rust.Session.Trace.{Adds}
use paratro_sdk_rust.Client.{MpcClient, Target, post_with_status_and_headers, post_request, url}
use paratro_sdk_rust.Client.Retry.{Attempts, send-Adds}

module _ {E : Env} (client : MpcClient E) {A : Type 0} (t : Target A) (path : Str)
    (s : Session E) where
  module _ (v : Value) (headers : List (Str × Str)) (payload : List ℕ)
      (written : E.print v ≡ ok payload) where
    pub posted-Adds :
        Adds
          (Attempts client (post_request (url client path) headers payload))
          s
          (post_with_status_and_headers client t path v headers s).1
    unfolding post_with_status_and_headers
    posted-Adds =
        let sent = send-Adds client (post_request (url client path) headers payload) t s in
        rw written sent

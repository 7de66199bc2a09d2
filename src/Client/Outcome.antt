-- ===== src/Client/Outcome.antt =====
-- What a call returns, from the answers that its requests got (src/client.rs).
use paratro_sdk_rust.Base.{ℕ, ◌≡◌, false, List, ok}
use paratro_sdk_rust.Base.Str.{Str}
use paratro_sdk_rust.Session.{Env, Request, Session}
use paratro_sdk_rust.Token.{get_token}
use paratro_sdk_rust.Client.{
  MpcClient, Target, execute, retries, after_first, exchanges, send, decode_reply,
}

module _ {E : Env} (client : MpcClient E) (build : Str → Request) where
  module _ (s s1 s2 : Session E) (token : Str) (status : ℕ) (bytes : List ℕ) {A : Type 0}
      (t : Target A) where
    -- Where there is a token and the first attempt is answered, that answer is final unless it is
    -- a 401 whose body says that the token has expired.
    pub send_final :
        get_token client.token_manager s ≡ (ok token, s1)
        → execute client (build token) s1 ≡ (ok (status, bytes), s2)
        → retries E status bytes ≡ false
        → send client t build s ≡ (decode_reply E t status bytes, s2)
    unfolding send exchanges after_first
    send_final h k n = rw (h, k, n)

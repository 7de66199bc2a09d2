-- ===== src/Client/Replaying.antt =====
-- A gateway that repeats its answers under an idempotency key, for the runs of the tests. It answers
-- a request without a key by a token, and one with a key by a pending reply: the first time with
-- status 202, and from then on with 200. The world says whether it has answered.
use paratro_sdk_rust.Base.{
  ℕ, ◌≡◌, ◌↔◌, refl, Bool, true, false, Option, some, none, List, [], ◌∷◌, ◌==◌, if◌then◌else◌,
  Result, ok, err, arith,
}
use paratro_sdk_rust.Base.Str.{Str, codes, ◌=ₛ◌}
use paratro_sdk_rust.Config.{default_timeout}
use paratro_sdk_rust.Json.{Value}
use paratro_sdk_rust.Query.Lookup.{lookup}
use paratro_sdk_rust.Session.{Env, Response, Session}
use paratro_sdk_rust.Session.Scripted.{answers, token_document}
use paratro_sdk_rust.Client.{MpcClient}
use paratro_sdk_rust.Json.{find, has_key}
use paratro_sdk_rust.Session.{from_slice}
use paratro_sdk_rust.Session.Scripted.{pending_document}
use paratro_sdk_rust.Token.{auth_request}
use paratro_sdk_rust.Token.Issued.{Issues}
use paratro_sdk_rust.Token.Wire.{
  TokenResponse, token_response, token_response_from, client_info_from,
}
use paratro_sdk_rust.Client.Replay.{Replays}

abbrev answer : Option Str → Bool → Result (Response (Unit {0})) (Unit {0}) × Bool
answer none w = (ok (answers 200 (codes "tT1")), w)
answer (some key) false = (ok (answers 202 (codes "p")), true)
answer (some key) true = (ok (answers 200 (codes "p")), true)

-- A body that is no token stands for the given reply.
abbrev document : Value → List ℕ → Result Value (Unit {0})
document reply [] = err tt
document reply (c ∷ token) = ok (if c == b't' then token_document token else reply)

abbrev pub replaying : (reply : Value) → Env
replaying reply = record {
  HttpError = Unit {0};
  JsonError = Unit {0};
  HttpClient = Unit {0};
  World = Bool;
  build = λ timeout. ok tt;
  exchange = λ client request w. answer (lookup (codes "Idempotency-Key") request.headers) w;
  now = λ w. 0;
  parse = document reply;
  print = λ v. ok (codes "{}");
  mismatch = λ name v. tt;
}

abbrev saved : Bool → Option (List ℕ)
saved true = some (codes "p")
saved false = none

module _ (key : Str) (o : Option Str) (w : Bool) (keyed : o ≡ some key) where
  answer-saved :
      (v : Bool) (status : ℕ) (bytes : List ℕ)
      → answer o w ≡ (ok (record { status = status; body = ok bytes }), v)
      → saved v ≡ some bytes
  answer-saved v status bytes h = ground arith

  answer-repeats :
      (v : Bool) (status : ℕ) (bytes b : List ℕ)
      → saved w ≡ some b
      → answer o w ≡ (ok (record { status = status; body = ok bytes }), v)
      → (status ≡ 200) × (bytes ≡ b)
  answer-repeats v status bytes b h k = ground arith

answer-keeps :
    (o : Option Str) (w : Bool) (b : List ℕ) → saved w ≡ some b → saved (answer o w).1 ≡ some b
answer-keeps none w b h = h
answer-keeps (some key) true b h = h
answer-keeps (some key) false b h = cc

-- What is kept, since the start
abbrev since_start : Bool → Option (List ℕ × ℕ)
since_start true = some (codes "p", 0)
since_start false = none

saved-since_start :
    (w : Bool) (b : List ℕ) (n : ℕ) → (since_start w ≡ some (b, n)) ↔ (saved w ≡ some b × n ≡ 0)
saved-since_start true b n = ground arith
saved-since_start false b n = ground arith

pub replays : (reply : Value) (endpoint : Str) → Replays (replaying reply) endpoint
replays reply endpoint = record {
  cached = λ key w. since_start w;
  forward = λ c r w. omega arith;
  stored = λ c r key w v status bytes at keyed e below. (
    0,
    (saved-since_start v bytes 0).1 (
      answer-saved key (lookup (codes "Idempotency-Key") r.headers) w keyed v status bytes e,
      refl,
    ),
    omega arith,
  );
  kept = λ c r key w b n h below.
      let (is_saved, start) = (saved-since_start w b n).0 h in
      (saved-since_start (answer (lookup (codes "Idempotency-Key") r.headers) w).1 b n).1
        (answer-keeps (lookup (codes "Idempotency-Key") r.headers) w b is_saved, start);
  repeated = λ c r key w v status n bytes b at keyed h soon e below.
      answer-repeats key (lookup (codes "Idempotency-Key") r.headers) w keyed v status bytes b
        ((saved-since_start w b n).0 h).0 e;
}

abbrev pub client : (reply : Value) → MpcClient (replaying reply)
client reply = record {
  config = record { base_url = codes "https://g.io"; timeout = default_timeout };
  token_manager = record {
    api_key = codes "k";
    api_secret = codes "s";
    base_url = codes "https://g.io";
    http_client = tt;
  };
  http_client = tt;
}

-- A session without a token, before the first answer
abbrev pub begun : (reply : Value) → Session (replaying reply)
begun reply = record { state = none; world = false; sent = [] }

-- The one token of this gateway
abbrev pub IsFirst : Str → Type 0
IsFirst token = token ≡ codes "T1"

read-IsFirst :
    (bytes : List ℕ) (r : TokenResponse)
    → codes "tT1" ≡ bytes
    → from_slice (replaying pending_document) (codes "TokenResponse") token_response bytes ≡ ok r
    → IsFirst r.token
unfolding from_slice token_response_from client_info_from find has_key ◌=ₛ◌
read-IsFirst bytes r same read = ground (arith, same, read)

pub issues : Issues (replaying pending_document) IsFirst (client pending_document).token_manager
unfolding auth_request ◌=ₛ◌
issues w v status bytes r answer read = read-IsFirst bytes r (ground (arith, answer)) read

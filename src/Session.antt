-- ===== src/Session.antt =====
-- What the SDK is given from outside and what runs against it: the HTTP client (crate reqwest), the
-- JSON text (crate serde_json), the clock, and the state that one client shares between its calls.
pub mod Trace
pub mod World
pub mod Scripted
use paratro_sdk_rust.Base.{ℕ, Option, none, some, List, [], ◌∷◌, ◌++◌, Result, ok, err, ok_or}
use paratro_sdk_rust.Base.Str.{Str}
use paratro_sdk_rust.Base.Time.{Duration}
use paratro_sdk_rust.Error.{Error, http}
use paratro_sdk_rust.Json.{Value, Reader}

-- A request as it is built for the HTTP client.
pub record Request : Type 0 where
  pub method : Str
  pub url : Str
  pub headers : List (Str × Str)
  pub query : List (Str × Str)
  pub body : Option (List ℕ)

-- An answer: its status, and its body, which may break off.
pub record Response (H : Type 0) : Type 0 where
  pub status : ℕ
  pub body : Result (List ℕ) H

-- The code outside. `World` is all that its answers depend on; the clock is in nanoseconds.
pub record Env : Type 1 where
  pub HttpError : Type 0
  pub JsonError : Type 0
  pub HttpClient : Type 0
  pub World : Type 0
  pub build : Duration → Result HttpClient HttpError
  pub exchange : HttpClient → Request → World → Result (Response HttpError) HttpError × World
  pub now : World → ℕ
  pub parse : List ℕ → Result Value JsonError
  pub print : Value → Result (List ℕ) JsonError
  pub mismatch : Str → Value → JsonError

pub record TokenState : Type 0 where
  pub token : Str
  pub expires_at : ℕ

-- `token` is what the lock of the token manager guards; `sent` lists the requests handed to the
-- HTTP client so far, the first one first, and no operation reads it.
pub record Session (E : Env) : Type 0 where
  pub state : Option TokenState
  pub world : E.World
  pub sent : List Request

abbrev pub Failure : Env → Type 0
Failure E = Error E.HttpError E.JsonError

abbrev pub Action : Env → Type 0 → Type 0
Action E A = Session E → Result A (Failure E) × Session E

-- `map_err(Error::Http)`
abbrev pub or_http : {A H J : Type 0} → Result A H → Result A (Error H J)
or_http (ok a) = ok a
or_http (err e) = err (http e)

module _ {E : Env} where
  module _ {A B : Type 0} where
    abbrev pub continue_with : Result A (Failure E) → (A → Action E B) → Action E B
    continue_with (ok a) f s = f a s
    continue_with (err e) f s = (err e, s)

    -- `.await?`
    infixl 5 ◌>>=◌
    abbrev pub ◌>>=◌ : Action E A → (A → Action E B) → Action E B
    (m >>= f) s = continue_with (m s).0 f (m s).1

  module _ {A : Type 0} where
    abbrev pub return : A → Action E A
    return a s = (ok a, s)

    abbrev pub lift : Result A (Failure E) → Action E A
    lift r s = (r, s)

  -- `request.send().await`
  abbrev pub exchanged :
      Session E
      → Request
      → Result (Response E.HttpError) E.HttpError × E.World
      → Result (Response E.HttpError) (Failure E) × Session E
  exchanged s r (answer, w) = (or_http answer, record s { world = w; sent = s.sent ++ (r ∷ []) })

  unfoldable pub call : E.HttpClient → Request → Action E (Response E.HttpError)
  call c r s = exchanged s r (E.exchange c r s.world)

-- `serde_json::from_slice` and `to_vec`
module _ (E : Env) where
  module _ {A : Type 0} where
    abbrev read_value : Str → Reader A → Result Value E.JsonError → Result A E.JsonError
    read_value name reader (err e) = err e
    read_value name reader (ok v) = ok_or (reader v) (E.mismatch name v)

    unfoldable pub from_slice : Str → Reader A → List ℕ → Result A E.JsonError
    from_slice name reader bytes = read_value name reader (E.parse bytes)

  abbrev pub to_vec : Value → Result (List ℕ) E.JsonError
  to_vec v = E.print v

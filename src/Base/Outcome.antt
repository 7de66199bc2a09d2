-- ===== src/Base/Outcome.antt =====
-- Rust's `Result<T, E>`: `?` is the bind of a `do` block.
use mathlib.Core.Option.{Option, none, some}

pub data Result {ℓ κ} (A : Type ℓ) (E : Type κ) : Type (ℓ ⊔ κ) where
  ok : A → Result A E
  err : E → Result A E

module _ {ℓ κ ι} {A : Type ℓ} {B : Type κ} {E : Type ι} where
  infixl 5 ◌>>=◌
  abbrev pub ◌>>=◌ : Result A E → (A → Result B E) → Result B E
  ok a >>= f = f a
  err e >>= f = err e

-- `ok_or(e)` of an option
abbrev pub ok_or {ℓ κ} : {A : Type ℓ} {E : Type κ} → Option A → E → Result A E
ok_or none e = err e
ok_or (some a) e = ok a

-- `is_ok()`, as a statement
abbrev pub IsOk {ℓ κ} : {A : Type ℓ} {E : Type κ} → Result A E → Type 0
IsOk (ok a) = Unit
IsOk (err e) = ⊥

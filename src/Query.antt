-- ===== src/Query.antt =====
-- The query parameters of the list endpoints (src/wallet.rs, src/account.rs, src/asset.rs,
-- src/transaction.rs, src/x402.rs): a filter that is set is pushed on the vector, in the order given.
pub mod Lookup
use paratro_sdk_rust.Base.{Option, none, some, List, [], ◌∷◌, ◌++◌}
use paratro_sdk_rust.Base.Decimal.{to_string}
use paratro_sdk_rust.Base.Int.{ℤ}
use paratro_sdk_rust.Base.Str.{Str}

abbrev pub push_text : Str → Option Str → List (Str × Str) → List (Str × Str)
push_text key none params = params
push_text key (some x) params = params ++ ((key, x) ∷ [])

-- `to_string()` of a number that is set
abbrev pub shown : Option ℤ → Option Str
shown none = none
shown (some z) = some (to_string z)

abbrev pub push_number : Str → Option ℤ → List (Str × Str) → List (Str × Str)
push_number key z params = push_text key (shown z) params

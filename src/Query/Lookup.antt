-- ===== src/Query/Lookup.antt =====
-- What a server reads from the query parameters (src/transaction.rs).
use paratro_sdk_rust.Base.{
  false, ◌≡◌, refl, Option, none, some, List, [], ◌∷◌, ◌++◌, if◌then◌else◌, arith,
}
use paratro_sdk_rust.Base.Str.{Str, ◌=ₛ◌}
use paratro_sdk_rust.Base.Str.Laws.{=ₛ_refl}
use paratro_sdk_rust.Query.{push_text}

-- The value of the first parameter of a name
abbrev pub lookup : Str → List (Str × Str) → Option Str
lookup key [] = none
lookup key ((k, x) ∷ params) = if k =ₛ key then some x else lookup key params

lookup-append :
    (key k x : Str) (params : List (Str × Str))
    → lookup key params ≡ none
    → lookup key (params ++ ((k, x) ∷ [])) ≡ lookup key ((k, x) ∷ [])
lookup-append key k x [] h = refl
lookup-append key k x ((j, y) ∷ params) h = ground (arith, lookup-append key k x params)

lookup-append_other :
    (key k x : Str) (params : List (Str × Str))
    → (k =ₛ key) ≡ false
    → lookup key (params ++ ((k, x) ∷ [])) ≡ lookup key params
lookup-append_other key k x [] h = ground arith
lookup-append_other key k x ((j, y) ∷ params) h =
    ground (arith, lookup-append_other key k x params h)

-- Of a name that is not there yet
pub lookup-push_text :
    (key : Str) (o : Option Str) (params : List (Str × Str))
    → lookup key params ≡ none
    → lookup key (push_text key o params) ≡ o
lookup-push_text key none params h = h
lookup-push_text key (some x) params h =
    ground (arith, lookup-append key key x params h, =ₛ_refl key)

-- Of another name
pub lookup-push_text_other :
    (key k : Str) (o : Option Str) (params : List (Str × Str))
    → (k =ₛ key) ≡ false
    → lookup key (push_text k o params) ≡ lookup key params
lookup-push_text_other key k none params h = refl
lookup-push_text_other key k (some x) params h = lookup-append_other key k x params h

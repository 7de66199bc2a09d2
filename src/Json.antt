-- ===== src/Json.antt =====
-- JSON documents and the conversions that serde derives from the attributes of the SDK's structs:
-- the keys in the order of declaration, `rename`, `default`, `skip_serializing_if` and `tag`.
-- The text of a document and its parsing belong to the crate serde_json and are no part of this.
pub mod Laws
pub mod Texts
use paratro_sdk_rust.Base.{
  ◌/◌, ◌-◌, ◌%◌, ℕ, ◌%◌, ◌^◌, Bool, true, false, Option, none, some, List, [], ◌∷◌, ◌==◌,
  if◌then◌else◌, ltb, ◌^◌,
}
use paratro_sdk_rust.Base.Float.{f64_of_int}
use paratro_sdk_rust.Base.Int.{pos, ℤ, in_i32, in_i64, IsI32, IsI64}
use paratro_sdk_rust.Base.Str.{Str, ◌=ₛ◌}

mutual
  -- An `f64` is its bit pattern: of the number that is written, or that a text was read as.
  pub data Value : Type 0 where
    null : Value
    boolean : Bool → Value
    int : ℤ → Value
    float : ℕ → Value
    str : Str → Value
    arr : Items → Value
    obj : Fields → Value

  pub data Items : Type 0 where
    nil : Items
    cons : Value → Items → Items

  pub data Fields : Type 0 where
    end : Fields
    field : Str → Value → Fields → Fields

-- An optional field with `skip_serializing_if = "Option::is_none"`
abbrev pub field_unless_none {ℓ} : {A : Type ℓ} → Str → (A → Value) → Option A → Fields → Fields
field_unless_none k to none rest = rest
field_unless_none k to (some a) rest = field k (to a) rest

-- An optional field without it
abbrev pub or_null {ℓ} : {A : Type ℓ} → (A → Value) → Option A → Value
or_null to none = null
or_null to (some a) = to a

abbrev pub nat_to : ℕ → Value
nat_to n = int (pos n)

-- The exponent of an infinity and of no number is all ones; JSON has neither.
abbrev pub is_finite : ℕ → Bool
is_finite bits = ltb (bits / 2 ^ 52 % 2 ^ 11) (2 ^ 11 - 1)

abbrev pub float_to : ℕ → Value
float_to bits = if is_finite bits then float bits else null

unfoldable pub has_key : Str → Fields → Bool
has_key k end = false
has_key k (field j v fs) = if j =ₛ k then true else has_key k fs

-- What a document holds under a key: a key that occurs twice is refused.
pub data Found : Type 0 where
  duplicate missing : Found
  value : Value → Found

unfoldable pub find : Str → Fields → Found
unfolding has_key
find k end = missing
find k (field j v fs) = if j =ₛ k then (if has_key k fs then duplicate else value v) else find k fs

infixl 5 ◌>>=◌
abbrev pub ◌>>=◌ {ℓ κ} : {A : Type ℓ} {B : Type κ} → Option A → (A → Option B) → Option B
none >>= f = none
some a >>= f = f a

-- How a type is read, and a type that is also written.
abbrev pub Reader : Type 0 → Type 0
Reader A = Value → Option A

pub record Codec (A : Type 0) : Type 0 where
  pub to_value : A → Value
  pub from_value : Reader A

abbrev pub text : Reader Str
text (str s) = some s
text _ = none

abbrev pub bool : Reader Bool
bool (boolean b) = some b
bool _ = none

abbrev pub i32 : Reader ℤ
i32 (int z) = if in_i32 z then some z else none
i32 _ = none

abbrev pub i64 : Reader ℤ
i64 (int z) = if in_i64 z then some z else none
i64 _ = none

-- An integer that is no `u64` is refused.
abbrev pub u64 : Reader ℕ
u64 (int (pos n)) = if ltb n (2 ^ 64) then some n else none
u64 _ = none

-- An integer is accepted for a float, and rounded to the nearest one.
abbrev pub f64 : Reader ℕ
f64 (float bits) = some bits
f64 (int z) = some (f64_of_int z)
f64 _ = none

-- `serde_json::Value` itself
abbrev pub any_value : Reader Value
any_value = some

-- The fields of an object; a struct is read from nothing else here.
abbrev pub fields_of : Reader Fields
fields_of (obj fs) = some fs
fields_of _ = none

module _ {A : Type 0} (from_value : Reader A) where
  abbrev required_of : Found → Option A
  required_of (value v) = from_value v
  required_of _ = none

  abbrev pub some_of : Option A → Option (Option A)
  some_of none = none
  some_of (some a) = some (some a)

  abbrev option_from : Reader (Option A)
  option_from null = some none
  option_from v = some_of (from_value v)

  abbrev optional_of : Found → Option (Option A)
  optional_of duplicate = none
  optional_of missing = some none
  optional_of (value v) = option_from v

  abbrev defaulted_of : A → Found → Option A
  defaulted_of d duplicate = none
  defaulted_of d missing = some d
  defaulted_of d (value v) = from_value v

  -- A field with no attribute, an `Option` field, and a field with `#[serde(default)]`
  abbrev pub required : Str → Fields → Option A
  required k fs = required_of (find k fs)

  abbrev pub optional : Str → Fields → Option (Option A)
  optional k fs = optional_of (find k fs)

  abbrev pub defaulted : A → Str → Fields → Option A
  defaulted d k fs = defaulted_of d (find k fs)

  -- `Vec<T>`
  abbrev items_from : Items → Option (List A)
  items_from nil = some []
  items_from (cons v vs) = from_value v >>= λ a. items_from vs >>= λ as'. some (a ∷ as')

  abbrev pub vec : Reader (List A)
  vec (arr vs) = items_from vs
  vec _ = none

-- ===== src/Json/Laws.antt =====
-- Keys of an object behind an optional field.
use paratro_sdk_rust.Base.{false, ◌≡◌, refl, Option, none, some}
use paratro_sdk_rust.Base.{arith, true}
use paratro_sdk_rust.Base.Int.{ℤ, pos, negsuc, IsI32, IsI64, in_i32, in_i64}
use paratro_sdk_rust.Base.Str.{Str, ◌=ₛ◌}
use paratro_sdk_rust.Json.{Value, Fields, field_unless_none, has_key}

pub has_key_skip {ℓ} :
    {A : Type ℓ} (k j : Str) (to : A → Value) (o : Option A) (rest : Fields)
    → j =ₛ k ≡ false
    → has_key k (field_unless_none j to o rest) ≡ has_key k rest
unfolding has_key
has_key_skip k j to none rest h = refl
has_key_skip k j to (some a) rest h = rw h

-- A number of the type is in range.
pub in_i32_of : (z : ℤ) → IsI32 z → in_i32 z ≡ true
in_i32_of (pos n) h = ground arith
in_i32_of (negsuc n) h = ground arith

pub in_i64_of : (z : ℤ) → IsI64 z → in_i64 z ≡ true
in_i64_of (pos n) h = ground arith
in_i64_of (negsuc n) h = ground arith

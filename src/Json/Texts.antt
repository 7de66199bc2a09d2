-- ===== src/Json/Texts.antt =====
-- A document that was written as text and read again by the crate serde_json.
use paratro_sdk_rust.Base.{ℕ}
use paratro_sdk_rust.Json.{
  Value, null, boolean, int, float, str, arr, obj, Items, nil, cons, Fields, end, field,
}

-- Everything comes back but the last digits of a float: `reread` is the number that the text of a
-- float is read as, which need not be the float, unless the crate is built with `float_roundtrip`.
module _ (reread : ℕ → ℕ) where
  abbrev mutual
    pub reread_value : Value → Value
    reread_value null = null
    reread_value (boolean b) = boolean b
    reread_value (int z) = int z
    reread_value (float bits) = float (reread bits)
    reread_value (str s) = str s
    reread_value (arr vs) = arr (reread_items vs)
    reread_value (obj fs) = obj (reread_fields fs)

    reread_items : Items → Items
    reread_items nil = nil
    reread_items (cons v vs) = cons (reread_value v) (reread_items vs)

    pub reread_fields : Fields → Fields
    reread_fields end = end
    reread_fields (field k v fs) = field k (reread_value v) (reread_fields fs)

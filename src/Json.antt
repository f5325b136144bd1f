-- ===== src/Json.antt =====
-- `serde_json::Value`, the values that processors and the query builder exchange. A number is kept
-- by its printed form, and an object by its fields in order.
use jaiva.Prelude.{String, Bool, true, false, List, [], ◌∷◌}

mutual
  pub data Value : Type 0 where
    null : Value
    bool : Bool → Value
    number : String → Value
    string : String → Value
    array : Items → Value
    object : Fields → Value

  pub data Items : Type 0 where
    nil : Items
    cons : Value → Items → Items

  pub data Fields : Type 0 where
    end : Fields
    field : String → Value → Fields → Fields

-- `Value::is_null`.
unfoldable pub is_null : Value → Bool
is_null null = true
is_null _ = false

-- The elements of an array, as `as_array` hands them out.
unfoldable pub to_list : Items → List Value
to_list nil = []
to_list (cons v vs) = v ∷ to_list vs

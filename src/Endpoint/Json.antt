-- ===== src/Endpoint/Json.antt =====
-- What encoding/json decodes a body into, as Go's `any`: null, a bool, a float64, a string, a slice
-- or a map. The decoder is Go's: what it makes of a body is an argument of the endpoints.
use protobuf_interceptors.Base.{
  ℕ, suc, ◌*◌, ◌/◌, ◌%◌, ◌^◌, Bool, Option, none, some, List, [], ◌∷◌, ◌==◌, if◌then◌else◌,
}
use protobuf_interceptors.Text.Bytes.{Bytes, lookup}
use protobuf_interceptors.Text.Numbers.{ℤ, pos, negsuc}

-- A finite float64: a sign and `mantissa * 2 ^ exponent`. JSON has no other numbers.
pub record Float64 : Type 0 where
  pub negative : Bool
  pub mantissa : ℕ
  pub exponent : ℤ

mutual
  pub data Value : Type 0 where
    null : Value
    boolean : Bool → Value
    number : Float64 → Value
    string : Bytes → Value
    array : Items → Value
    object : Fields → Value

  pub data Items : Type 0 where
    no_items : Items
    item : Value → Items → Items

  pub data Fields : Type 0 where
    no_fields : Fields
    field : Bytes → Value → Fields → Fields

-- A slice, and a map by its keys and values.
abbrev pub items : Items → List Value
items no_items = []
items (item v vs) = v ∷ items vs

abbrev pub fields : Fields → List (Bytes × Value)
fields no_fields = []
fields (field k v fs) = (k, v) ∷ fields fs

abbrev pub Object : Type 0
Object = List (Bytes × Value)

-- The type assertions `v.(string)`, `v.(bool)`, `v.([]any)` and `v.(map[string]any)`.
abbrev pub as_string : Value → Option Bytes
as_string (string s) = some s
as_string _ = none

abbrev pub as_bool : Value → Option Bool
as_bool (boolean b) = some b
as_bool _ = none

abbrev pub as_array : Value → Option (List Value)
as_array (array vs) = some (items vs)
as_array _ = none

abbrev pub as_object : Value → Option Object
as_object (object fs) = some (fields fs)
as_object _ = none

-- `obj[k]`: null of a key that is not there, as Go's zero value of `any`.
unfoldable pub at : Bytes → Object → Value
unfolding lookup
at k obj = elim (lookup k obj) [ none ↦ null | some v ↦ v ]

-- The integer that a float64 without a fraction stands for, without its sign.
unfoldable pub magnitude : ℕ → ℤ → Option ℕ
magnitude m (pos e) = some (m * 2 ^ e)
magnitude m (negsuc e) = if m % 2 ^ suc e == 0 then some (m / 2 ^ suc e) else none

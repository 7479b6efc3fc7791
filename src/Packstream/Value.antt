-- ===== src/Packstream/Value.antt =====
-- The dynamic Go values that src/bolt/packstream/packstream.go packs and unpacks.
use gopher_cypher.Common.{ℕ, suc, List, Bool, Option, none, some, if◌then◌else◌, str_eq}
use gopher_cypher.Common.Int.{ℤ}

-- The dynamic types that `case int, int8, int16, int32, int64` names.
pub data IntKind : Type 0 where
  int int8 int16 int32 int64 : IntKind

-- A value of type interface{} by its dynamic type. A string is its bytes, a float64 its 64 bits.
-- `slice` is a typed slice such as []string or []int, whose elements are converted to interface{}
-- when they are read; `other` is a value of any type that the packer does not know.
-- A map is the list of its entries in the order in which `range` visits them.
mutual
  pub data Value : Type 0 where
    null : Value
    bool : Bool → Value
    integer : IntKind → ℤ → Value
    string : List ℕ → Value
    bytes : List ℕ → Value
    list : Items → Value
    slice : Items → Value
    dict : Fields → Value
    float64 : ℕ → Value
    uint8 : ℕ → Value
    other : Value

  pub data Items : Type 0 where
    no_items : Items
    item : Value → Items → Items

  pub data Fields : Type 0 where
    no_fields : Fields
    field : List ℕ → Value → Fields → Fields

abbrev pub length_items : Items → ℕ
length_items no_items = 0
length_items (item v xs) = suc (length_items xs)

abbrev pub length_fields : Fields → ℕ
length_fields no_fields = 0
length_fields (field k v fs) = suc (length_fields fs)

-- m[key] = value
unfoldable pub set_field : List ℕ → Value → Fields → Fields
set_field k v no_fields = field k v no_fields
set_field k v (field j w fs) =
    let rest = set_field k v fs in if str_eq j k then field j v fs else field j w rest

-- v, exists := m[key]
unfoldable pub get_field : List ℕ → Fields → Option Value
get_field k no_fields = none
get_field k (field j w fs) = let rest = get_field k fs in if str_eq j k then some w else rest

-- ===== src/Packstream/Canonical.antt =====
-- The value that comes back from the wire: every integer is an int64 and every slice a
-- []interface{}. And what makes a model value one that Go can hold.
use gopher_cypher.Common.{ℕ, List, ◌≡◌, refl, ap, false, str_eq, arith}
use gopher_cypher.Common.Int.{IsInt64}
use gopher_cypher.Packstream.Value.{
  Value, Items, Fields, null, bool, integer, string, bytes, list, slice, dict, float64, uint8,
  other, no_items, item, no_fields, field, int64, set_field,
}

unfoldable mutual
  pub canonical : Value → Value
  canonical null = null
  canonical (bool b) = bool b
  canonical (integer kind i) = integer int64 i
  canonical (string s) = string s
  canonical (bytes s) = bytes s
  canonical (list xs) = list (canonical_items xs)
  canonical (slice xs) = list (canonical_items xs)
  canonical (dict fs) = dict (canonical_fields fs)
  canonical (float64 bits) = float64 bits
  canonical (uint8 b) = uint8 b
  canonical other = other

  pub canonical_items : Items → Items
  canonical_items no_items = no_items
  canonical_items (item v xs) = item (canonical v) (canonical_items xs)

  pub canonical_fields : Fields → Fields
  canonical_fields no_fields = no_fields
  canonical_fields (field k v fs) = field k (canonical v) (canonical_fields fs)

-- No key of the map is `k`, and no key stands twice.
abbrev pub IsFresh : List ℕ → Fields → Type 0
IsFresh k no_fields = Unit
IsFresh k (field j v fs) = (str_eq k j ≡ false) × IsFresh k fs

abbrev pub HasDistinctKeys : Fields → Type 0
HasDistinctKeys no_fields = Unit
HasDistinctKeys (field k v fs) = IsFresh k fs × HasDistinctKeys fs

-- Integers fit 64 bits and maps have distinct keys, at every depth.
abbrev mutual
  pub IsGoValue : Value → Type 0
  IsGoValue (integer kind i) = IsInt64 i
  IsGoValue (list xs) = AreGoValues xs
  IsGoValue (slice xs) = AreGoValues xs
  IsGoValue (dict fs) = HasDistinctKeys fs × HaveGoValues fs
  IsGoValue _ = Unit

  pub AreGoValues : Items → Type 0
  AreGoValues no_items = Unit
  AreGoValues (item v xs) = IsGoValue v × AreGoValues xs

  pub HaveGoValues : Fields → Type 0
  HaveGoValues no_fields = Unit
  HaveGoValues (field k v fs) = IsGoValue v × HaveGoValues fs

abbrev pub append_fields : Fields → Fields → Fields
append_fields no_fields gs = gs
append_fields (field k v fs) gs = field k v (append_fields fs gs)

pub append_fields_assoc :
    (es bs cs : Fields)
    → append_fields (append_fields es bs) cs ≡ append_fields es (append_fields bs cs)
append_fields_assoc no_fields bs cs = refl
append_fields_assoc (field k v es) bs cs = ap (field k v) (append_fields_assoc es bs cs)

pub append_fields-nil : (es : Fields) → append_fields es no_fields ≡ es
append_fields-nil no_fields = refl
append_fields-nil (field k v es) = ap (field k v) (append_fields-nil es)

IsFresh-append_fields :
    (j k : List ℕ) (v : Value) (acc fs : Fields)
    → IsFresh j (append_fields acc (field k v fs))
    → str_eq j k ≡ false
IsFresh-append_fields j k v no_fields fs h = h.0
IsFresh-append_fields j k v (field i w acc) fs h = IsFresh-append_fields j k v acc fs h.1

-- Assigning to a key that is not there adds an entry.
pub set_field-fresh :
    (k : List ℕ) (v w : Value) (acc fs : Fields)
    → HasDistinctKeys (append_fields acc (field k w fs))
    → set_field k v acc ≡ append_fields acc (field k v no_fields)
unfolding set_field
set_field-fresh k v w no_fields fs h = refl
set_field-fresh k v w (field j u acc) fs h =
    ground (arith, IsFresh-append_fields j k w acc fs h.0, set_field-fresh k v w acc fs h.1)

IsFresh-snoc :
    (j k : List ℕ) (v w : Value) (acc fs : Fields)
    → IsFresh j (append_fields acc (field k w fs))
    → IsFresh j (append_fields acc (field k v fs))
IsFresh-snoc j k v w no_fields fs h = h
IsFresh-snoc j k v w (field i u acc) fs h = (h.0, IsFresh-snoc j k v w acc fs h.1)

pub HasDistinctKeys-value :
    (k : List ℕ) (v w : Value) (acc fs : Fields)
    → HasDistinctKeys (append_fields acc (field k w fs))
    → HasDistinctKeys (append_fields acc (field k v fs))
HasDistinctKeys-value k v w no_fields fs h = h
HasDistinctKeys-value k v w (field j u acc) fs h =
    (IsFresh-snoc j k v w acc fs h.0, HasDistinctKeys-value k v w acc fs h.1)

-- ===== src/Packstream/Encode.antt =====
-- The PackStream format, described apart from the code: which values have an encoding, and the
-- bytes of each. A string, list or map carries its size in the shortest of three headers.
use gopher_cypher.Common.{ℕ, ◌+◌, ◌<◌, List, [], ◌∷◌, ◌++◌, ltb, if◌then◌else◌, length}
use gopher_cypher.Common.Int.{ℤ, between, wrap, put_uint16, put_uint32, put_uint64}
use gopher_cypher.Packstream.Value.{
  Value, Items, Fields, null, bool, integer, string, list, slice, dict, no_items, item, no_fields,
  field, length_items, length_fields,
}

abbrev pub size_header : ℕ → ℕ → ℕ → ℕ → List ℕ
size_header tiny small large n =
    if ltb n 16 then (tiny + n) ∷ [] else if ltb n 256 then small ∷ n ∷ [] else large ∷ put_uint16 n

unfoldable pub encode_integer : ℤ → List ℕ
encode_integer i =
    if between 15 127 i
    then wrap 8 i ∷ []
    else if between 127 127 i
    then 0xc8 ∷ wrap 8 i ∷ []
    else if between 32767 32767 i
    then 0xc9 ∷ put_uint16 (wrap 16 i)
    else if between 2147483647 2147483647 i
    then 0xca ∷ put_uint32 (wrap 32 i)
    else 0xcb ∷ put_uint64 (wrap 64 i)

abbrev pub encode_string : List ℕ → List ℕ
encode_string s = size_header 0x80 0xd0 0xd1 (length s) ++ s

unfoldable mutual
  pub encode : Value → List ℕ
  encode null = 0xc0 ∷ []
  encode (bool b) = (if b then 0xc3 else 0xc2) ∷ []
  encode (integer kind i) = encode_integer i
  encode (string s) = encode_string s
  encode (list xs) = size_header 0x90 0xd4 0xd5 (length_items xs) ++ encode_items xs
  encode (slice xs) = size_header 0x90 0xd4 0xd5 (length_items xs) ++ encode_items xs
  encode (dict fs) = size_header 0xa0 0xd8 0xd9 (length_fields fs) ++ encode_fields fs
  encode _ = []

  pub encode_items : Items → List ℕ
  encode_items no_items = []
  encode_items (item v xs) = encode v ++ encode_items xs

  pub encode_fields : Fields → List ℕ
  encode_fields no_fields = []
  encode_fields (field k v fs) = encode_string k ++ (encode v ++ encode_fields fs)

-- The values that have an encoding: no []byte, float64, uint8 or other type, and every string,
-- list and map shorter than 65536.
abbrev mutual
  pub IsPackable : Value → Type 0
  IsPackable null = Unit
  IsPackable (bool b) = Unit
  IsPackable (integer kind i) = Unit
  IsPackable (string s) = length s < 65536
  IsPackable (list xs) = (length_items xs < 65536) × ArePackable xs
  IsPackable (slice xs) = (length_items xs < 65536) × ArePackable xs
  IsPackable (dict fs) = (length_fields fs < 65536) × HavePackable fs
  IsPackable _ = ⊥

  pub ArePackable : Items → Type 0
  ArePackable no_items = Unit
  ArePackable (item v xs) = IsPackable v × ArePackable xs

  pub HavePackable : Fields → Type 0
  HavePackable no_fields = Unit
  HavePackable (field k v fs) = (length k < 65536) × IsPackable v × HavePackable fs

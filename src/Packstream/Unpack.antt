-- ===== src/Packstream/Unpack.antt =====
-- The Unpacker of src/bolt/packstream/packstream.go, over a bytes.Buffer.
use gopher_cypher.Common.{
  ℕ, zero, suc, ◌+◌, ◌*◌, bit_and, List, [], ◌∷◌, true, false, ◌==◌, ltb, leb, length, take, drop,
  if◌then◌else◌,
}
use gopher_cypher.Common.Int.{pos, signed, big_endian}
use gopher_cypher.Packstream.Value.{
  Value, Items, Fields, null, bool, integer, string, list, dict, float64, uint8, int64, no_items,
  item, no_fields, set_field,
}

-- The ProtocolErrors that unpacking raises, with the numbers that the message reports.
pub data UnpackError : Type 0 where
  end_of_stream key_not_string : UnpackError
  short_read : ℕ → ℕ → UnpackError
  unknown_marker invalid_size : ℕ → UnpackError

-- Go's (value, error), with the bytes that are left. `stuck` is no Go outcome: out of fuel.
pub data Read {ℓ} (A : Type ℓ) : Type ℓ where
  ok : A → List ℕ → Read A
  err : UnpackError → Read A
  stuck : Read A

abbrev pub Reader {ℓ} : Type ℓ → Type ℓ
Reader A = List ℕ → Read A

abbrev pub bind {ℓ κ} : {A : Type ℓ} {B : Type κ} → Read A → (A → Reader B) → Read B
bind (ok a rest) f = f a rest
bind (err e) f = err e
bind stuck f = stuck

infixl 5 ◌>>=◌
abbrev pub ◌>>=◌ {ℓ κ} : {A : Type ℓ} {B : Type κ} → Reader A → (A → Reader B) → Reader B
◌>>=◌ m f input = bind (m input) f

abbrev pub pure {ℓ} : {A : Type ℓ} → A → Reader A
pure a rest = ok a rest

abbrev pub fail {ℓ} : {A : Type ℓ} → UnpackError → Reader A
fail e rest = err e

unfoldable pub read_byte : Reader ℕ
read_byte [] = err end_of_stream
read_byte (b ∷ rest) = ok b rest

-- io.ReadFull into a slice of `n` bytes, which reports how many bytes it got.
unfoldable pub read_bytes : ℕ → Reader (List ℕ)
read_bytes n input =
    if leb n (length input)
    then ok (take n input) (drop n input)
    else err (short_read n (length input))

unfoldable pub read_size : ℕ → Reader ℕ
read_size n = do
  b ← read_bytes n
  if n == 1
      then pure (big_endian 0 b)
      else if n == 2
      then pure (big_endian 0 b)
      else if n == 4
      then pure (big_endian 0 b)
      else fail (invalid_size n)

unfoldable pub read_int : ℕ → Reader Value
read_int n = do
  b ← read_bytes n
  if n == 1
      then pure (integer int64 (signed 8 (big_endian 0 b)))
      else if n == 2
      then pure (integer int64 (signed 16 (big_endian 0 b)))
      else if n == 4
      then pure (integer int64 (signed 32 (big_endian 0 b)))
      else if n == 8
      then pure (integer int64 (signed 64 (big_endian 0 b)))
      else fail (invalid_size n)

unfoldable pub unpack_string : ℕ → Reader Value
unpack_string size = do b ← read_bytes size; pure (string b)

unfoldable pub unpack_float64 : Reader Value
unpack_float64 = do b ← read_bytes 8; pure (float64 (big_endian 0 b))

-- keyVal.(string)
unfoldable pub string_key : Value → Reader (List ℕ)
string_key (string k) = pure k
string_key _ = fail key_not_string

-- The calls that read a composite value: the loops over items and over entries.
pub record Loops : Type 0 where
  pub items : ℕ → Reader Items
  pub entries : ℕ → Fields → Reader Fields

unfoldable pub unpack_list : Loops → ℕ → Reader Value
unpack_list loops size = do xs ← loops.items size; pure (list xs)

unfoldable pub unpack_map : Loops → ℕ → Reader Value
unpack_map loops size = do fs ← loops.entries size no_fields; pure (dict fs)

-- []interface{}{signature, fields}
unfoldable pub unpack_structure : Loops → ℕ → Reader Value
unpack_structure loops size = do
  signature ← read_byte
  fields ← loops.items size
  pure (list (item (uint8 signature) (item (list fields) no_items)))

-- The second switch of unpackValue, on the whole marker.
unfoldable pub unpack_sized : Loops → ℕ → Reader Value
unpack_sized loops marker =
    if marker == 0xc0
    then pure null
    else if marker == 0xc2
    then pure (bool false)
    else if marker == 0xc3
    then pure (bool true)
    else if marker == 0xc8
    then read_int 1
    else if marker == 0xc9
    then read_int 2
    else if marker == 0xca
    then read_int 4
    else if marker == 0xcb
    then read_int 8
    else if marker == 0xd0
    then (read_size 1 >>= unpack_string)
    else if marker == 0xd1
    then (read_size 2 >>= unpack_string)
    else if marker == 0xd4
    then (read_size 1 >>= unpack_list loops)
    else if marker == 0xd5
    then (read_size 2 >>= unpack_list loops)
    else if marker == 0xd8
    then (read_size 1 >>= unpack_map loops)
    else if marker == 0xd9
    then (read_size 2 >>= unpack_map loops)
    else if marker == 0xdc
    then (read_size 1 >>= unpack_structure loops)
    else if marker == 0xdd
    then (read_size 2 >>= unpack_structure loops)
    else if marker == 0xc1
    then unpack_float64
    else fail (unknown_marker marker)

unfoldable pub unpack_value : Loops → ℕ → Reader Value
unpack_value loops marker =
    let high = bit_and marker 0xf0 in
    let low = bit_and marker 0x0f in
    if ltb marker 0x80
    then pure (integer int64 (pos marker))
    else if leb 0xf0 marker
    then pure (integer int64 (signed 8 marker))
    else if high == 0x80
    then unpack_string low
    else if high == 0x90
    then unpack_list loops low
    else if high == 0xa0
    then unpack_map loops low
    else if high == 0xb0
    then unpack_structure loops low
    else unpack_sized loops marker

-- Unpacker.Unpack and the loops of unpackList and unpackMap. A call costs one unit of fuel.
unfoldable mutual
  pub unpack : ℕ → Reader Value
  unpack zero input = stuck
  unpack (suc f) input =
      (read_byte
          >>= unpack_value
              (record { items = λ n. unpack_items f n; entries = λ n. unpack_fields f n }))
        input

  pub unpack_items : ℕ → ℕ → Reader Items
  unpack_items zero size input = stuck
  unpack_items (suc f) zero input = ok no_items input
  unpack_items (suc f) (suc n) input =
      ((λ r. unpack f r) >>= (λ v. (λ r. unpack_items f n r) >>= (λ xs. pure (item v xs)))) input

  pub unpack_fields : ℕ → ℕ → Fields → Reader Fields
  unpack_fields zero size result input = stuck
  unpack_fields (suc f) zero result input = ok result input
  unpack_fields (suc f) (suc n) result input =
      ((λ r. unpack f r) >>= (λ key_val.
          string_key key_val
          >>= (λ key. (λ r. unpack f r) >>= (λ v r. unpack_fields f n (set_field key v result) r))))
        input

-- The function Unpack: the bytes after the first value are not looked at.
unfoldable pub unpack_bytes : Reader Value
unpack_bytes input = unpack (2 * length input + 1) input

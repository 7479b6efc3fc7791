-- ===== src/Packstream/Markers.antt =====
-- How the unpacker reads each header that the format defines: one step of Unpacker.Unpack on a
-- marker and its size, whatever follows.
use gopher_cypher.Common.{
  inr, inl, append_assoc, Bool-cases, true, ap, length-append, drop, take, ℕ, ◌+◌, ◌<◌, ◌≡◌, refl,
  arith, List, [], ◌∷◌, ◌++◌, length,
}
use native.Mathlib.Nat.{zero-add}
use gopher_cypher.Common.Bits.{high_nibble, low_nibble}
use gopher_cypher.Common.Int.{
  signed-wrap_32, big_endian-put_uint32, signed-wrap_16, signed-wrap_64, wrap-lt,
  big_endian-put_uint64, put_uint32, signed-wrap_8, wrap, between, put_uint64, put_uint16, ℤ, pos,
  negsuc, IsInt64, big_endian-put_uint16,
}
use gopher_cypher.Packstream.Value.{Value, integer, string, int64}
use gopher_cypher.Packstream.Encode.{size_header, encode_string, encode_integer}
use gopher_cypher.Packstream.Unpack.{
  read_int, read_size, ok, Reader, ◌>>=◌, read_byte, read_bytes, unpack_value, unpack_sized,
  unpack_list, unpack_map, unpack_string, Loops,
}

take-append : (xs ys : List ℕ) → take (length xs) (xs ++ ys) ≡ xs
take-append [] ys = refl
take-append (x ∷ xs) ys = ap (λ t. x ∷ t) (take-append xs ys)

drop-append : (xs ys : List ℕ) → drop (length xs) (xs ++ ys) ≡ ys
drop-append [] ys = refl
drop-append (x ∷ xs) ys = drop-append xs ys

-- Bytes that are there are read, and what follows stays.
pub read_bytes-append : (bs rest : List ℕ) → read_bytes (length bs) (bs ++ rest) ≡ ok bs rest
unfolding read_bytes
read_bytes-append bs rest =
    ground (arith, take-append bs rest, drop-append bs rest, length-append bs rest)

read_size_byte : (b : ℕ) (rest : List ℕ) → read_size 1 (b ∷ rest) ≡ ok b rest
unfolding read_size
read_size_byte b rest = rw (read_bytes-append (b ∷ []) rest) (ap (λ x. ok x rest) (omega arith))

read_size_uint16 :
    (n : ℕ) (rest : List ℕ) → n < 65536 → read_size 2 (put_uint16 n ++ rest) ≡ ok n rest
unfolding read_size
read_size_uint16 n rest h =
    rw (read_bytes-append (put_uint16 n) rest) (ap (λ x. ok x rest) (big_endian-put_uint16 n h))

-- One value: its marker, and what the marker announces.
abbrev pub unpack_step : Loops → Reader Value
unpack_step loops = read_byte >>= unpack_value loops

module _ (loops : Loops) where
  pub unpack_step-list_header :
      (n : ℕ) (rest : List ℕ)
      → n < 65536
      → unpack_step loops (size_header 0x90 0xd4 0xd5 n ++ rest) ≡ unpack_list loops n rest
  unfolding read_byte unpack_value unpack_sized
  unpack_step-list_header n rest h = ground (
    arith,
    high_nibble (0x90 + n),
    low_nibble (0x90 + n),
    read_size_byte n rest,
    read_size_uint16 n rest,
  )

  pub unpack_step-map_header :
      (n : ℕ) (rest : List ℕ)
      → n < 65536
      → unpack_step loops (size_header 0xa0 0xd8 0xd9 n ++ rest) ≡ unpack_map loops n rest
  unfolding read_byte unpack_value unpack_sized
  unpack_step-map_header n rest h = ground (
    arith,
    high_nibble (0xa0 + n),
    low_nibble (0xa0 + n),
    read_size_byte n rest,
    read_size_uint16 n rest,
  )

  pub unpack_step-string_header :
      (n : ℕ) (rest : List ℕ)
      → n < 65536
      → unpack_step loops (size_header 0x80 0xd0 0xd1 n ++ rest) ≡ unpack_string n rest
  unfolding read_byte unpack_value unpack_sized
  unpack_step-string_header n rest h = ground (
    arith,
    high_nibble (0x80 + n),
    low_nibble (0x80 + n),
    read_size_byte n rest,
    read_size_uint16 n rest,
  )

read_int_byte :
    (i : ℤ) (rest : List ℕ)
    → between 127 127 i ≡ true
    → read_int 1 (wrap 8 i ∷ rest) ≡ ok (integer int64 i) rest
unfolding read_int
read_int_byte i rest h =
    rw (read_bytes-append (wrap 8 i ∷ []) rest) (rw (zero-add, signed-wrap_8 i h))

read_int_uint16 :
    (i : ℤ) (rest : List ℕ)
    → between 32767 32767 i ≡ true
    → read_int 2 (put_uint16 (wrap 16 i) ++ rest) ≡ ok (integer int64 i) rest
unfolding read_int
read_int_uint16 i rest h =
    rw (read_bytes-append (put_uint16 (wrap 16 i)) rest)
      (rw (big_endian-put_uint16 _ (wrap-lt 16 i), signed-wrap_16 i h))

read_int_uint32 :
    (i : ℤ) (rest : List ℕ)
    → between 2147483647 2147483647 i ≡ true
    → read_int 4 (put_uint32 (wrap 32 i) ++ rest) ≡ ok (integer int64 i) rest
unfolding read_int
read_int_uint32 i rest h =
    rw (read_bytes-append (put_uint32 (wrap 32 i)) rest)
      (rw (big_endian-put_uint32 _ (wrap-lt 32 i), signed-wrap_32 i h))

read_int_uint64 :
    (i : ℤ) (rest : List ℕ)
    → IsInt64 i
    → read_int 8 (put_uint64 (wrap 64 i) ++ rest) ≡ ok (integer int64 i) rest
unfolding read_int
read_int_uint64 i rest h =
    rw (read_bytes-append (put_uint64 (wrap 64 i)) rest)
      (rw (big_endian-put_uint64 _ (wrap-lt 64 i), signed-wrap_64 i h))

module _ (loops : Loops) where
  unpack_step-tiny_integer :
      (i : ℤ) (rest : List ℕ)
      → between 15 127 i ≡ true
      → unpack_step loops (wrap 8 i ∷ rest) ≡ ok (integer int64 i) rest
  unfolding read_byte unpack_value
  unpack_step-tiny_integer (pos n) rest h = ground arith
  unpack_step-tiny_integer (negsuc n) rest h = ground arith

  pub unpack_step-encode_integer :
      (i : ℤ) (rest : List ℕ)
      → IsInt64 i
      → unpack_step loops (encode_integer i ++ rest) ≡ ok (integer int64 i) rest
  unfolding read_byte unpack_value unpack_sized encode_integer
  unpack_step-encode_integer i rest h = elim (Bool-cases (between 15 127 i)) [
    | inl e ↦ rw e (unpack_step-tiny_integer i rest e)
    | inr e ↦ rw e (elim (Bool-cases (between 127 127 i)) [
      | inl d ↦ rw d (read_int_byte i rest d)
      | inr d ↦ rw d (elim (Bool-cases (between 32767 32767 i)) [
        | inl c ↦ rw c (read_int_uint16 i rest c)
        | inr c ↦ rw c (elim (Bool-cases (between 2147483647 2147483647 i)) [
          | inl b ↦ rw b (read_int_uint32 i rest b)
          | inr b ↦ rw b (read_int_uint64 i rest h)
        ])
      ])
    ])
  ]

  pub unpack_step-encode_string :
      (s rest : List ℕ)
      → length s < 65536
      → unpack_step loops (encode_string s ++ rest) ≡ ok (string s) rest
  unpack_step-encode_string s rest h =
      rw (append_assoc, unpack_step-string_header loops (length s) (s ++ rest) h)
        (unfold unpack_string in rw (read_bytes-append s rest))

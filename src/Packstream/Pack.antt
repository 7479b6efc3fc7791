-- ===== src/Packstream/Pack.antt =====
-- The Packer of src/bolt/packstream/packstream.go, over a bytes.Buffer.
use gopher_cypher.Common.{
  ℕ, ◌%◌, bit_or, List, [], ◌∷◌, ◌++◌, Bool, true, false, ltb, if◌then◌else◌, length,
}
use gopher_cypher.Common.Int.{ℤ, between, wrap, put_uint16, put_uint32, put_uint64}
use gopher_cypher.Packstream.Value.{
  Value, Items, Fields, null, bool, integer, string, bytes, list, slice, dict, float64, uint8,
  other, no_items, item, no_fields, field, length_items, length_fields,
}

-- The ProtocolErrors that packing raises, with the size that the message reports.
pub data PackError : Type 0 where
  bytes_not_supported cannot_pack_type : PackError
  list_too_large string_too_large map_too_large : ℕ → PackError

-- What a call leaves: the buffer, and an error if there is one. A bytes.Buffer takes every write,
-- and what was written before an error stays written.
pub data Written : Type 0 where
  done : List ℕ → Written
  failed : PackError → List ℕ → Written

-- if err := ...; err != nil { return err }
infixl 5 ◌and_then◌
abbrev pub ◌and_then◌ : Written → (List ℕ → Written) → Written
done buffer and_then k = k buffer
failed e buffer and_then k = failed e buffer

unfoldable pub write_marker : List ℕ → List ℕ → Written
write_marker marker buffer = done (buffer ++ marker)

unfoldable pub write_marker_and_data : List ℕ → List ℕ → List ℕ → Written
write_marker_and_data marker data_bytes buffer =
    if ltb 0 (length data_bytes)
    then done ((buffer ++ marker) ++ data_bytes)
    else done (buffer ++ marker)

unfoldable pub pack_list_header : ℕ → List ℕ → Written
unfolding write_marker
pack_list_header size buffer =
    if ltb size 16
    then write_marker (bit_or 0x90 (size % 256) ∷ []) buffer
    else if ltb size 256
    then write_marker (0xd4 ∷ (size % 256) ∷ []) buffer
    else if ltb size 65536
    then write_marker (0xd5 ∷ put_uint16 (size % 65536)) buffer
    else failed (list_too_large size) buffer

unfoldable pub pack_string : List ℕ → List ℕ → Written
unfolding write_marker_and_data
pack_string str buffer =
    let size = length str in
    if ltb size 16
    then write_marker_and_data (bit_or 0x80 (size % 256) ∷ []) str buffer
    else if ltb size 256
    then write_marker_and_data (0xd0 ∷ (size % 256) ∷ []) str buffer
    else if ltb size 65536
    then write_marker_and_data (0xd1 ∷ put_uint16 (size % 65536)) str buffer
    else failed (string_too_large size) buffer

-- The size marker that packMap writes before the entries.
unfoldable pub pack_map_header : ℕ → List ℕ → Written
unfolding write_marker
pack_map_header size buffer =
    if ltb size 16
    then write_marker (bit_or 0xa0 (size % 256) ∷ []) buffer
    else if ltb size 256
    then write_marker (0xd8 ∷ (size % 256) ∷ []) buffer
    else if ltb size 65536
    then write_marker (0xd9 ∷ put_uint16 (size % 65536)) buffer
    else failed (map_too_large size) buffer

-- `i >= MIN && i <= MAX` is `between (-MIN - 1) MAX i`.
unfoldable pub pack_integer : ℤ → List ℕ → Written
unfolding write_marker write_marker_and_data
pack_integer i buffer =
    if between 15 127 i
    then write_marker (wrap 8 i ∷ []) buffer
    else if between 127 127 i
    then write_marker_and_data (0xc8 ∷ []) (wrap 8 i ∷ []) buffer
    else if between 32767 32767 i
    then write_marker_and_data (0xc9 ∷ []) (put_uint16 (wrap 16 i)) buffer
    else if between 2147483647 2147483647 i
    then write_marker_and_data (0xca ∷ []) (put_uint32 (wrap 32 i)) buffer
    else write_marker_and_data (0xcb ∷ []) (put_uint64 (wrap 64 i)) buffer

unfoldable pub pack_bool : Bool → List ℕ → Written
unfolding write_marker
pack_bool true = write_marker (0xc3 ∷ [])
pack_bool false = write_marker (0xc2 ∷ [])

-- Packer.Pack. The loops of packList and of packReflectSlice are the same loop over the items.
unfoldable mutual
  pub pack : Value → List ℕ → Written
  pack null buffer = write_marker (0xc0 ∷ []) buffer
  pack (bool b) buffer = pack_bool b buffer
  pack (integer kind i) buffer = pack_integer i buffer
  pack (string s) buffer = pack_string s buffer
  pack (bytes s) buffer = failed bytes_not_supported buffer
  pack (list xs) buffer = pack_list_header (length_items xs) buffer and_then (λ b. pack_items xs b)
  pack (slice xs) buffer = pack_list_header (length_items xs) buffer and_then (λ b. pack_items xs b)
  pack (dict fs) buffer = pack_map_header (length_fields fs) buffer and_then (λ b. pack_fields fs b)
  pack (float64 bits) buffer = failed cannot_pack_type buffer
  pack (uint8 b) buffer = failed cannot_pack_type buffer
  pack other buffer = failed cannot_pack_type buffer

  pub pack_items : Items → List ℕ → Written
  pack_items no_items buffer = done buffer
  pack_items (item v xs) buffer = pack v buffer and_then (λ b. pack_items xs b)

  pub pack_fields : Fields → List ℕ → Written
  pack_fields no_fields buffer = done buffer
  pack_fields (field k v fs) buffer =
      pack_string k buffer and_then (λ b. pack v b and_then (λ c. pack_fields fs c))

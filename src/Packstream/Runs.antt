-- ===== src/Packstream/Runs.antt =====
-- Concrete runs of the packer and the unpacker.
use gopher_cypher.Packstream.Encode.{encode, IsPackable}
use gopher_cypher.Common.{arith, ◌⊎◌, ◌<◌, ◌↔◌, ℕ, List, ◌≡◌, refl, true, [], ◌∷◌, ◌++◌, length}
use gopher_cypher.Common.Int.{negsuc}
use gopher_cypher.Packstream.Value.{
  Value, list, integer, string, bool, dict, int, item, no_items, field, no_fields,
}
use gopher_cypher.Packstream.Pack.{
  write_marker, write_marker_and_data, pack_string, pack_list_header, pack_map_header, pack_integer,
  pack_bool, done, pack,
}
use gopher_cypher.Packstream.Unpack.{unpack_bytes, Read, UnpackError}
use gopher_cypher.Packstream.Canonical.{canonical, IsGoValue}
use gopher_cypher.Packstream.RoundTrip.{unpack-pack}
use gopher_cypher.Packstream.Appends.{pack-eq-done_iff}
use gopher_cypher.Packstream.Termination.{unpack_bytes_total}
use gopher_cypher.Packstream.Prefix.{unpack_truncated}

pack_minus_300 : pack (integer int (negsuc 299)) [] ≡ done (0xc9 ∷ 0xfe ∷ 0xd4 ∷ [])
unfolding pack pack_integer
pack_minus_300 = refl

-- ["a", -300, {"k": true}]
abbrev sample : Value
sample = list (
    item (string (b'a' ∷ [])) (
      item (integer int (negsuc 299))
        (item (dict (field (b'k' ∷ []) (bool true) no_fields)) no_items)))

abbrev sample_bytes : List ℕ
sample_bytes = 0x93 ∷ 0x81 ∷ b'a' ∷ 0xc9 ∷ 0xfe ∷ 0xd4 ∷ 0xa1 ∷ 0x81 ∷ b'k' ∷ 0xc3 ∷ []

pack-sample : pack sample [] ≡ done sample_bytes
unfolding pack pack_list_header pack_string pack_map_header pack_integer pack_bool write_marker
    write_marker_and_data
pack-sample = refl

sample-IsGoValue : IsGoValue sample
sample-IsGoValue = (tt, (omega arith, (((tt, tt), (tt, tt)), tt)))

unpack-pack_example : unpack_bytes (sample_bytes ++ (7 ∷ [])) ≡ Read.ok (canonical sample) (7 ∷ [])
unpack-pack_example = unpack-pack sample (7 ∷ []) sample_bytes sample-IsGoValue pack-sample

pack-eq-done_iff_example :
    (pack sample (7 ∷ []) ≡ done (7 ∷ sample_bytes))
    ↔ (IsPackable sample × (7 ∷ sample_bytes ≡ (7 ∷ []) ++ encode sample))
pack-eq-done_iff_example = pack-eq-done_iff sample (7 ∷ []) (7 ∷ sample_bytes)

unpack_bytes_total_example :
    ((v : Value) × (rest : List ℕ) × (unpack_bytes sample_bytes ≡ Read.ok v rest)
      × (length rest < length sample_bytes))
    ⊎ ((e : UnpackError) × (unpack_bytes sample_bytes ≡ Read.err e))
unpack_bytes_total_example = unpack_bytes_total sample_bytes

unpack_truncated_example : (e : UnpackError) × (unpack_bytes (0x93 ∷ 0x81 ∷ b'a' ∷ []) ≡ Read.err e)
unpack_truncated_example =
    unpack_truncated sample (0x93 ∷ 0x81 ∷ b'a' ∷ []) (0xfe ∷ 0xd4 ∷ 0xa1 ∷ 0x81 ∷ b'k' ∷ 0xc3 ∷ [])
      0xc9 sample-IsGoValue pack-sample

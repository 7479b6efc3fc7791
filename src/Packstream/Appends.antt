-- ===== src/Packstream/Appends.antt =====
-- What Packer.Pack of src/bolt/packstream/packstream.go writes.
use gopher_cypher.Common.{
  ap, inr, inl, Bool-cases, Bool, ℕ, ◌<◌, ◌≡◌, refl, sym, ◌∙◌, arith, List, [], ◌∷◌, ◌++◌, true,
  false, length, append-nil, append_assoc, ◌↔◌,
}
use gopher_cypher.Common.Bits.{tiny_string_marker, tiny_list_marker, tiny_map_marker}
use gopher_cypher.Common.Int.{ℤ, between}
use gopher_cypher.Packstream.Value.{
  Value, Items, Fields, null, bool, integer, string, bytes, list, slice, dict, float64, uint8,
  other, no_items, item, no_fields, field,
}
use gopher_cypher.Packstream.Pack.{
  Written, done, failed, ◌and_then◌, pack_list_header, pack_string, pack_map_header, pack_integer,
  pack_bool, pack, pack_items, pack_fields, write_marker,
}
use gopher_cypher.Packstream.Encode.{
  encode_fields, encode_items, HavePackable, ArePackable, encode_integer, IsPackable, encode,
  encode_string, size_header,
}

pack_list_header-size_header :
    (n : ℕ) (buffer : List ℕ)
    → n < 65536
    → pack_list_header n buffer ≡ done (buffer ++ size_header 0x90 0xd4 0xd5 n)
unfolding pack_list_header
pack_list_header-size_header n buffer h = ground (arith, tiny_list_marker n)

pack_map_header-size_header :
    (n : ℕ) (buffer : List ℕ)
    → n < 65536
    → pack_map_header n buffer ≡ done (buffer ++ size_header 0xa0 0xd8 0xd9 n)
unfolding pack_map_header
pack_map_header-size_header n buffer h = ground (arith, tiny_map_marker n)

pack_string-encode_string :
    (s buffer : List ℕ) → length s < 65536 → pack_string s buffer ≡ done (buffer ++ encode_string s)
unfolding pack_string
pack_string-encode_string [] buffer h = refl
pack_string-encode_string (c ∷ s) buffer h = ground (
  arith,
  tiny_string_marker (length (c ∷ s)),
  append_assoc buffer (size_header 0x80 0xd0 0xd1 (length (c ∷ s))) (c ∷ s),
)

pack_integer-encode_integer :
    (i : ℤ) (buffer : List ℕ) → pack_integer i buffer ≡ done (buffer ++ encode_integer i)
unfolding pack_integer encode_integer
pack_integer-encode_integer i buffer = elim (Bool-cases (between 15 127 i)) [
  | inl e ↦ rw e
  | inr e ↦ rw e (elim (Bool-cases (between 127 127 i)) [
    | inl d ↦ rw d (rw append_assoc)
    | inr d ↦ rw d (elim (Bool-cases (between 32767 32767 i)) [
      | inl c ↦ rw c (rw append_assoc)
      | inr c ↦ rw c (elim (Bool-cases (between 2147483647 2147483647 i)) [
        | inl b ↦ rw b (rw append_assoc)
        | inr b ↦ rw b (rw append_assoc)
      ])
    ])
  ])
]

pack_bool-encode :
    (b : Bool) (buffer : List ℕ) → pack_bool b buffer ≡ done (buffer ++ encode (bool b))
unfolding pack_bool encode
pack_bool-encode true buffer = refl
pack_bool-encode false buffer = refl

-- Packing appends the encoding, whatever the buffer holds.
mutual
  unfolding pack encode write_marker

  pub pack-encode :
      (v : Value) (buffer : List ℕ) → IsPackable v → pack v buffer ≡ done (buffer ++ encode v)
  pack-encode null buffer h = refl
  pack-encode (bool b) buffer h = pack_bool-encode b buffer
  pack-encode (integer kind i) buffer h = pack_integer-encode_integer i buffer
  pack-encode (string s) buffer h = pack_string-encode_string s buffer h
  pack-encode (bytes s) buffer h = absurd h
  pack-encode (list xs) buffer h =
      rw (pack_list_header-size_header _ buffer h.0, pack_items-encode xs _ h.1, append_assoc)
  pack-encode (slice xs) buffer h =
      rw (pack_list_header-size_header _ buffer h.0, pack_items-encode xs _ h.1, append_assoc)
  pack-encode (dict fs) buffer h =
      rw (pack_map_header-size_header _ buffer h.0, pack_fields-encode fs _ h.1, append_assoc)
  pack-encode (float64 bits) buffer h = absurd h
  pack-encode (uint8 b) buffer h = absurd h
  pack-encode other buffer h = absurd h

  pub pack_items-encode :
      (xs : Items) (buffer : List ℕ)
      → ArePackable xs
      → pack_items xs buffer ≡ done (buffer ++ encode_items xs)
  pack_items-encode no_items buffer h = rw append-nil
  pack_items-encode (item v xs) buffer h =
      rw (pack-encode v buffer h.0, pack_items-encode xs _ h.1, append_assoc)

  pack_fields-encode :
      (fs : Fields) (buffer : List ℕ)
      → HavePackable fs
      → pack_fields fs buffer ≡ done (buffer ++ encode_fields fs)
  pack_fields-encode no_fields buffer h = rw append-nil
  pack_fields-encode (field k v fs) buffer h =
      rw (pack_string-encode_string k buffer h.0, pack-encode v _ h.1, pack_fields-encode fs _ h.2)
        (simp append_assoc)

and_then-done :
    (w : Written) (k : List ℕ → Written) (out : List ℕ)
    → (w and_then k) ≡ done out
    → (b : List ℕ) × (w ≡ done b) × (k b ≡ done out)
and_then-done (done b) k out h = (b, refl, h)
and_then-done (failed e b) k out h = cc

pack_list_header-bound :
    (n : ℕ) (buffer out : List ℕ) → pack_list_header n buffer ≡ done out → n < 65536
unfolding pack_list_header
pack_list_header-bound n buffer out h = ground arith

pack_map_header-bound :
    (n : ℕ) (buffer out : List ℕ) → pack_map_header n buffer ≡ done out → n < 65536
unfolding pack_map_header
pack_map_header-bound n buffer out h = ground arith

pack_string-bound : (s buffer out : List ℕ) → pack_string s buffer ≡ done out → length s < 65536
unfolding pack_string
pack_string-bound s buffer out h = ground arith

mutual
  unfolding pack

  pack-IsPackable : (v : Value) (buffer out : List ℕ) → pack v buffer ≡ done out → IsPackable v
  pack-IsPackable null buffer out h = tt
  pack-IsPackable (bool b) buffer out h = tt
  pack-IsPackable (integer kind i) buffer out h = tt
  pack-IsPackable (string s) buffer out h = pack_string-bound s buffer out h
  pack-IsPackable (bytes s) buffer out h = cc
  pack-IsPackable (list xs) buffer out h =
      let (b, p, q) = and_then-done _ (λ b. pack_items xs b) out h in
      (pack_list_header-bound _ buffer b p, pack_items-ArePackable xs b out q)
  pack-IsPackable (slice xs) buffer out h =
      let (b, p, q) = and_then-done _ (λ b. pack_items xs b) out h in
      (pack_list_header-bound _ buffer b p, pack_items-ArePackable xs b out q)
  pack-IsPackable (dict fs) buffer out h =
      let (b, p, q) = and_then-done _ (λ b. pack_fields fs b) out h in
      (pack_map_header-bound _ buffer b p, pack_fields-HavePackable fs b out q)
  pack-IsPackable (float64 bits) buffer out h = cc
  pack-IsPackable (uint8 b) buffer out h = cc
  pack-IsPackable other buffer out h = cc

  pub pack_items-ArePackable :
      (xs : Items) (buffer out : List ℕ) → pack_items xs buffer ≡ done out → ArePackable xs
  pack_items-ArePackable no_items buffer out h = tt
  pack_items-ArePackable (item v xs) buffer out h =
      let (b, p, q) = and_then-done _ (λ b. pack_items xs b) out h in
      (pack-IsPackable v buffer b p, pack_items-ArePackable xs b out q)

  pack_fields-HavePackable :
      (fs : Fields) (buffer out : List ℕ) → pack_fields fs buffer ≡ done out → HavePackable fs
  pack_fields-HavePackable no_fields buffer out h = tt
  pack_fields-HavePackable (field k v fs) buffer out h =
      let (b, p, q) = and_then-done _ (λ b. pack v b and_then (λ c. pack_fields fs c)) out h in
      let (c, r, s) = and_then-done _ (λ c. pack_fields fs c) out q in
      (pack_string-bound k buffer b p, pack-IsPackable v b c r, pack_fields-HavePackable fs c out s)

done-injective : (a b : List ℕ) → done a ≡ done b → a ≡ b
done-injective a b h = cc

-- Packing succeeds exactly on the values that have an encoding, and then it appends that encoding
-- to whatever the buffer held.
pub pack-eq-done_iff :
    (v : Value) (buffer out : List ℕ)
    → (pack v buffer ≡ done out) ↔ (IsPackable v × (out ≡ buffer ++ encode v))
pack-eq-done_iff v buffer out = (
  λ h.
      let p = pack-IsPackable v buffer out h in
      (p, done-injective out _ (sym h ∙ pack-encode v buffer p)),
  λ (p, e). pack-encode v buffer p ∙ ap done (sym e),
)

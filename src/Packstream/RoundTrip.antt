-- ===== src/Packstream/RoundTrip.antt =====
-- The Unpacker of src/bolt/packstream/packstream.go on what its Packer wrote.
use gopher_cypher.Common.{
  Bool, ℕ, zero, suc, ◌+◌, ◌*◌, ◌<◌, ◌≤◌, ◌≡◌, refl, ◌∙◌, ap, arith, List, [], ◌∷◌, ◌++◌, length,
  length-append, append_assoc, true, false, if◌then◌else◌,
}
use gopher_cypher.Common.Int.{ℤ}
use gopher_cypher.Packstream.Value.{
  Value, Items, Fields, null, bool, integer, string, bytes, list, slice, dict, float64, uint8,
  other, no_items, item, no_fields, field, length_items, length_fields, set_field,
}
use gopher_cypher.Packstream.Encode.{
  size_header, encode_string, encode_integer, encode, encode_items, encode_fields, IsPackable,
  ArePackable, HavePackable,
}
use gopher_cypher.Packstream.Canonical.{
  canonical, canonical_items, canonical_fields, HasDistinctKeys, IsGoValue, AreGoValues,
  HaveGoValues, append_fields, append_fields_assoc, append_fields-nil, set_field-fresh,
  HasDistinctKeys-value,
}
use gopher_cypher.Packstream.Markers.{
  unpack_step-list_header, unpack_step-map_header, unpack_step-encode_string,
  unpack_step-encode_integer,
}
use gopher_cypher.Packstream.Pack.{pack, done}
use gopher_cypher.Packstream.Appends.{pack-eq-done_iff}
use gopher_cypher.Packstream.Unpack.{
  ok, Loops, read_byte, unpack_value, unpack_sized, unpack, unpack_items, unpack_fields,
  unpack_list, unpack_map, string_key, unpack_bytes,
}

length-size_header : (tiny small large n : ℕ) → 1 ≤ length (size_header tiny small large n)
length-size_header tiny small large n = ground arith

length-encode_string : (s : List ℕ) → 1 ≤ length (encode_string s)
length-encode_string s = omega (
  arith,
  length-append (size_header 0x80 0xd0 0xd1 (length s)) s,
  length-size_header 0x80 0xd0 0xd1 (length s),
)

length-encode_integer : (i : ℤ) → 1 ≤ length (encode_integer i)
unfolding encode_integer
length-encode_integer i = ground arith

-- Every encoding has at least its marker.
length-encode : (v : Value) → IsPackable v → 1 ≤ length (encode v)
unfolding encode
length-encode null h = omega arith
length-encode (bool b) h = omega arith
length-encode (integer kind i) h = length-encode_integer i
length-encode (string s) h = length-encode_string s
length-encode (bytes s) h = absurd h
length-encode (list xs) h = omega (
  arith,
  length-append (size_header 0x90 0xd4 0xd5 (length_items xs)) (encode_items xs),
  length-size_header 0x90 0xd4 0xd5 (length_items xs),
)
length-encode (slice xs) h = omega (
  arith,
  length-append (size_header 0x90 0xd4 0xd5 (length_items xs)) (encode_items xs),
  length-size_header 0x90 0xd4 0xd5 (length_items xs),
)
length-encode (dict fs) h = omega (
  arith,
  length-append (size_header 0xa0 0xd8 0xd9 (length_fields fs)) (encode_fields fs),
  length-size_header 0xa0 0xd8 0xd9 (length_fields fs),
)
length-encode (float64 bits) h = absurd h
length-encode (uint8 b) h = absurd h
length-encode other h = absurd h

-- The loops as `unpack` hands them on.
abbrev loops : ℕ → Loops
loops f = record {
  items = λ n r. unpack_items f n r;
  entries = λ n result r. unpack_fields f n result r;
}

-- A list or a map, once its loop is known to read the body.
list_of :
    (f n : ℕ) (body rest : List ℕ) (xs : Items)
    → n < 65536
    → unpack_items f n (body ++ rest) ≡ ok xs rest
    → unpack (suc f) ((size_header 0x90 0xd4 0xd5 n ++ body) ++ rest) ≡ ok (list xs) rest
unfolding unpack unpack_list
list_of f n body rest xs h e =
    rw (append_assoc, unpack_step-list_header (loops f) n (body ++ rest) h) (rw (e))

map_of :
    (f n : ℕ) (body rest : List ℕ) (fs : Fields)
    → n < 65536
    → unpack_fields f n no_fields (body ++ rest) ≡ ok fs rest
    → unpack (suc f) ((size_header 0xa0 0xd8 0xd9 n ++ body) ++ rest) ≡ ok (dict fs) rest
unfolding unpack unpack_map
map_of f n body rest fs h e =
    rw (append_assoc, unpack_step-map_header (loops f) n (body ++ rest) h) (rw (e))

unpack-encode_string :
    (s : List ℕ) (f : ℕ) (rest : List ℕ)
    → length s < 65536
    → 2 * length (encode_string s) < f
    → unpack f (encode_string s ++ rest) ≡ ok (string s) rest
unfolding unpack
unpack-encode_string s zero rest h b = absurd (omega arith)
unpack-encode_string s (suc f) rest h b = unpack_step-encode_string (loops f) s rest h

unpack-null : (f : ℕ) (rest : List ℕ) → unpack (suc f) (0xc0 ∷ rest) ≡ ok null rest
unfolding unpack read_byte unpack_value unpack_sized
unpack-null f rest = refl

unpack-bool :
    (b : Bool) (f : ℕ) (rest : List ℕ)
    → unpack (suc f) ((if b then 0xc3 else 0xc2) ∷ rest) ≡ ok (bool b) rest
unfolding unpack read_byte unpack_value unpack_sized
unpack-bool true f rest = refl
unpack-bool false f rest = refl

regroup : (xs ys zs ws : List ℕ) → (xs ++ (ys ++ zs)) ++ ws ≡ xs ++ (ys ++ (zs ++ ws))
regroup xs ys zs ws = simp append_assoc

-- One round of the loop of unpackMap.
entry_of :
    (k : List ℕ) (v : Value) (f n : ℕ) (acc : Fields) (input middle rest : List ℕ)
    → unpack f input ≡ ok (string k) middle
    → unpack f middle ≡ ok v rest
    → unpack_fields (suc f) (suc n) acc input ≡ unpack_fields f n (set_field k v acc) rest
unfolding unpack string_key
entry_of k v f n acc input middle rest h j = rw (h) (rw (j))

-- The lengths of the parts of an encoding, for `omega`.
append_header :
    (tiny small large n : ℕ) (body : List ℕ)
    → length body + 1 ≤ length (size_header tiny small large n ++ body)
append_header tiny small large n body = omega (
  arith,
  length-append (size_header tiny small large n) body,
  length-size_header tiny small large n,
)

mutual
  unfolding unpack encode canonical

  unpack-encode :
      (v : Value) (f : ℕ) (rest : List ℕ)
      → IsPackable v
      → IsGoValue v
      → 2 * length (encode v) < f
      → unpack f (encode v ++ rest) ≡ ok (canonical v) rest
  unpack-encode v zero rest p g b = absurd (omega arith)
  unpack-encode null (suc f) rest p g b = unpack-null f rest
  unpack-encode (bool b) (suc f) rest p g h = unpack-bool b f rest
  unpack-encode (integer kind i) (suc f) rest p g b = unpack_step-encode_integer (loops f) i rest g
  unpack-encode (string s) (suc f) rest p g b = unpack-encode_string s (suc f) rest p b
  unpack-encode (bytes s) (suc f) rest p g b = absurd p
  unpack-encode (list xs) (suc f) rest p g b =
      list_of f (length_items xs) (encode_items xs) rest (canonical_items xs) p.0 (
        unpack_items-encode_items xs f rest p.1 g
          (omega (arith, append_header 0x90 0xd4 0xd5 (length_items xs) (encode_items xs))))
  unpack-encode (slice xs) (suc f) rest p g b =
      list_of f (length_items xs) (encode_items xs) rest (canonical_items xs) p.0 (
        unpack_items-encode_items xs f rest p.1 g
          (omega (arith, append_header 0x90 0xd4 0xd5 (length_items xs) (encode_items xs))))
  unpack-encode (dict fs) (suc f) rest p g b =
      map_of f (length_fields fs) (encode_fields fs) rest (canonical_fields fs) p.0 (
        unpack_fields-encode_fields fs f no_fields rest p.1 g.1 g.0
          (omega (arith, append_header 0xa0 0xd8 0xd9 (length_fields fs) (encode_fields fs))))
  unpack-encode (float64 bits) (suc f) rest p g b = absurd p
  unpack-encode (uint8 c) (suc f) rest p g b = absurd p
  unpack-encode other (suc f) rest p g b = absurd p

  pub unpack_items-encode_items :
      (xs : Items) (f : ℕ) (rest : List ℕ)
      → ArePackable xs
      → AreGoValues xs
      → 2 * length (encode_items xs) + 1 < f
      → unpack_items f (length_items xs) (encode_items xs ++ rest) ≡ ok (canonical_items xs) rest
  unpack_items-encode_items no_items zero rest p g b = absurd (omega arith)
  unpack_items-encode_items no_items (suc f) rest p g b = refl
  unpack_items-encode_items (item v xs) zero rest p g b = absurd (omega arith)
  unpack_items-encode_items (item v xs) (suc f) rest p g b =
      let n = length-append (encode v) (encode_items xs) in
      let m = length-encode v p.0 in
      rw (append_assoc, unpack-encode v f (encode_items xs ++ rest) p.0 g.0 (omega arith))
        (rw (unpack_items-encode_items xs f rest p.1 g.1 (omega arith)))

  unpack_fields-encode_fields :
      (fs : Fields) (f : ℕ) (acc : Fields) (rest : List ℕ)
      → HavePackable fs
      → HaveGoValues fs
      → HasDistinctKeys (append_fields acc fs)
      → 2 * length (encode_fields fs) + 1 < f
      → unpack_fields f (length_fields fs) acc (encode_fields fs ++ rest)
        ≡ ok (append_fields acc (canonical_fields fs)) rest
  unpack_fields-encode_fields no_fields zero acc rest p g d b = absurd (omega arith)
  unpack_fields-encode_fields no_fields (suc f) acc rest p g d b = rw append_fields-nil
  unpack_fields-encode_fields (field k v fs) zero acc rest p g d b = absurd (omega arith)
  unpack_fields-encode_fields (field k v fs) (suc f) acc rest p g d b =
      let n = length-append (encode_string k) (encode v ++ encode_fields fs) in
      let n' = length-append (encode v) (encode_fields fs) in
      let m = length-encode_string k in
      let m' = length-encode v p.1 in
      let acc' = append_fields acc (field k (canonical v) no_fields) in
      let body = encode v ++ (encode_fields fs ++ rest) in
      ap (unpack_fields (suc f) (suc (length_fields fs)) acc)
        (regroup (encode_string k) (encode v) (encode_fields fs) rest)
      ∙ (entry_of k (canonical v) f (length_fields fs) acc (encode_string k ++ body) body
            (encode_fields fs ++ rest) (unpack-encode_string k f body p.0 (omega arith))
            (unpack-encode v f (encode_fields fs ++ rest) p.1 g.0 (omega arith))
          ∙ rw (set_field-fresh k (canonical v) v acc fs d) (
              unpack_fields-encode_fields fs f acc' rest p.2 g.1
                (rw append_fields_assoc (HasDistinctKeys-value k (canonical v) v acc fs d))
                (omega arith)
              ∙ ap (λ t. ok t rest)
                  (append_fields_assoc acc (field k (canonical v) no_fields)
                    (canonical_fields fs))))

-- A Go value (its integers fit 64 bits, its maps have distinct keys) that packs is read back from
-- the wire in its canonical form, and the bytes behind it are left.
pub unpack-pack :
    (v : Value) (rest out : List ℕ)
    → IsGoValue v
    → pack v [] ≡ done out
    → unpack_bytes (out ++ rest) ≡ ok (canonical v) rest
unfolding unpack_bytes
unpack-pack v rest out g h =
    let (p, e) = (pack-eq-done_iff v [] out).0 h in
    rw e (unpack-encode v _ rest p g (omega (arith, length-append (encode v) rest)))

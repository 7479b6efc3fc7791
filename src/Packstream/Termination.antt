-- ===== src/Packstream/Termination.antt =====
-- How many bytes the Unpacker of src/bolt/packstream/packstream.go takes, and whether it ends.
use gopher_cypher.Common.{
  inr, inl, ◌⊎◌, ℕ, zero, suc, ◌+◌, ◌*◌, ◌<◌, ◌≤◌, ◌≡◌, refl, arith, List, [], ◌∷◌, Bool, true,
  false, length, drop, ◌==◌, leb, ltb, if◌then◌else◌, bit_and,
}
use gopher_cypher.Packstream.Value.{Value, Fields, no_fields, list, string, dict, set_field}
use gopher_cypher.Packstream.Unpack.{
  bind, Read, ok, err, stuck, Reader, ◌>>=◌, pure, UnpackError, read_byte, read_bytes, read_size,
  read_int, unpack_string, unpack_float64, string_key, Loops, unpack_list, unpack_map,
  unpack_structure, unpack_sized, unpack_value, unpack, unpack_items, unpack_fields, unpack_bytes,
}

-- The read did not run out of fuel, and a successful one leaves fewer than `n` bytes.
abbrev Leaves {ℓ} : {A : Type ℓ} → ℕ → Read A → Type 0
Leaves n (ok a rest) = length rest < n
Leaves n (err e) = Unit
Leaves n stuck = ⊥

-- The rest of every successful read of an input shorter than `b` is no longer than the input.
abbrev Keeps {ℓ} : {A : Type ℓ} → ℕ → Reader A → Type 0
Keeps b m = (input : List ℕ) → length input < b → Leaves (suc (length input)) (m input)

Leaves-mono {ℓ} : {A : Type ℓ} {m n : ℕ} (r : Read A) → m ≤ n → Leaves m r → Leaves n r
Leaves-mono (ok a rest) h k = omega arith
Leaves-mono (err e) h k = tt
Leaves-mono stuck h k = k

Leaves-bind {ℓ κ} :
    {A : Type ℓ} {B : Type κ} (m n : ℕ) (r : Read A) (f : A → Reader B)
    → Leaves m r
    → ((a : A) (rest : List ℕ) → length rest < m → Leaves n (f a rest))
    → Leaves n (bind r f)
Leaves-bind m n (ok a rest) f h k = k a rest h
Leaves-bind m n (err e) f h k = tt
Leaves-bind m n stuck f h k = absurd h

module _ {ℓ κ} {A : Type ℓ} {B : Type κ} where
  Keeps-bind :
      (b : ℕ) (m : Reader A) (f : A → Reader B)
      → Keeps b m
      → ((a : A) → Keeps b (f a))
      → Keeps b (m >>= f)
  Keeps-bind b m f hm hf input h =
      Leaves-bind (suc (length input)) (suc (length input)) (m input) f (hm input h)
        (λ a rest k. Leaves-mono (f a rest) (omega arith) (hf a rest (omega arith)))

module _ {ℓ} {A : Type ℓ} where
  Keeps-pure : (b : ℕ) (a : A) → Keeps b (pure a)
  Keeps-pure b a input h = omega arith

  Keeps-if :
      (b : ℕ) (t : Bool) (m m' : Reader A) → Keeps b m → Keeps b m' → Keeps b (if t then m else m')
  Keeps-if b true m m' h h' = h
  Keeps-if b false m m' h h' = h'

length-drop : (n : ℕ) (xs : List ℕ) → length (drop n xs) ≤ length xs
length-drop zero xs = omega arith
length-drop (suc n) [] = omega arith
length-drop (suc n) (x ∷ xs) = omega (arith, length-drop n xs)

Keeps-read_byte : (b : ℕ) → Keeps b read_byte
unfolding read_byte
Keeps-read_byte b [] h = tt
Keeps-read_byte b (x ∷ xs) h = omega arith

Keeps-read_bytes : (b n : ℕ) → Keeps b (read_bytes n)
unfolding read_bytes
Keeps-read_bytes b n input h = ground (arith, length-drop n input)

Keeps-read_size : (b n : ℕ) → Keeps b (read_size n)
unfolding read_size
Keeps-read_size b n = Keeps-bind b (read_bytes n) _ (Keeps-read_bytes b n) λ c.
    Keeps-if b (n == 1) _ _ (λ input h. omega arith)
      (Keeps-if b (n == 2) _ _ (λ input h. omega arith)
        (Keeps-if b (n == 4) _ _ (λ input h. omega arith) (λ input h. tt)))

Keeps-read_int : (b n : ℕ) → Keeps b (read_int n)
unfolding read_int
Keeps-read_int b n = Keeps-bind b (read_bytes n) _ (Keeps-read_bytes b n) λ c.
    Keeps-if b (n == 1) _ _ (λ input h. omega arith)
      (Keeps-if b (n == 2) _ _ (λ input h. omega arith)
        (Keeps-if b (n == 4) _ _ (λ input h. omega arith)
          (Keeps-if b (n == 8) _ _ (λ input h. omega arith) (λ input h. tt))))

Keeps-unpack_string : (b n : ℕ) → Keeps b (unpack_string n)
unfolding unpack_string
Keeps-unpack_string b n =
    Keeps-bind b (read_bytes n) _ (Keeps-read_bytes b n) (λ c. Keeps-pure b (string c))

Keeps-unpack_float64 : (b : ℕ) → Keeps b unpack_float64
unfolding unpack_float64
Keeps-unpack_float64 b =
    Keeps-bind b (read_bytes 8) _ (Keeps-read_bytes b 8) (λ c input h. omega arith)

Keeps-string_key : (b : ℕ) (v : Value) → Keeps b (string_key v)
unfolding string_key
Keeps-string_key b (string k) input h = omega arith
Keeps-string_key b _ input h = tt

-- What the loops need so that every value keeps the input's length.
module _ (b : ℕ) (loops : Loops) (items : (n : ℕ) → Keeps b (loops.items n))
    (entries : (n : ℕ) (fs : Fields) → Keeps b (loops.entries n fs)) where
  Keeps-unpack_list : (n : ℕ) → Keeps b (unpack_list loops n)
  unfolding unpack_list
  Keeps-unpack_list n = Keeps-bind b (loops.items n) _ (items n) (λ xs. Keeps-pure b (list xs))

  Keeps-unpack_map : (n : ℕ) → Keeps b (unpack_map loops n)
  unfolding unpack_map
  Keeps-unpack_map n =
      Keeps-bind b (loops.entries n no_fields) _ (entries n no_fields)
        (λ fs. Keeps-pure b (dict fs))

  Keeps-unpack_structure : (n : ℕ) → Keeps b (unpack_structure loops n)
  unfolding unpack_structure
  Keeps-unpack_structure n =
      Keeps-bind b read_byte _ (Keeps-read_byte b)
        (λ s. Keeps-bind b (loops.items n) _ (items n) (λ xs input h. omega arith))

  Keeps-sized :
      (w : ℕ) (f : ℕ → Reader Value) → ((n : ℕ) → Keeps b (f n)) → Keeps b (read_size w >>= f)
  Keeps-sized w f h = Keeps-bind b (read_size w) f (Keeps-read_size b w) h

  Keeps-unpack_sized : (m : ℕ) → Keeps b (unpack_sized loops m)
  unfolding unpack_sized
  Keeps-unpack_sized m =
      Keeps-if b (m == 0xc0) _ _ (λ input h. omega arith)
        (Keeps-if b (m == 0xc2) _ _ (λ input h. omega arith)
          (Keeps-if b (m == 0xc3) _ _ (λ input h. omega arith)
            (Keeps-if b (m == 0xc8) _ _ (Keeps-read_int b 1) (
              Keeps-if b (m == 0xc9) _ _ (Keeps-read_int b 2) (
                Keeps-if b (m == 0xca) _ _ (Keeps-read_int b 4) (
                  Keeps-if b (m == 0xcb) _ _ (Keeps-read_int b 8) (
                    Keeps-if b (m == 0xd0) _ _ (Keeps-sized 1 _ (Keeps-unpack_string b)) (
                      Keeps-if b (m == 0xd1) _ _ (Keeps-sized 2 _ (Keeps-unpack_string b)) (
                        Keeps-if b (m == 0xd4) _ _ (Keeps-sized 1 _ Keeps-unpack_list) (
                          Keeps-if b (m == 0xd5) _ _ (Keeps-sized 2 _ Keeps-unpack_list) (
                            Keeps-if b (m == 0xd8) _ _ (Keeps-sized 1 _ Keeps-unpack_map) (
                              Keeps-if b (m == 0xd9) _ _ (Keeps-sized 2 _ Keeps-unpack_map) (
                                Keeps-if b (m == 0xdc) _ _ (Keeps-sized 1 _ Keeps-unpack_structure)
                                  (Keeps-if b (m == 0xdd) _ _
                                    (Keeps-sized 2 _ Keeps-unpack_structure)
                                    (Keeps-if b (m == 0xc1) _ _ (Keeps-unpack_float64 b)
                                      (λ input h. tt))))))))))))))))

  Keeps-unpack_value : (m : ℕ) → Keeps b (unpack_value loops m)
  unfolding unpack_value
  Keeps-unpack_value m =
      let high = bit_and m 0xf0 in
      let low = bit_and m 0x0f in
      Keeps-if b (ltb m 0x80) _ _ (λ input h. omega arith)
        (Keeps-if b (leb 0xf0 m) _ _ (λ input h. omega arith)
          (Keeps-if b (high == 0x80) _ _ (Keeps-unpack_string b low) (
            Keeps-if b (high == 0x90) _ _ (Keeps-unpack_list low) (
              Keeps-if b (high == 0xa0) _ _ (Keeps-unpack_map low) (
                Keeps-if b (high == 0xb0) _ _ (Keeps-unpack_structure low)
                  (Keeps-unpack_sized m))))))

mutual
  unfolding unpack read_byte

  unpack-Leaves :
      (f : ℕ) (input : List ℕ) → 2 * length input < f → Leaves (length input) (unpack f input)
  unpack-Leaves zero input h = absurd (omega arith)
  unpack-Leaves (suc f) [] h = tt
  unpack-Leaves (suc f) (m ∷ rest) h =
      Keeps-unpack_value (suc (length rest))
        (record { items = λ n r. unpack_items f n r; entries = λ n acc r. unpack_fields f n acc r })
        (λ n r k. unpack_items-Leaves f n r (omega arith))
        (λ n acc r k. unpack_fields-Leaves f n acc r (omega arith)) m rest (omega arith)

  unpack_items-Leaves :
      (f n : ℕ) (input : List ℕ)
      → 2 * length input + 1 < f
      → Leaves (suc (length input)) (unpack_items f n input)
  unpack_items-Leaves zero n input h = absurd (omega arith)
  unpack_items-Leaves (suc f) zero input h = omega arith
  unpack_items-Leaves (suc f) (suc n) input h =
      Leaves-bind (length input) _ (unpack f input) _ (unpack-Leaves f input (omega arith)) λ v r k.
        Leaves-bind (suc (length r)) _ (unpack_items f n r) _
          (unpack_items-Leaves f n r (omega arith)) (λ xs q j. omega arith)

  unpack_fields-Leaves :
      (f n : ℕ) (acc : Fields) (input : List ℕ)
      → 2 * length input + 1 < f
      → Leaves (suc (length input)) (unpack_fields f n acc input)
  unpack_fields-Leaves zero n acc input h = absurd (omega arith)
  unpack_fields-Leaves (suc f) zero acc input h = omega arith
  unpack_fields-Leaves (suc f) (suc n) acc input h =
      Leaves-bind (length input) _ (unpack f input) _ (unpack-Leaves f input (omega arith))
        λ kv r k.
          Leaves-bind (suc (length r)) _ (string_key kv r) _
            (Keeps-string_key (suc (length r)) kv r (omega arith))
            λ key q j.
              Leaves-bind (length q) _ (unpack f q) _ (unpack-Leaves f q (omega arith)) λ v p i.
                Leaves-mono _ (omega arith)
                  (unpack_fields-Leaves f n (set_field key v acc) p (omega arith))

Read-cases :
    {A : Type 0} (n : ℕ) (r : Read A)
    → Leaves n r
    → ((a : A) × (rest : List ℕ) × (r ≡ ok a rest) × (length rest < n))
      ⊎ ((e : UnpackError) × (r ≡ err e))
Read-cases n (ok a rest) h = inl (a, rest, refl, h)
Read-cases n (err e) h = inr (e, refl)
Read-cases n stuck h = absurd h

-- Unpacking ends on every input: it returns a value and fewer bytes than it was given, or one of
-- the protocol errors.
pub unpack_bytes_total :
    (input : List ℕ)
    → ((v : Value) × (rest : List ℕ) × (unpack_bytes input ≡ ok v rest)
        × (length rest < length input))
      ⊎ ((e : UnpackError) × (unpack_bytes input ≡ err e))
unfolding unpack_bytes
unpack_bytes_total input =
    Read-cases (length input) (unpack_bytes input) (unpack-Leaves _ input (omega arith))

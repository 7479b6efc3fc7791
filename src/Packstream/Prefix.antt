-- ===== src/Packstream/Prefix.antt =====
-- The Unpacker of src/bolt/packstream/packstream.go on longer and on cut inputs.
use gopher_cypher.Common.{
  inr, append-nil, inl, ap, ℕ, zero, suc, ◌+◌, ◌*◌, ◌≤◌, ◌≡◌, refl, arith, List, [], ◌∷◌, ◌++◌,
  Bool, true, false, length, take, drop, ◌==◌, leb, ltb, if◌then◌else◌, bit_and, length-append,
}
use gopher_cypher.Packstream.Value.{Value, Fields, no_fields, string, set_field}
use gopher_cypher.Packstream.Canonical.{IsGoValue}
use gopher_cypher.Packstream.Pack.{pack, done}
use gopher_cypher.Packstream.RoundTrip.{unpack-pack}
use gopher_cypher.Packstream.Termination.{unpack_bytes_total}
use gopher_cypher.Packstream.Unpack.{
  Read, ok, err, stuck, Reader, ◌>>=◌, bind, pure, UnpackError, read_byte, read_bytes, read_size,
  read_int, unpack_string, unpack_float64, string_key, Loops, unpack_list, unpack_map,
  unpack_structure, unpack_sized, unpack_value, unpack, unpack_items, unpack_fields, unpack_bytes,
}

-- What `m` reads from an input, `m'` reads from the input with more bytes behind it.
abbrev Extends {ℓ} : {A : Type ℓ} → Reader A → Reader A → Type ℓ
Extends {A = A} m m' =
    (input more rest : List ℕ) (a : A)
    → m input ≡ ok a rest
    → m' (input ++ more) ≡ ok a (rest ++ more)

bind-ok {ℓ κ} :
    {A : Type ℓ} {B : Type κ} (r : Read A) (f : A → Reader B) (b : B) (rest : List ℕ)
    → bind r f ≡ ok b rest
    → (a : A) × (middle : List ℕ) × (r ≡ ok a middle) × (f a middle ≡ ok b rest)
bind-ok (ok a middle) f b rest h = (a, middle, refl, h)
bind-ok (err e) f b rest h = cc
bind-ok stuck f b rest h = cc

module _ {ℓ κ} {A : Type ℓ} {B : Type κ} where
  Extends-bind :
      (m m' : Reader A) (f f' : A → Reader B)
      → Extends m m'
      → ((a : A) → Extends (f a) (f' a))
      → Extends (m >>= f) (m' >>= f')
  Extends-bind m m' f f' hm hf input more rest b h =
      let (a, middle, p, q) = bind-ok (m input) f b rest h in
      rw (hm input more middle a p) (hf a middle more rest b q)

module _ {ℓ} {A : Type ℓ} where
  Extends-pure : (a : A) → Extends (pure a) (pure a)
  Extends-pure a input more rest b h = cc

  Extends-if :
      (t : Bool) (m n m' n' : Reader A)
      → Extends m m'
      → Extends n n'
      → Extends (if t then m else n) (if t then m' else n')
  Extends-if true m n m' n' h h' = h
  Extends-if false m n m' n' h h' = h'

take-append : (n : ℕ) (xs ys : List ℕ) → n ≤ length xs → take n (xs ++ ys) ≡ take n xs
take-append zero xs ys h = refl
take-append (suc n) [] ys h = absurd (omega arith)
take-append (suc n) (x ∷ xs) ys h = ap (λ t. x ∷ t) (take-append n xs ys (omega arith))

drop-append : (n : ℕ) (xs ys : List ℕ) → n ≤ length xs → drop n (xs ++ ys) ≡ drop n xs ++ ys
drop-append zero xs ys h = refl
drop-append (suc n) [] ys h = absurd (omega arith)
drop-append (suc n) (x ∷ xs) ys h = drop-append n xs ys (omega arith)

Extends-read_byte : Extends read_byte read_byte
unfolding read_byte
Extends-read_byte [] more rest a h = cc
Extends-read_byte (x ∷ xs) more rest a h = cc

Extends-read_bytes : (n : ℕ) → Extends (read_bytes n) (read_bytes n)
unfolding read_bytes
Extends-read_bytes n input more rest a h =
    ground (arith, take-append n input more, drop-append n input more, length-append input more)

Extends-read_size : (n : ℕ) → Extends (read_size n) (read_size n)
unfolding read_size
Extends-read_size n = Extends-bind (read_bytes n) (read_bytes n) _ _ (Extends-read_bytes n) λ c.
    Extends-if (n == 1) _ _ _ _ (Extends-pure _) (
      Extends-if (n == 2) _ _ _ _ (Extends-pure _)
        (Extends-if (n == 4) _ _ _ _ (Extends-pure _) (λ i m r a h. cc)))

Extends-read_int : (n : ℕ) → Extends (read_int n) (read_int n)
unfolding read_int
Extends-read_int n = Extends-bind (read_bytes n) (read_bytes n) _ _ (Extends-read_bytes n) λ c.
    Extends-if (n == 1) _ _ _ _ (Extends-pure _) (
      Extends-if (n == 2) _ _ _ _ (Extends-pure _) (
        Extends-if (n == 4) _ _ _ _ (Extends-pure _)
          (Extends-if (n == 8) _ _ _ _ (Extends-pure _) (λ i m r a h. cc))))

Extends-unpack_string : (n : ℕ) → Extends (unpack_string n) (unpack_string n)
unfolding unpack_string
Extends-unpack_string n =
    Extends-bind (read_bytes n) (read_bytes n) _ _ (Extends-read_bytes n) (λ c. Extends-pure _)

Extends-unpack_float64 : Extends unpack_float64 unpack_float64
unfolding unpack_float64
Extends-unpack_float64 =
    Extends-bind (read_bytes 8) (read_bytes 8) _ _ (Extends-read_bytes 8) (λ c. Extends-pure _)

Extends-string_key : (v : Value) → Extends (string_key v) (string_key v)
unfolding string_key
Extends-string_key (string k) input more rest a h = cc
Extends-string_key _ input more rest a h = cc

module _ (loops loops' : Loops) (items : (n : ℕ) → Extends (loops.items n) (loops'.items n))
    (entries : (n : ℕ) (fs : Fields) → Extends (loops.entries n fs) (loops'.entries n fs)) where
  Extends-unpack_list : (n : ℕ) → Extends (unpack_list loops n) (unpack_list loops' n)
  unfolding unpack_list
  Extends-unpack_list n =
      Extends-bind (loops.items n) (loops'.items n) _ _ (items n) (λ xs. Extends-pure _)

  Extends-unpack_map : (n : ℕ) → Extends (unpack_map loops n) (unpack_map loops' n)
  unfolding unpack_map
  Extends-unpack_map n =
      Extends-bind (loops.entries n no_fields) (loops'.entries n no_fields) _ _
        (entries n no_fields) (λ fs. Extends-pure _)

  Extends-unpack_structure :
      (n : ℕ) → Extends (unpack_structure loops n) (unpack_structure loops' n)
  unfolding unpack_structure
  Extends-unpack_structure n =
      Extends-bind read_byte read_byte _ _ Extends-read_byte
        (λ s. Extends-bind (loops.items n) (loops'.items n) _ _ (items n) (λ xs. Extends-pure _))

  Extends-sized :
      (w : ℕ) (f f' : ℕ → Reader Value)
      → ((n : ℕ) → Extends (f n) (f' n))
      → Extends (read_size w >>= f) (read_size w >>= f')
  Extends-sized w f f' h = Extends-bind (read_size w) (read_size w) f f' (Extends-read_size w) h

  Extends-unpack_sized : (m : ℕ) → Extends (unpack_sized loops m) (unpack_sized loops' m)
  unfolding unpack_sized
  Extends-unpack_sized m = Extends-if (m == 0xc0) _ _ _ _ (Extends-pure _) (
      Extends-if (m == 0xc2) _ _ _ _ (Extends-pure _) (
        Extends-if (m == 0xc3) _ _ _ _ (Extends-pure _) (
          Extends-if (m == 0xc8) _ _ _ _ (Extends-read_int 1) (
            Extends-if (m == 0xc9) _ _ _ _ (Extends-read_int 2) (
              Extends-if (m == 0xca) _ _ _ _ (Extends-read_int 4) (
                Extends-if (m == 0xcb) _ _ _ _ (Extends-read_int 8) (
                  Extends-if (m == 0xd0) _ _ _ _ (Extends-sized 1 _ _ Extends-unpack_string) (
                    Extends-if (m == 0xd1) _ _ _ _ (Extends-sized 2 _ _ Extends-unpack_string) (
                      Extends-if (m == 0xd4) _ _ _ _ (Extends-sized 1 _ _ Extends-unpack_list) (
                        Extends-if (m == 0xd5) _ _ _ _ (Extends-sized 2 _ _ Extends-unpack_list) (
                          Extends-if (m == 0xd8) _ _ _ _ (Extends-sized 1 _ _ Extends-unpack_map) (
                            Extends-if (m == 0xd9) _ _ _ _ (Extends-sized 2 _ _ Extends-unpack_map)
                              (Extends-if (m == 0xdc) _ _ _ _
                                (Extends-sized 1 _ _ Extends-unpack_structure)
                                (Extends-if (m == 0xdd) _ _ _ _
                                  (Extends-sized 2 _ _ Extends-unpack_structure)
                                  (Extends-if (m == 0xc1) _ _ _ _ Extends-unpack_float64
                                    (λ i n r a h. cc))))))))))))))))

  Extends-unpack_value : (m : ℕ) → Extends (unpack_value loops m) (unpack_value loops' m)
  unfolding unpack_value
  Extends-unpack_value m =
      let high = bit_and m 0xf0 in
      let low = bit_and m 0x0f in
      Extends-if (ltb m 0x80) _ _ _ _ (Extends-pure _) (
        Extends-if (leb 0xf0 m) _ _ _ _ (Extends-pure _) (
          Extends-if (high == 0x80) _ _ _ _ (Extends-unpack_string low) (
            Extends-if (high == 0x90) _ _ _ _ (Extends-unpack_list low) (
              Extends-if (high == 0xa0) _ _ _ _ (Extends-unpack_map low) (
                Extends-if (high == 0xb0) _ _ _ _ (Extends-unpack_structure low)
                  (Extends-unpack_sized m))))))

-- More fuel changes nothing either.
mutual
  unfolding unpack

  unpack-Extends : (f g : ℕ) → f ≤ g → Extends (unpack f) (unpack g)
  unpack-Extends zero g h = λ input more rest a e. cc
  unpack-Extends (suc f) zero h = λ input more rest a e. absurd (omega arith)
  unpack-Extends (suc f) (suc g) h = Extends-bind read_byte read_byte _ _ Extends-read_byte (
      Extends-unpack_value
        (record { items = λ n r. unpack_items f n r; entries = λ n acc r. unpack_fields f n acc r })
        (record { items = λ n r. unpack_items g n r; entries = λ n acc r. unpack_fields g n acc r })
        (λ n. unpack_items-Extends f g n (omega arith))
        (λ n acc. unpack_fields-Extends f g n acc (omega arith)))

  unpack_items-Extends : (f g n : ℕ) → f ≤ g → Extends (unpack_items f n) (unpack_items g n)
  unpack_items-Extends zero g n h = λ input more rest a e. cc
  unpack_items-Extends (suc f) zero n h = λ input more rest a e. absurd (omega arith)
  unpack_items-Extends (suc f) (suc g) zero h = λ input more rest a e. cc
  unpack_items-Extends (suc f) (suc g) (suc n) h =
      Extends-bind (λ r. unpack f r) (λ r. unpack g r) _ _ (unpack-Extends f g (omega arith))
        λ v.
          Extends-bind (λ r. unpack_items f n r) (λ r. unpack_items g n r) _ _
            (unpack_items-Extends f g n (omega arith)) (λ xs. Extends-pure _)

  unpack_fields-Extends :
      (f g n : ℕ) (acc : Fields) → f ≤ g → Extends (unpack_fields f n acc) (unpack_fields g n acc)
  unpack_fields-Extends zero g n acc h = λ input more rest a e. cc
  unpack_fields-Extends (suc f) zero n acc h = λ input more rest a e. absurd (omega arith)
  unpack_fields-Extends (suc f) (suc g) zero acc h = λ input more rest a e. cc
  unpack_fields-Extends (suc f) (suc g) (suc n) acc h =
      Extends-bind (λ r. unpack f r) (λ r. unpack g r) _ _ (unpack-Extends f g (omega arith))
        λ kv. Extends-bind (string_key kv) (string_key kv) _ _ (Extends-string_key kv) λ key.
          Extends-bind (λ r. unpack f r) (λ r. unpack g r) _ _ (unpack-Extends f g (omega arith))
            λ v. unpack_fields-Extends f g n (set_field key v acc) (omega arith)

-- No proper prefix of what packing a Go value wrote can be unpacked: the unpacker reports an error.
pub unpack_truncated :
    (v : Value) (front back : List ℕ) (x : ℕ)
    → IsGoValue v
    → pack v [] ≡ done (front ++ (x ∷ back))
    → (e : UnpackError) × (unpack_bytes front ≡ err e)
unfolding unpack_bytes
unpack_truncated v front back x g h = elim (unpack_bytes_total front) [
  | inl (w, rest, e, _) ↦
      let whole = rw append-nil at (unpack-pack v [] (front ++ (x ∷ back)) g h) in
      let longer =
        unpack-Extends (2 * length front + 1) (2 * length (front ++ (x ∷ back)) + 1)
          (omega (arith, length-append front (x ∷ back))) front (x ∷ back) rest w e in
      absurd (ground (arith, whole, longer, length-append rest (x ∷ back)))
  | inr (e, p) ↦ (e, p)
]

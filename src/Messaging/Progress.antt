-- ===== src/Messaging/Progress.antt =====
-- What a call of src/bolt/messaging/request.go takes off the input of its connection.
use gopher_cypher.Packstream.Termination.{unpack_bytes_total}
use gopher_cypher.Messaging.Accounting.{Accounted, read_chunks-Accounted}
use gopher_cypher.Messaging.Request.{
  out_of_fuel, gather_failed, gathered, not_packed, packed, Packed, Gathered, pack_message,
  after_chunks, lift_packed, receive_message, read_chunked_message, send_request, write_framed,
  message_items, message_fields_of, decode_message,
}
use gopher_cypher.Common.{
  inr, inl, ℕ, suc, ◌<◌, ◌≤◌, ◌≢◌, refl, arith, List, [], Bool, true, false, length, if◌then◌else◌,
}
use gopher_cypher.Packstream.Value.{Value, Items, null, list, item, no_items, uint8}
use gopher_cypher.Packstream.Unpack.{unpack_bytes, Read}
use gopher_cypher.Messaging.Connection.{
  Conn, Outcome, ok, err, stuck, Action, bind, write, set_read_deadline,
}

-- The call ended, and a successful one leaves fewer than `n` bytes to come.
abbrev pub Leaves {ℓ} : {A : Type ℓ} → ℕ → Outcome A → Type 0
Leaves n (ok a conn) = length conn.incoming < n
Leaves n (err e conn) = Unit
Leaves n stuck = ⊥

pub Leaves-mono {ℓ} : {A : Type ℓ} {m n : ℕ} (r : Outcome A) → m ≤ n → Leaves m r → Leaves n r
Leaves-mono (ok a conn) h k = omega arith
Leaves-mono (err e conn) h k = tt
Leaves-mono stuck h k = k

pub Leaves-ne-stuck {ℓ} : {A : Type ℓ} (n : ℕ) (r : Outcome A) → Leaves n r → r ≢ stuck
Leaves-ne-stuck n (ok a conn) h e = cc
Leaves-ne-stuck n (err x conn) h e = cc
Leaves-ne-stuck n stuck h e = h

pub Leaves-bind {ℓ κ} :
    {A : Type ℓ} {B : Type κ} (m n : ℕ) (r : Outcome A) (f : A → Action B)
    → Leaves m r
    → ((a : A) (conn : Conn) → length conn.incoming < m → Leaves n (f a conn))
    → Leaves n (bind r f)
Leaves-bind m n (ok a conn) f h k = k a conn h
Leaves-bind m n (err e conn) f h k = tt
Leaves-bind m n stuck f h k = absurd h

pub Leaves-if {ℓ} :
    {A : Type ℓ} (n : ℕ) (t : Bool) (m m' : Action A) (conn : Conn)
    → Leaves n (m conn)
    → Leaves n (m' conn)
    → Leaves n ((if t then m else m') conn)
Leaves-if n true m m' conn h h' = h
Leaves-if n false m m' conn h h' = h'

pub Leaves-write : (bs : List ℕ) (conn : Conn) → Leaves (suc (length conn.incoming)) (write bs conn)
unfolding write
Leaves-write bs conn = ground arith

Leaves-set_read_deadline :
    (conn : Conn) → Leaves (suc (length conn.incoming)) (set_read_deadline conn)
unfolding set_read_deadline
Leaves-set_read_deadline conn = ground arith

Leaves-decode_message :
    (r : Read Value) (conn : Conn)
    → r ≢ Read.stuck
    → Leaves (suc (length conn.incoming)) (decode_message r conn)
unfolding decode_message message_fields_of message_items
Leaves-decode_message (Read.ok (list no_items) rest) conn h = tt
Leaves-decode_message (Read.ok (list (item v no_items)) rest) conn h = tt
Leaves-decode_message (Read.ok (list (item (uint8 s) (item (list xs) more))) rest) conn h =
    omega arith
Leaves-decode_message (Read.ok (list (item (uint8 s) (item null more))) rest) conn h = omega arith
Leaves-decode_message (Read.ok (list (item (uint8 s) (item _ more))) rest) conn h = tt
Leaves-decode_message (Read.ok (list (item _ (item w more))) rest) conn h = tt
Leaves-decode_message (Read.ok _ rest) conn h = tt
Leaves-decode_message (Read.err e) conn h = tt
Leaves-decode_message Read.stuck conn h = absurd (h refl)

unpack_bytes-ne-stuck : (bs : List ℕ) → unpack_bytes bs ≢ Read.stuck
unpack_bytes-ne-stuck bs h = elim (unpack_bytes_total bs) [
  | inl (v, rest, e, _) ↦ cc
  | inr (e, p) ↦ cc
]

Leaves-after_chunks :
    (r : Gathered) (conn : Conn) (n : ℕ) → Accounted n [] r → Leaves n (after_chunks r conn)
unfolding after_chunks
Leaves-after_chunks (gathered bs rest) conn n a =
    Leaves-mono (decode_message (unpack_bytes bs) (record conn { incoming = rest })) (shorter a) (
      Leaves-decode_message (unpack_bytes bs) (record conn { incoming = rest })
        (unpack_bytes-ne-stuck bs))
  where
    shorter : Accounted n [] (gathered bs rest) → suc (length rest) ≤ n
    shorter (inl p) = omega arith
    shorter (inr p) = omega arith
Leaves-after_chunks (gather_failed e) conn n a = tt
Leaves-after_chunks out_of_fuel conn n a = absurd a

Leaves-receive_message : (conn : Conn) → Leaves (length conn.incoming) (receive_message conn)
unfolding receive_message
Leaves-receive_message conn =
    Leaves-after_chunks _ conn (length conn.incoming) (
      read_chunks-Accounted (suc (length conn.incoming)) [] conn.incoming conn.ending (omega arith))

-- Receiving a message takes at least one byte off the input, or reports an error.
pub Leaves-read_chunked_message :
    (conn : Conn) → Leaves (length conn.incoming) (read_chunked_message conn)
unfolding read_chunked_message
Leaves-read_chunked_message conn =
    Leaves-bind (suc (length conn.incoming)) (length conn.incoming) (set_read_deadline conn) _
      (Leaves-set_read_deadline conn)
      λ _ conn' h. Leaves-mono (receive_message conn') (omega arith) (Leaves-receive_message conn')

Leaves-write_framed :
    (bs : List ℕ) (conn : Conn) → Leaves (suc (length conn.incoming)) (write_framed bs conn)
unfolding write_framed
Leaves-write_framed bs conn =
    Leaves-bind (suc (length conn.incoming)) _ (write _ conn) _ (Leaves-write _ conn) λ _ conn₁ h₁.
      Leaves-bind (suc (length conn₁.incoming)) _ (write bs conn₁) _ (Leaves-write bs conn₁)
        λ _ conn₂ h₂. Leaves-mono (write _ conn₂) (omega arith) (Leaves-write _ conn₂)

Leaves-lift_packed :
    (r : Packed) (conn : Conn) → Leaves (suc (length conn.incoming)) (lift_packed r conn)
unfolding lift_packed
Leaves-lift_packed (packed bs) conn = omega arith
Leaves-lift_packed (not_packed e) conn = tt

pub Leaves-send_request :
    (sig : ℕ) (fields : Items) (conn : Conn)
    → Leaves (suc (length conn.incoming)) (send_request sig fields conn)
unfolding send_request
Leaves-send_request sig fields conn =
    Leaves-bind (suc (length conn.incoming)) _ (lift_packed (pack_message sig fields) conn) _
      (Leaves-lift_packed (pack_message sig fields) conn)
      λ bs conn₁ h₁.
        Leaves-bind (suc (length conn₁.incoming)) _ (write_framed bs conn₁) _
          (Leaves-write_framed bs conn₁)
          λ _ conn₂ h₂.
            Leaves-mono (read_chunked_message conn₂) (omega arith)
              (Leaves-read_chunked_message conn₂)

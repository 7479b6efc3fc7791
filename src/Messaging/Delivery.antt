-- ===== src/Messaging/Delivery.antt =====
-- From packMessage on one side to readChunkedMessage on the other
-- (src/bolt/messaging/request.go).
use gopher_cypher.Packstream.Appends.{pack_items-encode, pack_items-ArePackable}
use gopher_cypher.Packstream.Pack.{failed, Written, done, pack_items}
use gopher_cypher.Packstream.RoundTrip.{unpack_items-encode_items}
use gopher_cypher.Common.Bits.{tiny_struct_marker, low_nibble, high_nibble}
use mathlib.Core.Path.{subst, ap₂}
use gopher_cypher.Packstream.Encode.{encode_items, ArePackable}
use gopher_cypher.Common.Int.{put_uint16}
use gopher_cypher.Common.{
  if◌then◌else◌, ap, ◌∙◌, sym, bit_or, append-nil, append_assoc, inr, inl, ltb, Bool-cases, ◌%◌, ℕ,
  zero, suc, ◌+◌, ◌*◌, ◌-◌, ◌<◌, ◌≤◌, ◌≡◌, arith, List, [], ◌∷◌, ◌++◌, length, true,
}
use gopher_cypher.Packstream.Value.{Items, uint8, list, item, no_items, length_items}
use gopher_cypher.Packstream.Canonical.{canonical_items, AreGoValues}
use gopher_cypher.Packstream.Unpack.{
  unpack_structure, unpack_value, read_byte, Read, unpack_bytes, unpack,
}
use gopher_cypher.Messaging.Connection.{
  deadline_failed, err, bind, Conn, ok, write, set_read_deadline,
}
use gopher_cypher.Messaging.Message.{create_message}
use gopher_cypher.Messaging.Request.{
  decode_message, gathered, read_chunks, written_message, pack_message, packed, write_framed,
  read_chunked_message, receive_message,
}
use gopher_cypher.Messaging.Accounting.{read_chunks-frame_iff, frame}

pub write-sent :
    (bs : List ℕ) (conn : Conn)
    → 0 < conn.writes_left
    → write bs conn
      ≡ ok tt (record conn { outgoing = conn.outgoing ++ bs; writes_left = conn.writes_left - 1 })
unfolding write
write-sent bs conn h = ground arith

-- While the connection takes three more writes, the writes of a message put its frame behind what
-- was written before.
pub write_framed-frame :
    (bs : List ℕ) (conn : Conn)
    → 3 ≤ conn.writes_left
    → write_framed bs conn
      ≡ ok tt
          (record conn { outgoing = conn.outgoing ++ frame bs; writes_left = conn.writes_left - 3 })
unfolding write_framed
write_framed-frame bs conn h =
    let header = put_uint16 (length bs % 65536) in
    let o = conn.outgoing in
    let n = conn.writes_left in
    let conn₁ : Conn = record conn { outgoing = o ++ header; writes_left = n - 1 } in
    let conn₂ : Conn = record conn { outgoing = (o ++ header) ++ bs; writes_left = n - 1 - 1 } in
    rw (write-sent header conn (omega arith)) (
      rw (write-sent bs conn₁ (omega arith)) (
        rw (write-sent (0x00 ∷ 0x00 ∷ []) conn₂ (omega arith)) (
          ap₂ (λ out left. ok tt (record conn { outgoing = out; writes_left = left }))
            (simp append_assoc) (omega arith))))

unpack-structure :
    (sig f : ℕ) (fields : Items) (rest : List ℕ)
    → length_items fields < 16
    → ArePackable fields
    → AreGoValues fields
    → 2 * length (encode_items fields) + 2 < f
    → unpack f ((0xb0 + length_items fields) ∷ sig ∷ (encode_items fields ++ rest))
      ≡ Read.ok (list (item (uint8 sig) (item (list (canonical_items fields)) no_items))) rest
unfolding unpack read_byte unpack_value unpack_structure
unpack-structure sig zero fields rest h p g b = absurd (omega arith)
unpack-structure sig (suc f) fields rest h p g b = ground (
  arith,
  high_nibble (0xb0 + length_items fields),
  low_nibble (0xb0 + length_items fields),
  unpack_items-encode_items fields f rest p g (omega arith),
)

packed-injective : (a b : List ℕ) → packed a ≡ packed b → a ≡ b
packed-injective a b h = cc

written-done : (w : Written) (bs : List ℕ) → written_message w ≡ packed bs → w ≡ done bs
unfolding written_message
written-done (done buffer) bs h = cc
written-done (failed e buffer) bs h = cc

done-injective : (a b : List ℕ) → done a ≡ done b → a ≡ b
done-injective a b h = cc

-- The bytes of a packed message.
pack_message-encode :
    (sig : ℕ) (fields : Items) (bs : List ℕ)
    → pack_message sig fields ≡ packed bs
    → (length_items fields < 16)
      × ArePackable fields
      × (bs ≡ (0xb0 + length_items fields) ∷ sig ∷ encode_items fields)
unfolding pack_message
pack_message-encode sig fields bs h = elim (Bool-cases (ltb (length_items fields) 16)) [
  | inl e ↦
      let header = bit_or 0xb0 (length_items fields % 256) ∷ sig ∷ [] in
      let w = written-done (pack_items fields header) bs (rw e at h) in
      let p = pack_items-ArePackable fields header bs w in
      let n : length_items fields < 16 = ground arith in
      (
        n,
        p,
        done-injective bs _ (sym w ∙ pack_items-encode fields header p)
            ∙ ap (λ m. m ∷ sig ∷ encode_items fields) (tiny_struct_marker (length_items fields) n),
      )
  | inr e ↦ absurd (ground arith)
]

-- What packMessage packs, a structure of the signature and of fields that are Go values, unpacks to
-- the signature and the canonical form of the fields.
pub unpack_bytes-pack_message :
    (sig : ℕ) (fields : Items) (bs : List ℕ)
    → AreGoValues fields
    → pack_message sig fields ≡ packed bs
    → unpack_bytes bs
      ≡ Read.ok (list (item (uint8 sig) (item (list (canonical_items fields)) no_items))) []
unfolding unpack_bytes
unpack_bytes-pack_message sig fields bs g h =
    let (n, p, e) = pack_message-encode sig fields bs h in
    rw e (
      rw append-nil at (
        unpack-structure sig
          (2 * length ((0xb0 + length_items fields) ∷ sig ∷ encode_items fields) + 1) fields [] n p
          g (omega arith)))

read_chunked_message-receive :
    (conn : Conn) → conn.can_set_deadline ≡ true → read_chunked_message conn ≡ receive_message conn
unfolding read_chunked_message set_read_deadline
read_chunked_message-receive conn d =
    ap (λ t. bind (if t then ok tt conn else err deadline_failed conn) (λ _. receive_message)) d

receive_message-gathered :
    (peer : Conn) (bs rest : List ℕ)
    → read_chunks (suc (length peer.incoming)) [] peer.ending peer.incoming ≡ gathered bs rest
    → receive_message peer ≡ decode_message (unpack_bytes bs) (record peer { incoming = rest })
unfolding receive_message
receive_message-gathered peer bs rest e = rw e

-- What one side packs and frames the other side receives, if its connection takes a deadline and
-- the packed fields are Go values and make fewer than 65536 bytes: the message is made from the
-- signature and the canonical form of the fields, and the bytes behind it are left for the next
-- read.
pub read_chunked_message-pack_message :
    (sig : ℕ) (fields : Items) (bs rest : List ℕ) (peer : Conn)
    → AreGoValues fields
    → pack_message sig fields ≡ packed bs
    → length bs < 65536
    → peer.can_set_deadline ≡ true
    → peer.incoming ≡ frame bs ++ rest
    → read_chunked_message peer
      ≡ ok (create_message sig (canonical_items fields)) (record peer { incoming = rest })
read_chunked_message-pack_message sig fields bs rest peer g p b d i =
    let (n, q, e) = pack_message-encode sig fields bs p in
    let gathers =
      (read_chunks-frame_iff bs rest (suc (length (frame bs ++ rest))) peer.ending (omega arith)).1
        (omega (arith, ap length e), b) in
    let here =
      subst (λ t. read_chunks (suc (length t)) [] peer.ending t ≡ gathered bs rest) (sym i)
        gathers in
    read_chunked_message-receive peer d
    ∙ receive_message-gathered peer bs rest here
    ∙ (unfold decode_message in rw (unpack_bytes-pack_message sig fields bs g p))

-- ===== src/Messaging/Request.antt =====
-- Messages on a connection: sendRequest, packMessage and readChunkedMessage of
-- src/bolt/messaging/request.go, and writeChunkedMessage of src/driver/streaming_connection.go.
use gopher_cypher.Common.{
  true, false, Bool, ℕ, zero, suc, ◌%◌, ◌/◌, bit_or, List, [], ◌∷◌, ◌++◌, ltb, ◌==◌, if◌then◌else◌,
  length,
}
use gopher_cypher.Common.Int.{put_uint16, big_endian}
use gopher_cypher.Packstream.Value.{Value, Items, null, list, uint8, item, no_items, length_items}
use gopher_cypher.Packstream.Pack.{Written, done, failed, pack_items}
use gopher_cypher.Packstream.Unpack.{Read, unpack_bytes}
use gopher_cypher.Messaging.Connection.{
  Filled, Ending, err, stuck, Action, ◌>>=◌, ◌>>◌, pure, fail, write, set_read_deadline, full, eof,
  unexpected_eof, timeout, read_full, Error, pack_error, too_many_fields, closed_in_header,
  header_read_failed, chunk_read_failed, unpack_error, invalid_structure, invalid_signature,
  invalid_fields,
}
use gopher_cypher.Messaging.Message.{Message, signature, message_fields, create_message}

-- The result of packMessage, which has no connection.
pub data Packed : Type 0 where
  packed : List ℕ → Packed
  not_packed : Error → Packed

unfoldable pub written_message : Written → Packed
written_message (done buffer) = packed buffer
written_message (failed e buffer) = not_packed (pack_error e)

unfoldable pub pack_message : ℕ → Items → Packed
unfolding written_message
pack_message sig fields =
    if ltb (length_items fields) 16
    then written_message (pack_items fields (bit_or 0xb0 (length_items fields % 256) ∷ sig ∷ []))
    else not_packed too_many_fields

unfoldable pub lift_packed : Packed → Action (List ℕ)
lift_packed (packed bs) = pure bs
lift_packed (not_packed e) = fail e

-- The three writes of a message: a chunk header with the size as a uint16, the bytes, and the
-- end marker.
unfoldable pub write_framed : List ℕ → Action (Unit {0})
write_framed bs = do write (put_uint16 (length bs % 65536)); write bs; write (0x00 ∷ 0x00 ∷ [])

-- writeChunkedMessage computes the two header bytes by itself: byte(n >> 8) and byte(n & 0xFF).
unfoldable pub write_chunked_message : List ℕ → Action (Unit {0})
write_chunked_message bs = do
  write ((length bs / 256 % 256) ∷ (length bs % 256) ∷ [])
  write bs
  write (0x00 ∷ 0x00 ∷ [])

-- The loop over chunks: what it has gathered, and what is still to come from the peer.
pub data Gathered : Type 0 where
  gathered : List ℕ → List ℕ → Gathered
  gather_failed : Error → Gathered
  out_of_fuel : Gathered

unfoldable pub after_chunk : (List ℕ → List ℕ → Gathered) → Filled → Gathered
after_chunk next (full chunk rest) = next chunk rest
after_chunk next eof = gather_failed chunk_read_failed
after_chunk next unexpected_eof = gather_failed chunk_read_failed
after_chunk next timeout = gather_failed chunk_read_failed

-- A chunk of size 0 is the end marker.
unfoldable pub after_size : Bool → (ℕ → List ℕ → Gathered) → List ℕ → ℕ → List ℕ → Gathered
after_size true next acc size rest = gathered acc rest
after_size false next acc size rest = next size rest

unfoldable pub after_header : (ℕ → List ℕ → Gathered) → List ℕ → Filled → Gathered
unfolding after_size
after_header next acc (full size_bytes rest) =
    after_size (big_endian 0 size_bytes == 0) next acc (big_endian 0 size_bytes) rest
after_header next acc eof = gather_failed closed_in_header
after_header next acc unexpected_eof = gather_failed header_read_failed
after_header next acc timeout = gather_failed header_read_failed

unfoldable pub read_chunks : ℕ → List ℕ → Ending → List ℕ → Gathered
read_chunks zero acc ending input = out_of_fuel
read_chunks (suc fuel) acc ending input =
    after_header
      (λ chunk_size rest.
        after_chunk (λ chunk rest'. read_chunks fuel (acc ++ chunk) ending rest')
          (read_full chunk_size rest ending))
      acc (read_full 2 input ending)

-- The type assertions on what was unpacked.
unfoldable pub message_fields_of : ℕ → Value → Action Message
message_fields_of sig (list fields) = pure (create_message sig fields)
message_fields_of sig null = pure (create_message sig no_items)
message_fields_of sig _ = fail invalid_fields

unfoldable pub message_items : Items → Action Message
unfolding message_fields_of
message_items no_items = fail invalid_structure
message_items (item s no_items) = fail invalid_structure
message_items (item (uint8 sig) (item fields rest)) = message_fields_of sig fields
message_items (item _ (item fields rest)) = fail invalid_signature

unfoldable pub decode_message : Read Value → Action Message
unfolding message_items
decode_message (Read.ok (list items) rest) = message_items items
decode_message (Read.ok _ rest) = fail invalid_structure
decode_message (Read.err e) = fail (unpack_error e)
decode_message Read.stuck = λ conn. stuck

unfoldable pub after_chunks : Gathered → Action Message
unfolding decode_message
after_chunks (gathered bs rest) conn =
    decode_message (unpack_bytes bs) (record conn { incoming = rest })
after_chunks (gather_failed e) conn = err e (record conn { incoming = [] })
after_chunks out_of_fuel conn = stuck

-- Each chunk takes its two header bytes at least, so the length of the input is enough fuel.
unfoldable pub receive_message : Action Message
unfolding after_chunks
receive_message conn =
    after_chunks (read_chunks (suc (length conn.incoming)) [] conn.ending conn.incoming) conn

unfoldable pub read_chunked_message : Action Message
read_chunked_message = do set_read_deadline; receive_message

unfoldable pub send_request : ℕ → Items → Action Message
unfolding lift_packed
send_request sig fields = do
  bs ← lift_packed (pack_message sig fields)
  write_framed bs
  read_chunked_message

-- The Send methods of Hello and Logon.
unfoldable pub send : Message → Action Message
send m = send_request (signature m) (message_fields m)

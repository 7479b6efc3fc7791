-- ===== src/Messaging/Runs.antt =====
-- Concrete runs of the framing and of the exchanges.
use gopher_cypher.Common.{ℕ, List, ◌≡◌, ◌≢◌, refl, arith, true, [], ◌∷◌, ◌++◌, ◌↔◌}
use gopher_cypher.Common.Text.{codes}
use gopher_cypher.Packstream.Value.{Items, list, dict, item, no_items, null, no_fields}
use gopher_cypher.Packstream.Pack.{pack_items, pack_map_header}
use gopher_cypher.Packstream.Canonical.{canonical_items, AreGoValues}
use gopher_cypher.Messaging.Connection.{Conn, closes, ok, stuck}
use gopher_cypher.Messaging.Message.{
  metadata_of, message_fields, generic, new_success, signature, success, Message, create_message,
}
use gopher_cypher.Messaging.Request.{
  pack_message, packed, read_chunks, gathered, read_chunked_message,
}
use gopher_cypher.Messaging.Exchange.{send_request_data, pull_loop}
use gopher_cypher.Messaging.Framing.{IsChunk}
use gopher_cypher.Messaging.Accounting.{frame, read_chunks-frame_iff}
use gopher_cypher.Messaging.Delivery.{read_chunked_message-pack_message}
use gopher_cypher.Messaging.Termination.{send_request_data_total}
use gopher_cypher.Messaging.Records.{Arrives, last, one_record, verdict, rows_of, pull_loop-verdict}

-- A connection from which these bytes are to come.
abbrev peer : List ℕ → Conn
peer incoming = record {
  incoming = incoming;
  outgoing = [];
  writes_left = 10;
  ending = closes;
  can_set_deadline = true;
}

abbrev two_chunks : List (List ℕ)
two_chunks = (1 ∷ 2 ∷ []) ∷ (3 ∷ []) ∷ []

read_chunks-frame_iff_example :
    (read_chunks 10 [] closes (frame (5 ∷ []) ++ (9 ∷ [])) ≡ gathered (5 ∷ []) (9 ∷ []))
    ↔ IsChunk (5 ∷ [])
read_chunks-frame_iff_example = read_chunks-frame_iff (5 ∷ []) (9 ∷ []) 10 closes (omega arith)

-- SUCCESS {}, as a server sends it.
abbrev success_fields : Items
success_fields = item (dict no_fields) no_items

abbrev success_bytes : List ℕ
success_bytes = 0xb1 ∷ 0x70 ∷ 0xa0 ∷ []

pack_success : pack_message 0x70 success_fields ≡ packed success_bytes
unfolding pack_message pack_items pack_map_header
pack_success = refl

success-AreGoValues : AreGoValues success_fields
success-AreGoValues = ((tt, tt), tt)

read_chunked_message-pack_message_example :
    read_chunked_message (peer (frame success_bytes ++ (9 ∷ [])))
    ≡ ok (create_message 0x70 (canonical_items success_fields)) (peer (9 ∷ []))
read_chunked_message-pack_message_example =
    read_chunked_message-pack_message 0x70 success_fields success_bytes (9 ∷ [])
      (peer (frame success_bytes ++ (9 ∷ []))) success-AreGoValues pack_success (omega arith) refl
      refl

send_request_data_total_example :
    send_request_data (λ v. []) 0x10 no_items (peer (frame success_bytes)) ≢ stuck
send_request_data_total_example =
    send_request_data_total (λ v. []) 0x10 no_items (peer (frame success_bytes))

read_success : read_chunked_message (peer (frame success_bytes)) ≡ ok (success no_fields) (peer [])
unfolding create_message new_success metadata_of canonical_items
read_success =
    read_chunked_message-pack_message 0x70 success_fields success_bytes []
      (peer (frame success_bytes)) success-AreGoValues pack_success (omega arith) refl refl

-- The record of the values [null].
abbrev null_record : Message
null_record = generic 0x71 (item (list (item null no_items)) no_items)

one_record-Arrives :
    Arrives null_record
      (peer (frame success_bytes))
      (item null no_items ∷ [])
      (success no_fields)
      (peer [])
unfolding signature message_fields
one_record-Arrives =
    one_record null_record (success no_fields) (success no_fields) (peer (frame success_bytes))
      (peer []) (peer []) (item null no_items) [] refl refl read_success
      (last (success no_fields) (peer []) (λ e. ground arith))

pull_loop-verdict_example :
    pull_loop 2 (codes "n" ∷ []) [] null_record (peer (frame success_bytes))
    ≡ verdict
        (codes "n" ∷ [])
        ([] ++ rows_of (codes "n" ∷ []) (item null no_items ∷ []))
        (success no_fields)
        (peer [])
pull_loop-verdict_example = pull_loop-verdict 2 (codes "n" ∷ []) [] one_record-Arrives (omega arith)

-- ===== src/Driver/Stream/Started.antt =====
-- How sendRun of src/driver/streaming_connection.go ends.
use gopher_cypher.Driver.Stream.Returns.{Leaves-write_chunked_message}
use gopher_cypher.Messaging.Request.{
  not_packed, write_chunked_message, read_chunked_message, packed, Packed,
}
use gopher_cypher.Packstream.Value.{Fields}
use gopher_cypher.Messaging.Progress.{Leaves-read_chunked_message, Leaves}
use gopher_cypher.Messaging.Message.{message_fields, signature, Message}
use gopher_cypher.Driver.Stream.State.{StreamError, Stream}
use gopher_cypher.Driver.Stream.Start.{
  run_keys, send_packed_run, on_run_response, send_run, after_run_read, take_keys, after_run_write,
}
use gopher_cypher.Common.{
  suc, length, ℕ, List, ◌==◌, Option, none, some, ◌≡◌, refl, Bool-cases, inl, inr,
}
use gopher_cypher.Messaging.Connection.{Outcome, ok, err, stuck}

-- sendRun returns, hands nothing back to the pool, and leaves the error that it returns.
abbrev pub Started : Stream → Option (Option StreamError × Stream) → Type 0
Started sc none = ⊥
Started sc (some (none, sc')) = (sc'.closed ≡ sc.closed) × (sc'.returned ≡ sc.returned)
Started sc (some (some e, sc')) =
    ((sc'.closed ≡ sc.closed) × (sc'.returned ≡ sc.returned)) × (sc'.last_err ≡ some e)

take_keys-Started :
    (keys : Option (List (List ℕ))) (sc : Stream) → Started sc (some (take_keys keys sc))
unfolding take_keys
take_keys-Started (some keys) sc = (refl, refl)
take_keys-Started none sc = elim (Bool-cases sc.has_keys) [
  | inl e ↦ rw e (refl, refl)
  | inr e ↦ rw e ((refl, refl), refl)
]

on_run_response-Started :
    (response : Message) (sc : Stream) → Started sc (some (on_run_response response sc))
unfolding on_run_response
on_run_response-Started response sc = elim (Bool-cases (signature response == 0x7f)) [
  | inl e ↦ rw e ((refl, refl), refl)
  | inr e ↦ elim (Bool-cases (signature response == 0x70)) [
    | inl d ↦ rw (e, d) (take_keys-Started (run_keys (message_fields response)) sc)
    | inr d ↦ rw (e, d) ((refl, refl), refl)
  ]
]

after_run_read-Started :
    (n : ℕ) (sc : Stream) (o : Outcome Message) → Leaves n o → Started sc (after_run_read sc o)
unfolding after_run_read
after_run_read-Started n sc (ok response conn) h =
    on_run_response-Started response (record sc { conn = conn })
after_run_read-Started n sc (err e conn) h = ((refl, refl), refl)
after_run_read-Started n sc stuck h = h

after_run_write-Started :
    (n : ℕ) (sc : Stream) (o : Outcome (Unit {0})) → Leaves n o → Started sc (after_run_write sc o)
unfolding after_run_write
after_run_write-Started n sc (ok _ conn) h =
    after_run_read-Started (length conn.incoming) (record sc { conn = conn })
      (read_chunked_message conn) (Leaves-read_chunked_message conn)
after_run_write-Started n sc (err e conn) h = ((refl, refl), refl)
after_run_write-Started n sc stuck h = h

send_packed_run-Started : (sc : Stream) (p : Packed) → Started sc (send_packed_run sc p)
unfolding send_packed_run
send_packed_run-Started sc (packed bs) =
    after_run_write-Started (suc (length sc.conn.incoming)) sc (write_chunked_message bs sc.conn)
      (Leaves-write_chunked_message bs sc.conn)
send_packed_run-Started sc (not_packed e) = ((refl, refl), refl)

pub send_run-Started :
    (query : List ℕ) (params metadata : Fields) (sc : Stream)
    → Started sc (send_run query params metadata sc)
unfolding send_run
send_run-Started query params metadata sc = send_packed_run-Started sc _

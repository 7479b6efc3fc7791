-- ===== src/Driver/Stream/Start.antt =====
-- sendRun of src/driver/streaming_connection.go: the query is sent and its columns are read.
use gopher_cypher.Driver.Stream.State.{
  unexpected_run_response, transport, database, no_field_names, Stream, StreamError,
}
use gopher_cypher.Common.{ℕ, List, [], ◌∷◌, true, ◌==◌, if◌then◌else◌, Option, none, some}
use gopher_cypher.Common.Text.{codes}
use gopher_cypher.Packstream.Value.{
  Value, Items, Fields, string, list, dict, item, no_items, get_field,
}
use gopher_cypher.Messaging.Connection
use gopher_cypher.Messaging.Connection.{Conn, Error, Outcome}
use gopher_cypher.Messaging.Message.{
  Message, signature, message_fields, failure_code, failure_message, new_run,
}
use gopher_cypher.Messaging.Request.{
  Packed, packed, not_packed, pack_message, write_chunked_message, read_chunked_message,
}
use gopher_cypher.Messaging.Exchange.{failure_metadata}

-- The names of the columns in the response to RUN; a name that is no string is the empty string.
key_names : Items → List (List ℕ)
key_names no_items = []
key_names (item (string s) rest) = s ∷ key_names rest
key_names (item _ rest) = [] ∷ key_names rest

keys_of : Option Value → Option (List (List ℕ))
unfolding key_names
keys_of (some (list names)) = some (key_names names)
keys_of _ = none

unfoldable pub run_keys : Items → Option (List (List ℕ))
unfolding keys_of
run_keys (item (dict m) rest) = keys_of (get_field (codes "fields") m)
run_keys _ = none

-- sc.lastErr = err; return err
abbrev run_failing : StreamError → Stream → Option StreamError × Stream
run_failing e sc = (some e, record sc { last_err = some e })

unfoldable pub take_keys : Option (List (List ℕ)) → Stream → Option StreamError × Stream
take_keys none sc = if sc.has_keys then (none, sc) else run_failing no_field_names sc
take_keys (some keys) sc = (none, record sc { keys = keys; has_keys = true })

unfoldable pub on_run_response : Message → Stream → Option StreamError × Stream
unfolding take_keys
on_run_response response sc =
    let m = failure_metadata response in
    if signature response == 0x7f
    then run_failing (database (failure_code m) (failure_message m)) sc
    else if signature response == 0x70
    then take_keys (run_keys (message_fields response)) sc
    else run_failing unexpected_run_response sc

unfoldable pub after_run_read : Stream → Outcome Message → Option (Option StreamError × Stream)
unfolding on_run_response
after_run_read sc (Connection.ok response conn) =
    some (on_run_response response (record sc { conn = conn }))
after_run_read sc (Connection.err e conn) =
    some (run_failing (transport e) (record sc { conn = conn }))
after_run_read sc Connection.stuck = none

unfoldable pub after_run_write : Stream → Outcome (Unit {0}) → Option (Option StreamError × Stream)
unfolding after_run_read
after_run_write sc (Connection.ok _ conn) =
    after_run_read (record sc { conn = conn }) (read_chunked_message conn)
after_run_write sc (Connection.err e conn) =
    some (run_failing (transport e) (record sc { conn = conn }))
after_run_write sc Connection.stuck = none

unfoldable pub send_packed_run : Stream → Packed → Option (Option StreamError × Stream)
unfolding after_run_write
send_packed_run sc (packed bs) = after_run_write sc (write_chunked_message bs sc.conn)
send_packed_run sc (not_packed e) = some (run_failing (transport e) sc)

unfoldable pub send_run : List ℕ → Fields → Fields → Stream → Option (Option StreamError × Stream)
unfolding send_packed_run
send_run query params metadata sc =
    let m = new_run query params metadata in
    send_packed_run sc (pack_message (signature m) (message_fields m))

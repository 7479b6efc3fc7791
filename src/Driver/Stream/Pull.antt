-- ===== src/Driver/Stream/Pull.antt =====
-- PullNext, GetKeys and Close of src/driver/streaming_connection.go.
use gopher_cypher.Driver.Stream.State.{
  continue, transport, return, nothing, on_response, Step, failing, one_row, closed_early,
  keys_not_available, Pulled, Stream, StreamError,
}
use gopher_cypher.Common.{
  ℕ, zero, suc, List, [], ◌∷◌, Bool, true, ◌||◌, if◌then◌else◌, length, Option, none, some,
}
use gopher_cypher.Common.Int.{ℤ, pos, negsuc}
use gopher_cypher.Common.Text.{codes}
use gopher_cypher.Packstream.Value.{integer, int, no_fields, field}
use gopher_cypher.Messaging.Connection
use gopher_cypher.Messaging.Connection.{Conn, Error, Outcome}
use gopher_cypher.Messaging.Message.{Message, signature, message_fields, pull}
use gopher_cypher.Messaging.Request.{
  Packed, packed, not_packed, pack_message, write_chunked_message, read_chunked_message,
}
use gopher_cypher.Messaging.Exchange.{Row}

unfoldable pub after_step : (Stream → Option (Pulled × Stream)) → Step → Option (Pulled × Stream)
after_step next (return r) = some r
after_step next (continue sc) = next sc

unfoldable pub after_read :
    (Stream → Option (Pulled × Stream)) → ℕ → Stream → Outcome Message → Option (Pulled × Stream)
unfolding after_step
after_read next now sc (Connection.ok response conn) =
    after_step next (on_response now response (record sc { conn = conn }))
after_read next now sc (Connection.err e conn) =
    some (failing (transport e) (record sc { conn = conn }))
after_read next now sc Connection.stuck = none

-- The reading loop of PullNext. A response costs one unit of fuel; `none` means out of fuel.
unfoldable pub read_responses : ℕ → ℕ → Stream → Option (Pulled × Stream)
read_responses zero now sc = none
read_responses (suc fuel) now sc =
    after_read (λ sc'. read_responses fuel now sc') now sc (read_chunked_message sc.conn)

-- `if batchSize <= 0 { batchSize = 1 }`
unfoldable pub batch_of : ℤ → ℤ
batch_of (pos zero) = pos 1
batch_of (pos (suc n)) = pos (suc n)
batch_of (negsuc n) = pos 1

abbrev pub pull_message : ℤ → Message
pull_message n =
    pull
      (field (codes "n") (integer int n) (field (codes "qid") (integer int (negsuc 0)) no_fields))

-- Every response takes a byte of the input at least, so its length is enough fuel.
unfoldable pub after_write : ℕ → Stream → Outcome (Unit {0}) → Option (Pulled × Stream)
unfolding read_responses
after_write now sc (Connection.ok _ conn) =
    read_responses (suc (length conn.incoming)) now (record sc { conn = conn })
after_write now sc (Connection.err e conn) =
    some (failing (transport e) (record sc { conn = conn }))
after_write now sc Connection.stuck = none

unfoldable pub send_pull : ℕ → Stream → Packed → Option (Pulled × Stream)
unfolding after_write
send_pull now sc (packed bs) = after_write now sc (write_chunked_message bs sc.conn)
send_pull now sc (not_packed e) = some (failing (transport e) sc)

-- Without buffered records: one PULL, and its responses.
unfoldable pub pull_batch : ℤ → ℕ → Stream → Option (Pulled × Stream)
unfolding send_pull
pull_batch size now sc =
    let m = pull_message (batch_of size) in
    send_pull now (record sc { last_used_at = now }) (pack_message (signature m) (message_fields m))

unfoldable pub serve_or_pull : List Row → ℤ → ℕ → Stream → Option (Pulled × Stream)
unfolding pull_batch
serve_or_pull [] size now sc = pull_batch size now sc
serve_or_pull (r ∷ rs) size now sc = some (one_row r, record sc { pending = rs })

unfoldable pub pull_next : ℤ → ℕ → Stream → Option (Pulled × Stream)
unfolding serve_or_pull
pull_next size now sc =
    if sc.exhausted || sc.closed then some (nothing, sc) else serve_or_pull sc.pending size now sc

-- Close: the connection goes back to the pool once, with the error that tells whether it is fit.
unfoldable pub put_error : Option StreamError → Bool → Option StreamError
put_error (some e) was_exhausted = some e
put_error none was_exhausted = if was_exhausted then none else some closed_early

unfoldable pub close : Stream → Stream
unfolding put_error
close sc = if sc.closed then sc else record sc {
  closed = true;
  exhausted = true;
  returned = put_error sc.last_err sc.exhausted ∷ sc.returned;
}

unfoldable pub get_keys : Stream → Option (List (List ℕ)) × Option StreamError
get_keys sc = if sc.has_keys then (some sc.keys, none) else (none, some keys_not_available)

-- ===== src/Session/Streaming.antt =====
-- RunStream of src/driver/run.go: the stream keeps its connection until it is closed.
use gopher_cypher.Packstream.Value.{Fields}
use gopher_cypher.Common.{inl, true, none, inr, Option, List, ◌⊎◌, false, some}
use Prim.Native.String.{◌∷◌, []}
use Prim.Native.Nat.{ℕ}
use gopher_cypher.Common.{ℕ, List, [], ◌∷◌, Option, none, some, ◌⊎◌, inl, inr, true, false}
use gopher_cypher.Packstream.Value.{Fields}
use gopher_cypher.Driver.Stream.State.{Stream, StreamError}
use gopher_cypher.Driver.Stream.Start.{send_run}
use gopher_cypher.Driver.Stream.Pull.{close}
use gopher_cypher.Driver.Summary.{empty_summary}
use gopher_cypher.Session.Pooled.{PooledConn}
use gopher_cypher.Session.Running.{
  Slot, Pool, Held, aliased, replaced, original, used, Settings, Circumstances, Failure,
  no_connection, Ensured, ensured, refused, unending, ensure_authenticated, put_conn, get_conn,
  recorded, given_back_nothing,
}

time_or_zero : Option ℕ → ℕ
time_or_zero none = 0
time_or_zero (some t) = t

-- The streamingConnectionWrapper that RunStream makes.
unfoldable pub open_stream : ℕ → PooledConn → Stream
unfolding time_or_zero
open_stream start_time pc = record {
  conn = pc.conn;
  last_used_at = time_or_zero pc.last_used;
  start_time = start_time;
  keys = [];
  has_keys = false;
  exhausted = false;
  closed = false;
  summary = empty_summary;
  last_err = none;
  pending = [];
  returned = [];
}

-- The slot of the connection that ensureAuthenticated returned.
abbrev pub used_slot : Held → Slot
used_slot (aliased s) = s
used_slot (replaced s r) = r

-- sc.conn of a stream, as it is put back.
abbrev pub stream_slot : Held → Stream → Slot
stream_slot held sc = record (used_slot held) { pc = record (used held) { conn = sc.conn } }

-- What Close handed back goes to the pool.
abbrev pub put_returned : Slot → List (Option StreamError) → Pool → Pool
put_returned slot [] pool = pool
put_returned slot (none ∷ es) pool = put_conn slot false (put_returned slot es pool)
put_returned slot (some e ∷ es) pool = put_conn slot true (put_returned slot es pool)

-- How RunStream ends: with a stream and the connection it holds, or with an error; `lost` is no Go
-- outcome: out of fuel.
pub data Streamed : Type 0 where
  streaming : Held → Stream → Pool → Streamed
  not_streaming : Failure ⊎ StreamError → Pool → Streamed
  lost : Streamed

unfoldable pub after_send_run : Held → Pool → Option (Option StreamError × Stream) → Streamed
after_send_run held pool none = lost
after_send_run held pool (some (none, sc)) = streaming held sc pool
after_send_run held pool (some (some e, sc)) =
    let closed = close sc in
    not_streaming (inr e) (put_returned (stream_slot held closed) closed.returned pool)

unfoldable pub stream_on : List ℕ → Fields → Fields → ℕ → Ensured → Streamed
unfolding after_send_run open_stream
stream_on query parameters metadata start_time (ensured held pool) =
    after_send_run held pool
      (send_run query parameters metadata (open_stream start_time (used held)))
stream_on query parameters metadata start_time (refused why held pool) =
    not_streaming (inl why) (put_conn (original held) true pool)
stream_on query parameters metadata start_time unending = lost

-- Here a Get that fails is followed by a Put of no connection.
unfoldable pub with_stream :
    Settings → Circumstances → List ℕ → Fields → Fields → Option Slot × Pool → Streamed
unfolding stream_on
with_stream settings c query parameters metadata (none, pool) =
    not_streaming (inl no_connection) (recorded given_back_nothing pool)
with_stream settings c query parameters metadata (some slot, pool) =
    stream_on query parameters metadata c.now (ensure_authenticated settings c slot pool)

-- RunStream, without the logging and tracing around it.
unfoldable pub run_stream : Settings → Circumstances → List ℕ → Fields → Fields → Pool → Streamed
unfolding with_stream
run_stream settings c query parameters metadata pool =
    with_stream settings c query parameters metadata (get_conn pool.answers pool)

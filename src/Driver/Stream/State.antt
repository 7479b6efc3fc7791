-- ===== src/Driver/Stream/State.antt =====
-- The state of the StreamConnection of src/driver/streaming_connection.go, and what each response to
-- PULL does to it.
use gopher_cypher.Common.{
  ◌-◌, ℕ, List, [], ◌∷◌, ◌++◌, Bool, true, false, ◌==◌, if◌then◌else◌, Option, none, some,
}
use gopher_cypher.Common.Text.{codes}
use gopher_cypher.Packstream.Value.{
  Value, Items, Fields, bool, list, dict, item, no_items, no_fields, get_field, set_field,
}
use gopher_cypher.Messaging.Connection.{Conn, Error}
use gopher_cypher.Messaging.Message.{
  Message, signature, message_fields, failure_code, failure_message,
}
use gopher_cypher.Messaging.Exchange.{Row, failure_metadata}
use gopher_cypher.Driver.Summary.{Summary, with_stats, with_bookmark}

-- The errors that reach the user of a stream.
pub data StreamError : Type 0 where
  transport : Error → StreamError
  database : List ℕ → List ℕ → StreamError
  query_execution_failed unexpected_run_response no_field_names keys_not_available : StreamError
  invalid_record unexpected_response closed_early no_records many_records : StreamError

-- The streamingConnectionWrapper: the connection and when it was last used, the columns, the
-- flags, the summary that the final SUCCESS fills, the last error, and the buffered records.
-- `returned` holds what Close handed back to the pool: the error that goes with the connection.
pub record Stream : Type 0 where
  pub conn : Conn
  pub last_used_at : ℕ
  pub start_time : ℕ
  pub keys : List (List ℕ)
  pub has_keys : Bool
  pub exhausted : Bool
  pub closed : Bool
  pub summary : Summary
  pub last_err : Option StreamError
  pub pending : List Row
  pub returned : List (Option StreamError)

-- (*Record, *ResultSummary, error)
pub record Pulled : Type 0 where
  pub row : Option Row
  pub summary : Option Summary
  pub error : Option StreamError

abbrev pub nothing : Pulled
nothing = record { row = none; summary = none; error = none }

abbrev pub one_row : Row → Pulled
one_row r = record { row = some r; summary = none; error = none }

abbrev pub the_end : Summary → Pulled
the_end s = record { row = none; summary = some s; error = none }

abbrev pub pull_error : StreamError → Pulled
pull_error e = record { row = none; summary = none; error = some e }

-- sc.lastErr = err; return nil, nil, err
abbrev pub failing : StreamError → Stream → Pulled × Stream
failing e sc = (pull_error e, record sc { last_err = some e })

-- Only the columns that have a value get a key.
unfoldable pub record_of : List (List ℕ) → Items → Row → Row
record_of [] values row = row
record_of (k ∷ keys) no_items row = row
record_of (k ∷ keys) (item v values) row = record_of keys values (set_field k v row)

-- fields[0].([]interface{}) of a RECORD with one field.
unfoldable pub record_items : Items → Option Items
record_items (item (list values) no_items) = some values
record_items _ = none

-- fields[0].(map[string]interface{}) if there is one.
unfoldable pub first_map : Items → Option Fields
first_map (item (dict m) rest) = some m
first_map _ = none

is_true : Option Value → Bool
is_true (some (bool b)) = b
is_true _ = false

unfoldable pub has_more_of : Option Fields → Bool
unfolding is_true
has_more_of none = false
has_more_of (some m) = is_true (get_field (codes "has_more") m)

-- sc.summary after a SUCCESS without has_more.
unfoldable pub final_summary : Option Fields → ℕ → Summary → Summary
unfolding with_stats with_bookmark
final_summary none elapsed s = record s { execution_time = elapsed }
final_summary (some m) elapsed s =
    let s' : Summary =
      with_bookmark (get_field (codes "bookmark") m) (with_stats (get_field (codes "stats") m) s) in
    record s' { execution_time = elapsed }

-- The first buffered record, or what stands in its place.
unfoldable pub serve_pending : Pulled → List Row → Stream → Pulled × Stream
serve_pending otherwise [] sc = (otherwise, sc)
serve_pending otherwise (r ∷ rs) sc = (one_row r, record sc { pending = rs })

-- The SUCCESS that ends one PULL, `now` being the time when it is read.
unfoldable pub on_success : ℕ → Message → Stream → Pulled × Stream
unfolding serve_pending
on_success now response sc =
    let m = first_map (message_fields response) in
    let s = final_summary m (now - sc.start_time) sc.summary in
    if has_more_of m
    then serve_pending (if sc.exhausted then the_end sc.summary else nothing) sc.pending sc
    else serve_pending (the_end s) sc.pending (record sc { exhausted = true; summary = s })

unfoldable pub on_failure : Message → Stream → Pulled × Stream
on_failure response sc =
    let m = failure_metadata response in
    failing (database (failure_code m) (failure_message m)) (record sc { exhausted = true })

-- What one response to PULL does: it ends the call, or the loop goes on with the next message.
pub data Step : Type 0 where
  return : Pulled × Stream → Step
  continue : Stream → Step

unfoldable pub buffer_record : Option Items → Stream → Step
buffer_record none sc = return (failing invalid_record sc)
buffer_record (some values) sc =
    continue (record sc { pending = sc.pending ++ (record_of sc.keys values no_fields ∷ []) })

unfoldable pub on_response : ℕ → Message → Stream → Step
unfolding buffer_record
on_response now response sc =
    if signature response == 0x71
    then buffer_record (record_items (message_fields response)) sc
    else if signature response == 0x70
    then return (on_success now response sc)
    else if signature response == 0x7f
    then return (on_failure response sc)
    else return (failing unexpected_response sc)

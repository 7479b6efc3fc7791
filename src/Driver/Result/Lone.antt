-- ===== src/Driver/Result/Lone.antt =====
-- What Single of src/driver/result.go returns of the records that a connection serves.
use gopher_cypher.Common.{List, [], ◌∷◌, Bool, true, false, none, some, Option}
use gopher_cypher.Messaging.Exchange.{Row}
use gopher_cypher.Driver.Stream.State.{Pulled, StreamError, many_records}
use gopher_cypher.Driver.Result.Cursor.{StreamConnection, StreamingResult, close_at_end}
use gopher_cypher.Driver.Result.Drain.{Answer, refused, answer_unless, none_found}

-- The only record, or why there is not one.
abbrev pub single_of : List Row → Option StreamError → Answer (Option Row)
single_of [] e = none_found e
single_of (row ∷ []) e = answer_unless e (some row)
single_of (row ∷ other ∷ rows) e = refused many_records

abbrev pub has_many : List Row → Bool
has_many [] = false
has_many (row ∷ []) = false
has_many (row ∷ other ∷ rows) = true

module _ {S : Type 0} (c : StreamConnection S) where
  reading_at : StreamingResult S → Row → S → StreamingResult S
  reading_at r row s = record r { conn = s; current = some row; summary = none; error = none }

  ended_at : StreamingResult S → Pulled → S → StreamingResult S
  ended_at r last s =
      close_at_end c
        (record r { conn = s; current = last.row; summary = last.summary; error = last.error })

-- ===== src/Driver/Runs.antt =====
-- Concrete runs of a stream and of a result.
use gopher_cypher.Driver.Result.Peek.{next-peek, a_row, SameAhead, IsExclusive}
use gopher_cypher.Common.{
  ◌+◌, ◌||◌, ℕ, zero, suc, ◌≡◌, ◌≢◌, refl, arith, true, false, [], ◌∷◌, some, none,
}
use gopher_cypher.Common.Int.{pos}
use gopher_cypher.Common.Text.{codes}
use gopher_cypher.Packstream.Value.{get_field, integer, int64, field, no_fields}
use gopher_cypher.Messaging.Connection.{Conn, closes}
use gopher_cypher.Messaging.Message.{success, message_fields}
use gopher_cypher.Messaging.Exchange.{Row}
use gopher_cypher.Driver.Summary.{empty_summary}
use gopher_cypher.Driver.Stream.State.{
  Stream, Pulled, nothing, one_row, the_end, on_success, first_map, has_more_of,
}
use gopher_cypher.Driver.Stream.Pull.{pull_next, close}
use gopher_cypher.Driver.Stream.Pool.{Calls, done, then_close, IsReturnedOnce, Calls-IsReturnedOnce}
use gopher_cypher.Driver.Stream.Returns.{pull_next_total}
use gopher_cypher.Driver.Stream.Delivery.{pull_next-on_success}
use gopher_cypher.Driver.Result.Cursor.{
  next, peek, StreamConnection, StreamingResult, new_result, is_some,
}
use gopher_cypher.Driver.Result.Drain.{collect, answer_unless}
use gopher_cypher.Driver.Result.Served.{closed_if, Serves, ends, serves, collect-Serves}

abbrev silent : Conn
silent = record {
  incoming = [];
  outgoing = [];
  writes_left = 10;
  ending = closes;
  can_set_deadline = true;
}

abbrev fresh : Stream
fresh = record {
  conn = silent;
  last_used_at = 0;
  start_time = 0;
  keys = codes "n" ∷ [];
  has_keys = true;
  exhausted = false;
  closed = false;
  summary = empty_summary;
  last_err = none;
  pending = [];
  returned = [];
}

abbrev row_1 : Row
row_1 = field (codes "n") (integer int64 (pos 1)) no_fields

abbrev row_2 : Row
row_2 = field (codes "n") (integer int64 (pos 2)) no_fields

closed_twice : Calls fresh (close (close fresh))
closed_twice = then_close fresh (close fresh) (then_close fresh fresh (done fresh))

Calls-IsReturnedOnce_example : IsReturnedOnce (close (close fresh))
Calls-IsReturnedOnce_example = Calls-IsReturnedOnce closed_twice refl

pull_next_total_example : pull_next (pos 5) 1 fresh ≢ none
pull_next_total_example = pull_next_total (pos 5) 1 fresh

abbrev two_rows : Stream
two_rows = record fresh { pending = row_1 ∷ row_2 ∷ [] }

the_last : has_more_of (first_map (message_fields (success no_fields))) ≡ false
unfolding has_more_of first_map message_fields get_field
the_last = refl

pull_next-on_success_example :
    ((on_success 9 (success no_fields) two_rows).0 ≡ one_row row_1)
    × (pull_next (pos 5) 10 (on_success 9 (success no_fields) two_rows).1
        ≡ some (nothing, (on_success 9 (success no_fields) two_rows).1))
    × ((on_success 9 (success no_fields) two_rows).1.pending ≡ row_2 ∷ [])
pull_next-on_success_example =
    pull_next-on_success 9 10 (pos 5) (success no_fields) two_rows row_1 (row_2 ∷ []) the_last refl

-- A connection that counts down: a row for each number, and then the summary.
counted_pull : ℕ → Pulled × ℕ
counted_pull zero = (the_end empty_summary, 0)
counted_pull (suc n) = (one_row row_1, n)

abbrev counted : StreamConnection ℕ
counted = record {
  pull_next = λ s. counted_pull s;
  get_keys = λ s. (none, none);
  close = λ s. s + 100;
}

counted-Serves : Serves counted 2 (row_1 ∷ row_1 ∷ []) (the_end empty_summary) 0
unfolding counted_pull
counted-Serves = serves 2 1 0 row_1 (row_1 ∷ []) (the_end empty_summary) refl (
    serves 1 0 0 row_1 [] (the_end empty_summary) refl (ends 0 0 (the_end empty_summary) refl refl))

collect-Serves_example :
    (final : StreamingResult ℕ) × (collect counted 3 (new_result counted 2)
      ≡ some (answer_unless none (row_1 ∷ row_1 ∷ []), final))
    × (final.closed
        ≡ (is_some (the_end empty_summary).error || is_some (the_end empty_summary).summary))
    × (final.conn ≡ closed_if counted true 0)
unfolding is_some
collect-Serves_example =
    collect-Serves counted 3 2 0 (row_1 ∷ row_1 ∷ []) (the_end empty_summary) counted-Serves
      (omega arith)

counted-IsExclusive : IsExclusive (counted_pull 2).0
unfolding counted_pull
counted-IsExclusive = a_row refl refl

next-peek_example :
    SameAhead
      (peek counted (new_result counted 2))
      (next counted (peek counted (new_result counted 2)).1)
      (next counted (new_result counted 2))
unfolding new_result
next-peek_example = next-peek counted (new_result counted 2) (refl, refl, refl) counted-IsExclusive

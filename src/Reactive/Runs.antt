-- ===== src/Reactive/Runs.antt =====
-- Concrete runs of the operators.
use gopher_cypher.Reactive.ByTime.{
  batch_by_time-unbatched, incoming_events, time_is_up, arrives, batch_arrival, Arrival,
  batch_by_time, unbatched,
}
use gopher_cypher.Reactive.Latest.{handle_all-latest, sent_at_once, last_delayed}
use gopher_cypher.Reactive.Drained.{drain_buffer-cut}
use gopher_cypher.Reactive.Backpressure.{
  dropping, on_buffer, keep_or_drop, new_backpressure, on_output, handle_strategy, returned,
  cancelled, on_default, keeping_latest, buffering, handle, Case, Backpressure, drain_buffer,
  handle_all, Moment,
}
use gopher_cypher.Reactive.Pipeline.{
  batching, throttling, SourceEnd, Operator, filtering, handling, stopped, emit_from_source,
  run_operators, subscribe,
}
use gopher_cypher.Reactive.Kept.{Rethrows}
use gopher_cypher.Reactive.Terminal.{IsComplete}
use gopher_cypher.Reactive.Complete.{subscribe-IsComplete}
use gopher_cypher.Reactive.Collect.{first, first_of, first-first_of}
use gopher_cypher.Reactive.Batch.{
  passed_on, slice, write_cell, send_slice, batch_other, batch_record, batch_event, record_events,
  batch_events,
}
use gopher_cypher.Common.{
  inl, map, true, Option, ◌==◌, refl, arith, ◌++◌, ℕ, List, ◌≡◌, [], ◌∷◌, some, none, false,
}
use gopher_cypher.Common.Int.{pos}
use gopher_cypher.Reactive.Operators.{RecordEvent, completion}

abbrev number : ℕ → RecordEvent ℕ ℕ
number n = record { record_of = some n; summary = none; error = none; complete = false }

abbrev numbers : List (RecordEvent ℕ ℕ)
numbers = number 4 ∷ number 5 ∷ number 4 ∷ completion ∷ []

key_of : ℕ → List ℕ
key_of n = n ∷ []

-- After the run the array of the batches 4, 5 and 6, 7 holds the second.
batch_events-overwritten :
    (batch_events {R = ℕ} {E = ℕ} 2 [] 0 (record_events (4 ∷ 5 ∷ 6 ∷ 7 ∷ []))).1 ≡ 6 ∷ 7 ∷ []
unfolding batch_events batch_event batch_record batch_other send_slice write_cell
batch_events-overwritten = refl

abbrev one_two : List ℕ
one_two = 1 ∷ 2 ∷ []

abbrev only_one : List ℕ
only_one = 1 ∷ []

abbrev stopped_nine : SourceEnd ℕ
stopped_nine = stopped 9

rethrown : ℕ → Option ℕ
rethrown e = some e

-- What is seen of a batch is its first record.
first_of_batch : ℕ → List ℕ → ℕ
first_of_batch n [] = 0
first_of_batch n (r ∷ rs) = r

abbrev chain : List (Operator ℕ ℕ)
chain =
    filtering (λ n. n == 2)
    ∷ throttling (pos 5)
    ∷ handling rethrown
    ∷ batching first_of_batch (pos 2)
    ∷ []

rethrown-Rethrows : Rethrows rethrown
unfolding rethrown
rethrown-Rethrows x = (x, refl)

subscribe-IsComplete_example :
    (out : List (RecordEvent ℕ ℕ)) × (run_operators chain (emit_from_source one_two stopped_nine)
      ≡ some out)
    × IsComplete (subscribe out)
subscribe-IsComplete_example =
    subscribe-IsComplete chain one_two stopped_nine (tt, (tt, (tt, (tt, tt))))
      (tt, (tt, (rethrown-Rethrows, (tt, tt))))

first-first_of_example : first [] only_one stopped_nine ≡ first_of only_one stopped_nine
first-first_of_example = first-first_of only_one stopped_nine

abbrev slow : Case → ℕ → Moment × ℕ
slow c n = (record { takes = false; done = false; picks = c }, n)

abbrev at_once : ℕ → Moment × ℕ
at_once n = (record { takes = true; done = false; picks = on_output }, n)

abbrev slow_calls : List (Moment × ℕ)
slow_calls = slow on_default 4 ∷ slow on_default 5 ∷ at_once 6 ∷ []

abbrev slow_end : Backpressure ℕ
slow_end = record {
  strategy = keeping_latest;
  capacity = 2;
  buffer = 5 ∷ [];
  dropped = 0;
  output = 6 ∷ [];
}

slow_calls-end : handle_all slow_calls (new_backpressure keeping_latest 2) ≡ some slow_end
unfolding handle_all handle handle_strategy keep_or_drop
slow_calls-end = refl

handle_all-latest_example : slow_end ≡ record {
  strategy = keeping_latest;
  capacity = 2;
  buffer = last_delayed slow_calls [];
  dropped = 0;
  output = sent_at_once slow_calls;
}
handle_all-latest_example = handle_all-latest 2 slow_calls slow_end (omega arith) slow_calls-end

-- BackpressureDrop drops what the output does not take, and BackpressureBuffer may send an event
-- before an older one that it keeps.
dropped_calls :
    handle_all slow_calls (new_backpressure dropping 2)
    ≡ some (record { strategy = dropping; capacity = 2; buffer = []; dropped = 2; output = 6 ∷ [] })
unfolding handle_all handle handle_strategy
dropped_calls = refl

buffered_calls :
    handle_all (slow on_buffer 4 ∷ at_once 5 ∷ []) (new_backpressure buffering 2)
    ≡ some (record {
      strategy = buffering;
      capacity = 2;
      buffer = 4 ∷ [];
      dropped = 0;
      output = 5 ∷ [];
    })
unfolding handle_all handle handle_strategy
buffered_calls = refl

abbrev three_kept : Backpressure ℕ
three_kept = record {
  strategy = buffering;
  capacity = 3;
  buffer = 4 ∷ 5 ∷ 6 ∷ [];
  dropped = 0;
  output = 3 ∷ [];
}

drain_buffer-cut_example :
    (drain_buffer (some 1) three_kept
      ≡ (cancelled, record three_kept { buffer = 6 ∷ []; output = 3 ∷ 4 ∷ [] }))
    × (drain_buffer none three_kept
        ≡ (returned, record three_kept { buffer = []; output = 3 ∷ 4 ∷ 5 ∷ 6 ∷ [] }))
drain_buffer-cut_example = drain_buffer-cut 1 three_kept (omega arith)

abbrev timed : List (Arrival ℕ ℕ)
timed =
    arrives (number 4)
    ∷ arrives (number 5)
    ∷ time_is_up
    ∷ time_is_up
    ∷ arrives (number 6)
    ∷ arrives completion
    ∷ []

batch_by_time-timed :
    batch_by_time [] timed ≡ slice 2 (4 ∷ 5 ∷ []) ∷ slice 1 (6 ∷ []) ∷ passed_on completion ∷ []
unfolding batch_by_time batch_arrival
batch_by_time-timed = refl

batch_by_time-unbatched_example :
    unbatched (batch_by_time [] timed) ≡ map inl [] ++ incoming_events timed
batch_by_time-unbatched_example = batch_by_time-unbatched [] timed

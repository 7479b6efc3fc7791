-- ===== src/Reactive/Pipeline.antt =====
-- The chain of operators of src/driver/reactive.go, in a run whose context is not cancelled: what the
-- source emits, the operators one after the other, and the calls of a subscriber.
use gopher_cypher.Reactive.Batch.{Sent, slice, passed_on, batch_events}
use gopher_cypher.Reactive.ByTime.{Arrival, arrives, time_is_up, batch_by_time}
use gopher_cypher.Common.Int.{pos, negsuc}
use gopher_cypher.Common.{
  zero, suc, ℕ, List, [], ◌∷◌, Bool, true, false, some, none, Option, if◌then◌else◌,
}
use gopher_cypher.Common.Int.{ℤ}
use gopher_cypher.Driver.Summary.{Summary}
use gopher_cypher.Reactive.Operators.{
  RecordEvent, transform, filter, take_events, skip_events, distinct, on_error,
}

-- What the Result under the chain gives: its records, then an error, or else what Consume returns.
pub data SourceEnd (E : Type 0) : Type 0 where
  stopped : E → SourceEnd E
  consumed : Option Summary → SourceEnd E
  not_consumed : E → SourceEnd E

-- mapOperator: `fn` gives none where the mapped value is no Record and no map.
pub map_record : {R : Type 0} → (R → Option R) → Option R → Option R → Option R
map_record fn kept none = kept
map_record fn kept (some r) = some r

unfoldable pub mapped : {R : Type 0} → (R → Option R) → Option R → Option R
unfolding map_record
mapped fn none = none
mapped fn (some r) = map_record fn (some r) (fn r)

seen_if : {A : Type 0} → Option A → List A → List A
seen_if none rest = rest
seen_if (some a) rest = a ∷ rest

module _ {R E : Type 0} where
  abbrev pub record_event : R → RecordEvent R E
  record_event r = record { record_of = some r; summary = none; error = none; complete = false }

  abbrev error_event : E → RecordEvent R E
  error_event e = record { record_of = none; summary = none; error = some e; complete = false }

  abbrev last_event : SourceEnd E → RecordEvent R E
  last_event (stopped e) = error_event e
  last_event (consumed s) = record { record_of = none; summary = s; error = none; complete = true }
  last_event (not_consumed e) = error_event e

  unfoldable pub emit_from_source : List R → SourceEnd E → List (RecordEvent R E)
  emit_from_source [] end = last_event end ∷ []
  emit_from_source (r ∷ rs) end = record_event r ∷ emit_from_source rs end

  unfoldable pub map_events : (R → Option R) → List (RecordEvent R E) → List (RecordEvent R E)
  unfolding mapped
  map_events fn [] = []
  map_events fn (e ∷ es) = record e { record_of = mapped fn e.record_of } ∷ map_events fn es

  -- doOnNextOperator, doOnCompleteOperator, doOnErrorOperator: the events go through, and the action
  -- is called with these.
  unfoldable pub do_on_next : List (RecordEvent R E) → List R
  unfolding seen_if
  do_on_next [] = []
  do_on_next (e ∷ es) = seen_if e.record_of (do_on_next es)

  unfoldable pub do_on_complete : List (RecordEvent R E) → List Summary
  unfolding seen_if
  do_on_complete [] = []
  do_on_complete (e ∷ es) =
      let rest = do_on_complete es in if e.complete then seen_if e.summary rest else rest

  unfoldable pub do_on_error : List (RecordEvent R E) → List E
  unfolding seen_if
  do_on_error [] = []
  do_on_error (e ∷ es) = seen_if e.error (do_on_error es)

-- reactiveOperator. Throttle delays records and changes none. What an operator behind it finds in the
-- n-th batch depends on when it looks, since the batches share an array: it is what a function given
-- with the operator makes of n and of the records that were in the batch when it was sent. For
-- BatchByTime it is also given whether the timer runs out before each event; a further expiry before
-- the same event finds an empty batch.
pub data Operator (R E : Type 0) : Type 0 where
  transforming : (R → Option R) → Operator R E
  filtering : (R → Bool) → Operator R E
  mapping : (R → Option R) → Operator R E
  batching : (ℕ → List R → R) → ℤ → Operator R E
  batching_by_time : (ℕ → List R → R) → List Bool → Operator R E
  taking : ℤ → Operator R E
  skipping : ℤ → Operator R E
  distinguishing : (R → List ℕ) → Operator R E
  throttling : ℤ → Operator R E
  handling : (E → Option E) → Operator R E
  doing_on_next doing_on_complete doing_on_error : Operator R E

module _ {R E : Type 0} where
  -- RecordEvent{Record: &batchRecord}, and the events that are passed on.
  unfoldable pub sent_events : (ℕ → List R → R) → ℕ → List (Sent R E) → List (RecordEvent R E)
  sent_events found n [] = []
  sent_events found n (slice len rs ∷ sent) =
      record_event (found n rs) ∷ sent_events found (suc n) sent
  sent_events found n (passed_on e ∷ sent) = e ∷ sent_events found n sent

  -- The events with the expiries of the timer between them.
  unfoldable pub timed : List Bool → List (RecordEvent R E) → List (Arrival R E)
  timed up [] = []
  timed [] (e ∷ es) = arrives e ∷ timed [] es
  timed (false ∷ up) (e ∷ es) = arrives e ∷ timed up es
  timed (true ∷ up) (e ∷ es) = time_is_up ∷ arrives e ∷ timed up es

  -- What goes out for what comes in, or none where the goroutine of the operator panics, which ends
  -- the program: time.NewTicker on a rate that is not positive, and make on a negative size.
  unfoldable pub apply : Operator R E → List (RecordEvent R E) → Option (List (RecordEvent R E))
  unfolding transform filter map_events take_events skip_events distinct on_error batch_events
      batch_by_time sent_events timed
  apply (transforming fn) es = some (transform fn es)
  apply (filtering fn) es = some (filter fn es)
  apply (mapping fn) es = some (map_events fn es)
  apply (batching found (negsuc n)) es = none
  apply (batching found (pos size)) es = some (sent_events found 0 (batch_events size [] 0 es).0)
  apply (batching_by_time found up) es = some (sent_events found 0 (batch_by_time [] (timed up es)))
  apply (taking n) es = some (take_events 0 n es)
  apply (skipping n) es = some (skip_events 0 n es)
  apply (distinguishing key) es = some (distinct [] key es)
  apply (throttling (negsuc n)) es = none
  apply (throttling (pos zero)) es = none
  apply (throttling (pos (suc rate))) es = some es
  apply (handling handler) es = some (on_error handler es)
  apply doing_on_next es = some es
  apply doing_on_complete es = some es
  apply doing_on_error es = some es

  abbrev pub unless_panic :
      (List (RecordEvent R E) → Option (List (RecordEvent R E)))
      → Option (List (RecordEvent R E))
      → Option (List (RecordEvent R E))
  unless_panic next none = none
  unless_panic next (some es) = next es

  -- Records: the operators in the order in which they were added.
  unfoldable pub run_operators :
      List (Operator R E) → List (RecordEvent R E) → Option (List (RecordEvent R E))
  unfolding apply
  run_operators [] es = some es
  run_operators (op ∷ ops) es = unless_panic (λ out. run_operators ops out) (apply op es)

-- A call of a Subscriber.
pub data Call (R E : Type 0) : Type 0 where
  on_next : R → Call R E
  on_failed : E → Call R E
  on_complete : Option Summary → Call R E

module _ {R E : Type 0} where
  unfoldable pub call_next : Option R → List (Call R E) → List (Call R E)
  call_next none rest = rest
  call_next (some r) rest = on_next r ∷ rest

  unfoldable pub call_for : Option E → Bool → RecordEvent R E → List (Call R E) → List (Call R E)
  unfolding call_next
  call_for (some x) complete e rest = on_failed x ∷ []
  call_for none true e rest = on_complete e.summary ∷ []
  call_for none false e rest = call_next e.record_of rest

  -- Subscribe: the loop ends at an error, a completion, or the end of the channel.
  unfoldable pub subscribe : List (RecordEvent R E) → List (Call R E)
  unfolding call_for
  subscribe [] = []
  subscribe (e ∷ es) = call_for e.error e.complete e (subscribe es)

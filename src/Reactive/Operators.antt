-- ===== src/Reactive/Operators.antt =====
-- The operators of src/driver/reactive_operators.go as functions from the events that come in to the
-- events that go out, in a run whose context is not cancelled: the input channel gives the events of
-- a list and is closed then, and the reader takes every event.
use gopher_cypher.Common.{
  ℕ, suc, ltb, List, [], ◌∷◌, Bool, true, false, some, none, Option, if◌then◌else◌, str_eq,
}
use gopher_cypher.Common.Int.{ℤ, pos, negsuc}
use gopher_cypher.Driver.Summary.{Summary}

-- RecordEvent, on any types of records and errors.
pub record RecordEvent (R E : Type 0) : Type 0 where
  pub record_of : Option R
  pub summary : Option Summary
  pub error : Option E
  pub complete : Bool

unfoldable pub on_record {ℓ} : {A : Type ℓ} → (A → Option A) → Option A → Option A
on_record fn none = none
on_record fn (some r) = fn r

unfoldable pub passes {ℓ} : {A : Type ℓ} → (A → Bool) → Option A → Bool
passes fn none = true
passes fn (some r) = fn r

unfoldable pub below : ℕ → ℤ → Bool
below count (pos n) = ltb count n
below count (negsuc n) = false

-- `_, exists := op.seen.LoadOrStore(key, true)`
unfoldable pub is_seen : List ℕ → List (List ℕ) → Bool
is_seen key [] = false
is_seen key (k ∷ seen) = let rest = is_seen key seen in if str_eq k key then true else rest

module _ {R E : Type 0} where
  abbrev pub completion : RecordEvent R E
  completion = record { record_of = none; summary = none; error = none; complete = true }

  -- transformOperator, whose function is not nil; a nil that it returns leaves no record.
  unfoldable pub transform : (R → Option R) → List (RecordEvent R E) → List (RecordEvent R E)
  unfolding on_record
  transform fn [] = []
  transform fn (e ∷ es) = record e { record_of = on_record fn e.record_of } ∷ transform fn es

  -- filterOperator; an event without a record passes.
  unfoldable pub filter : (R → Bool) → List (RecordEvent R E) → List (RecordEvent R E)
  unfolding passes
  filter fn [] = []
  filter fn (e ∷ es) = let rest = filter fn es in if passes fn e.record_of then e ∷ rest else rest

  -- takeOperator: the event of the first record behind n of them becomes a completion, and the
  -- operator returns.
  unfoldable pub take_record :
      (ℕ → List (RecordEvent R E)) → Option R → RecordEvent R E → ℕ → ℤ → List (RecordEvent R E)
  unfolding below
  take_record continue none e count n = e ∷ continue count
  take_record continue (some r) e count n =
      if below count n then e ∷ continue (suc count) else (completion ∷ [])

  unfoldable pub take_events : ℕ → ℤ → List (RecordEvent R E) → List (RecordEvent R E)
  unfolding take_record
  take_events count n [] = []
  take_events count n (e ∷ es) =
      take_record (λ count'. take_events count' n es) e.record_of e count n

  -- skipOperator.
  unfoldable pub skip_record :
      (ℕ → List (RecordEvent R E)) → Option R → RecordEvent R E → ℕ → ℤ → List (RecordEvent R E)
  unfolding below
  skip_record continue none e count n = e ∷ continue count
  skip_record continue (some r) e count n =
      if below count n then continue (suc count) else e ∷ continue count

  unfoldable pub skip_events : ℕ → ℤ → List (RecordEvent R E) → List (RecordEvent R E)
  unfolding skip_record
  skip_events count n [] = []
  skip_events count n (e ∷ es) =
      skip_record (λ count'. skip_events count' n es) e.record_of e count n

  -- distinctOperator.
  unfoldable pub distinct_record :
      (List (List ℕ) → List (RecordEvent R E))
      → (R → List ℕ)
      → Option R
      → RecordEvent R E
      → List (List ℕ)
      → List (RecordEvent R E)
  unfolding is_seen
  distinct_record continue key none e seen = e ∷ continue seen
  distinct_record continue key (some r) e seen =
      if is_seen (key r) seen then continue seen else e ∷ continue (key r ∷ seen)

  unfoldable pub distinct :
      List (List ℕ) → (R → List ℕ) → List (RecordEvent R E) → List (RecordEvent R E)
  unfolding distinct_record
  distinct seen key [] = []
  distinct seen key (e ∷ es) =
      distinct_record (λ seen'. distinct seen' key es) key e.record_of e seen

  -- onErrorOperator: an error that the handler deals with goes no further.
  unfoldable pub recovered :
      List (RecordEvent R E) → RecordEvent R E → Option E → List (RecordEvent R E)
  recovered rest e none = rest
  recovered rest e (some x) = record e { error = some x } ∷ rest

  unfoldable pub handled :
      (E → Option E) → List (RecordEvent R E) → RecordEvent R E → Option E → List (RecordEvent R E)
  unfolding recovered
  handled handler rest e none = e ∷ rest
  handled handler rest e (some x) = recovered rest e (handler x)

  unfoldable pub on_error : (E → Option E) → List (RecordEvent R E) → List (RecordEvent R E)
  unfolding handled
  on_error handler [] = []
  on_error handler (e ∷ es) = handled handler (on_error handler es) e e.error

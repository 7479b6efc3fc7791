-- ===== src/Reactive/ByTime.antt =====
-- batchByTimeOperator of src/driver/reactive_operators.go. A batch stands here with the records that
-- are in it when it is sent; like those of batchOperator, the batches share an array.
use gopher_cypher.Common.{
  List, [], ◌∷◌, ◌++◌, Option, none, some, map, length, ◌≡◌, refl, ap, ◌∙◌, ◌⊎◌, inl, inr,
}
use gopher_cypher.Reactive.Operators.{RecordEvent}
use gopher_cypher.Reactive.Batch.{Sent, slice, passed_on}

-- What the operator meets: an event that comes in, or the timer that runs out.
pub data Arrival (R E : Type 0) : Type 0 where
  arrives : RecordEvent R E → Arrival R E
  time_is_up : Arrival R E

module _ {R E : Type 0} where
  abbrev pub emit_batch : List R → List (Sent R E) → List (Sent R E)
  emit_batch [] rest = rest
  emit_batch (r ∷ batch) rest = slice (length (r ∷ batch)) (r ∷ batch) ∷ rest

  unfoldable pub batch_arrival :
      (List R → List (Sent R E)) → Option R → RecordEvent R E → List R → List (Sent R E)
  batch_arrival continue (some r) e batch = continue (batch ++ (r ∷ []))
  batch_arrival continue none e batch = emit_batch batch (passed_on e ∷ continue [])

  -- The input is closed behind the last arrival.
  unfoldable pub batch_by_time : List R → List (Arrival R E) → List (Sent R E)
  unfolding batch_arrival
  batch_by_time batch [] = emit_batch batch []
  batch_by_time batch (time_is_up ∷ arrivals) = emit_batch batch (batch_by_time [] arrivals)
  batch_by_time batch (arrives e ∷ arrivals) =
      batch_arrival (λ batch'. batch_by_time batch' arrivals) e.record_of e batch

  -- The records and the other events, one after the other, that were sent.
  abbrev pub unbatched : List (Sent R E) → List (R ⊎ RecordEvent R E)
  unbatched [] = []
  unbatched (slice len rs ∷ sent) = map inl rs ++ unbatched sent
  unbatched (passed_on e ∷ sent) = inr e ∷ unbatched sent

  abbrev pub record_or_event : Option R → RecordEvent R E → R ⊎ RecordEvent R E
  record_or_event (some r) e = inl r
  record_or_event none e = inr e

  abbrev pub incoming_events : List (Arrival R E) → List (R ⊎ RecordEvent R E)
  incoming_events [] = []
  incoming_events (time_is_up ∷ arrivals) = incoming_events arrivals
  incoming_events (arrives e ∷ arrivals) = record_or_event e.record_of e ∷ incoming_events arrivals

  unbatched-emit_batch :
      (batch : List R) (rest : List (Sent R E))
      → unbatched (emit_batch batch rest) ≡ map inl batch ++ unbatched rest
  unbatched-emit_batch [] rest = refl
  unbatched-emit_batch (r ∷ batch) rest = refl

  map-snoc :
      (batch : List R) (r : R) (rest : List (R ⊎ RecordEvent R E))
      → map inl (batch ++ (r ∷ [])) ++ rest ≡ map inl batch ++ (inl r ∷ rest)
  map-snoc [] r rest = refl
  map-snoc (b ∷ batch) r rest = ap (λ t. inl b ∷ t) (map-snoc batch r rest)

  batch_arrival-unbatched :
      (continue : List R → List (Sent R E)) (o : Option R) (e : RecordEvent R E) (batch : List R)
      (rest : List (R ⊎ RecordEvent R E))
      → ((batch' : List R) → unbatched (continue batch') ≡ map inl batch' ++ rest)
      → unbatched (batch_arrival continue o e batch) ≡ map inl batch ++ (record_or_event o e ∷ rest)
  unfolding batch_arrival
  batch_arrival-unbatched continue (some r) e batch rest h =
      h (batch ++ (r ∷ [])) ∙ map-snoc batch r rest
  batch_arrival-unbatched continue none e batch rest h =
      unbatched-emit_batch batch (passed_on e ∷ continue [])
      ∙ ap (λ t. map inl batch ++ (inr e ∷ t)) (h [])

  -- Whenever the timer runs out, what BatchByTime has sent when its input is closed, with the
  -- records of the batches one by one, each batch read when it is sent, is what was in the batch
  -- before and then what came in: every record, completion and error, once and in order.
  pub batch_by_time-unbatched :
      (batch : List R) (arrivals : List (Arrival R E))
      → unbatched (batch_by_time batch arrivals) ≡ map inl batch ++ incoming_events arrivals
  unfolding batch_by_time
  batch_by_time-unbatched batch [] = unbatched-emit_batch batch []
  batch_by_time-unbatched batch (time_is_up ∷ arrivals) =
      unbatched-emit_batch batch (batch_by_time [] arrivals)
      ∙ ap (λ t. map inl batch ++ t) (batch_by_time-unbatched [] arrivals)
  batch_by_time-unbatched batch (arrives e ∷ arrivals) =
      batch_arrival-unbatched (λ batch'. batch_by_time batch' arrivals) e.record_of e batch
        (incoming_events arrivals) (λ batch'. batch_by_time-unbatched batch' arrivals)

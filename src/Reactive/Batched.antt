-- ===== src/Reactive/Batched.antt =====
-- The batch operators of src/driver/reactive_operators.go let the end of a stream through.
use gopher_cypher.Reactive.Operators.{RecordEvent}
use gopher_cypher.Reactive.ByTime.{emit_batch, batch_arrival, batch_by_time}
use gopher_cypher.Reactive.Batch.{
  write_cell, send_slice, slice, passed_on, batch_record, Sent, batch_other, batch_events,
  batch_event,
}
use gopher_cypher.Common.{
  ◌++◌, ℕ, zero, suc, List, [], ◌∷◌, Bool, true, false, some, none, Option, ◌≡◌, refl, inl, inr,
  Bool-cases, ltb, leb,
}
use gopher_cypher.Reactive.Pipeline.{sent_events, timed}
use gopher_cypher.Reactive.Kept.{IsKept, sent-IsKept, dropped-IsKept, added-IsKept}

module _ {R E : Type 0} (found : ℕ → List R → R) where
  -- What is sent lets the end of `es` through, whatever the number of its first batch.
  abbrev SendsEnd : List (RecordEvent R E) → List (Sent R E) → Type 0
  SendsEnd es sent = (n : ℕ) → IsKept es (sent_events found n sent)

  slice-SendsEnd :
      (len : ℕ) (rs : List R) (es : List (RecordEvent R E)) (sent : List (Sent R E))
      → SendsEnd es sent
      → SendsEnd es (slice len rs ∷ sent)
  unfolding sent_events
  slice-SendsEnd len rs es sent h n =
      added-IsKept (found n rs) es (sent_events found (suc n) sent) (h (suc n))

  passed_on-SendsEnd :
      (e : RecordEvent R E) (es : List (RecordEvent R E)) (sent : List (Sent R E))
      → SendsEnd es sent
      → SendsEnd (e ∷ es) (passed_on e ∷ sent)
  unfolding sent_events
  passed_on-SendsEnd e es sent h n =
      sent-IsKept e e es (sent_events found n sent) (λ p. p) (λ t. t) (h n)

  taken_in-SendsEnd :
      (e : RecordEvent R E) (r : R) (es : List (RecordEvent R E)) (sent : List (Sent R E))
      → e.record_of ≡ some r
      → SendsEnd es sent
      → SendsEnd (e ∷ es) sent
  taken_in-SendsEnd e r es sent s h n = dropped-IsKept e r es (sent_events found n sent) s (h n)

  batch_event-SendsEnd :
      (k : List R → ℕ → List (Sent R E) × List R) (size : ℕ) (o : Option R) (e : RecordEvent R E)
      (array : List R) (len : ℕ) (es : List (RecordEvent R E))
      → e.record_of ≡ o
      → ((array : List R) (len : ℕ) → SendsEnd es (k array len).0)
      → SendsEnd (e ∷ es) (batch_event k size o e array len).0
  unfolding batch_event batch_other batch_record send_slice
  batch_event-SendsEnd k size none e array len es s h = elim (Bool-cases (ltb 0 len)) [
    | inl a ↦
        rw a
          (slice-SendsEnd len _ (e ∷ es) _ (passed_on-SendsEnd e es (k array len).0 (h array len)))
    | inr a ↦ rw a (passed_on-SendsEnd e es (k array len).0 (h array len))
  ]
  batch_event-SendsEnd k size (some r) e array len es s h =
      let array' = write_cell len r array in
      elim (Bool-cases (leb size (suc len))) [
        | inl a ↦ rw a (
            slice-SendsEnd (suc len) _ (e ∷ es) _
              (taken_in-SendsEnd e r es (k array' zero).0 s (h array' zero)))
        | inr a ↦ rw a (taken_in-SendsEnd e r es (k array' (suc len)).0 s (h array' (suc len)))
      ]

  pub batch_events-SendsEnd :
      (size : ℕ) (array : List R) (len : ℕ) (es : List (RecordEvent R E)) (n : ℕ)
      → IsKept es (sent_events found n (batch_events size array len es).0)
  unfolding batch_events sent_events
  batch_events-SendsEnd size array len [] n = (λ h. h, λ h t. t)
  batch_events-SendsEnd size array len (e ∷ es) n =
      batch_event-SendsEnd (λ array' len'. batch_events size array' len' es) size e.record_of e
        array len es refl (λ array' len' m. batch_events-SendsEnd size array' len' es m) n

  emit_batch-SendsEnd :
      (batch : List R) (es : List (RecordEvent R E)) (sent : List (Sent R E))
      → SendsEnd es sent
      → SendsEnd es (emit_batch batch sent)
  emit_batch-SendsEnd [] es sent h = h
  emit_batch-SendsEnd (r ∷ batch) es sent h = slice-SendsEnd _ (r ∷ batch) es sent h

  batch_arrival-SendsEnd :
      (k : List R → List (Sent R E)) (o : Option R) (e : RecordEvent R E) (batch : List R)
      (es : List (RecordEvent R E))
      → e.record_of ≡ o
      → ((batch : List R) → SendsEnd es (k batch))
      → SendsEnd (e ∷ es) (batch_arrival k o e batch)
  unfolding batch_arrival
  batch_arrival-SendsEnd k (some r) e batch es s h =
      taken_in-SendsEnd e r es (k (batch ++ (r ∷ []))) s (h (batch ++ (r ∷ [])))
  batch_arrival-SendsEnd k none e batch es s h =
      emit_batch-SendsEnd batch (e ∷ es) (passed_on e ∷ k [])
        (passed_on-SendsEnd e es (k []) (h []))

  pub batch_by_time-SendsEnd :
      (up : List Bool) (batch : List R) (es : List (RecordEvent R E)) (n : ℕ)
      → IsKept es (sent_events found n (batch_by_time batch (timed up es)))
  unfolding batch_by_time timed sent_events
  batch_by_time-SendsEnd up batch [] n = emit_batch-SendsEnd batch [] [] (λ m. (λ h. h, λ h t. t)) n
  batch_by_time-SendsEnd [] batch (e ∷ es) n =
      batch_arrival-SendsEnd (λ b. batch_by_time b (timed [] es)) e.record_of e batch es refl
        (λ b m. batch_by_time-SendsEnd [] b es m) n
  batch_by_time-SendsEnd (false ∷ up) batch (e ∷ es) n =
      batch_arrival-SendsEnd (λ b. batch_by_time b (timed up es)) e.record_of e batch es refl
        (λ b m. batch_by_time-SendsEnd up b es m) n
  batch_by_time-SendsEnd (true ∷ up) batch (e ∷ es) n =
      emit_batch-SendsEnd batch (e ∷ es)
        (batch_arrival (λ b. batch_by_time b (timed up es)) e.record_of e [])
        (batch_arrival-SendsEnd (λ b. batch_by_time b (timed up es)) e.record_of e [] es refl
          (λ b m. batch_by_time-SendsEnd up b es m))
        n

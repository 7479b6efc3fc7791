-- ===== src/Reactive/Batch.antt =====
-- batchOperator of src/driver/reactive_operators.go, with the array that its batches share.
use gopher_cypher.Common.{
  ℕ, zero, suc, ltb, leb, List, [], ◌∷◌, ◌++◌, take, drop, false, some, none, Option, if◌then◌else◌,
}
use gopher_cypher.Reactive.Operators.{RecordEvent, completion}

-- What is sent: a batch, which is a slice of the array from its start with this length, along
-- with the records that stand in it when it is sent; or an event that is passed on.
pub data Sent (R E : Type 0) : Type 0 where
  slice : ℕ → List R → Sent R E
  passed_on : RecordEvent R E → Sent R E

-- `append` within the capacity: the record goes behind the slice of length `len`.
unfoldable pub write_cell {ℓ} : {R : Type ℓ} → ℕ → R → List R → List R
write_cell len r array = take len array ++ (r ∷ drop (suc len) array)

module _ {R E : Type 0} where
  unfoldable pub send_slice : ℕ → List R → List (Sent R E) → List (Sent R E)
  send_slice len array rest = slice len (take len array) ∷ rest

  -- A record: the batch is sent when it is full, and then batch[:0] keeps the array.
  unfoldable pub batch_record :
      (List R → ℕ → List (Sent R E) × List R) → ℕ → R → List R → ℕ → List (Sent R E) × List R
  unfolding write_cell send_slice
  batch_record continue size r array len =
      let array' = write_cell len r array in
      let (sent, final) = continue array' zero in
      if leb size (suc len)
      then (send_slice (suc len) array' sent, final)
      else continue array' (suc len)

  -- A completion or an error: what is left is sent, and stays in the batch.
  unfoldable pub batch_other :
      (List R → ℕ → List (Sent R E) × List R)
      → RecordEvent R E
      → List R
      → ℕ
      → List (Sent R E) × List R
  unfolding send_slice
  batch_other continue e array len =
      let (sent, final) = continue array len in
      if ltb 0 len
      then (send_slice len array (passed_on e ∷ sent), final)
      else (passed_on e ∷ sent, final)

  unfoldable pub batch_event :
      (List R → ℕ → List (Sent R E) × List R)
      → ℕ
      → Option R
      → RecordEvent R E
      → List R
      → ℕ
      → List (Sent R E) × List R
  unfolding batch_record batch_other
  batch_event continue size none e array len = batch_other continue e array len
  batch_event continue size (some r) e array len = batch_record continue size r array len

  -- What is sent for these events, and the array after them. With size 0 the first append makes
  -- an array of one place, which then stays.
  unfoldable pub batch_events : ℕ → List R → ℕ → List (RecordEvent R E) → List (Sent R E) × List R
  unfolding batch_event
  batch_events size array len [] = ([], array)
  batch_events size array len (e ∷ es) =
      batch_event (λ array' len'. batch_events size array' len' es) size e.record_of e array len

  -- The records of the batches, each read when it is sent.
  abbrev pub read_at_once : List (Sent R E) → List R
  read_at_once [] = []
  read_at_once (slice len rs ∷ sent) = rs ++ read_at_once sent
  read_at_once (passed_on e ∷ sent) = read_at_once sent

  abbrev pub with_record : R → RecordEvent R E
  with_record r = record { record_of = some r; summary = none; error = none; complete = false }

  abbrev pub record_events : List R → List (RecordEvent R E)
  record_events [] = completion ∷ []
  record_events (r ∷ rs) = with_record r ∷ record_events rs

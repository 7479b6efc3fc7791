-- ===== src/Reactive/Batches.antt =====
-- What a reader of the batches of batchOperator sees.
use gopher_cypher.Common.{
  ℕ, zero, suc, ◌≤◌, ◌≡◌, refl, ap, ◌∙◌, arith, ltb, leb, List, [], ◌∷◌, ◌++◌, append_assoc, length,
  take, Bool-cases, inl, inr,
}
use gopher_cypher.Reactive.Batch.{
  batch_events, batch_event, batch_record, batch_other, send_slice, write_cell, read_at_once,
  record_events,
}

take-write_cell {ℓ} :
    {R : Type ℓ} (len : ℕ) (r : R) (array : List R)
    → len ≤ length array
    → take (suc len) (write_cell len r array) ≡ take len array ++ (r ∷ [])
unfolding write_cell
take-write_cell zero r array h = refl
take-write_cell (suc len) r [] h = absurd (omega arith)
take-write_cell (suc len) r (x ∷ array) h =
    ap (λ t. x ∷ t) (take-write_cell len r array (omega arith))

length-write_cell {ℓ} :
    {R : Type ℓ} (len : ℕ) (r : R) (array : List R)
    → len ≤ length array
    → suc len ≤ length (write_cell len r array)
unfolding write_cell
length-write_cell zero r array h = omega arith
length-write_cell (suc len) r [] h = absurd (omega arith)
length-write_cell (suc len) r (x ∷ array) h =
    omega (arith, length-write_cell len r array (omega arith))

module _ {R : Type 0} (E : Type 0) where
  -- If records and then a completion come in, the batches, each read when it is sent, hold what was
  -- in the batch before and then the records, all of them and in order, whatever the size; the
  -- array has to be as long as the batch.
  pub batch_events-read_at_once :
      (size : ℕ) (rs array : List R) (len : ℕ)
      → len ≤ length array
      → read_at_once (batch_events {E = E} size array len (record_events rs)).0
        ≡ take len array ++ rs
  unfolding batch_events batch_event batch_record batch_other send_slice
  batch_events-read_at_once size [] array len h = elim (Bool-cases (ltb 0 len)) [
    | inl t ↦ rw t refl
    | inr f ↦ rw f (let z : 0 ≡ len = ground arith in ap (λ n. take n array ++ []) z)
  ]
  batch_events-read_at_once size (r ∷ rs) array len h =
      let array' = write_cell len r array in
      let written = take-write_cell len r array h in
      elim (Bool-cases (leb size (suc len))) [
        | inl t ↦ rw t (
            ap (λ t. t ++ read_at_once (batch_events size array' 0 (record_events {E = E} rs)).0)
              written
            ∙ ap (λ t. (take len array ++ (r ∷ [])) ++ t)
                (batch_events-read_at_once size rs array' 0 (omega arith))
            ∙ append_assoc (take len array) (r ∷ []) rs)
        | inr f ↦ rw f (
            batch_events-read_at_once size rs array' (suc len) (length-write_cell len r array h)
            ∙ ap (λ t. t ++ rs) written
            ∙ append_assoc (take len array) (r ∷ []) rs)
      ]

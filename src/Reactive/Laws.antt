-- ===== src/Reactive/Laws.antt =====
-- What the operators do to the records of a stream.
use gopher_cypher.Common.{
  ◌∙◌, ap, Bool-cases, sym, inr, inl, Option-cases, ℕ, zero, suc, ◌-◌, ◌≡◌, refl, arith, ltb, List,
  [], ◌∷◌, true, false, take, drop, some, none, Option,
}
use gopher_cypher.Common.Int.{pos}
use gopher_cypher.Reactive.Operators.{
  distinct_record, is_seen, below, skip_record, take_record, RecordEvent, take_events, skip_events,
  distinct,
}

add_record {ℓ} : {A : Type ℓ} → Option A → List A → List A
add_record none rs = rs
add_record (some r) rs = r ∷ rs

minus_suc : (n count : ℕ) → ltb count n ≡ true → (n - count) ≡ suc (n - suc count)
minus_suc n count h = ground arith

minus_zero : (n count : ℕ) → ltb count n ≡ false → (n - count) ≡ 0
minus_zero n count h = ground arith

take-nil {ℓ} : (A : Type ℓ) (n : ℕ) → take {A = A} n [] ≡ []
take-nil A zero = refl
take-nil A (suc n) = refl

drop-nil {ℓ} : (A : Type ℓ) (n : ℕ) → drop {A = A} n [] ≡ []
drop-nil A zero = refl
drop-nil A (suc n) = refl

-- Every key is new when it comes: it is not in `seen`, and no earlier record has it.
abbrev pub AllNew {ℓ} : {R : Type ℓ} → List (List ℕ) → (R → List ℕ) → List R → Type 0
AllNew seen key [] = Unit
AllNew seen key (r ∷ rs) = (is_seen (key r) seen ≡ false) × AllNew (key r ∷ seen) key rs

module _ {R E : Type 0} where
  -- The records of a stream of events.
  unfoldable pub records : List (RecordEvent R E) → List R
  unfolding add_record
  records [] = []
  records (e ∷ es) = add_record e.record_of (records es)

  -- Take lets the next records through, as many as are left of the n that it was made for, and no
  -- others.
  pub take_events-take :
      (es : List (RecordEvent R E)) (count n : ℕ)
      → records (take_events count (pos n) es) ≡ take (n - count) (records es)
  unfolding records take_events take_record below add_record
  take_events-take [] count n = sym (take-nil R (n - count))
  take_events-take (e ∷ es) count n = elim (Option-cases e.record_of) [
    | inl h ↦ rw h (take_events-take es count n)
    | inr (r, h) ↦ elim (Bool-cases (ltb count n)) [
      | inl t ↦
          rw h (
            rw t (rw (minus_suc n count t) (ap (λ rs. r ∷ rs) (take_events-take es (suc count) n))))
      | inr f ↦ rw h (rw f (rw (minus_zero n count f) refl))
    ]
  ]

  -- Skip keeps the next records back, as many as are left of the n that it was made for, and lets
  -- all that follow through.
  pub skip_events-drop :
      (es : List (RecordEvent R E)) (count n : ℕ)
      → records (skip_events count (pos n) es) ≡ drop (n - count) (records es)
  unfolding records skip_events skip_record below add_record
  skip_events-drop [] count n = sym (drop-nil R (n - count))
  skip_events-drop (e ∷ es) count n = elim (Option-cases e.record_of) [
    | inl h ↦ rw h (skip_events-drop es count n)
    | inr (r, h) ↦ elim (Bool-cases (ltb count n)) [
      | inl t ↦ rw h (rw t (rw (minus_suc n count t) (skip_events-drop es (suc count) n)))
      | inr f ↦ rw h (
          rw f (
            rw (minus_zero n count f) (
              ap (λ rs. r ∷ rs)
                (skip_events-drop es count n
                  ∙ ap (λ i. drop i (records es)) (minus_zero n count f)))))
    ]
  ]

  -- Distinct lets through no record whose key was seen before.
  pub distinct-AllNew :
      (es : List (RecordEvent R E)) (key : R → List ℕ) (seen : List (List ℕ))
      → AllNew seen key (records (distinct seen key es))
  unfolding records distinct distinct_record add_record
  distinct-AllNew [] key seen = tt
  distinct-AllNew (e ∷ es) key seen = elim (Option-cases e.record_of) [
    | inl h ↦ rw h (distinct-AllNew es key seen)
    | inr (r, h) ↦ elim (Bool-cases (is_seen (key r) seen)) [
      | inl t ↦ rw h (rw t (distinct-AllNew es key seen))
      | inr f ↦ rw h (rw f (f, distinct-AllNew es key (key r ∷ seen)))
    ]
  ]

  -- A second Distinct by the same key changes nothing.
  pub distinct-distinct :
      (es : List (RecordEvent R E)) (key : R → List ℕ) (seen : List (List ℕ))
      → distinct seen key (distinct seen key es) ≡ distinct seen key es
  unfolding distinct distinct_record
  distinct-distinct [] key seen = refl
  distinct-distinct (e ∷ es) key seen = elim (Option-cases e.record_of) [
    | inl h ↦ rw h (ap (λ t. record e { record_of = none } ∷ t) (distinct-distinct es key seen))
    | inr (r, h) ↦ elim (Bool-cases (is_seen (key r) seen)) [
      | inl t ↦ rw h (rw t (distinct-distinct es key seen))
      | inr f ↦ rw h (
          rw f (
            rw f (
              ap (λ t. record e { record_of = some r } ∷ t)
                (distinct-distinct es key (key r ∷ seen)))))
    ]
  ]

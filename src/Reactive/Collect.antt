-- ===== src/Reactive/Collect.antt =====
-- The terminal operations of src/driver/reactive_terminal.go, on the calls that Subscribe makes.
use gopher_cypher.Common.{
  append-nil, ℕ, suc, List, [], ◌∷◌, ◌++◌, some, none, Option, ◌≡◌, refl, sym, ap, ◌∙◌, ◌⊎◌, inl,
  inr, append_assoc,
}
use gopher_cypher.Common.Int.{pos}
use gopher_cypher.Reactive.Operators.{RecordEvent, take_events, take_record, below}
use gopher_cypher.Reactive.Pipeline.{
  SourceEnd, stopped, consumed, not_consumed, emit_from_source, Operator, taking, apply,
  run_operators, Call, on_next, on_failed, on_complete, subscribe, call_for, call_next,
}

-- How a blocking operation ends: wg.Wait never returns if no call has made wg.Done, and the program
-- ends if wg.Done is called once too often, in the goroutine and again in its deferred function.
pub data Waited {ℓ} (A : Type ℓ) : Type ℓ where
  returns : A → Waited A
  waits_for_ever crashes : Waited A

module _ {R E : Type 0} where
  -- sliceSubscriber. Subscribe makes no call behind OnError or OnComplete.
  unfoldable pub to_slice : List R → List (Call R E) → Waited (List R ⊎ E)
  to_slice rs [] = waits_for_ever
  to_slice rs (on_next r ∷ calls) = to_slice (rs ++ (r ∷ [])) calls
  to_slice rs (on_failed e ∷ calls) = returns (inr e)
  to_slice rs (on_complete s ∷ calls) = returns (inl rs)

  -- countSubscriber
  unfoldable pub count_records : ℕ → List (Call R E) → Waited (ℕ ⊎ E)
  count_records n [] = waits_for_ever
  count_records n (on_next r ∷ calls) = count_records (suc n) calls
  count_records n (on_failed e ∷ calls) = returns (inr e)
  count_records n (on_complete s ∷ calls) = returns (inl n)

  -- firstSubscriber once it has a record: wg.Done was called for it.
  after_first : R → List (Call R E) → Waited (Option R ⊎ E)
  after_first r [] = returns (inl (some r))
  after_first r (on_next q ∷ calls) = after_first r calls
  after_first r (on_failed e ∷ calls) = crashes
  after_first r (on_complete s ∷ calls) = returns (inl (some r))

  -- firstSubscriber; `inl none` is the usage error of First on a result without records.
  unfoldable pub first_record : List (Call R E) → Waited (Option R ⊎ E)
  unfolding after_first
  first_record [] = waits_for_ever
  first_record (on_next r ∷ calls) = after_first r calls
  first_record (on_failed e ∷ calls) = returns (inr e)
  first_record (on_complete s ∷ calls) = returns (inl none)

  -- A panic of an operator ends the program.
  abbrev pub subscribed {ℓ} :
      {A : Type ℓ} → (List (Call R E) → Waited A) → Option (List (RecordEvent R E)) → Waited A
  subscribed wait none = crashes
  subscribed wait (some es) = wait (subscribe es)

  -- First: Take(1), and the first record of that.
  unfoldable pub first : List (Operator R E) → List R → SourceEnd E → Waited (Option R ⊎ E)
  first ops rs end =
      subscribed first_record
        (run_operators (ops ++ (taking (pos 1) ∷ [])) (emit_from_source rs end))

  abbrev pub slice_of : List R → SourceEnd E → Waited (List R ⊎ E)
  slice_of rs (stopped e) = returns (inr e)
  slice_of rs (consumed s) = returns (inl rs)
  slice_of rs (not_consumed e) = returns (inr e)

  slice_from :
      (before rs : List R) (end : SourceEnd E)
      → to_slice before (subscribe (emit_from_source rs end)) ≡ slice_of (before ++ rs) end
  unfolding to_slice subscribe emit_from_source call_for call_next
  slice_from before [] (stopped e) = refl
  slice_from before [] (consumed s) = ap (λ t. returns (inl t)) (sym (append-nil before))
  slice_from before [] (not_consumed e) = refl
  slice_from before (r ∷ rs) end =
      slice_from (before ++ (r ∷ [])) rs end
      ∙ ap (λ t. slice_of t end) (append_assoc before (r ∷ []) rs)

  -- ToSlice without operators gives the records of the source, in order, or its error.
  pub to_slice-subscribe :
      (rs : List R) (end : SourceEnd E)
      → subscribed (to_slice []) (run_operators [] (emit_from_source rs end)) ≡ slice_of rs end
  unfolding run_operators
  to_slice-subscribe rs end = slice_from [] rs end

  abbrev pub first_of : List R → SourceEnd E → Waited (Option R ⊎ E)
  first_of [] (stopped e) = returns (inr e)
  first_of [] (consumed s) = returns (inl none)
  first_of [] (not_consumed e) = returns (inr e)
  first_of (r ∷ []) (stopped e) = crashes
  first_of (r ∷ []) (consumed s) = returns (inl (some r))
  first_of (r ∷ []) (not_consumed e) = crashes
  first_of (r ∷ q ∷ rs) end = returns (inl (some r))

  -- First on a source without operators: no record gives the error of the source, or no record; one
  -- record and then an error ends the program; one record and then a completion, or two records and
  -- more, give the first of them.
  pub first-first_of : (rs : List R) (end : SourceEnd E) → first [] rs end ≡ first_of rs end
  unfolding first first_record run_operators apply take_events take_record below subscribe
      emit_from_source call_for call_next
  first-first_of [] (stopped e) = refl
  first-first_of [] (consumed s) = refl
  first-first_of [] (not_consumed e) = refl
  first-first_of (r ∷ []) (stopped e) = refl
  first-first_of (r ∷ []) (consumed s) = refl
  first-first_of (r ∷ []) (not_consumed e) = refl
  first-first_of (r ∷ q ∷ rs) end = refl

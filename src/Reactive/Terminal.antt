-- ===== src/Reactive/Terminal.antt =====
-- How the runs of src/driver/reactive.go end for a subscriber.
use gopher_cypher.Common.{
  List, [], ◌∷◌, ◌++◌, Bool, true, false, ◌||◌, some, none, Option, map, ◌≡◌, refl, ap, ◌⊎◌, inl,
  inr, All,
}
use gopher_cypher.Reactive.Operators.{RecordEvent}
use gopher_cypher.Reactive.Pipeline.{
  SourceEnd, stopped, consumed, not_consumed, emit_from_source, Call, on_next, on_failed,
  on_complete, call_next, call_for, subscribe,
}

abbrev pub has_error : {E : Type 0} → Option E → Bool
has_error none = false
has_error (some e) = true

module _ {R E : Type 0} where
  abbrev pub IsTerminal : Call R E → Type 0
  IsTerminal (on_next r) = ⊥
  IsTerminal (on_failed e) = Unit
  IsTerminal (on_complete s) = Unit

  -- An event at which Subscribe ends.
  abbrev pub ends : RecordEvent R E → Bool
  ends e = has_error e.error || e.complete

  -- An event with a record is none at which Subscribe ends.
  abbrev pub IsPlain : RecordEvent R E → Type 0
  IsPlain e = (e.record_of ≡ none) ⊎ (ends e ≡ false)

  abbrev pub any_ends : List (RecordEvent R E) → Bool
  any_ends [] = false
  any_ends (e ∷ es) = ends e || any_ends es

  pub record HasEnd (es : List (RecordEvent R E)) : Type 0 where
    pub plain : All IsPlain es
    pub ended : any_ends es ≡ true

  -- The calls of a subscriber: records, and one terminal call behind them.
  pub record IsComplete (calls : List (Call R E)) : Type 0 where
    pub records : List R
    pub last_call : Call R E
    pub is_last : IsTerminal last_call
    pub all_calls : calls ≡ map on_next records ++ (last_call ∷ [])

  call_next-IsComplete :
      (r : Option R) (calls : List (Call R E)) → IsComplete calls → IsComplete (call_next r calls)
  unfolding call_next
  call_next-IsComplete none calls h = h
  call_next-IsComplete (some r) calls h = record {
    records = r ∷ h.records;
    last_call = h.last_call;
    is_last = h.is_last;
    all_calls = ap (λ t. on_next r ∷ t) h.all_calls;
  }

  call_for-IsComplete :
      (x : Option E) (complete : Bool) (e : RecordEvent R E) (rest : List (Call R E))
      → ((has_error x || complete) ≡ false → IsComplete rest)
      → IsComplete (call_for x complete e rest)
  unfolding call_for
  call_for-IsComplete (some x) complete e rest h = record {
    records = [];
    last_call = on_failed x;
    is_last = tt;
    all_calls = refl;
  }
  call_for-IsComplete none true e rest h = record {
    records = [];
    last_call = on_complete e.summary;
    is_last = tt;
    all_calls = refl;
  }
  call_for-IsComplete none false e rest h = call_next-IsComplete e.record_of rest (h refl)

  pub any_ends-IsComplete :
      (es : List (RecordEvent R E)) → any_ends es ≡ true → IsComplete (subscribe es)
  unfolding subscribe
  any_ends-IsComplete [] h = absurd (cc h)
  any_ends-IsComplete (e ∷ es) h =
      call_for-IsComplete e.error e.complete e (subscribe es)
        (λ k. any_ends-IsComplete es (rw k at h))

  pub emit-HasEnd : (rs : List R) (end : SourceEnd E) → HasEnd (emit_from_source rs end)
  unfolding emit_from_source
  emit-HasEnd [] (stopped e) = record { plain = (inl refl, tt); ended = refl }
  emit-HasEnd [] (consumed s) = record { plain = (inl refl, tt); ended = refl }
  emit-HasEnd [] (not_consumed e) = record { plain = (inl refl, tt); ended = refl }
  emit-HasEnd (r ∷ rs) end =
      let h : HasEnd (emit_from_source rs end) = emit-HasEnd rs end in
      record { plain = (inr refl, h.plain); ended = h.ended }

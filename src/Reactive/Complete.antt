-- ===== src/Reactive/Complete.antt =====
-- Subscribe of src/driver/reactive.go makes one last call, unless an error handler keeps it back.
use gopher_cypher.Reactive.Batched.{batch_by_time-SendsEnd, batch_events-SendsEnd}
use gopher_cypher.Common.Int.{pos, negsuc}
use gopher_cypher.Common.{
  zero, ◌∙◌, some, suc, List, [], ◌∷◌, none, Option, map, ◌≡◌, refl, ap, All,
}
use gopher_cypher.Reactive.Operators.{RecordEvent, on_error, handled, recovered}
use gopher_cypher.Reactive.Pipeline.{
  batching, batching_by_time, unless_panic, SourceEnd, stopped, emit_from_source, Operator,
  transforming, filtering, mapping, taking, skipping, distinguishing, throttling, handling,
  doing_on_next, doing_on_complete, doing_on_error, apply, run_operators, on_next, subscribe,
  call_for, call_next,
}
use gopher_cypher.Reactive.Terminal.{HasEnd, IsComplete, emit-HasEnd, any_ends-IsComplete}
use gopher_cypher.Reactive.Kept.{
  IsKept, Rethrows, transform-IsKept, map-IsKept, filter-IsKept, take-IsKept, skip-IsKept,
  distinct-IsKept, on_error-IsKept,
}

module _ {R E : Type 0} where
  -- An operator that keeps no error back.
  abbrev pub LetsErrorsThrough : Operator R E → Type 0
  LetsErrorsThrough (handling handler) = Rethrows handler
  LetsErrorsThrough _ = Unit

  -- An operator whose goroutine does not panic at its start.
  abbrev pub CanStart : Operator R E → Type 0
  CanStart (throttling (pos zero)) = ⊥
  CanStart (throttling (negsuc n)) = ⊥
  CanStart (batching found (negsuc n)) = ⊥
  CanStart _ = Unit

  -- The operator runs, and lets the end of the stream through.
  abbrev Passes : List (RecordEvent R E) → Option (List (RecordEvent R E)) → Type 0
  Passes es o = (out : List (RecordEvent R E)) × (o ≡ some out) × IsKept es out

  apply-Passes :
      (op : Operator R E) (es : List (RecordEvent R E))
      → CanStart op
      → LetsErrorsThrough op
      → Passes es (apply op es)
  unfolding apply
  apply-Passes (transforming fn) es c h = (_, refl, transform-IsKept fn es)
  apply-Passes (filtering fn) es c h = (_, refl, filter-IsKept fn es)
  apply-Passes (mapping fn) es c h = (_, refl, map-IsKept fn es)
  apply-Passes (batching found (negsuc n)) es c h = absurd c
  apply-Passes (batching found (pos size)) es c h =
      (_, refl, batch_events-SendsEnd found size [] 0 es 0)
  apply-Passes (batching_by_time found up) es c h =
      (_, refl, batch_by_time-SendsEnd found up [] es 0)
  apply-Passes (taking n) es c h = (_, refl, take-IsKept 0 n es)
  apply-Passes (skipping n) es c h = (_, refl, skip-IsKept 0 n es)
  apply-Passes (distinguishing key) es c h = (_, refl, distinct-IsKept [] key es)
  apply-Passes (throttling (negsuc n)) es c h = absurd c
  apply-Passes (throttling (pos zero)) es c h = absurd c
  apply-Passes (throttling (pos (suc rate))) es c h = (_, refl, (λ p. p, λ p t. t))
  apply-Passes (handling handler) es c h = (_, refl, on_error-IsKept handler es h)
  apply-Passes doing_on_next es c h = (_, refl, (λ p. p, λ p t. t))
  apply-Passes doing_on_complete es c h = (_, refl, (λ p. p, λ p t. t))
  apply-Passes doing_on_error es c h = (_, refl, (λ p. p, λ p t. t))

  run-HasEnd :
      (ops : List (Operator R E)) (es : List (RecordEvent R E))
      → All CanStart ops
      → All LetsErrorsThrough ops
      → HasEnd es
      → (out : List (RecordEvent R E)) × (run_operators ops es ≡ some out) × HasEnd out
  unfolding run_operators
  run-HasEnd [] es c a h = (es, refl, h)
  run-HasEnd (op ∷ ops) es (c, others) (a, more) h =
      let (out, e, (p, t)) = apply-Passes op es c a in
      let (final, e', g) =
        run-HasEnd ops out others more (record { plain = p h.plain; ended = t h.plain h.ended }) in
      (final, ap (unless_panic (λ out. run_operators ops out)) e ∙ e', g)

  -- Whatever the operators are, if every Throttle has a positive rate and every Batch a size that
  -- is not negative, and every error handler returns an error: no operator panics, and the calls of
  -- a subscriber are some records and one last call behind them, an error or a completion, whether
  -- the source ends well or with an error, whenever the timers of BatchByTime run out, and whatever
  -- is found in a batch.
  pub subscribe-IsComplete :
      (ops : List (Operator R E)) (rs : List R) (end : SourceEnd E)
      → All CanStart ops
      → All LetsErrorsThrough ops
      → (out : List (RecordEvent R E)) × (run_operators ops (emit_from_source rs end) ≡ some out)
        × IsComplete (subscribe out)
  subscribe-IsComplete ops rs end c a =
      let (out, e, h) = run-HasEnd ops (emit_from_source rs end) c a (emit-HasEnd rs end) in
      (out, e, any_ends-IsComplete out h.ended)

  -- An operator that cannot start ends the program.
  run_operators-panics :
      (op : Operator R E) (ops : List (Operator R E)) (es : List (RecordEvent R E))
      → ¬ CanStart op
      → run_operators (op ∷ ops) es ≡ none
  unfolding run_operators apply
  run_operators-panics (throttling (pos zero)) ops es h = refl
  run_operators-panics (throttling (negsuc n)) ops es h = refl
  run_operators-panics (batching found (negsuc n)) ops es h = refl
  run_operators-panics (throttling (pos (suc rate))) ops es h = absurd (h tt)
  run_operators-panics (batching found (pos size)) ops es h = absurd (h tt)
  run_operators-panics (transforming fn) ops es h = absurd (h tt)
  run_operators-panics (filtering fn) ops es h = absurd (h tt)
  run_operators-panics (mapping fn) ops es h = absurd (h tt)
  run_operators-panics (batching_by_time found up) ops es h = absurd (h tt)
  run_operators-panics (taking n) ops es h = absurd (h tt)
  run_operators-panics (skipping n) ops es h = absurd (h tt)
  run_operators-panics (distinguishing key) ops es h = absurd (h tt)
  run_operators-panics (handling handler) ops es h = absurd (h tt)
  run_operators-panics doing_on_next ops es h = absurd (h tt)
  run_operators-panics doing_on_complete ops es h = absurd (h tt)
  run_operators-panics doing_on_error ops es h = absurd (h tt)

  -- If an error handler returns nil for the error with which the source stops, the subscriber gets
  -- the records and no last call.
  subscribe_unended :
      (handler : E → Option E) (rs : List R) (x : E)
      → handler x ≡ none
      → subscribe (on_error handler (emit_from_source rs (stopped x))) ≡ map on_next rs
  unfolding subscribe on_error handled recovered emit_from_source call_for call_next
  subscribe_unended handler [] x h = rw h refl
  subscribe_unended handler (r ∷ rs) x h =
      ap (λ t. on_next r ∷ t) (subscribe_unended handler rs x h)

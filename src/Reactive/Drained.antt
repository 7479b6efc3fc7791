-- ===== src/Reactive/Drained.antt =====
-- DrainBuffer of src/driver/reactive_terminal.go.
use gopher_cypher.Reactive.Backpressure.{
  Backpressure, drain_events, drain_buffer, returned, cancelled, send_event,
}
use gopher_cypher.Common.{
  take, drop, ℕ, zero, suc, ◌<◌, ◌≡◌, refl, ap, ◌∙◌, none, some, List, [], ◌∷◌, ◌++◌, append-nil,
  append_assoc, arith, length,
}

module _ {E : Type 0} where
  drain_events-all :
      (es : List E) (p : Backpressure E)
      → drain_events none es p ≡ (returned, record p { buffer = []; output = p.output ++ es })
  unfolding drain_events
  drain_events-all [] p = rw (append-nil p.output) refl
  drain_events-all (e ∷ es) p =
      drain_events-all es (send_event e p)
      ∙ ap (λ t. (returned, record p { buffer = []; output = t }))
          (append_assoc p.output (e ∷ []) es)

  drain_events-cut :
      (n : ℕ) (es : List E) (p : Backpressure E)
      → n < length es
      → drain_events (some n) es p
        ≡ (cancelled, record p { buffer = drop (suc n) es; output = p.output ++ take n es })
  unfolding drain_events
  drain_events-cut n [] p h = absurd (omega arith)
  drain_events-cut zero (e ∷ es) p h = rw (append-nil p.output) refl
  drain_events-cut (suc n) (e ∷ es) p h =
      drain_events-cut n es (send_event e p) (omega arith)
      ∙ ap (λ t. (cancelled, record p { buffer = drop (suc n) es; output = t }))
          (append_assoc p.output (e ∷ []) (take n es))

  -- If the context ends when DrainBuffer has sent n events, fewer than the buffer holds, it returns
  -- the error, the first n events are on the output, and the buffer has lost one more than that; if
  -- the context does not end, all events go to the output in order, and none is left.
  pub drain_buffer-cut :
      (n : ℕ) (p : Backpressure E)
      → n < length p.buffer
      → (drain_buffer (some n) p ≡ (
        cancelled,
        record p { buffer = drop (suc n) p.buffer; output = p.output ++ take n p.buffer },
      ))
        × (drain_buffer none p
            ≡ (returned, record p { buffer = []; output = p.output ++ p.buffer }))
  unfolding drain_buffer
  drain_buffer-cut n p h = (drain_events-cut n p.buffer p h, drain_events-all p.buffer p)

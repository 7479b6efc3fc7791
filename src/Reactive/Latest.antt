-- ===== src/Reactive/Latest.antt =====
-- BackpressureLatest in src/driver/reactive_terminal.go.
use gopher_cypher.Reactive.Backpressure.{
  new_backpressure, cancelled, send_event, returned, remove_old, HandleResult, handle,
  handle_strategy, handle_all, keep_or_drop, Backpressure, Case, only_if, Moment,
}
use gopher_cypher.Reactive.Backpressure.{on_output, on_done, on_default, on_buffer, keeping_latest}
use gopher_cypher.Common.{
  ◌||◌, drop, ℕ, ◌≤◌, ◌≡◌, refl, sym, ap, ◌∙◌, inl, inr, Bool, true, false, not, some, List, [],
  ◌∷◌, ◌++◌, append-nil, append_assoc, arith, ltb, Option-cases, length,
}

only_if-eq : {A : Type 0} (b : Bool) (x y : A) → only_if b x ≡ some y → x ≡ y
only_if-eq true x y h = cc h
only_if-eq false x y h = absurd (cc h)

room-one : (n : ℕ) → 1 ≤ n → ltb 0 n ≡ true
room-one n h = ground arith

module _ {E : Type 0} where
  abbrev pub sent : Case → E → List E → List E
  sent on_output e es = e ∷ es
  sent on_default e es = es
  sent on_buffer e es = es
  sent on_done e es = es

  -- The events that went to the output at once.
  abbrev pub sent_at_once : List (Moment × E) → List E
  sent_at_once [] = []
  sent_at_once ((m, e) ∷ calls) = sent m.picks e (sent_at_once calls)

  abbrev pub delayed : Case → E → List E → List E
  delayed on_default e es = e ∷ []
  delayed on_output e es = es
  delayed on_buffer e es = es
  delayed on_done e es = es

  -- The event of the last call in the default case, or else what was there before.
  abbrev pub last_delayed : List (Moment × E) → List E → List E
  last_delayed [] es = es
  last_delayed ((m, e) ∷ calls) es = last_delayed calls (delayed m.picks e es)

  abbrev after_latest : Case → E → Backpressure E → Backpressure E
  after_latest c e p = record p { buffer = delayed c e p.buffer; output = p.output ++ sent c e [] }

  drop-one : (es : List E) → length es ≤ 1 → drop 1 es ≡ []
  drop-one [] h = refl
  drop-one (e ∷ []) h = refl
  drop-one (e ∷ d ∷ es) h = absurd (omega arith)

  replaced-latest :
      (e : E) (p : Backpressure E)
      → length p.buffer ≤ 1
      → 1 ≤ p.capacity
      → keep_or_drop e (remove_old p) ≡ record p { buffer = e ∷ [] }
  unfolding keep_or_drop
  replaced-latest e p h k = rw (drop-one p.buffer h, room-one p.capacity k) refl

  handle_strategy-latest :
      (c : Case) (m : Moment) (e : E) (p : Backpressure E) (r : HandleResult × Backpressure E)
      → length p.buffer ≤ 1
      → 1 ≤ p.capacity
      → handle_strategy keeping_latest c m e p ≡ some r
      → r.1 ≡ after_latest c e p
  unfolding handle_strategy
  handle_strategy-latest on_output m e p r h k a =
      ap (λ x. x.1) (sym (only_if-eq m.takes (returned, send_event e p) r a))
  handle_strategy-latest on_done m e p r h k a =
      rw (append-nil p.output) (ap (λ x. x.1) (sym (only_if-eq m.done (cancelled, p) r a)))
  handle_strategy-latest on_buffer m e p r h k a = absurd (cc a)
  handle_strategy-latest on_default m e p r h k a = rw (append-nil p.output) (
      ap (λ x. x.1)
        (sym (only_if-eq (not (m.takes || m.done)) (returned, keep_or_drop e (remove_old p)) r a))
      ∙ replaced-latest e p h k)

  delayed-length : (c : Case) (e : E) (es : List E) → length es ≤ 1 → length (delayed c e es) ≤ 1
  delayed-length on_default e es h = omega arith
  delayed-length on_output e es h = h
  delayed-length on_buffer e es h = h
  delayed-length on_done e es h = h

  sent-append : (c : Case) (e : E) (es : List E) → sent c e [] ++ es ≡ sent c e es
  sent-append on_output e es = refl
  sent-append on_default e es = refl
  sent-append on_buffer e es = refl
  sent-append on_done e es = refl

  handle_all-after :
      (calls : List (Moment × E)) (p q : Backpressure E)
      → p.strategy ≡ keeping_latest
      → length p.buffer ≤ 1
      → 1 ≤ p.capacity
      → handle_all calls p ≡ some q
      → q
        ≡ record p { buffer = last_delayed calls p.buffer; output = p.output ++ sent_at_once calls }
  unfolding handle_all handle
  handle_all-after [] p q s h k a = rw (append-nil p.output) (cc a)
  handle_all-after ((m, e) ∷ calls) p q s h k a =
      elim (Option-cases (handle_strategy p.strategy m.picks m e p)) [
        | inl n ↦ absurd (cc (rw n at a))
        | inr (r, n) ↦
            let w : r.1 ≡ after_latest m.picks e p =
              handle_strategy-latest m.picks m e p r h k
                (ap (λ t. handle_strategy t m.picks m e p) (sym s) ∙ n) in
            handle_all-after calls (after_latest m.picks e p) q s
              (delayed-length m.picks e p.buffer h) k
              (ap (λ t. handle_all calls t) (sym w) ∙ rw n at a)
            ∙ ap
                (λ t. record p {
                  buffer = last_delayed calls (delayed m.picks e p.buffer);
                  output = t;
                })
                (append_assoc p.output (sent m.picks e []) (sent_at_once calls)
                  ∙ ap (λ t. p.output ++ t) (sent-append m.picks e (sent_at_once calls)))
      ]

  -- Whatever calls of Handle under BackpressureLatest follow, on a new handler with a buffer of one
  -- place at least, and whichever ready cases its selects pick: the output has, in order, the
  -- events of the calls that sent; the buffer holds the event of the last call that found neither
  -- the output ready nor the context done, or nothing if there was none; calls that end with the
  -- error of the context change nothing; and no event counts as dropped.
  pub handle_all-latest :
      (buffer_size : ℕ) (calls : List (Moment × E)) (q : Backpressure E)
      → 1 ≤ buffer_size
      → handle_all calls (new_backpressure keeping_latest buffer_size) ≡ some q
      → q ≡ record {
        strategy = keeping_latest;
        capacity = buffer_size;
        buffer = last_delayed calls [];
        dropped = 0;
        output = sent_at_once calls;
      }
  handle_all-latest buffer_size calls q k a =
      handle_all-after calls (new_backpressure keeping_latest buffer_size) q refl (omega arith) k a

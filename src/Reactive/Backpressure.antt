-- ===== src/Reactive/Backpressure.antt =====
-- BackpressureHandler of src/driver/reactive_terminal.go, used by one goroutine. A select picks any
-- of its cases that are ready: which one it picks is an argument.
use gopher_cypher.Common.{
  ◌||◌, drop, ℕ, zero, suc, Bool, not, Option, none, some, List, [], ◌∷◌, ◌++◌, ltb, if◌then◌else◌,
  length,
}

pub data Strategy : Type 0 where
  buffering dropping blocking keeping_latest : Strategy

pub data HandleResult : Type 0 where
  returned cancelled : HandleResult

-- The cases of the select statements of Handle.
pub data Case : Type 0 where
  on_output on_buffer on_done on_default : Case

-- What a call of Handle meets: whether the output takes an event at once, whether the context is
-- done, and the case that runs.
pub record Moment : Type 0 where
  pub takes : Bool
  pub done : Bool
  pub picks : Case

-- The handler, with the events that went to the output; `capacity` is that of the buffer channel,
-- and `buffer` what it holds, the oldest first.
pub record Backpressure (E : Type 0) : Type 0 where
  pub strategy : Strategy
  pub capacity : ℕ
  pub buffer : List E
  pub dropped : ℕ
  pub output : List E

abbrev pub only_if : {A : Type 0} → Bool → A → Option A
only_if b a = if b then some a else none

module _ {E : Type 0} where
  abbrev pub new_backpressure : Strategy → ℕ → Backpressure E
  new_backpressure strategy buffer_size = record {
    strategy = strategy;
    capacity = buffer_size;
    buffer = [];
    dropped = 0;
    output = [];
  }

  abbrev pub send_event : E → Backpressure E → Backpressure E
  send_event e p = record p { output = p.output ++ (e ∷ []) }

  -- A send to the buffer channel, which goes through if the channel has a place.
  abbrev pub has_room : Backpressure E → Bool
  has_room p = ltb (length p.buffer) p.capacity

  abbrev pub keep_event : E → Backpressure E → Backpressure E
  keep_event e p = record p { buffer = p.buffer ++ (e ∷ []) }

  abbrev pub drop_event : Backpressure E → Backpressure E
  drop_event p = record p { dropped = suc p.dropped }

  -- The select of BackpressureLatest that takes the oldest event out of the buffer.
  abbrev pub remove_old : Backpressure E → Backpressure E
  remove_old p = record p { buffer = drop 1 p.buffer }

  unfoldable pub keep_or_drop : E → Backpressure E → Backpressure E
  keep_or_drop e p = if has_room p then keep_event e p else drop_event p

  -- The branches of Handle; none where the select does not pick that case.
  unfoldable pub handle_strategy :
      Strategy → Case → Moment → E → Backpressure E → Option (HandleResult × Backpressure E)
  unfolding keep_or_drop
  handle_strategy s on_output m e p = only_if m.takes (returned, send_event e p)
  handle_strategy s on_done m e p = only_if m.done (cancelled, p)
  handle_strategy buffering on_buffer m e p = only_if (has_room p) (returned, keep_event e p)
  handle_strategy dropping on_default m e p =
      only_if (not (m.takes || m.done)) (returned, drop_event p)
  handle_strategy keeping_latest on_default m e p =
      only_if (not (m.takes || m.done)) (returned, keep_or_drop e (remove_old p))
  handle_strategy _ _ m e p = none

  unfoldable pub handle : Moment → E → Backpressure E → Option (HandleResult × Backpressure E)
  unfolding handle_strategy
  handle m e p = handle_strategy p.strategy m.picks m e p

  abbrev pub after :
      Option (HandleResult × Backpressure E)
      → (Backpressure E → Option (Backpressure E))
      → Option (Backpressure E)
  after none k = none
  after (some (o, q)) k = k q

  -- Calls of Handle one after the other.
  unfoldable pub handle_all : List (Moment × E) → Backpressure E → Option (Backpressure E)
  unfolding handle
  handle_all [] p = some p
  handle_all ((m, e) ∷ calls) p = after (handle m e p) (λ q. handle_all calls q)

  -- DrainBuffer, where the context ends once the output took `accepts` events, if it ends.
  unfoldable pub drain_events : Option ℕ → List E → Backpressure E → HandleResult × Backpressure E
  drain_events accepts [] p = (returned, record p { buffer = [] })
  drain_events none (e ∷ es) p = drain_events none es (send_event e p)
  drain_events (some zero) (e ∷ es) p = (cancelled, record p { buffer = es })
  drain_events (some (suc n)) (e ∷ es) p = drain_events (some n) es (send_event e p)

  unfoldable pub drain_buffer : Option ℕ → Backpressure E → HandleResult × Backpressure E
  unfolding drain_events
  drain_buffer accepts p = drain_events accepts p.buffer p

-- ===== src/Driver/Stream/Returns.antt =====
-- How PullNext of src/driver/streaming_connection.go ends, and what it leaves alone.
use mathlib.Core.Path.{subst}
use gopher_cypher.Common.{
  ◌||◌, ◌∙◌, ℕ, zero, suc, ◌≡◌, ◌≢◌, ◌<◌, ◌==◌, refl, List, [], ◌∷◌, Bool, true, false, length,
  some, none, Option, if◌then◌else◌, arith,
}
use gopher_cypher.Common.Int.{ℤ}
use gopher_cypher.Packstream.Value.{Items}
use gopher_cypher.Messaging.Connection
use gopher_cypher.Messaging.Connection.{write, Conn, Error, Outcome}
use gopher_cypher.Messaging.Message.{Message, signature, message_fields}
use gopher_cypher.Messaging.Request.{
  write_chunked_message, read_chunked_message, Packed, packed, not_packed,
}
use gopher_cypher.Messaging.Exchange.{Row}
use gopher_cypher.Messaging.Progress.{
  Leaves-write, Leaves-bind, Leaves-mono, Leaves, Leaves-read_chunked_message,
}
use gopher_cypher.Driver.Stream.State.{
  buffer_record, first_map, has_more_of, Stream, Pulled, Step, return, continue, on_success,
  on_failure, on_response, serve_pending,
}
use gopher_cypher.Driver.Stream.Pull.{
  send_pull, after_write, pull_batch, serve_or_pull, pull_next, read_responses, after_read,
  after_step,
}

-- The second state has the flag of Close and the returned connections of the first.
abbrev SamePool : Stream → Stream → Type 0
SamePool sc sc' = (sc'.closed ≡ sc.closed) × (sc'.returned ≡ sc.returned)

-- The call returned, and left the pool alone.
abbrev pub Returns : Stream → Option (Pulled × Stream) → Type 0
Returns sc none = ⊥
Returns sc (some (p, sc')) = SamePool sc sc'

abbrev StepKeeps : Stream → Step → Type 0
StepKeeps sc (return (p, sc')) = SamePool sc sc'
StepKeeps sc (continue sc') = SamePool sc sc' × (sc'.conn ≡ sc.conn)

StepKeeps-if :
    (b : Bool) (x y : Step) (sc : Stream)
    → StepKeeps sc x
    → StepKeeps sc y
    → StepKeeps sc (if b then x else y)
StepKeeps-if true x y sc p q = p
StepKeeps-if false x y sc p q = q

StepKeeps-serve_pending :
    (p : Pulled) (rs : List Row) (sc sc' : Stream)
    → SamePool sc sc'
    → StepKeeps sc (return (serve_pending p rs sc'))
unfolding serve_pending
StepKeeps-serve_pending p [] sc sc' h = h
StepKeeps-serve_pending p (r ∷ rs) sc sc' h = h

SamePool-if :
    (b : Bool) (x y : Pulled × Stream) (sc : Stream)
    → SamePool sc x.1
    → SamePool sc y.1
    → SamePool sc (if b then x else y).1
SamePool-if true x y sc p q = p
SamePool-if false x y sc p q = q

StepKeeps-on_success :
    (now : ℕ) (response : Message) (sc : Stream)
    → StepKeeps sc (return (on_success now response sc))
unfolding on_success
StepKeeps-on_success now response sc =
    SamePool-if (has_more_of (first_map (message_fields response))) _ _ sc
      (StepKeeps-serve_pending _ sc.pending sc sc (refl, refl))
      (StepKeeps-serve_pending _ sc.pending sc _ (refl, refl))

StepKeeps-buffer_record :
    (values : Option Items) (sc : Stream) → StepKeeps sc (buffer_record values sc)
unfolding buffer_record
StepKeeps-buffer_record none sc = (refl, refl)
StepKeeps-buffer_record (some values) sc = ((refl, refl), refl)

StepKeeps-on_response :
    (now : ℕ) (response : Message) (sc : Stream) → StepKeeps sc (on_response now response sc)
unfolding on_response on_failure
StepKeeps-on_response now response sc =
    StepKeeps-if (signature response == 0x71) _ _ sc (StepKeeps-buffer_record _ sc) (
      StepKeeps-if (signature response == 0x70) _ _ sc (StepKeeps-on_success now response sc)
        (StepKeeps-if (signature response == 0x7f) _ _ sc (refl, refl) (refl, refl)))

Returns-trans :
    (sc sc' : Stream) (r : Option (Pulled × Stream))
    → SamePool sc sc'
    → Returns sc' r
    → Returns sc r
Returns-trans sc sc' none s h = h
Returns-trans sc sc' (some (p, sc'')) (s, t) (s', t') = (s' ∙ s, t' ∙ t)

Returns-after_step :
    (next : Stream → Option (Pulled × Stream)) (n : ℕ) (sc : Stream) (step : Step)
    → ((sc' : Stream) → length sc'.conn.incoming < n → Returns sc' (next sc'))
    → length sc.conn.incoming < n
    → StepKeeps sc step
    → Returns sc (after_step next step)
unfolding after_step
Returns-after_step next n sc (return r) f h k = k
Returns-after_step next n sc (continue sc') f h (k, e) =
    Returns-trans sc sc' (next sc') k (f sc' (rw e h))

Returns-after_read :
    (next : Stream → Option (Pulled × Stream)) (now n : ℕ) (sc : Stream) (r : Outcome Message)
    → ((sc' : Stream) → length sc'.conn.incoming < n → Returns sc' (next sc'))
    → Leaves n r
    → Returns sc (after_read next now sc r)
unfolding after_read
Returns-after_read next now n sc (Connection.ok response conn) f h =
    Returns-after_step next n (record sc { conn = conn })
      (on_response now response (record sc { conn = conn })) f h
      (StepKeeps-on_response now response (record sc { conn = conn }))
Returns-after_read next now n sc (Connection.err e conn) f h = (refl, refl)
Returns-after_read next now n sc Connection.stuck f h = h

Returns-read_responses :
    (fuel now : ℕ) (sc : Stream)
    → length sc.conn.incoming < fuel
    → Returns sc (read_responses fuel now sc)
unfolding read_responses
Returns-read_responses zero now sc h = absurd (omega arith)
Returns-read_responses (suc fuel) now sc h =
    Returns-after_read (λ sc'. read_responses fuel now sc') now fuel sc
      (read_chunked_message sc.conn) (λ sc' k. Returns-read_responses fuel now sc' k)
      (Leaves-mono (read_chunked_message sc.conn) (omega arith)
        (Leaves-read_chunked_message sc.conn))

Returns-after_write :
    (n now : ℕ) (sc : Stream) (r : Outcome (Unit {0}))
    → Leaves n r
    → Returns sc (after_write now sc r)
unfolding after_write
Returns-after_write n now sc (Connection.ok _ conn) h =
    Returns-read_responses (suc (length conn.incoming)) now (record sc { conn = conn })
      (omega arith)
Returns-after_write n now sc (Connection.err e conn) h = (refl, refl)
Returns-after_write n now sc Connection.stuck h = h

pub Leaves-write_chunked_message :
    (bs : List ℕ) (conn : Conn)
    → Leaves (suc (length conn.incoming)) (write_chunked_message bs conn)
unfolding write_chunked_message
Leaves-write_chunked_message bs conn =
    Leaves-bind (suc (length conn.incoming)) _ (write _ conn) _ (Leaves-write _ conn) λ _ conn₁ h₁.
      Leaves-bind (suc (length conn₁.incoming)) _ (write bs conn₁) _ (Leaves-write bs conn₁)
        λ _ conn₂ h₂. Leaves-mono (write _ conn₂) (omega arith) (Leaves-write _ conn₂)

Returns-send_pull : (now : ℕ) (sc : Stream) (r : Packed) → Returns sc (send_pull now sc r)
unfolding send_pull
Returns-send_pull now sc (packed bs) =
    Returns-after_write _ now sc (write_chunked_message bs sc.conn)
      (Leaves-write_chunked_message bs sc.conn)
Returns-send_pull now sc (not_packed e) = (refl, refl)

Returns-if :
    (b : Bool) (x y : Option (Pulled × Stream)) (sc : Stream)
    → Returns sc x
    → Returns sc y
    → Returns sc (if b then x else y)
Returns-if true x y sc p q = p
Returns-if false x y sc p q = q

Returns-serve_or_pull :
    (rs : List Row) (size : ℤ) (now : ℕ) (sc : Stream) → Returns sc (serve_or_pull rs size now sc)
unfolding serve_or_pull pull_batch
Returns-serve_or_pull [] size now sc = Returns-send_pull now (record sc { last_used_at = now }) _
Returns-serve_or_pull (r ∷ rs) size now sc = (refl, refl)

pub Returns-pull_next : (size : ℤ) (now : ℕ) (sc : Stream) → Returns sc (pull_next size now sc)
unfolding pull_next
Returns-pull_next size now sc =
    Returns-if (sc.exhausted || sc.closed) _ _ sc (refl, refl)
      (Returns-serve_or_pull sc.pending size now sc)

-- PullNext returns on every connection, whatever the peer sends: the loop over the responses to
-- PULL ends.
pub pull_next_total : (size : ℤ) (now : ℕ) (sc : Stream) → pull_next size now sc ≢ none
pull_next_total size now sc e = subst (λ r. Returns sc r) e (Returns-pull_next size now sc)

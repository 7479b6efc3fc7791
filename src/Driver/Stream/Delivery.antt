-- ===== src/Driver/Stream/Delivery.antt =====
-- Which records and summaries reach the reader of a stream.
use gopher_cypher.Common.{
  ap, ℕ, zero, suc, ◌≡◌, refl, List, [], ◌∷◌, false, length, map, some, none, Option,
}
use gopher_cypher.Common.Int.{ℤ}
use gopher_cypher.Messaging.Message.{Message, message_fields}
use gopher_cypher.Messaging.Exchange.{Row}
use gopher_cypher.Driver.Stream.State.{
  Stream, Pulled, nothing, one_row, on_success, first_map, has_more_of,
}
use gopher_cypher.Driver.Stream.Pull.{pull_next, serve_or_pull}

and_then : Pulled → Option (List Pulled × Stream) → Option (List Pulled × Stream)
and_then p none = none
and_then p (some (ps, sc)) = some (p ∷ ps, sc)

pull_on :
    (Stream → Option (List Pulled × Stream))
    → Option (Pulled × Stream)
    → Option (List Pulled × Stream)
unfolding and_then
pull_on more none = none
pull_on more (some (p, sc)) = and_then p (more sc)

-- That many calls of PullNext, with what each of them returned.
unfoldable pub pull_times : ℕ → ℤ → ℕ → Stream → Option (List Pulled × Stream)
unfolding pull_on
pull_times zero size now sc = some ([], sc)
pull_times (suc n) size now sc = pull_on (λ sc'. pull_times n size now sc') (pull_next size now sc)

pull_next-pending :
    (r : Row) (rs : List Row) (size : ℤ) (now : ℕ) (sc : Stream)
    → sc.exhausted ≡ false
    → sc.closed ≡ false
    → pull_next size now (record sc { pending = r ∷ rs })
      ≡ some (one_row r, record sc { pending = rs })
unfolding pull_next serve_or_pull
pull_next-pending r rs size now sc e c = rw e (rw c refl)

-- The records that a PULL left in the buffer of a stream that is neither exhausted nor closed come
-- out one for each call of PullNext, in order, and nothing else changes.
pub pull_times-buffered :
    (rs : List Row) (size : ℤ) (now : ℕ) (sc : Stream)
    → sc.exhausted ≡ false
    → sc.closed ≡ false
    → pull_times (length rs) size now (record sc { pending = rs })
      ≡ some (map one_row rs, record sc { pending = [] })
unfolding pull_times
pull_times-buffered [] size now sc e c = refl
pull_times-buffered (r ∷ rs) size now sc e c =
    rw (pull_next-pending r rs size now sc e c)
      (ap (and_then (one_row r)) (pull_times-buffered rs size now sc e c))

-- If the SUCCESS that ends the stream, one without has_more, finds the records r and rs in the
-- buffer, then the call of PullNext returns r; the next call returns neither a record nor the
-- summary, and rs stays unread.
pub pull_next-on_success :
    (now later : ℕ) (size : ℤ) (response : Message) (sc : Stream) (r : Row) (rs : List Row)
    → has_more_of (first_map (message_fields response)) ≡ false
    → sc.pending ≡ r ∷ rs
    → ((on_success now response sc).0 ≡ one_row r)
      × (pull_next size later (on_success now response sc).1
          ≡ some (nothing, (on_success now response sc).1))
      × ((on_success now response sc).1.pending ≡ rs)
unfolding on_success pull_next
pull_next-on_success now later size response sc r rs h p = rw h (rw p (refl, refl, refl))

-- ===== src/Driver/Stream/Pool.antt =====
-- When a stream gives its connection back to the pool.
use mathlib.Core.Path.{subst}
use gopher_cypher.Common.Int.{ℤ}
use gopher_cypher.Driver.Stream.Returns.{Returns-pull_next, Returns}
use gopher_cypher.Driver.Stream.State.{Pulled, Stream}
use gopher_cypher.Driver.Stream.Pull.{pull_next, close}
use gopher_cypher.Common.{ap, none, if◌then◌else◌, some, ◌≡◌, length, arith, Option, ℕ}

-- The calls on a stream, in any order and number.
pub data Calls : Stream → Stream → Type 0 where
  done : (sc : Stream) → Calls sc sc
  then_pull :
      (sc sc' sc'' : Stream) (p : Pulled) (size : ℤ) (now : ℕ)
      → Calls sc sc'
      → pull_next size now sc' ≡ some (p, sc'')
      → Calls sc sc''
  then_close : (sc sc' : Stream) → Calls sc sc' → Calls sc (close sc')

-- An open stream has given nothing back, and a closed one its connection, once.
abbrev pub IsReturnedOnce : Stream → Type 0
IsReturnedOnce sc = length sc.returned ≡ (if sc.closed then 1 else 0)

close-IsReturnedOnce : (sc : Stream) → IsReturnedOnce sc → IsReturnedOnce (close sc)
unfolding close
close-IsReturnedOnce sc h = ground arith

stream_or : Stream → Option (Pulled × Stream) → Stream
stream_or sc none = sc
stream_or sc (some (p, sc')) = sc'

Returns-IsReturnedOnce :
    (sc : Stream) (r : Option (Pulled × Stream)) (p : Pulled) (sc' : Stream)
    → Returns sc r
    → r ≡ some (p, sc')
    → IsReturnedOnce sc
    → IsReturnedOnce sc'
unfolding stream_or
Returns-IsReturnedOnce sc none p sc' k e h = absurd k
Returns-IsReturnedOnce sc (some (p₀, sc₀)) p sc' (c, d) e h =
    subst IsReturnedOnce (ap (λ o. stream_or sc o) e) (rw d (rw c h))

-- Whatever calls of PullNext and Close follow, in any order: if a stream has returned nothing to
-- the pool while it is open, and its connection once if it is closed, then so it is after the
-- calls.
pub Calls-IsReturnedOnce : {sc sc' : Stream} → Calls sc sc' → IsReturnedOnce sc → IsReturnedOnce sc'
Calls-IsReturnedOnce (done sc) h = h
Calls-IsReturnedOnce (then_pull sc sc₁ sc₂ p size now calls e) h =
    Returns-IsReturnedOnce sc₁ (pull_next size now sc₁) p sc₂ (Returns-pull_next size now sc₁) e
      (Calls-IsReturnedOnce calls h)
Calls-IsReturnedOnce (then_close sc sc₁ calls) h =
    close-IsReturnedOnce sc₁ (Calls-IsReturnedOnce calls h)

-- ===== src/Driver/Result/Cursor.antt =====
-- The StreamingResult of src/driver/result.go, over any StreamConnection: Keys, Next, Peek.
use gopher_cypher.Common.{
  ℕ, List, Bool, true, false, ◌||◌, ◌&&◌, not, if◌then◌else◌, Option, none, some,
}
use gopher_cypher.Messaging.Exchange.{Row}
use gopher_cypher.Driver.Summary.{Summary}
use gopher_cypher.Driver.Stream.State.{StreamError, Pulled}

unfoldable pub is_some {ℓ} : {A : Type ℓ} → Option A → Bool
is_some none = false
is_some (some a) = true

-- The StreamConnection that a result reads from: PullNext, GetKeys and Close on a state.
pub record StreamConnection (S : Type 0) : Type 0 where
  pub pull_next : S → Pulled × S
  pub get_keys : S → Option (List (List ℕ)) × Option StreamError
  pub close : S → S

pub record StreamingResult (S : Type 0) : Type 0 where
  pub conn : S
  pub keys : Option (List (List ℕ))
  pub current : Option Row
  pub peeked : Option Row
  pub has_peeked : Bool
  pub summary : Option Summary
  pub error : Option StreamError
  pub closed : Bool

module _ {S : Type 0} (c : StreamConnection S) where
  unfoldable pub new_result : S → StreamingResult S
  new_result conn = record {
    conn = conn;
    keys = none;
    current = none;
    peeked = none;
    has_peeked = false;
    summary = none;
    error = none;
    closed = false;
  }

  unfoldable pub close_result : StreamingResult S → StreamingResult S
  close_result r = if r.closed then r else record r { closed = true; conn = c.close r.conn }

  -- `if r.err != nil || r.summary != nil { r.close() }`
  unfoldable pub close_at_end : StreamingResult S → StreamingResult S
  unfolding close_result is_some
  close_at_end r = if is_some r.error || is_some r.summary then close_result r else r

  keys_read : Option (List (List ℕ)) × Option StreamError → StreamingResult S → StreamingResult S
  unfolding close_result is_some
  keys_read (keys, e) r =
      let r' : StreamingResult S = record r { keys = keys; error = e } in
      if is_some e then close_result r' else r'

  unfoldable pub read_keys : StreamingResult S → StreamingResult S
  unfolding keys_read is_some
  read_keys r =
      if is_some r.error then r else if is_some r.keys then r else keys_read (c.get_keys r.conn) r

  -- `return r.currentRec != nil && r.err == nil`, behind the check for the end.
  unfoldable pub after_pull : Pulled × S → StreamingResult S → Bool × StreamingResult S
  unfolding close_at_end is_some
  after_pull (p, conn) r =
      let r' : StreamingResult S = record r {
        conn = conn;
        current = p.row;
        summary = p.summary;
        error = p.error;
      } in
      if is_some p.error || is_some p.summary then (false, close_result r') else (is_some p.row, r')

  unfoldable pub next : StreamingResult S → Bool × StreamingResult S
  unfolding after_pull is_some
  next r =
      if is_some r.error || r.closed
      then (false, r)
      else if r.has_peeked
      then (is_some r.peeked, record r { current = r.peeked; peeked = none; has_peeked = false })
      else after_pull (c.pull_next r.conn) r

  unfoldable pub after_peek_pull : Pulled × S → StreamingResult S → StreamingResult S
  unfolding close_at_end
  after_peek_pull (p, conn) r = close_at_end (record r {
    conn = conn;
    peeked = p.row;
    summary = p.summary;
    error = p.error;
    has_peeked = true;
  })

  unfoldable pub peeked_result : StreamingResult S → Bool × StreamingResult S
  unfolding is_some
  peeked_result r = (is_some r.peeked && not (is_some r.error), r)

  unfoldable pub peek : StreamingResult S → Bool × StreamingResult S
  unfolding peeked_result after_peek_pull is_some
  peek r =
      if is_some r.error || r.closed
      then (false, r)
      else peeked_result (if r.has_peeked then r else after_peek_pull (c.pull_next r.conn) r)

  -- NextRecord and PeekRecord with a place for the record: what they store there is added.
  unfoldable pub next_record : StreamingResult S → (Bool × Option Row) × StreamingResult S
  unfolding next
  next_record r = let (found, r') = next r in ((found, r'.current), r')

  unfoldable pub peek_record : StreamingResult S → (Bool × Option Row) × StreamingResult S
  unfolding peek
  peek_record r = let (found, r') = peek r in ((found, r'.peeked), r')

  unfoldable pub is_open : StreamingResult S → Bool
  unfolding is_some
  is_open r = not r.closed && not (is_some r.summary)

-- ===== src/Driver/Result/Drain.antt =====
-- The calls of src/driver/result.go that read to the end: Collect, Consume and Single.
use gopher_cypher.Common.{ℕ, zero, suc, List, [], ◌∷◌, ◌++◌, Bool, true, false, Option, none, some}
use gopher_cypher.Messaging.Exchange.{Row}
use gopher_cypher.Driver.Summary.{Summary, empty_summary}
use gopher_cypher.Driver.Stream.State.{StreamError, no_records, many_records}
use gopher_cypher.Driver.Result.Cursor.{StreamConnection, StreamingResult, next, close_result}

-- (value, error) of a call that returns one or the other.
pub data Answer {ℓ} (A : Type ℓ) : Type ℓ where
  answer : A → Answer A
  refused : StreamError → Answer A

unfoldable pub answer_unless {ℓ} : {A : Type ℓ} → Option StreamError → A → Answer A
answer_unless none a = answer a
answer_unless (some e) a = refused e

-- `if r.currentRec != nil { records = append(records, copy) }`
unfoldable pub with_current : List Row → Option Row → List Row
with_current acc none = acc
with_current acc (some row) = acc ++ (row ∷ [])

-- Single without a first record: the error of the stream, or that there is none.
unfoldable pub none_found : Option StreamError → Answer (Option Row)
none_found none = refused no_records
none_found (some e) = refused e

module _ {S : Type 0} (c : StreamConnection S) where
  -- `for r.Next(ctx) { records = append(records, copy) }`, a round for each unit of fuel. `none`
  -- means out of fuel.
  unfoldable pub after_next :
      (List Row → StreamingResult S → Option (List Row × StreamingResult S))
      → List Row
      → Bool × StreamingResult S
      → Option (List Row × StreamingResult S)
  unfolding with_current
  after_next continue acc (false, r) = some (acc, r)
  after_next continue acc (true, r) = continue (with_current acc r.current) r

  unfoldable pub drain : ℕ → List Row → StreamingResult S → Option (List Row × StreamingResult S)
  unfolding after_next
  drain zero acc r = none
  drain (suc fuel) acc r = after_next (λ acc' r'. drain fuel acc' r') acc (next c r)

  unfoldable pub collected :
      Option (List Row × StreamingResult S) → Option (Answer (List Row) × StreamingResult S)
  unfolding answer_unless
  collected none = none
  collected (some (rows, r)) = some (answer_unless r.error rows, r)

  unfoldable pub collect_open :
      Option StreamError → ℕ → StreamingResult S → Option (Answer (List Row) × StreamingResult S)
  unfolding collected
  collect_open (some e) fuel r = some (refused e, r)
  collect_open none fuel r = collected (drain fuel [] r)

  unfoldable pub collect : ℕ → StreamingResult S → Option (Answer (List Row) × StreamingResult S)
  unfolding collect_open
  collect fuel r = collect_open r.error fuel r

  -- A result that never saw the final summary makes one up, without statistics.
  pub summary_or : Option Summary → ℕ → Summary
  summary_or (some s) elapsed = s
  summary_or none elapsed = record empty_summary { execution_time = elapsed }

  unfoldable pub consumed :
      ℕ
      → Option (List Row × StreamingResult S)
      → Option ((Summary × Option StreamError) × StreamingResult S)
  unfolding summary_or close_result
  consumed elapsed none = none
  consumed elapsed (some (rows, r)) =
      let r' : StreamingResult S = close_result c r in
      let s : Summary = summary_or r'.summary elapsed in
      some ((s, r'.error), record r' { summary = some s })

  unfoldable pub consume :
      ℕ → ℕ → StreamingResult S → Option ((Summary × Option StreamError) × StreamingResult S)
  unfolding consumed
  consume fuel elapsed r = consumed elapsed (drain fuel [] r)

  unfoldable pub many :
      Option ((Summary × Option StreamError) × StreamingResult S)
      → Option (Answer (Option Row) × StreamingResult S)
  many none = none
  many (some (s, r)) = some (refused many_records, r)

  unfoldable pub second_next :
      ℕ
      → ℕ
      → Option Row
      → Bool × StreamingResult S
      → Option (Answer (Option Row) × StreamingResult S)
  unfolding many consume answer_unless
  second_next fuel elapsed single (true, r) = many (consume fuel elapsed r)
  second_next fuel elapsed single (false, r) = some (answer_unless r.error single, r)

  unfoldable pub first_next :
      ℕ → ℕ → Bool × StreamingResult S → Option (Answer (Option Row) × StreamingResult S)
  unfolding second_next none_found
  first_next fuel elapsed (true, r) = second_next fuel elapsed r.current (next c r)
  first_next fuel elapsed (false, r) = some (none_found r.error, r)

  unfoldable pub single :
      ℕ → ℕ → StreamingResult S → Option (Answer (Option Row) × StreamingResult S)
  unfolding first_next
  single fuel elapsed r = first_next fuel elapsed (next c r)

-- ===== src/Messaging/Records.antt =====
-- What the loop after PULL in src/bolt/messaging/request.go makes of the messages that arrive.
use gopher_cypher.Common.{
  false, Bool, true, sym, ap, ◌∙◌, ◌==◌, if◌then◌else◌, ℕ, zero, suc, ◌<◌, ◌≡◌, ◌≢◌, refl, arith,
  List, [], ◌∷◌, ◌++◌, length, append_assoc, append-nil,
}
use gopher_cypher.Packstream.Value.{Items, list, item, no_items, no_fields}
use gopher_cypher.Messaging.Connection.{
  ◌>>=◌, pure, fail, Action, Conn, Outcome, ok, err, pull_failed, unexpected_pull_response,
}
use gopher_cypher.Messaging.Message.{
  Message, signature, message_fields, failure_code, failure_message,
}
use gopher_cypher.Messaging.Request.{read_chunked_message}
use gopher_cypher.Messaging.Exchange.{
  Row, Table, row_of, failure_metadata, pull_loop, record_values,
}

-- `Arrives m conn values final conn'`: `m` and the messages that are then received on `conn` are
-- records of these values, up to a message that is no record.
pub data Arrives : Message → Conn → List Items → Message → Conn → Type 0 where
  last : (m : Message) (conn : Conn) → signature m ≢ 0x71 → Arrives m conn [] m conn
  one_record :
      (m next final : Message) (conn conn' conn'' : Conn) (values : Items) (more : List Items)
      → signature m ≡ 0x71
      → message_fields m ≡ item (list values) no_items
      → read_chunked_message conn ≡ ok next conn'
      → Arrives next conn' more final conn''
      → Arrives m conn (values ∷ more) final conn''

-- The outcome that the last message decides.
unfoldable pub verdict : List (List ℕ) → List Row → Message → Conn → Outcome Table
verdict columns rows final conn =
    let m = failure_metadata final in
    if signature final == 0x70
    then ok (columns, rows) conn
    else if signature final == 0x7f
    then err (pull_failed (failure_code m) (failure_message m)) conn
    else err (unexpected_pull_response (signature final)) conn

abbrev pub rows_of : List (List ℕ) → List Items → List Row
rows_of columns [] = []
rows_of columns (values ∷ more) = row_of columns values no_fields ∷ rows_of columns more

not_a_record {ℓ} :
    {A : Type ℓ} (p q r : Bool) (a b c d : Action A) (conn : Conn)
    → r ≡ false
    → (p ≡ true → q ≡ false)
    → (if p then a else if q then b else if r then c else d) conn
      ≡ (if q then b conn else if p then a conn else d conn)
not_a_record p q true a b c d conn h k = cc
not_a_record true true false a b c d conn h k = cc (k refl)
not_a_record true false false a b c d conn h k = refl
not_a_record false true false a b c d conn h k = refl
not_a_record false false false a b c d conn h k = refl

ne→== : (s : ℕ) → s ≢ 0x71 → (s == 0x71) ≡ false
ne→== s h = ground arith

failure-ne-success : (s : ℕ) → (s == 0x7f) ≡ true → (s == 0x70) ≡ false
failure-ne-success s h = ground arith

-- A record is read, and then the next message.
one_round :
    (fields values : Items) (conn : Conn) (next : Message) (conn' : Conn)
    → fields ≡ item (list values) no_items
    → read_chunked_message conn ≡ ok next conn'
    → (k : Items → Message → Action Table)
    → (record_values fields >>= (λ v. read_chunked_message >>= k v)) conn ≡ k values next conn'
unfolding record_values
one_round fields values conn next conn' f r k = rw f (rw r)

-- If the messages that arrive are records up to a message that is none, the loop after PULL, with
-- fuel for a round more than there are records, returns one row for each record, in the order of
-- arrival and behind the rows that it had, if SUCCESS ends them; FAILURE or any other message gives
-- the error of that message, and no row.
pub pull_loop-verdict :
    (fuel : ℕ) (columns : List (List ℕ)) (rows : List Row) {m final : Message} {conn conn' : Conn}
    {values : List Items}
    → Arrives m conn values final conn'
    → length values < fuel
    → pull_loop fuel columns rows m conn
      ≡ verdict columns (rows ++ rows_of columns values) final conn'
unfolding pull_loop verdict
pull_loop-verdict zero columns rows a h = absurd (omega arith)
pull_loop-verdict (suc fuel) columns rows (last m conn n) h =
    let f = failure_metadata m in
    not_a_record (signature m == 0x7f) (signature m == 0x70) (signature m == 0x71)
      (fail (pull_failed (failure_code f) (failure_message f))) (pure (columns, rows)) _
      (fail (unexpected_pull_response (signature m))) conn (ne→== (signature m) n)
      (failure-ne-success (signature m))
    ∙ ap (λ t. verdict columns t m conn) (sym (append-nil rows))
pull_loop-verdict (suc fuel) columns rows
      (one_record m next final conn conn' conn'' values more s f r a) h =
    rw s (
      one_round (message_fields m) values conn next conn' f r _
      ∙ pull_loop-verdict fuel columns (rows ++ (row_of columns values no_fields ∷ [])) a
          (omega arith)
      ∙ ap (λ t. verdict columns t final conn'')
          (append_assoc rows (row_of columns values no_fields ∷ []) (rows_of columns more)))

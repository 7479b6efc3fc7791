-- ===== src/Driver/Result/Peek.antt =====
-- Peek and Next of src/driver/result.go.
use gopher_cypher.Common.{◌≡◌, refl, Bool, true, false, ◌&&◌, Bool-cases, none, inl, inr}
use gopher_cypher.Driver.Stream.State.{Pulled}
use gopher_cypher.Driver.Result.Cursor.{
  StreamConnection, StreamingResult, next, peek, close_result, close_at_end, after_pull,
  after_peek_pull, peeked_result, is_some,
}
use gopher_cypher.Driver.Result.Served.{IsReading, next-reading}

-- A pull gives a record, or the summary or an error, and not both.
pub data IsExclusive (p : Pulled) : Type 0 where
  a_row : p.summary ≡ none → p.error ≡ none → IsExclusive p
  no_row : p.row ≡ none → IsExclusive p

-- Peek and Next agree on whether there is a record, and Next gives the same after Peek.
abbrev pub SameAhead :
    {S : Type 0}
    → Bool × StreamingResult S
    → Bool × StreamingResult S
    → Bool × StreamingResult S
    → Type 0
SameAhead x y z =
    (x.0 ≡ z.0) × (y.0 ≡ z.0) × (z.0 ≡ true → (y.1.current ≡ z.1.current) × (y.1.conn ≡ z.1.conn))

and_true : (b : Bool) → (b && true) ≡ b
and_true true = refl
and_true false = refl

module _ {S : Type 0} (c : StreamConnection S) where
  pulled-SameAhead :
      (p : Pulled) (s : S) (r : StreamingResult S)
      → IsExclusive p
      → r.closed ≡ false
      → SameAhead
          (peeked_result c (after_peek_pull c (p, s) r))
          (next c (peeked_result c (after_peek_pull c (p, s) r)).1)
          (after_pull c (p, s) r)
  unfolding peeked_result after_peek_pull next after_pull close_at_end close_result is_some
  pulled-SameAhead p s r (a_row hs he) cl =
      rw hs (rw he (rw cl (and_true (is_some p.row), refl, λ _. (refl, refl))))
  pulled-SameAhead p s r (no_row hr) cl = elim (Bool-cases (is_some p.error)) [
    | inl t ↦ rw hr (rw t (rw cl (rw t (refl, refl, λ h. absurd (cc h)))))
    | inr f ↦ elim (Bool-cases (is_some p.summary)) [
      | inl t ↦ rw hr (rw f (rw t (rw cl (rw f (refl, refl, λ h. absurd (cc h))))))
      | inr f' ↦ rw hr (rw f (rw f' (rw cl (rw f (refl, refl, λ h. absurd (cc h))))))
    ]
  ]

  peek-reading :
      (r : StreamingResult S)
      → IsReading c r
      → peek c r ≡ peeked_result c (after_peek_pull c (c.pull_next r.conn) r)
  unfolding peek
  peek-reading r (e, cl, p) = rw e (rw cl (rw p refl))

  -- On a result that is open and has not looked ahead, if the pull that is due gives a record, or a
  -- summary or an error, and not both: Peek and Next agree on whether there is a record, Next after
  -- Peek says the same as Next, and if there is a record it is the same one, on the same
  -- connection.
  pub next-peek :
      (r : StreamingResult S)
      → IsReading c r
      → IsExclusive (c.pull_next r.conn).0
      → SameAhead (peek c r) (next c (peek c r).1) (next c r)
  next-peek r (e, cl, pk) x = rw (peek-reading r (e, cl, pk)) (
      rw (next-reading c r (e, cl, pk))
        (pulled-SameAhead (c.pull_next r.conn).0 (c.pull_next r.conn).1 r x cl))

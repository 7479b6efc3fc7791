-- ===== src/Driver/Result/Served.antt =====
-- What Collect of src/driver/result.go returns of the records that a connection serves.
use gopher_cypher.Common.{
  append_assoc, append-nil, inr, sym, ◌∙◌, inl, ap, Bool-cases, ℕ, zero, suc, ◌≡◌, ◌<◌, refl, arith,
  List, [], ◌∷◌, ◌++◌, Bool, true, false, ◌||◌, if◌then◌else◌, length, none, some,
}
use gopher_cypher.Messaging.Exchange.{Row}
use gopher_cypher.Driver.Stream.State.{Pulled, one_row}
use gopher_cypher.Driver.Result.Cursor.{
  StreamConnection, StreamingResult, next, is_some, close_result, close_at_end, after_pull,
  new_result,
}
use gopher_cypher.Driver.Result.Drain.{
  drain, collect, answer_unless, after_next, with_current, collected, collect_open,
}

if-pair {ℓ} :
    {A : Type ℓ} (b : Bool) (x y : A)
    → ◌≡◌ {A = Bool × A} (if b then (false, x) else (false, y)) (false, if b then x else y)
if-pair true x y = refl
if-pair false x y = refl

module _ {S : Type 0} (c : StreamConnection S) where
  -- `Serves s rows last s'`: pulls on the connection `s` give these records, one each, and the
  -- next pull gives no record but `last`.
  pub data Serves : S → List Row → Pulled → S → Type 0 where
    ends :
        (s s' : S) (last : Pulled)
        → c.pull_next s ≡ (last, s')
        → last.row ≡ none
        → Serves s [] last s'
    serves :
        (s s' s'' : S) (r : Row) (rows : List Row) (last : Pulled)
        → c.pull_next s ≡ (one_row r, s')
        → Serves s' rows last s''
        → Serves s (r ∷ rows) last s''

  -- The connection after a call of its Close, if there is one.
  abbrev pub closed_if : Bool → S → S
  closed_if b s = if b then c.close s else s

  -- Open, and nothing looked ahead.
  abbrev pub IsReading : StreamingResult S → Type 0
  IsReading r = (r.error ≡ none) × (r.closed ≡ false) × (r.has_peeked ≡ false)

  pub next-reading :
      (r : StreamingResult S) → IsReading r → next c r ≡ after_pull c (c.pull_next r.conn) r
  unfolding next
  next-reading r (e, cl, p) = rw e (rw cl (rw p refl))

  pub after_pull-row :
      (row : Row) (s : S) (r : StreamingResult S)
      → after_pull c (one_row row, s) r
        ≡ (true, record r { conn = s; current = some row; summary = none; error = none })
  unfolding after_pull is_some
  after_pull-row row s r = refl

  pub after_pull-last :
      (last : Pulled) (s : S) (r : StreamingResult S)
      → last.row ≡ none
      → after_pull c (last, s) r ≡ (
        false,
        close_at_end c
            (record r { conn = s; current = last.row; summary = last.summary; error = last.error }),
      )
  unfolding after_pull close_at_end is_some
  after_pull-last last s r h = rw h (if-pair (is_some last.error || is_some last.summary) _ _)

  pub close_at_end-fields :
      (r : StreamingResult S)
      → r.closed ≡ false
      → ((close_at_end c r).error ≡ r.error)
        × ((close_at_end c r).closed ≡ (is_some r.error || is_some r.summary))
        × ((close_at_end c r).conn ≡ closed_if (is_some r.error || is_some r.summary) r.conn)
  unfolding close_at_end close_result
  close_at_end-fields r h = elim (Bool-cases (is_some r.error || is_some r.summary)) [
    | inl t ↦ rw t (rw h (refl, refl, refl))
    | inr f ↦ rw f (refl, h, refl)
  ]

  -- The reading loop ends on a connection that stops serving, with the records in order.
  pub drain-Serves :
      (fuel : ℕ) (acc : List Row) (r : StreamingResult S) {rows : List Row} {last : Pulled} {s' : S}
      → IsReading r
      → Serves r.conn rows last s'
      → length rows < fuel
      → (final : StreamingResult S) × (drain c fuel acc r ≡ some (acc ++ rows, final))
        × (final.error ≡ last.error)
        × (final.closed ≡ (is_some last.error || is_some last.summary))
        × (final.conn ≡ closed_if (is_some last.error || is_some last.summary) s')
  unfolding drain after_next with_current
  drain-Serves zero acc r h s l = absurd (omega arith)
  drain-Serves (suc fuel) acc r (e₀, cl, pk) (ends s s' last e n) l =
      let end : StreamingResult S = record r {
        conn = s';
        current = last.row;
        summary = last.summary;
        error = last.error;
      } in
      let (fe, fc, fs) = close_at_end-fields end cl in
      (
        close_at_end c end,
        ap (after_next c (λ acc' r'. drain c fuel acc' r') acc) (
              next-reading r (e₀, cl, pk)
              ∙ ap (λ x. after_pull c x r) e
              ∙ after_pull-last last s' r n)
            ∙ ap (λ t. some (t, close_at_end c end)) (sym (append-nil acc)),
        fe,
        fc,
        fs,
      )
  drain-Serves (suc fuel) acc r (e₀, cl, pk) (serves s s' s'' row rows last e more) l =
      let there : StreamingResult S = record r {
        conn = s';
        current = some row;
        summary = none;
        error = none;
      } in
      let (final, runs, fe, fc, fs) =
        drain-Serves fuel (acc ++ (row ∷ [])) there (refl, cl, pk) more (omega arith) in
      (
        final,
        ap (after_next c (λ acc' r'. drain c fuel acc' r') acc)
              (next-reading r (e₀, cl, pk) ∙ ap (λ x. after_pull c x r) e ∙ after_pull-row row s' r)
            ∙ runs
            ∙ ap (λ t. some (t, final)) (append_assoc acc (row ∷ []) rows),
        fe,
        fc,
        fs,
      )

  -- On a connection whose pulls give some records and then none, Collect, with fuel for a round
  -- more than there are records, returns all of them in order if the last pull has no error, and
  -- else that error. If the last pull gave an error or the summary, the result is marked as closed
  -- and Close was called once on the connection as that pull left it; and else neither.
  pub collect-Serves :
      (fuel : ℕ) (s s' : S) (rows : List Row) (last : Pulled)
      → Serves s rows last s'
      → length rows < fuel
      → (final : StreamingResult S) × (collect c fuel (new_result c s)
          ≡ some (answer_unless last.error rows, final))
        × (final.closed ≡ (is_some last.error || is_some last.summary))
        × (final.conn ≡ closed_if (is_some last.error || is_some last.summary) s')
  unfolding collect collect_open collected new_result
  collect-Serves fuel s s' rows last h l =
      let (final, runs, e, cl, cn) = drain-Serves fuel [] (new_result c s) (refl, refl, refl) h l in
      (final, ap (collected c) runs ∙ ap (λ x. some (answer_unless x rows, final)) e, cl, cn)

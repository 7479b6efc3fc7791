-- ===== src/Reactive/Kept.antt =====
-- The operators of src/driver/reactive_operators.go let the end of a stream through.
use gopher_cypher.Common.{
  ℕ, suc, List, [], ◌∷◌, Bool, true, false, ◌||◌, some, none, Option, if◌then◌else◌, ◌≡◌, refl, ap,
  ◌∙◌, inl, inr, Bool-cases, All,
}
use gopher_cypher.Common.Int.{ℤ}
use gopher_cypher.Reactive.Operators.{
  RecordEvent, transform, filter, take_events, skip_events, distinct, on_error, on_record, passes,
  take_record, skip_record, distinct_record, handled, recovered, below, is_seen,
}
use gopher_cypher.Reactive.Pipeline.{record_event, map_events, mapped}
use gopher_cypher.Reactive.Terminal.{IsPlain, ends, any_ends}

or_mono : (b x y : Bool) → (x ≡ true → y ≡ true) → (b || x) ≡ true → (b || y) ≡ true
or_mono true x y f h = refl
or_mono false x y f h = f h

or_false : (b x : Bool) → b ≡ false → (b || x) ≡ true → x ≡ true
or_false true x e h = absurd (cc e)
or_false false x e h = h

or_right : (b x : Bool) → x ≡ true → (b || x) ≡ true
or_right true x h = refl
or_right false x h = h

-- The handler deals with no error.
abbrev pub Rethrows : {E : Type 0} → (E → Option E) → Type 0
Rethrows {E} handler = (x : E) → (y : E) × (handler x ≡ some y)

module _ {R E : Type 0} where
  -- An event with a record does not end anything.
  plain_record : (e : RecordEvent R E) (r : R) → e.record_of ≡ some r → IsPlain e → ends e ≡ false
  plain_record e r s (inl p) = absurd (cc (s, p))
  plain_record e r s (inr p) = p

  -- Another record in place of one, and none in place of none.
  replaced-IsPlain :
      (e : RecordEvent R E) (f : Option R → Option R)
      → f none ≡ none
      → IsPlain e
      → IsPlain (record e { record_of = f e.record_of })
  replaced-IsPlain e f h (inl p) = inl (ap f p ∙ h)
  replaced-IsPlain e f h (inr p) = inr p

  -- What comes in has an end and is plain, and so is what goes out.
  abbrev pub IsKept : List (RecordEvent R E) → List (RecordEvent R E) → Type 0
  IsKept es out =
      (All IsPlain es → All IsPlain out)
      × (All IsPlain es → any_ends es ≡ true → any_ends out ≡ true)

  -- The first event e goes out as d.
  pub sent-IsKept :
      (e d : RecordEvent R E) (es out : List (RecordEvent R E))
      → (IsPlain e → IsPlain d)
      → (ends e ≡ true → ends d ≡ true)
      → IsKept es out
      → IsKept (e ∷ es) (d ∷ out)
  sent-IsKept e d es out f g (h, k) = (
    λ (p, ps). (f p, h ps),
    λ (p, ps) t. elim (Bool-cases (ends e)) [
      | inl a ↦ rw (g a) refl
      | inr a ↦ or_right (ends d) (any_ends out) (k ps (or_false (ends e) (any_ends es) a t))
    ],
  )

  -- The first event goes no further.
  pub dropped-IsKept :
      (e : RecordEvent R E) (r : R) (es out : List (RecordEvent R E))
      → e.record_of ≡ some r
      → IsKept es out
      → IsKept (e ∷ es) out
  dropped-IsKept e r es out s (h, k) = (
    λ (p, ps). h ps,
    λ (p, ps) t. k ps (or_false (ends e) (any_ends es) (plain_record e r s p) t),
  )

  -- A record that goes out besides.
  pub added-IsKept :
      (r : R) (es out : List (RecordEvent R E)) → IsKept es out → IsKept es (record_event r ∷ out)
  added-IsKept r es out (h, k) = (λ ps. (inr refl, h ps), k)

  pub transform-IsKept :
      (fn : R → Option R) (es : List (RecordEvent R E)) → IsKept es (transform fn es)
  unfolding transform on_record
  transform-IsKept fn [] = (λ h. h, λ h t. t)
  transform-IsKept fn (e ∷ es) =
      sent-IsKept e (record e { record_of = on_record fn e.record_of }) es (transform fn es)
        (replaced-IsPlain e (on_record fn) refl) (λ t. t) (transform-IsKept fn es)

  pub map-IsKept : (fn : R → Option R) (es : List (RecordEvent R E)) → IsKept es (map_events fn es)
  unfolding map_events mapped
  map-IsKept fn [] = (λ h. h, λ h t. t)
  map-IsKept fn (e ∷ es) =
      sent-IsKept e (record e { record_of = mapped fn e.record_of }) es (map_events fn es)
        (replaced-IsPlain e (mapped fn) refl) (λ t. t) (map-IsKept fn es)

  filter_record :
      (fn : R → Bool) (o : Option R) (e : RecordEvent R E) (es out : List (RecordEvent R E))
      → e.record_of ≡ o
      → IsKept es out
      → IsKept (e ∷ es) (if passes fn o then e ∷ out else out)
  unfolding passes
  filter_record fn none e es out s h = sent-IsKept e e es out (λ p. p) (λ t. t) h
  filter_record fn (some r) e es out s h = elim (Bool-cases (fn r)) [
    | inl a ↦ rw a (sent-IsKept e e es out (λ p. p) (λ t. t) h)
    | inr a ↦ rw a (dropped-IsKept e r es out s h)
  ]

  pub filter-IsKept : (fn : R → Bool) (es : List (RecordEvent R E)) → IsKept es (filter fn es)
  unfolding filter
  filter-IsKept fn [] = (λ h. h, λ h t. t)
  filter-IsKept fn (e ∷ es) =
      filter_record fn e.record_of e es (filter fn es) refl (filter-IsKept fn es)

  take_record-IsKept :
      (continue : ℕ → List (RecordEvent R E)) (o : Option R) (e : RecordEvent R E)
      (es : List (RecordEvent R E)) (count : ℕ) (n : ℤ)
      → ((count : ℕ) → IsKept es (continue count))
      → IsKept (e ∷ es) (take_record continue o e count n)
  unfolding take_record
  take_record-IsKept continue none e es count n h =
      sent-IsKept e e es (continue count) (λ p. p) (λ t. t) (h count)
  take_record-IsKept continue (some r) e es count n h = elim (Bool-cases (below count n)) [
    | inl a ↦ rw a (sent-IsKept e e es (continue (suc count)) (λ p. p) (λ t. t) (h (suc count)))
    | inr a ↦ rw a ((λ p. (inl refl, tt)), (λ p t. refl))
  ]

  pub take-IsKept :
      (count : ℕ) (n : ℤ) (es : List (RecordEvent R E)) → IsKept es (take_events count n es)
  unfolding take_events
  take-IsKept count n [] = (λ h. h, λ h t. t)
  take-IsKept count n (e ∷ es) =
      take_record-IsKept (λ count'. take_events count' n es) e.record_of e es count n
        (λ count'. take-IsKept count' n es)

  skip_record-IsKept :
      (continue : ℕ → List (RecordEvent R E)) (o : Option R) (e : RecordEvent R E)
      (es : List (RecordEvent R E)) (count : ℕ) (n : ℤ)
      → e.record_of ≡ o
      → ((count : ℕ) → IsKept es (continue count))
      → IsKept (e ∷ es) (skip_record continue o e count n)
  unfolding skip_record
  skip_record-IsKept continue none e es count n s h =
      sent-IsKept e e es (continue count) (λ p. p) (λ t. t) (h count)
  skip_record-IsKept continue (some r) e es count n s h = elim (Bool-cases (below count n)) [
    | inl a ↦ rw a (dropped-IsKept e r es (continue (suc count)) s (h (suc count)))
    | inr a ↦ rw a (sent-IsKept e e es (continue count) (λ p. p) (λ t. t) (h count))
  ]

  pub skip-IsKept :
      (count : ℕ) (n : ℤ) (es : List (RecordEvent R E)) → IsKept es (skip_events count n es)
  unfolding skip_events
  skip-IsKept count n [] = (λ h. h, λ h t. t)
  skip-IsKept count n (e ∷ es) =
      skip_record-IsKept (λ count'. skip_events count' n es) e.record_of e es count n refl
        (λ count'. skip-IsKept count' n es)

  distinct_record-IsKept :
      (continue : List (List ℕ) → List (RecordEvent R E)) (key : R → List ℕ) (o : Option R)
      (e : RecordEvent R E) (es : List (RecordEvent R E)) (seen : List (List ℕ))
      → e.record_of ≡ o
      → ((seen : List (List ℕ)) → IsKept es (continue seen))
      → IsKept (e ∷ es) (distinct_record continue key o e seen)
  unfolding distinct_record
  distinct_record-IsKept continue key none e es seen s h =
      sent-IsKept e e es (continue seen) (λ p. p) (λ t. t) (h seen)
  distinct_record-IsKept continue key (some r) e es seen s h =
      elim (Bool-cases (is_seen (key r) seen)) [
        | inl a ↦ rw a (dropped-IsKept e r es (continue seen) s (h seen))
        | inr a ↦
            rw a (sent-IsKept e e es (continue (key r ∷ seen)) (λ p. p) (λ t. t) (h (key r ∷ seen)))
      ]

  pub distinct-IsKept :
      (seen : List (List ℕ)) (key : R → List ℕ) (es : List (RecordEvent R E))
      → IsKept es (distinct seen key es)
  unfolding distinct
  distinct-IsKept seen key [] = (λ h. h, λ h t. t)
  distinct-IsKept seen key (e ∷ es) =
      distinct_record-IsKept (λ seen'. distinct seen' key es) key e.record_of e es seen refl
        (λ seen'. distinct-IsKept seen' key es)

  error-IsPlain :
      (e : RecordEvent R E) (x y : E)
      → e.error ≡ some x
      → IsPlain e
      → IsPlain (record e { error = some y })
  error-IsPlain e x y s (inl p) = inl p
  error-IsPlain e x y s (inr p) = absurd (cc (rw s at p))

  handled-IsKept :
      (handler : E → Option E) (es out : List (RecordEvent R E)) (e : RecordEvent R E)
      (o : Option E)
      → Rethrows handler
      → e.error ≡ o
      → IsKept es out
      → IsKept (e ∷ es) (handled handler out e o)
  unfolding handled recovered
  handled-IsKept handler es out e none h s k = sent-IsKept e e es out (λ p. p) (λ t. t) k
  handled-IsKept handler es out e (some x) h s k =
      let (y, g) = h x in
      rw g
        (sent-IsKept e (record e { error = some y }) es out (error-IsPlain e x y s) (λ t. refl) k)

  pub on_error-IsKept :
      (handler : E → Option E) (es : List (RecordEvent R E))
      → Rethrows handler
      → IsKept es (on_error handler es)
  unfolding on_error
  on_error-IsKept handler [] h = (λ h. h, λ h t. t)
  on_error-IsKept handler (e ∷ es) h =
      handled-IsKept handler es (on_error handler es) e e.error h refl
        (on_error-IsKept handler es h)

-- ===== src/Cypher/Blind.antt =====
-- The text that src/cypher/compiler.go writes does not depend on the values of the parameters.
use gopher_cypher.Cypher.Minimal.{register-AreDifferent}
use gopher_cypher.Cypher.Registers.{VisitsEntries, register-Holds, find_key-In}
use gopher_cypher.Cypher.Renders.{register_total, NeverPanics, find_key_total}
use gopher_cypher.Cypher.Shares.{
  IsEquality, register_shares, VisitsAll, In-Heads, find_key-none, AreDifferent, nowhere,
}
use gopher_cypher.Cypher.Numbered.{In, here, there, IsNumbered, register-cases}
use gopher_cypher.Common.{
  ℕ, suc, List, [], ◌∷◌, Bool, true, Option, none, some, map, ◌≡◌, refl, sym, ap, ◌∙◌, inl, inr,
  Option-cases, str_eq, Bool-cases,
}
use gopher_cypher.Cache.Table.{put}
use gopher_cypher.Cypher.Parameters.{
  no_parameters, Host, Parameters, find_key, registered, register, param_key,
}
use gopher_cypher.Cypher.Tree.{Node}
use gopher_cypher.Cypher.Compile.{
  Compiler, ◌>>◌, skip, write, append, continue, set_first, new_compiler, visit_literal,
  placeholder,
}
use gopher_cypher.Cypher.Visit.{returned, compile_query}
use gopher_cypher.Cypher.Template.{Template, Fragment, words, slot, emit}
use gopher_cypher.Cypher.Compiled.{query_template, compile-query_template, first_after}

-- == answers on every pair of values, and is symmetric and transitive; a range visits every entry of
-- a map and no other, in any order.
pub record IsPlain {ℓ} {V : Type ℓ} (host : Host V) : Type ℓ where
  pub calm : NeverPanics host
  pub visits : VisitsEntries host
  pub all : VisitsAll host
  pub equality : IsEquality host

module _ {ℓ κ} {V : Type ℓ} {W : Type κ} (f : V → W) where
  abbrev pub on_fragment : Fragment V → Fragment W
  on_fragment (words s) = words s
  on_fragment (slot v) = slot (f v)

  abbrev pub on_entries : List (List ℕ × V) → List (List ℕ × W)
  on_entries [] = []
  on_entries ((k, v) ∷ m) = (k, f v) ∷ on_entries m

  abbrev pub on_parameters : Parameters V → Parameters W
  on_parameters p = record { entries = on_entries p.entries; counter = p.counter }

  abbrev pub on_returned : Option (List ℕ × Parameters V) → Option (List ℕ × Parameters W)
  on_returned none = none
  on_returned (some (s, p)) = some (s, on_parameters p)

  on_compiler : Compiler V → Compiler W
  on_compiler c = record {
    output = c.output;
    parameters = on_parameters c.parameters;
    first_clause = c.first_clause;
  }

  on_outcome : Option (Compiler V) → Option (Compiler W)
  unfolding on_compiler
  on_outcome none = none
  on_outcome (some c) = some (on_compiler c)

  put-on_entries :
      (k : List ℕ) (v : V) (m : List (List ℕ × V))
      → put str_eq k (f v) (on_entries m) ≡ on_entries (put str_eq k v m)
  unfolding put
  put-on_entries k v [] = refl
  put-on_entries k v ((j, w) ∷ m) = elim (Bool-cases (str_eq j k)) [
    | inl e ↦ rw e refl
    | inr e ↦ rw e (ap (λ t. (j, f w) ∷ t) (put-on_entries k v m))
  ]

  -- The values of one query compare as those of the other.
  pub record Respects (from : Host V) (to : Host W) : Type (ℓ ⊔ κ) where
    pub equal_kept : (v w : V) → to.equal (f v) (f w) ≡ from.equal v w

  In-on_entries :
      (k : List ℕ) (v : V) (m : List (List ℕ × V)) → In k v m → In k (f v) (on_entries m)
  In-on_entries k v _ (here m) = here (on_entries m)
  In-on_entries k v _ (there (j, w) m i) = there (j, f w) (on_entries m) (In-on_entries k v m i)

  from_entries :
      (k : List ℕ) (u : W) (m : List (List ℕ × V))
      → In k u (on_entries m)
      → (v : V) × In k v m × (u ≡ f v)
  from_entries k u [] i = absurd (nowhere k u [] i refl)
  from_entries k u ((j, w) ∷ m) i = elim (In-Heads k u ((j, f w) ∷ on_entries m) i) [
    | inl e ↦
        let same : j ≡ k = ap (λ (e : List ℕ × W). e.0) e in
        (w, rw (sym same) (here m), sym (ap (λ (e : List ℕ × W). e.1) e))
    | inr i' ↦ let (v, a, b) = from_entries k u m i' in (v, there (j, w) m a, b)
  ]

  none-IsNumbered : IsNumbered (no_parameters {V = V})
  unfolding IsNumbered
  none-IsNumbered = refl

  none-AreDifferent : (host : Host V) → AreDifferent host []
  none-AreDifferent host = record { one_key = λ j k u w a b e. absurd (nowhere j u [] a refl) }

  module _ (from : Host V) (to : Host W) (same : Respects from to) (plain : IsPlain from)
      (other : IsPlain to) where
    AreDifferent-on_entries :
        (m : List (List ℕ × V)) → AreDifferent from m → AreDifferent to (on_entries m)
    AreDifferent-on_entries m d = record {
      one_key = λ j k u w a b e.
          let (u', a', ue) = from_entries j u m a in
          let (w', b', we) = from_entries k w m b in
          d.one_key j k u' w' a' b' (sym (same.equal_kept u' w') ∙ rw (ue, we) at e);
    }

    registered-on_parameters :
        (v : V) (p : Parameters V) (o : Option (Option (List ℕ)))
        → registered to (f v) (on_parameters p) o ≡ on_returned (registered from v p o)
    unfolding registered
    registered-on_parameters v p none = refl
    registered-on_parameters v p (some none) =
        ap (λ m. some (param_key (suc p.counter), record { entries = m; counter = suc p.counter }))
          (put-on_entries (param_key (suc p.counter)) v p.entries)
    registered-on_parameters v p (some (some k)) = refl

    missing :
        (v : V) (m : List (List ℕ × V)) (o : Option (List ℕ))
        → find_key from v (from.visit m) ≡ some none
        → find_key to (f v) (to.visit (on_entries m)) ≡ some o
        → find_key to (f v) (to.visit (on_entries m)) ≡ some none
    missing v m none h g = g
    missing v m (some j) h g =
        let (u, i, eq) = find_key-In to (f v) (to.visit (on_entries m)) j g in
        let (w, i', ue) = from_entries j u m (other.visits.visited j u (on_entries m) i) in
        let there_too = find_key-none from v j w (from.visit m) (plain.all.reached j w m i') h in
        absurd (cc (there_too, same.equal_kept w v, eq, ue))

    -- A search on one side finds no key if one on the other side finds none.
    find_key-missing :
        (v : V) (m : List (List ℕ × V))
        → find_key from v (from.visit m) ≡ some none
        → find_key to (f v) (to.visit (on_entries m)) ≡ some none
    find_key-missing v m h =
        let (o, g) = find_key_total to other.calm (f v) (to.visit (on_entries m)) in
        missing v m o h g

    register-on_parameters :
        (v : V) (p : Parameters V)
        → IsNumbered p
        → AreDifferent from p.entries
        → register to (f v) (on_parameters p) ≡ on_returned (register from v p)
    unfolding register
    register-on_parameters v p n d = elim (register-cases from v p n) [
      | inl e ↦ let (k, q, g) = register_total from plain.calm v p in absurd (cc (e, g))
      | inr (inl (j, g, e)) ↦
          let (w, i, eq) = find_key-In from v (from.visit p.entries) j g in
          let i' = plain.visits.visited j w p.entries i in
          register_shares to other.calm other.visits other.all other.equality (f v) (f w) j
            (on_parameters p) (AreDifferent-on_entries p.entries d) (In-on_entries j w p.entries i')
            (same.equal_kept w v ∙ eq)
          ∙ sym (ap on_returned e)
      | inr (inr (g, e)) ↦
          ap (registered to (f v) (on_parameters p)) (find_key-missing v p.entries g)
          ∙ registered-on_parameters v p (some none)
          ∙ sym (ap (λ o. on_returned (registered from v p o)) g)
    ]

    emit-on_compiler :
        (fs : Template V) (c : Compiler V)
        → IsNumbered c.parameters
        → AreDifferent from c.parameters.entries
        → emit to (map on_fragment fs) (on_compiler c) ≡ on_outcome (emit from fs c)
    unfolding emit ◌>>◌ skip write visit_literal placeholder on_compiler on_outcome
    emit-on_compiler [] c n d = refl
    emit-on_compiler (words s ∷ fs) c n d = emit-on_compiler fs (append s c) n d
    emit-on_compiler (slot v ∷ fs) c n d = elim (Option-cases (register from v c.parameters)) [
      | inl e ↦ rw (register-on_parameters v c.parameters n d, e) refl
      | inr ((k, q), e) ↦
          let (n', _, _) = register-Holds from plain.visits v c.parameters k q n e in
          let d' =
            register-AreDifferent from plain.calm plain.visits plain.all plain.equality v
              c.parameters k q n d e in
          rw (register-on_parameters v c.parameters n d, e)
            (emit-on_compiler fs (append (b'$' ∷ k) (record c { parameters = q })) n' d')
    ]

    returned-on_outcome :
        (o : Option (Compiler V)) (a b : Bool)
        → returned (continue (on_outcome o) (set_first a))
          ≡ on_returned (returned (continue o (set_first b)))
    unfolding on_outcome on_compiler set_first
    returned-on_outcome none a b = refl
    returned-on_outcome (some c) a b = refl

    -- If the templates of two queries differ only in the values of their slots, and the values of
    -- one compare as those of the other; and if, for each of the two, == answers on every pair of
    -- values and is symmetric and transitive, and a range visits every entry of a map and no other,
    -- in an order that may differ between the two: then both compile to the same text, and their
    -- parameters are the same but for the values.
    pub compile_query_blind :
        (ms : List (Node W)) (ns : List (Node V))
        → query_template to true ms ≡ map on_fragment (query_template from true ns)
        → compile_query to ms ≡ on_returned (compile_query from ns)
    unfolding compile_query on_compiler
    compile_query_blind ms ns h =
        ap returned (compile-query_template to ms new_compiler)
        ∙ ap
            (λ fs.
              returned (continue (emit to fs new_compiler) (set_first (first_after to true ms))))
            h
        ∙ ap (λ o. returned (continue o (set_first (first_after to true ms))))
            (emit-on_compiler (query_template from true ns) new_compiler none-IsNumbered
              (none-AreDifferent from))
        ∙ returned-on_outcome (emit from (query_template from true ns) new_compiler)
            (first_after to true ms) (first_after from true ns)
        ∙ ap (λ o. on_returned (returned o)) (sym (compile-query_template from ns new_compiler))

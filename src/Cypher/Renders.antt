-- ===== src/Cypher/Renders.antt =====
-- A compiled query of src/cypher/compiler.go, read back against its template and its parameters.
use mathlib.Core.Path.{subst}
use mathlib.Core.Option.{some-injective}
use gopher_cypher.Common.{
  ℕ, List, [], ◌∷◌, ◌++◌, Bool, true, false, Option, none, some, ◌≡◌, refl, sym, ◌∙◌, inl, inr,
  append_assoc, append-nil, Option-cases,
}
use gopher_cypher.Cypher.Parameters.{Host, Parameters, compared, find_key, registered, register}
use gopher_cypher.Cypher.Compile.{
  Compiler, ◌>>◌, skip, write, append, continue, visit_literal, placeholder, write_built, placed,
}
use gopher_cypher.Cypher.Template.{Template, words, slot, emit}
use gopher_cypher.Cypher.Numbered.{IsNumbered}
use gopher_cypher.Cypher.Registers.{
  Keeps, Keeps-refl, Keeps-trans, Holds, Holds-Keeps, VisitsEntries, register-Holds,
}

module _ {ℓ} {V : Type ℓ} (host : Host V) where
  -- The text is the template with "$" and a key in each slot, where the key holds the slot's value.
  unfoldable pub Renders : Parameters V → Template V → List ℕ → Type ℓ
  Renders p [] t = (t ≡ []) × Unit {ℓ}
  Renders p (words s ∷ fs) t = (rest : List ℕ) × (t ≡ s ++ rest) × Renders p fs rest
  Renders p (slot v ∷ fs) t =
      (k : List ℕ) × (rest : List ℕ) × (t ≡ (b'$' ∷ k) ++ rest)
      × Holds host p k v
      × Renders p fs rest

  -- What a template does to a compiler.
  pub record Emitted (c : Compiler V) (fs : Template V) (d : Compiler V) : Type ℓ where
    pub numbered : IsNumbered d.parameters
    pub keeps : Keeps c.parameters d.parameters
    pub added : List ℕ
    pub extends : d.output ≡ c.output ++ added
    pub renders : Renders d.parameters fs added

  pub none_continues :
      (v : V) (fs : Template V) (c d : Compiler V)
      → register host v c.parameters ≡ none
      → ¬ (continue (visit_literal host v c) (emit host fs) ≡ some d)
  unfolding visit_literal placeholder
  none_continues v fs c d r e = absurd (
      cc (
        subst (λ o. continue (write_built (placed (λ k. b'$' ∷ k) o) c) (emit host fs) ≡ some d) r
          e))

  pub some_continues :
      (v : V) (fs : Template V) (c d : Compiler V) (k : List ℕ) (q : Parameters V)
      → register host v c.parameters ≡ some (k, q)
      → continue (visit_literal host v c) (emit host fs) ≡ some d
      → emit host fs (append (b'$' ∷ k) (record c { parameters = q })) ≡ some d
  unfolding visit_literal placeholder
  some_continues v fs c d k q r e =
      subst (λ o. continue (write_built (placed (λ k. b'$' ∷ k) o) c) (emit host fs) ≡ some d) r e

  pub emit-Emitted :
      VisitsEntries host
      → (fs : Template V) (c d : Compiler V) → IsNumbered c.parameters
      → emit host fs c ≡ some d
      → Emitted c fs d
  unfolding emit ◌>>◌ skip write Renders
  emit-Emitted visits [] c d n e = subst (Emitted c []) (some-injective c d e) record {
    numbered = n;
    keeps = Keeps-refl c.parameters;
    added = [];
    extends = sym (append-nil c.output);
    renders = (refl, tt);
  }
  emit-Emitted visits (words s ∷ fs) c d n e =
      let m : Emitted (append s c) fs d = emit-Emitted visits fs (append s c) d n e in
      record {
        numbered = m.numbered;
        keeps = m.keeps;
        added = s ++ m.added;
        extends = m.extends ∙ append_assoc c.output s m.added;
        renders = (m.added, refl, m.renders);
      }
  emit-Emitted visits (slot v ∷ fs) c d n e = elim (Option-cases (register host v c.parameters)) [
    | inl r ↦ absurd (none_continues v fs c d r e)
    | inr ((k, q), r) ↦
        let (n', f, h) = register-Holds host visits v c.parameters k q n r in
        let c' : Compiler V = append (b'$' ∷ k) (record c { parameters = q }) in
        let m : Emitted c' fs d =
          emit-Emitted visits fs c' d n' (some_continues v fs c d k q r e) in
        record {
          numbered = m.numbered;
          keeps = Keeps-trans c.parameters q d.parameters f m.keeps;
          added = (b'$' ∷ k) ++ m.added;
          extends = m.extends ∙ append_assoc c.output (b'$' ∷ k) m.added;
          renders = (k, m.added, refl, Holds-Keeps host q d.parameters k v m.keeps h, m.renders);
        }
  ]

  -- `==` panics on no two values of the query.
  pub record NeverPanics : Type ℓ where
    pub answers : (v w : V) → (b : Bool) × (host.equal v w ≡ some b)

  compared_total :
      (b : Bool) (j : List ℕ) (o : Option (List ℕ))
      → (k : Option (List ℕ)) × (compared (some b) j (some o) ≡ some k)
  unfolding compared
  compared_total true j o = (some j, refl)
  compared_total false j o = (o, refl)

  registered_total :
      (v : V) (p : Parameters V) (o : Option (List ℕ))
      → (k : List ℕ) × (q : Parameters V) × (registered host v p (some o) ≡ some (k, q))
  unfolding registered
  registered_total v p none = (_, _, refl)
  registered_total v p (some k) = (k, p, refl)

  module _ (calm : NeverPanics) where
    pub find_key_total :
        (v : V) (m : List (List ℕ × V)) → (o : Option (List ℕ)) × (find_key host v m ≡ some o)
    unfolding find_key compared
    find_key_total v [] = (none, refl)
    find_key_total v ((j, w) ∷ m) =
        let (b, e) = calm.answers w v in
        let (o, f) = find_key_total v m in rw (e, f) (compared_total b j o)

    pub register_total :
        (v : V) (p : Parameters V)
        → (k : List ℕ) × (q : Parameters V) × (register host v p ≡ some (k, q))
    unfolding register registered
    register_total v p =
        let (o, e) = find_key_total v (host.visit p.entries) in rw e (registered_total v p o)

    pub emit_total :
        (fs : Template V) (c : Compiler V) → (d : Compiler V) × (emit host fs c ≡ some d)
    unfolding emit ◌>>◌ skip write visit_literal placeholder
    emit_total [] c = (c, refl)
    emit_total (words s ∷ fs) c = emit_total fs (append s c)
    emit_total (slot v ∷ fs) c =
        let (k, q, e) = register_total v c.parameters in rw e (emit_total fs _)

-- ===== src/Cypher/Emit.antt =====
-- Templates put one after the other, and steps of the compiler that write a template.
use gopher_cypher.Common.{
  inr, inl, Option-cases, ℕ, List, [], ◌∷◌, ◌++◌, Bool, true, false, Option, none, some, ◌≡◌, refl,
  sym, ap, ◌∙◌,
}
use gopher_cypher.Cypher.Parameters.{register, Host}
use gopher_cypher.Cypher.Compile.{
  placeholder, Compiler, Step, ◌>>◌, continue, skip, write, write_if, set_first, append,
  visit_literal,
}
use gopher_cypher.Cypher.Template.{Template, words, slot, says, says_if, asks, emit}

pub continue_assoc {ℓ} :
    {V : Type ℓ} (o : Option (Compiler V)) (s t : Step V)
    → continue (continue o s) t ≡ continue o (s >> t)
unfolding ◌>>◌
continue_assoc none s t = refl
continue_assoc (some c) s t = refl

module _ {ℓ} {V : Type ℓ} (host : Host V) where
  pub continue-cong :
      {s t : Step V} (o : Option (Compiler V))
      → ((c : Compiler V) → s c ≡ t c)
      → continue o s ≡ continue o t
  continue-cong none h = refl
  continue-cong (some c) h = h c

  pub emit-append :
      (fs gs : Template V) (c : Compiler V)
      → emit host (fs ++ gs) c ≡ continue (emit host fs c) (emit host gs)
  unfolding emit ◌>>◌ skip
  emit-append [] gs c = refl
  emit-append (words s ∷ fs) gs c =
      continue-cong (write s c) (emit-append fs gs)
      ∙ sym (continue_assoc (write s c) (emit host fs) (emit host gs))
  emit-append (slot v ∷ fs) gs c =
      continue-cong (visit_literal host v c) (emit-append fs gs)
      ∙ sym (continue_assoc (visit_literal host v c) (emit host fs) (emit host gs))

  continue-skip : (o : Option (Compiler V)) → continue o (skip) ≡ o
  unfolding skip
  continue-skip none = refl
  continue-skip (some c) = refl

  -- A step that does what the template says, from every compiler.
  pub record Writes (step : Step V) (fs : Template V) : Type ℓ where
    pub does : (c : Compiler V) → step c ≡ emit host fs c

  pub sequence :
      {s t : Step V} {fs gs : Template V} → Writes s fs → Writes t gs → Writes (s >> t) (fs ++ gs)
  unfolding ◌>>◌
  sequence {s} {t} {fs} {gs} h k = record {
    does = λ c.
        ap (λ o. continue o t) (h.does c)
        ∙ continue-cong (emit host fs c) k.does
        ∙ sym (emit-append fs gs c);
  }

  pub skip-Writes : Writes skip []
  unfolding emit
  skip-Writes = record { does = λ c. refl }

  pub write-Writes : (s : List ℕ) → Writes (write s) (says s)
  unfolding emit ◌>>◌ write skip
  write-Writes s = record { does = λ c. refl }

  pub write_if-Writes : (b : Bool) (s : List ℕ) → Writes (write_if b s) (says_if b s)
  unfolding emit ◌>>◌ write write_if skip
  write_if-Writes true s = record { does = λ c. refl }
  write_if-Writes false s = record { does = λ c. refl }

  pub visit_literal-Writes : (v : V) → Writes (visit_literal host v) (asks v)
  unfolding emit ◌>>◌
  visit_literal-Writes v = record { does = λ c. sym (continue-skip (visit_literal host v c)) }

  module _ (b : Bool) where
    -- The field that only Compile reads.
    abbrev first : Compiler V → Compiler V
    first c = record c { first_clause = b }

    literal-first :
        (v : V) (c : Compiler V)
        → visit_literal host v (first c) ≡ continue (visit_literal host v c) (set_first b)
    unfolding visit_literal placeholder set_first
    literal-first v c = elim (Option-cases (register host v c.parameters)) [
      | inl e ↦ rw e refl
      | inr (r, e) ↦ rw e refl
    ]

    pub emit-first :
        (fs : Template V) (c : Compiler V)
        → emit host fs (first c) ≡ continue (emit host fs c) (set_first b)
    unfolding emit ◌>>◌ skip write set_first
    emit-first [] c = refl
    emit-first (words s ∷ fs) c = emit-first fs (append s c)
    emit-first (slot v ∷ fs) c =
        let o : Option (Compiler V) = visit_literal host v c in
        ap (λ o. continue o (emit host fs)) (literal-first v c)
        ∙ continue_assoc o (set_first b) (emit host fs)
        ∙ continue-cong o (emit-first fs)
        ∙ sym (continue_assoc o (emit host fs) (set_first b))

-- ===== src/Cypher/Compiled.antt =====
-- Compile of src/cypher/compiler.go: what the text and the parameters of a query are.
use mathlib.Core.Path.{subst}
use mathlib.Core.Option.{some-injective}
use gopher_cypher.Common.{
  Option, Option, Option, Option, Option, Option, Option, Option, Option, Option, Option, Option,
  Option, Option, Option, Option, Option, Option, Option, Option, Option, Option, Option, Option,
  Option, Option, Option, Option, Option, Option, ℕ, List, [], ◌∷◌, ◌++◌, Bool, true, false, not,
  Option, none, some, ◌≡◌, refl, sym, ap, ◌∙◌,
}
use gopher_cypher.Common.Text.{codes}
use gopher_cypher.Cypher.Parameters.{Host, Parameters}
use gopher_cypher.Cypher.Tree.{Node}
use gopher_cypher.Cypher.Compile.{Compiler, ◌>>◌, skip, continue, set_first, new_compiler}
use gopher_cypher.Cypher.Visit.{returned, compile_query, compile, between_clauses, visit}
use gopher_cypher.Cypher.Template.{Template, emit, template, says_if}
use gopher_cypher.Cypher.Emit.{
  continue_assoc, continue-cong, emit-append, emit-first, write_if-Writes, sequence,
}
use gopher_cypher.Cypher.Refines.{visit-Writes}
use gopher_cypher.Cypher.Numbered.{IsNumbered}
use gopher_cypher.Cypher.Registers.{Keeps, VisitsEntries}
use gopher_cypher.Cypher.Renders.{Emitted, emit-Emitted, Renders, NeverPanics, emit_total}

module _ {ℓ} {V : Type ℓ} (host : Host V) where
  -- The templates of several nodes, with a newline before each but the first.
  unfoldable pub query_template : Bool → List (Node V) → Template V
  query_template first [] = []
  query_template first (n ∷ ns) =
      (says_if (not first) (codes "\n") ++ template host n) ++ query_template false ns

  -- The flag after Compile.
  unfoldable pub first_after : Bool → List (Node V) → Bool
  first_after first [] = first
  first_after first (n ∷ ns) = false

  first_after-false : (ns : List (Node V)) → first_after false ns ≡ false
  unfolding first_after
  first_after-false [] = refl
  first_after-false (n ∷ ns) = refl

  clause-emit :
      (n : Node V) (c : Compiler V)
      → (between_clauses >> visit host n) c
        ≡ emit host (says_if (not c.first_clause) (codes "\n") ++ template host n) c
  unfolding ◌>>◌ between_clauses
  clause-emit n c =
      (sequence host (write_if-Writes host (not c.first_clause) (codes "\n"))
          (visit-Writes host n)).does
        c

  -- Compile writes the templates of its nodes.
  pub compile-query_template :
      (ns : List (Node V)) (c : Compiler V)
      → compile host ns c
        ≡ continue
            (emit host (query_template c.first_clause ns) c)
            (set_first (first_after c.first_clause ns))
  unfolding compile query_template first_after emit skip set_first ◌>>◌
  compile-query_template [] c = refl
  compile-query_template (n ∷ ns) c =
      let o : Option (Compiler V) =
        emit host (says_if (not c.first_clause) (codes "\n") ++ template host n) c in
      let rest : Template V = query_template false ns in
      sym (continue_assoc (between_clauses c) (visit host n) (set_first false >> compile host ns))
      ∙ ap (λ o. continue o (set_first false >> compile host ns)) (clause-emit n c)
      ∙ continue-cong host o (λ d.
        compile-query_template ns (record d { first_clause = false })
        ∙ ap (λ b. continue (emit host rest (record d { first_clause = false })) (set_first b))
            (first_after-false ns)
        ∙ ap (λ o. continue o (set_first false)) (emit-first host false rest d)
        ∙ continue_assoc (emit host rest d) (set_first false) (set_first false)
        ∙ continue-cong host (emit host rest d) (λ e. refl))
      ∙ sym (continue_assoc o (emit host rest) (set_first false))
      ∙ ap (λ o. continue o (set_first false))
          (sym (
            emit-append host (says_if (not c.first_clause) (codes "\n") ++ template host n) rest c))

  set_back :
      (o : Option (Compiler V)) (b : Bool) (d : Compiler V)
      → continue o (set_first b) ≡ some d
      → (e : Compiler V) × (o ≡ some e) × (d ≡ record e { first_clause = b })
  unfolding set_first
  set_back none b d h = absurd (cc h)
  set_back (some e) b d h = (e, refl, sym (some-injective (record e { first_clause = b }) d h))

  -- Where Compile returns, the template was emitted.
  pub compile_emitted :
      (ns : List (Node V)) (c d : Compiler V)
      → compile host ns c ≡ some d
      → (e : Compiler V) × (emit host (query_template c.first_clause ns) c ≡ some e)
        × (d ≡ record e { first_clause = first_after c.first_clause ns })
  unfolding set_first
  compile_emitted ns c d h =
      set_back (emit host (query_template c.first_clause ns) c) (first_after c.first_clause ns) d
        (sym (compile-query_template ns c) ∙ h)

  -- If a range visits entries of the map only, Compile keeps the parameters numbered: their keys
  -- are p1 up to the counter, in turn. Where it returns, every key that had a value still has it.
  pub compile-IsNumbered :
      (ns : List (Node V)) (c d : Compiler V)
      → VisitsEntries host
      → IsNumbered c.parameters
      → compile host ns c ≡ some d
      → IsNumbered d.parameters × Keeps c.parameters d.parameters
  compile-IsNumbered ns c d visits n h =
      let (e, g, eq) = compile_emitted ns c d h in
      let m : Emitted host c (query_template c.first_clause ns) e =
        emit-Emitted host visits (query_template c.first_clause ns) c e n g in
      subst (λ (d : Compiler V). IsNumbered d.parameters × Keeps c.parameters d.parameters) (sym eq)
        (m.numbered, m.keeps)

  -- If a range visits entries of the map only, and no comparison panics, then compiling nodes
  -- returns a text and parameters. The keys are p1 up to the number of the parameters, in turn; and
  -- the text is the template of the nodes with "$" and a key in each slot, under which the
  -- parameters have the value of the slot, or one that == finds equal to it.
  pub compile_query-Renders :
      VisitsEntries host
      → NeverPanics host
      → (ns : List (Node V))
      → (s : List ℕ) × (p : Parameters V) × (compile_query host ns ≡ some (s, p))
        × IsNumbered p
        × Renders host p (query_template true ns) s
  unfolding set_first IsNumbered compile_query
  compile_query-Renders visits calm ns =
      let (e, g) = emit_total host calm (query_template true ns) new_compiler in
      let m : Emitted host new_compiler (query_template true ns) e =
        emit-Emitted host visits (query_template true ns) new_compiler e refl g in
      (
        e.output,
        e.parameters,
        ap returned (compile-query_template ns new_compiler) ∙ rw g refl,
        m.numbered,
        rw m.extends m.renders,
      )

  pub compile_query_total :
      NeverPanics host
      → (ns : List (Node V))
      → (s : List ℕ) × (p : Parameters V) × (compile_query host ns ≡ some (s, p))
  unfolding set_first compile_query
  compile_query_total calm ns =
      let (e, g) = emit_total host calm (query_template true ns) new_compiler in
      (e.output, e.parameters, ap returned (compile-query_template ns new_compiler) ∙ rw g refl)

-- ===== src/Cypher/Minimal.antt =====
-- The parameters that Compile of src/cypher/compiler.go returns are pairwise different.
use mathlib.Core.Path.{subst}
use mathlib.Core.Option.{some-injective}
use gopher_cypher.Common.{ℕ, suc, List, [], ◌∷◌, some, ◌≡◌, sym, ◌∙◌, inl, inr, Option-cases}
use gopher_cypher.Cypher.Parameters.{Host, Parameters, param_key, register}
use gopher_cypher.Cypher.Tree.{Node}
use gopher_cypher.Cypher.Compile.{Compiler, ◌>>◌, skip, write, append}
use gopher_cypher.Cypher.Visit.{compile}
use gopher_cypher.Cypher.Template.{Template, words, slot, emit}
use gopher_cypher.Cypher.Numbered.{IsNumbered, register-cases}
use gopher_cypher.Cypher.Registers.{VisitsEntries, register-Holds}
use gopher_cypher.Cypher.Renders.{NeverPanics, none_continues, some_continues}
use gopher_cypher.Cypher.Compiled.{query_template, compile_emitted}
use gopher_cypher.Cypher.Shares.{IsEquality, VisitsAll, AreDifferent, AreDifferent-append}

module _ {ℓ} {V : Type ℓ} (host : Host V) where
  module _ (calm : NeverPanics host) (visits : VisitsEntries host) (all : VisitsAll host)
      (equality : IsEquality host) where
    pub register-AreDifferent :
        (v : V) (p : Parameters V) (k : List ℕ) (q : Parameters V)
        → IsNumbered p
        → AreDifferent host p.entries
        → register host v p ≡ some (k, q)
        → AreDifferent host q.entries
    register-AreDifferent v p k q n d h = elim (register-cases host v p n) [
      | inl e ↦ absurd (cc (h, e))
      | inr (inl (j, f, e)) ↦
          subst (λ (r : List ℕ × Parameters V). AreDifferent host r.1.entries)
            (some-injective (j, p) (k, q) (sym e ∙ h)) d
      | inr (inr (f, e)) ↦
          subst (λ (r : List ℕ × Parameters V). AreDifferent host r.1.entries)
            (some-injective (param_key (suc p.counter), _) (k, q) (sym e ∙ h))
            (AreDifferent-append host calm visits all equality (param_key (suc p.counter)) v p f d)
    ]

    emit-AreDifferent :
        (fs : Template V) (c e : Compiler V)
        → IsNumbered c.parameters
        → AreDifferent host c.parameters.entries
        → emit host fs c ≡ some e
        → AreDifferent host e.parameters.entries
    unfolding emit ◌>>◌ skip write
    emit-AreDifferent [] c e n d h =
        subst (λ (c : Compiler V). AreDifferent host c.parameters.entries) (some-injective c e h) d
    emit-AreDifferent (words s ∷ fs) c e n d h = emit-AreDifferent fs (append s c) e n d h
    emit-AreDifferent (slot v ∷ fs) c e n d h = elim (Option-cases (register host v c.parameters)) [
      | inl r ↦ absurd (none_continues host v fs c e r h)
      | inr ((k, q), r) ↦
          let (n', _, _) = register-Holds host visits v c.parameters k q n r in
          emit-AreDifferent fs (append (b'$' ∷ k) (record c { parameters = q })) e n'
            (register-AreDifferent v c.parameters k q n d r) (some_continues host v fs c e k q r h)
    ]

    -- If == answers on every pair of values, is symmetric and transitive, and a range visits every
    -- entry and no other: from a compiler whose keys are p1 up to the counter, in turn, and whose
    -- parameters are pairwise different, Compile, where it returns, leaves parameters that are
    -- pairwise different.
    pub compile-AreDifferent :
        (ns : List (Node V)) (c d : Compiler V)
        → IsNumbered c.parameters
        → AreDifferent host c.parameters.entries
        → compile host ns c ≡ some d
        → AreDifferent host d.parameters.entries
    compile-AreDifferent ns c d n a h =
        let (e, g, eq) = compile_emitted host ns c d h in
        subst (λ (d : Compiler V). AreDifferent host d.parameters.entries) (sym eq)
          (emit-AreDifferent (query_template host c.first_clause ns) c e n a g)

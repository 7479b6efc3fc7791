-- ===== src/Cypher/Built.antt =====
-- The expressions of src/cypher/expression.go and the parts of a query that hold no node write
-- their templates.
use gopher_cypher.Cypher.Visit.{write_as}
use gopher_cypher.Common.{
  ℕ, List, [], ◌∷◌, ◌++◌, Bool, true, false, not, none, some, ◌≡◌, refl, sym, ap, ◌∙◌, append_assoc,
}
use gopher_cypher.Common.Text.{codes}
use gopher_cypher.Cypher.Parameters.{Host, Parameters}
use gopher_cypher.Cypher.Tree.{
  Expression, comparison, property_access, literal, function_call, alias, alias_value, math, raw,
  Removal,
}
use gopher_cypher.Cypher.Compile.{
  Compiler, Step, Built, placed, and_then, write_built, placeholder, build_arguments,
  build_expression, render_built, visit_literal, removal_text, write_removals, visit_remove,
  render_conditions, visit_where, write_yields, write_yield, append, ◌>>◌, continue, skip, write,
}
use gopher_cypher.Cypher.Template.{
  Template, says, asks, separated, expression_template, where_template, yields_template,
  as_template, emit,
}
use gopher_cypher.Cypher.Emit.{
  Writes, sequence, skip-Writes, write-Writes, write_if-Writes, visit_literal-Writes, emit-append,
}

module _ {ℓ} {V : Type ℓ} (host : Host V) where
  written-prefixed :
      (f : List ℕ → List ℕ) (q : Parameters V) (output : List ℕ) (o : Built V) (c : Compiler V)
      → ((s : List ℕ) → c.output ++ f s ≡ output ++ s)
      → write_built (placed f o) c ≡ write_built o (record c { output = output; parameters = q })
  written-prefixed f q output none c h = refl
  written-prefixed f q output (some (s, p)) c h =
      ap (λ t. some (record c { output = t; parameters = p })) (h s)

  written-and_then :
      (o : Built V) (k : List ℕ → Parameters V → Built V) (t : Step V) (c d : Compiler V)
      → ((s : List ℕ) (q : Parameters V)
          → write_built (k s q) c ≡ t (append s (record d { parameters = q })))
      → write_built (and_then o k) c ≡ continue (write_built o d) t
  written-and_then none k t c d h = refl
  written-and_then (some (s, q)) k t c d h = h s q

  written-suffixed :
      (suffix after : List ℕ) (o : Built V) (c : Compiler V)
      → write_built (placed (λ s. s ++ (suffix ++ after)) o) c
        ≡ continue (write_built o c) (emit host (says suffix ++ says after))
  unfolding emit ◌>>◌ write skip
  written-suffixed suffix after none c = refl
  written-suffixed suffix after (some (s, p)) c =
      ap (λ t. some (record c { output = t; parameters = p })) (simp append_assoc)

  -- A built text and a fixed one after it.
  suffixed-emit :
      (suffix after : List ℕ) (o : Built V) (fs : Template V) (c : Compiler V)
      → write_built o c ≡ emit host fs c
      → write_built (placed (λ s. s ++ (suffix ++ after)) o) c
        ≡ emit host (fs ++ (says suffix ++ says after)) c
  unfolding emit ◌>>◌ write skip
  suffixed-emit suffix after o fs c h =
      written-suffixed suffix after o c
      ∙ ap (λ o. continue o (emit host (says suffix ++ says after))) h
      ∙ sym (emit-append host fs (says suffix ++ says after) c)

  placeholder-emit :
      (v : V) (c : Compiler V)
      → write_built (placeholder host v c.parameters) c ≡ emit host (asks v) c
  unfolding visit_literal
  placeholder-emit v c = (visit_literal-Writes host v).does c

  -- Two built texts with an operator between them.
  infix-emit :
      (op : List ℕ) (o : Built V) (k : Parameters V → Built V) (fs gs : Template V) (c : Compiler V)
      → write_built o c ≡ emit host fs c
      → ((d : Compiler V) → write_built (k d.parameters) d ≡ emit host gs d)
      → write_built
          (and_then o λ l q. placed (λ r. l ++ (codes " " ++ (op ++ (codes " " ++ r)))) (k q))
          c
        ≡ emit host (fs ++ (says (codes " ") ++ (says op ++ (says (codes " ") ++ gs)))) c
  unfolding emit ◌>>◌ write
  infix-emit op o k fs gs c h r =
      let after = says (codes " ") ++ (says op ++ (says (codes " ") ++ gs)) in
      written-and_then o _ (emit host after) c c (λ s q.
        written-prefixed _ q ((((c.output ++ s) ++ codes " ") ++ op) ++ codes " ") (k q) c
          (λ t. simp append_assoc)
        ∙ r _)
      ∙ ap (λ o. continue o (emit host after)) h
      ∙ sym (emit-append host fs after c)

  arguments-emit :
      (first : Bool) (vs : List V) (c : Compiler V)
      → write_built (build_arguments host first vs c.parameters) c
        ≡ emit host (separated asks (codes ", ") first vs ++ says (codes ")")) c
  unfolding build_arguments emit ◌>>◌ skip write visit_literal
  arguments-emit first [] c = refl
  arguments-emit true (v ∷ vs) c =
      written-and_then (placeholder host v c.parameters) _ _ c c (λ s q.
        written-prefixed _ q (c.output ++ s) (build_arguments host false vs q) c
          (λ t. simp append_assoc)
        ∙ arguments-emit false vs _)
  arguments-emit false (v ∷ vs) c =
      written-and_then (placeholder host v c.parameters) _ _ c (append (codes ", ") c) (λ s q.
        written-prefixed _ q ((c.output ++ codes ", ") ++ s) (build_arguments host false vs q) c
          (λ t. simp append_assoc)
        ∙ arguments-emit false vs _)

  expression-emit :
      (e : Expression V) (c : Compiler V)
      → write_built (build_expression host e c.parameters) c ≡ emit host (expression_template e) c
  unfolding build_expression expression_template emit ◌>>◌ write
  expression-emit (comparison lhs op rhs) c =
      infix-emit op (build_expression host lhs c.parameters) (build_expression host rhs)
        (expression_template lhs) (expression_template rhs) c (expression-emit lhs c)
        (expression-emit rhs)
  expression-emit (property_access e name) c =
      suffixed-emit (codes ".") name (build_expression host e c.parameters) (expression_template e)
        c (expression-emit e c)
  expression-emit (literal v) c = placeholder-emit v c
  expression-emit (function_call name vs) c =
      written-prefixed _ c.parameters ((c.output ++ name) ++ codes "(")
        (build_arguments host true vs c.parameters) c (λ t. simp append_assoc)
      ∙ arguments-emit true vs _
  expression-emit (alias e name) c =
      suffixed-emit (codes " AS ") name (build_expression host e c.parameters)
        (expression_template e) c (expression-emit e c)
  expression-emit (alias_value v name) c =
      suffixed-emit (codes " AS ") name (placeholder host v c.parameters) (asks v) c
        (placeholder-emit v c)
  expression-emit (math left op right) c =
      infix-emit op (placeholder host left c.parameters) (placeholder host right) (asks left)
        (asks right) c (placeholder-emit left c) (placeholder-emit right)
  expression-emit (raw s) c = (write-Writes host s).does c

  pub render_built-Writes :
      (e : Expression V) → Writes host (render_built host e) (expression_template e)
  unfolding render_built
  render_built-Writes e = record { does = expression-emit e }

  conditions-Writes :
      (first : Bool) (es : List (Expression V))
      → Writes host
          (render_conditions host first es)
          (separated expression_template (codes " AND ") first es)
  unfolding render_conditions
  conditions-Writes first [] = skip-Writes host
  conditions-Writes first (e ∷ es) =
      sequence host (write_if-Writes host (not first) (codes " AND "))
        (sequence host (render_built-Writes e) (conditions-Writes false es))

  removals-Writes :
      (first : Bool) (rs : List (Removal V))
      → Writes host
          (write_removals host first rs)
          (separated (λ r. says (removal_text host r)) (codes ", ") first rs)
  unfolding write_removals
  removals-Writes first [] = skip-Writes host
  removals-Writes first (r ∷ rs) =
      sequence host (write_if-Writes host (not first) (codes ", "))
        (sequence host (write-Writes host (removal_text host r)) (removals-Writes false rs))

  yields-Writes :
      (first : Bool) (ys : List (List ℕ))
      → Writes host (write_yields first ys) (separated says (codes ", ") first ys)
  unfolding write_yields
  yields-Writes first [] = skip-Writes host
  yields-Writes first (y ∷ ys) =
      sequence host (write_if-Writes host (not first) (codes ", "))
        (sequence host (write-Writes host y) (yields-Writes false ys))

  pub where-Writes :
      (es : List (Expression V)) → Writes host (visit_where host es) (where_template es)
  unfolding visit_where
  where-Writes [] = skip-Writes host
  where-Writes (e ∷ es) =
      sequence host (write-Writes host (codes "WHERE ")) (conditions-Writes true (e ∷ es))

  pub remove-Writes :
      (rs : List (Removal V))
      → Writes host (visit_remove host rs) (
          says (codes "REMOVE ")
          ++ separated (λ r. says (removal_text host r)) (codes ", ") true rs)
  unfolding visit_remove
  remove-Writes rs = sequence host (write-Writes host (codes "REMOVE ")) (removals-Writes true rs)

  pub yield-Writes : (ys : List (List ℕ)) → Writes host (write_yield ys) (yields_template ys)
  unfolding write_yield
  yield-Writes [] = skip-Writes host
  yield-Writes (y ∷ ys) =
      sequence host (write-Writes host (codes " YIELD ")) (yields-Writes true (y ∷ ys))

  pub as-Writes : (name : List ℕ) → Writes host (write_as name) (as_template name)
  unfolding write_as
  as-Writes [] = skip-Writes host
  as-Writes (a ∷ name) =
      sequence host (write-Writes host (codes " AS ")) (write-Writes host (a ∷ name))

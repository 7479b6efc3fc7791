-- ===== src/Cypher/Refines.antt =====
-- The visitors of src/cypher/compiler.go write the templates of their nodes.
use gopher_cypher.Common.{
  ℕ, List, [], ◌++◌, Bool, true, false, not, Option, ◌≡◌, refl, sym, ap, ◌∙◌,
}
use gopher_cypher.Common.Text.{codes}
use gopher_cypher.Cypher.Parameters.{Host}
use gopher_cypher.Cypher.Tree.{
  Item, Items, Assignment, Assignments, Sorts, Node, OptionalNode, Nodes, expression, node, text,
  array, value, no_items, item, property_assignment, variable_properties, label_assignment,
  other_assignment, no_assignments, assignment, no_sorts, sort_by, literal_node, literal_data,
  optimized_literal, set_node, remove_node, return_node, with_node, unwind_node, foreach_node,
  where_node, skip_node, limit_node, skip_data, limit_data, order_by_node, match_node, merge_node,
  procedure_call, call_subquery, delete_node, load_csv, pattern_node, no_node, on_create, no_nodes,
  and_node,
}
use gopher_cypher.Cypher.Compile.{
  Compiler, Step, ◌>>◌, skip, write, set_first, continue, direction_text, append, format_array,
}
use gopher_cypher.Cypher.Visit.{
  render, render_items, render_assignment, render_assignments, render_sorts, visit_with_where,
  visit_on_create, visit_updates, visit_body, visit_set, visit, in_braces,
}
use gopher_cypher.Cypher.Template.{
  Template, emit, says, item_template, items_template, assignment_template, assignments_template,
  sorts_template, with_where_template, on_create_template, updates_template, body_template,
  set_template, template,
}
use gopher_cypher.Cypher.Emit.{
  Writes, sequence, skip-Writes, write-Writes, write_if-Writes, visit_literal-Writes, emit-append,
  emit-first, continue_assoc, continue-cong,
}
use gopher_cypher.Cypher.Built.{
  render_built-Writes, where-Writes, remove-Writes, yield-Writes, as-Writes,
}

module _ {ℓ} {V : Type ℓ} (host : Host V) where
  -- A step that does what the template says, up to the flag that is set afterwards.
  record WritesBefore (step : Step V) (fs : Template V) : Type ℓ where
    does_before :
        (b : Bool) (c : Compiler V)
        → continue (step c) (set_first b) ≡ continue (emit host fs c) (set_first b)

  skip-WritesBefore : WritesBefore skip []
  unfolding emit
  skip-WritesBefore = record { does_before = λ b c. refl }

  sequence_before :
      {s t : Step V} {fs gs : Template V}
      → Writes host s fs
      → WritesBefore t gs
      → WritesBefore (s >> t) (fs ++ gs)
  unfolding ◌>>◌
  sequence_before {s} {t} {fs} {gs} h k = record {
    does_before = λ b c.
        let o : Option (Compiler V) = emit host fs c in
        ap (λ o. continue (continue o t) (set_first b)) (h.does c)
        ∙ continue_assoc o t (set_first b)
        ∙ continue-cong host o (k.does_before b)
        ∙ sym (continue_assoc o (emit host gs) (set_first b))
        ∙ ap (λ o. continue o (set_first b)) (sym (emit-append host fs gs c));
  }

  reset-WritesBefore :
      {s : Step V} {fs : Template V} → WritesBefore s fs → WritesBefore (set_first false >> s) fs
  unfolding ◌>>◌ set_first
  reset-WritesBefore {s} {fs} h = record {
    does_before = λ b c.
        h.does_before b (record c { first_clause = false })
        ∙ ap (λ o. continue o (set_first b)) (emit-first host false fs c)
        ∙ continue_assoc (emit host fs c) (set_first false) (set_first b)
        ∙ continue-cong host (emit host fs c) (λ d. refl);
  }

  in_braces-Writes :
      {body : Step V} {fs : Template V}
      → WritesBefore body fs
      → Writes host (in_braces body) (says (codes "CALL {") ++ (fs ++ says (codes " }")))
  unfolding in_braces ◌>>◌ emit write set_first skip
  in_braces-Writes {body} {fs} h = record {
    does = λ c.
        let d : Compiler V = append (codes "CALL {") c in
        let opened : Compiler V = record d { first_clause = true } in
        let back : Step V = set_first c.first_clause in
        continue-cong host {s = write (codes " }") >> back} {t = back >> write (codes " }")}
          (body opened) (λ e. refl)
        ∙ sym (continue_assoc (body opened) back (write (codes " }")))
        ∙ ap (λ o. continue o (write (codes " }")))
            (h.does_before c.first_clause opened ∙ sym (emit-first host c.first_clause fs opened))
        ∙ continue-cong host (emit host fs d) (λ e. refl)
        ∙ sym (emit-append host fs (says (codes " }")) d);
  }

  mutual
    unfolding visit template

    render-Writes : (x : Item V) → Writes host (render host x) (item_template host x)
    render-Writes (expression e) = render_built-Writes host e
    render-Writes (node n) = visit-Writes n
    render-Writes (text s) = write-Writes host s
    render-Writes (array xs) = write-Writes host (format_array host xs)
    render-Writes (value v) = visit_literal-Writes host v

    items-Writes :
        (first : Bool) (separator : List ℕ) (xs : Items V)
        → Writes host
            (render_items host first separator xs)
            (items_template host first separator xs)
    items-Writes first separator no_items = skip-Writes host
    items-Writes first separator (item x xs) =
        sequence host (write_if-Writes host (not first) separator)
          (sequence host (render-Writes x) (items-Writes false separator xs))

    assignment-Writes :
        (a : Assignment V) → Writes host (render_assignment host a) (assignment_template host a)
    assignment-Writes (property_assignment p x) =
        sequence host (write-Writes host p)
          (sequence host (write-Writes host (codes " = ")) (render-Writes x))
    assignment-Writes (variable_properties v x merge) =
        sequence host (write-Writes host v) (sequence host (write-Writes host _) (render-Writes x))
    assignment-Writes (label_assignment v l) = write-Writes host _
    assignment-Writes (other_assignment v) = write-Writes host _

    assignments-Writes :
        (first : Bool) (xs : Assignments V)
        → Writes host (render_assignments host first xs) (assignments_template host first xs)
    assignments-Writes first no_assignments = skip-Writes host
    assignments-Writes first (assignment a rest) =
        sequence host (write_if-Writes host (not first) (codes ", "))
          (sequence host (assignment-Writes a) (assignments-Writes false rest))

    sorts-Writes :
        (first : Bool) (xs : Sorts V)
        → Writes host (render_sorts host first xs) (sorts_template host first xs)
    sorts-Writes first no_sorts = skip-Writes host
    sorts-Writes first (sort_by x direction rest) =
        sequence host (write_if-Writes host (not first) (codes ", ")) (
          sequence host (render-Writes x) (
            sequence host (write-Writes host (direction_text (host.to_upper direction)))
              (sorts-Writes false rest)))

    with_where-Writes :
        (xs : Items V) → Writes host (visit_with_where host xs) (with_where_template host xs)
    with_where-Writes no_items = skip-Writes host
    with_where-Writes (item x xs) =
        sequence host (write-Writes host (codes "\nWHERE "))
          (sequence host (render-Writes x) (items-Writes false (codes " AND ") xs))

    on_create-Writes :
        (n : OptionalNode V) → Writes host (visit_on_create host n) (on_create_template host n)
    on_create-Writes no_node = skip-Writes host
    on_create-Writes (on_create n) =
        sequence host (write-Writes host (codes " ON CREATE ")) (visit-Writes n)

    updates-Writes :
        (first : Bool) (ns : Nodes V)
        → Writes host (visit_updates host first ns) (updates_template host first ns)
    updates-Writes first no_nodes = skip-Writes host
    updates-Writes first (and_node n ns) =
        sequence host (write_if-Writes host (not first) (codes " "))
          (sequence host (visit-Writes n) (updates-Writes false ns))

    body-Writes :
        (first : Bool) (ns : Nodes V)
        → WritesBefore (visit_body host first ns) (body_template host first ns)
    body-Writes first no_nodes = skip-WritesBefore
    body-Writes first (and_node n ns) =
        sequence_before (write-Writes host _)
          (sequence_before (visit-Writes n) (reset-WritesBefore (body-Writes false ns)))

    set-Writes : (xs : Assignments V) → Writes host (visit_set host xs) (set_template host xs)
    set-Writes no_assignments = skip-Writes host
    set-Writes (assignment a rest) =
        sequence host (write-Writes host (codes "SET "))
          (sequence host (assignment-Writes a) (assignments-Writes false rest))

    pub visit-Writes : (n : Node V) → Writes host (visit host n) (template host n)
    visit-Writes (literal_node v) = visit_literal-Writes host v
    visit-Writes (literal_data v) = visit_literal-Writes host v
    visit-Writes (optimized_literal v) = visit_literal-Writes host v
    visit-Writes (set_node xs) = set-Writes xs
    visit-Writes (remove_node rs) = remove-Writes host rs
    visit-Writes (return_node xs distinct) =
        sequence host (write-Writes host _)
          (sequence host (write_if-Writes host distinct _) (items-Writes true (codes ", ") xs))
    visit-Writes (with_node xs distinct conditions) = sequence host (write-Writes host _) (
        sequence host (write_if-Writes host distinct _)
          (sequence host (items-Writes true (codes ", ") xs) (with_where-Writes conditions)))
    visit-Writes (unwind_node x name) = sequence host (write-Writes host _) (
        sequence host (render-Writes x)
          (sequence host (write-Writes host _) (write-Writes host name)))
    visit-Writes (foreach_node v x updates) = sequence host (write-Writes host _) (
        sequence host (write-Writes host v) (
          sequence host (write-Writes host _) (
            sequence host (render-Writes x) (
              sequence host (write-Writes host _)
                (sequence host (updates-Writes true updates) (write-Writes host _))))))
    visit-Writes (where_node conditions) = where-Writes host conditions
    visit-Writes (skip_node x) = sequence host (write-Writes host _) (render-Writes x)
    visit-Writes (limit_node x) = sequence host (write-Writes host _) (render-Writes x)
    visit-Writes (skip_data x) = sequence host (write-Writes host _) (render-Writes x)
    visit-Writes (limit_data x) = sequence host (write-Writes host _) (render-Writes x)
    visit-Writes (order_by_node xs) = sequence host (write-Writes host _) (sorts-Writes true xs)
    visit-Writes (match_node x) = sequence host (write-Writes host _) (render-Writes x)
    visit-Writes (merge_node x created) =
        sequence host (write-Writes host _)
          (sequence host (render-Writes x) (on_create-Writes created))
    visit-Writes (procedure_call x yields) =
        sequence host (write-Writes host _)
          (sequence host (render-Writes x) (yield-Writes host yields))
    visit-Writes (call_subquery body) = in_braces-Writes (body-Writes true body)
    visit-Writes (delete_node xs detach) =
        sequence host (write-Writes host _) (items-Writes true (codes ", ") xs)
    visit-Writes (load_csv headers x name) = sequence host (write-Writes host _) (
        sequence host (write_if-Writes host headers _) (
          sequence host (write-Writes host _)
            (sequence host (render-Writes x) (as-Writes host name))))
    visit-Writes pattern_node = skip-Writes host

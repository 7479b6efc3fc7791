-- ===== src/Cypher/Visit.antt =====
-- src/cypher/compiler.go: the visitors of nodes, and Compile.
use gopher_cypher.Common.{
  none, some, Option, ℕ, List, [], ◌∷◌, ◌++◌, Bool, true, false, not, if◌then◌else◌,
}
use gopher_cypher.Common.Text.{codes}
use gopher_cypher.Cypher.Parameters.{Parameters, Host}
use gopher_cypher.Cypher.Tree.{
  Item, Items, Assignment, Assignments, Sorts, Node, OptionalNode, Nodes, expression, node, text,
  array, value, no_items, item, property_assignment, variable_properties, label_assignment,
  other_assignment, no_assignments, assignment, no_sorts, sort_by, literal_node, literal_data,
  optimized_literal, set_node, remove_node, return_node, with_node, unwind_node, foreach_node,
  where_node, skip_node, limit_node, skip_data, limit_data, order_by_node, match_node, merge_node,
  procedure_call, call_subquery, delete_node, load_csv, pattern_node, no_node, on_create, no_nodes,
  and_node,
}
use gopher_cypher.Cypher.Compile.{
  new_compiler, Compiler, Step, ◌>>◌, skip, write, write_if, set_first, direction_text,
  visit_literal, render_built, format_array, visit_where, write_yield, visit_remove,
}

-- ` AS ` and the name, unless it is empty.
unfoldable pub write_as {ℓ} : {V : Type ℓ} → List ℕ → Step V
write_as [] = skip
write_as (a ∷ name) = write (codes " AS ") >> write (a ∷ name)

-- VisitCallSubqueryNode around its loop: c.firstClause is put back at the end.
unfoldable pub in_braces {ℓ} : {V : Type ℓ} → Step V → Step V
unfolding ◌>>◌ set_first write
in_braces body c =
    (write (codes "CALL {")
        >> set_first true
        >> body
        >> write (codes " }")
        >> set_first c.first_clause)
      c

-- `if !c.firstClause`
unfoldable pub between_clauses {ℓ} : {V : Type ℓ} → Step V
unfolding write_if
between_clauses c = write_if (not c.first_clause) (codes "\n") c

-- `return c.output.String(), c.parameters`
abbrev pub returned {ℓ} : {V : Type ℓ} → Option (Compiler V) → Option (List ℕ × Parameters V)
returned none = none
returned (some c) = some (c.output, c.parameters)

module _ {ℓ} {V : Type ℓ} (host : Host V) where
  unfoldable mutual
    unfolding in_braces visit_literal render_built visit_remove visit_where write_yield

    -- renderExpression
    pub render : Item V → Step V
    render (expression e) = render_built host e
    render (node n) = visit n
    render (text s) = write s
    render (array xs) = write (format_array host xs)
    render (value v) = visit_literal host v

    pub render_items : Bool → List ℕ → Items V → Step V
    render_items first separator no_items = skip
    render_items first separator (item x xs) =
        write_if (not first) separator >> render x >> render_items false separator xs

    pub render_assignment : Assignment V → Step V
    render_assignment (property_assignment p x) = write p >> write (codes " = ") >> render x
    render_assignment (variable_properties v x merge) =
        write v >> write (if merge then codes " += " else codes " = ") >> render x
    render_assignment (label_assignment v l) = write (v ++ (codes ":" ++ l))
    render_assignment (other_assignment v) = write (host.sprint v)

    pub render_assignments : Bool → Assignments V → Step V
    render_assignments first no_assignments = skip
    render_assignments first (assignment a rest) =
        write_if (not first) (codes ", ") >> render_assignment a >> render_assignments false rest

    pub render_sorts : Bool → Sorts V → Step V
    render_sorts first no_sorts = skip
    render_sorts first (sort_by x direction rest) =
        write_if (not first) (codes ", ")
        >> render x
        >> write (direction_text (host.to_upper direction))
        >> render_sorts false rest

    -- The WHERE of a WITH.
    pub visit_with_where : Items V → Step V
    visit_with_where no_items = skip
    visit_with_where (item x xs) =
        write (codes "\nWHERE ") >> render x >> render_items false (codes " AND ") xs

    pub visit_on_create : OptionalNode V → Step V
    visit_on_create no_node = skip
    visit_on_create (on_create n) = write (codes " ON CREATE ") >> visit n

    -- The update clauses of FOREACH.
    pub visit_updates : Bool → Nodes V → Step V
    visit_updates first no_nodes = skip
    visit_updates first (and_node n ns) =
        write_if (not first) (codes " ") >> visit n >> visit_updates false ns

    -- The body of CALL { ... }
    pub visit_body : Bool → Nodes V → Step V
    visit_body first no_nodes = skip
    visit_body first (and_node n ns) =
        write (if first then codes " " else codes "\n")
        >> visit n
        >> set_first false
        >> visit_body false ns

    pub visit_set : Assignments V → Step V
    visit_set no_assignments = skip
    visit_set (assignment a rest) =
        write (codes "SET ") >> render_assignment a >> render_assignments false rest

    -- n.Accept(c), by the visitor for the type of n; a pattern node has none.
    pub visit : Node V → Step V
    visit (literal_node v) = visit_literal host v
    visit (literal_data v) = visit_literal host v
    visit (optimized_literal v) = visit_literal host v
    visit (set_node xs) = visit_set xs
    visit (remove_node rs) = visit_remove host rs
    visit (return_node xs distinct) =
        write (codes "RETURN ")
        >> write_if distinct (codes "DISTINCT ")
        >> render_items true (codes ", ") xs
    visit (with_node xs distinct conditions) =
        write (codes "WITH ")
        >> write_if distinct (codes "DISTINCT ")
        >> render_items true (codes ", ") xs
        >> visit_with_where conditions
    visit (unwind_node x name) =
        write (codes "UNWIND ") >> render x >> write (codes " AS ") >> write name
    visit (foreach_node v x updates) =
        write (codes "FOREACH (")
        >> write v
        >> write (codes " IN ")
        >> render x
        >> write (codes " | ")
        >> visit_updates true updates
        >> write (codes ")")
    visit (where_node conditions) = visit_where host conditions
    visit (skip_node x) = write (codes "SKIP ") >> render x
    visit (limit_node x) = write (codes "LIMIT ") >> render x
    visit (skip_data x) = write (codes "SKIP ") >> render x
    visit (limit_data x) = write (codes "LIMIT ") >> render x
    visit (order_by_node xs) = write (codes "ORDER BY ") >> render_sorts true xs
    visit (match_node x) = write (codes "MATCH ") >> render x
    visit (merge_node x created) = write (codes "MERGE ") >> render x >> visit_on_create created
    visit (procedure_call x yields) = write (codes "CALL ") >> render x >> write_yield yields
    visit (call_subquery body) = in_braces (visit_body true body)
    visit (delete_node xs detach) =
        write (if detach then codes "DETACH DELETE " else codes "DELETE ")
        >> render_items true (codes ", ") xs
    visit (load_csv headers x name) =
        write (codes "LOAD CSV ")
        >> write_if headers (codes "WITH HEADERS ")
        >> write (codes "FROM ")
        >> render x
        >> write_as name
    visit pattern_node = skip

  -- Compile(nodes...)
  unfoldable pub compile : List (Node V) → Step V
  unfolding between_clauses visit
  compile [] = skip
  compile (n ∷ ns) = between_clauses >> visit n >> set_first false >> compile ns

  -- NewCompiler().Compile(nodes...)
  unfoldable pub compile_query : List (Node V) → Option (List ℕ × Parameters V)
  unfolding compile
  compile_query ns = returned (compile ns new_compiler)

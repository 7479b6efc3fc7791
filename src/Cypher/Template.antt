-- ===== src/Cypher/Template.antt =====
-- What a tree of src/cypher writes, apart from the compiler: fixed words, and slots for values.
-- `emit` fills the slots of such a template from the left.
use gopher_cypher.Common.{ℕ, List, [], ◌∷◌, ◌++◌, Bool, true, false, not, if◌then◌else◌}
use gopher_cypher.Common.Text.{codes}
use gopher_cypher.Cypher.Parameters.{Host}
use gopher_cypher.Cypher.Tree.{
  Item, Items, Assignment, Assignments, Sorts, Node, OptionalNode, Nodes, expression, node, text,
  array, value, no_items, item, property_assignment, variable_properties, label_assignment,
  other_assignment, no_assignments, assignment, no_sorts, sort_by, literal_node, literal_data,
  optimized_literal, set_node, remove_node, return_node, with_node, unwind_node, foreach_node,
  where_node, skip_node, limit_node, skip_data, limit_data, order_by_node, match_node, merge_node,
  procedure_call, call_subquery, delete_node, load_csv, pattern_node, no_node, on_create, no_nodes,
  and_node, Expression, comparison, property_access, literal, function_call, alias, alias_value,
  math, raw,
}
use gopher_cypher.Cypher.Compile.{
  Step, ◌>>◌, skip, write, direction_text, visit_literal, format_array, removal_text,
}

pub data Fragment {ℓ} (V : Type ℓ) : Type ℓ where
  words : List ℕ → Fragment V
  slot : V → Fragment V

abbrev pub Template {ℓ} : Type ℓ → Type ℓ
Template V = List (Fragment V)

abbrev pub says {ℓ} : {V : Type ℓ} → List ℕ → Template V
says s = words s ∷ []

abbrev pub says_if {ℓ} : {V : Type ℓ} → Bool → List ℕ → Template V
says_if true s = says s
says_if false s = []

abbrev pub asks {ℓ} : {V : Type ℓ} → V → Template V
asks v = slot v ∷ []

-- A list that is written with a separator: each part after the first has it before it.
abbrev pub separated {ℓ κ} :
    {V : Type ℓ} {A : Type κ} → (A → Template V) → List ℕ → Bool → List A → Template V
separated f separator first [] = []
separated f separator first (x ∷ xs) =
    says_if (not first) separator ++ (f x ++ separated f separator false xs)

abbrev pub yields_template {ℓ} : {V : Type ℓ} → List (List ℕ) → Template V
yields_template [] = []
yields_template (y ∷ ys) = says (codes " YIELD ") ++ separated says (codes ", ") true (y ∷ ys)

abbrev pub as_template {ℓ} : {V : Type ℓ} → List ℕ → Template V
as_template [] = []
as_template (a ∷ name) = says (codes " AS ") ++ says (a ∷ name)

unfoldable pub expression_template {ℓ} : {V : Type ℓ} → Expression V → Template V
expression_template (comparison lhs op rhs) =
    expression_template lhs
    ++ (says (codes " ") ++ (says op ++ (says (codes " ") ++ expression_template rhs)))
expression_template (property_access e name) =
    expression_template e ++ (says (codes ".") ++ says name)
expression_template (literal v) = asks v
expression_template (function_call name vs) =
    says name ++ (says (codes "(") ++ (separated asks (codes ", ") true vs ++ says (codes ")")))
expression_template (alias e name) = expression_template e ++ (says (codes " AS ") ++ says name)
expression_template (alias_value v name) = asks v ++ (says (codes " AS ") ++ says name)
expression_template (math left op right) =
    asks left ++ (says (codes " ") ++ (says op ++ (says (codes " ") ++ asks right)))
expression_template (raw s) = says s

abbrev pub where_template {ℓ} : {V : Type ℓ} → List (Expression V) → Template V
where_template [] = []
where_template (e ∷ es) =
    says (codes "WHERE ") ++ separated expression_template (codes " AND ") true (e ∷ es)

module _ {ℓ} {V : Type ℓ} (host : Host V) where
  unfoldable pub emit : Template V → Step V
  emit [] = skip
  emit (words s ∷ fs) = write s >> emit fs
  emit (slot v ∷ fs) = visit_literal host v >> emit fs

  unfoldable mutual
    unfolding expression_template

    pub item_template : Item V → Template V
    item_template (expression e) = expression_template e
    item_template (node n) = template n
    item_template (text s) = says s
    item_template (array xs) = says (format_array host xs)
    item_template (value v) = asks v

    pub items_template : Bool → List ℕ → Items V → Template V
    items_template first separator no_items = []
    items_template first separator (item x xs) =
        says_if (not first) separator ++ (item_template x ++ items_template false separator xs)

    pub assignment_template : Assignment V → Template V
    assignment_template (property_assignment p x) =
        says p ++ (says (codes " = ") ++ item_template x)
    assignment_template (variable_properties v x merge) =
        says v ++ (says (if merge then codes " += " else codes " = ") ++ item_template x)
    assignment_template (label_assignment v l) = says (v ++ (codes ":" ++ l))
    assignment_template (other_assignment v) = says (host.sprint v)

    pub assignments_template : Bool → Assignments V → Template V
    assignments_template first no_assignments = []
    assignments_template first (assignment a rest) =
        says_if (not first) (codes ", ")
        ++ (assignment_template a ++ assignments_template false rest)

    pub sorts_template : Bool → Sorts V → Template V
    sorts_template first no_sorts = []
    sorts_template first (sort_by x direction rest) =
        says_if (not first) (codes ", ")
        ++ (item_template x
            ++ (says (direction_text (host.to_upper direction)) ++ sorts_template false rest))

    pub with_where_template : Items V → Template V
    with_where_template no_items = []
    with_where_template (item x xs) =
        says (codes "\nWHERE ") ++ (item_template x ++ items_template false (codes " AND ") xs)

    pub on_create_template : OptionalNode V → Template V
    on_create_template no_node = []
    on_create_template (on_create n) = says (codes " ON CREATE ") ++ template n

    pub updates_template : Bool → Nodes V → Template V
    updates_template first no_nodes = []
    updates_template first (and_node n ns) =
        says_if (not first) (codes " ") ++ (template n ++ updates_template false ns)

    pub body_template : Bool → Nodes V → Template V
    body_template first no_nodes = []
    body_template first (and_node n ns) =
        says (if first then codes " " else codes "\n") ++ (template n ++ body_template false ns)

    pub set_template : Assignments V → Template V
    set_template no_assignments = []
    set_template (assignment a rest) =
        says (codes "SET ") ++ (assignment_template a ++ assignments_template false rest)

    pub template : Node V → Template V
    template (literal_node v) = asks v
    template (literal_data v) = asks v
    template (optimized_literal v) = asks v
    template (set_node xs) = set_template xs
    template (remove_node rs) =
        says (codes "REMOVE ") ++ separated (λ r. says (removal_text host r)) (codes ", ") true rs
    template (return_node xs distinct) =
        says (codes "RETURN ")
        ++ (says_if distinct (codes "DISTINCT ") ++ items_template true (codes ", ") xs)
    template (with_node xs distinct conditions) =
        says (codes "WITH ")
        ++ (says_if distinct (codes "DISTINCT ")
            ++ (items_template true (codes ", ") xs ++ with_where_template conditions))
    template (unwind_node x name) =
        says (codes "UNWIND ") ++ (item_template x ++ (says (codes " AS ") ++ says name))
    template (foreach_node v x updates) =
        says (codes "FOREACH (")
        ++ (says v
            ++ (says (codes " IN ")
                ++ (item_template x
                    ++ (says (codes " | ")
                        ++ (updates_template true updates ++ says (codes ")"))))))
    template (where_node conditions) = where_template conditions
    template (skip_node x) = says (codes "SKIP ") ++ item_template x
    template (limit_node x) = says (codes "LIMIT ") ++ item_template x
    template (skip_data x) = says (codes "SKIP ") ++ item_template x
    template (limit_data x) = says (codes "LIMIT ") ++ item_template x
    template (order_by_node xs) = says (codes "ORDER BY ") ++ sorts_template true xs
    template (match_node x) = says (codes "MATCH ") ++ item_template x
    template (merge_node x created) =
        says (codes "MERGE ") ++ (item_template x ++ on_create_template created)
    template (procedure_call x yields) =
        says (codes "CALL ") ++ (item_template x ++ yields_template yields)
    template (call_subquery body) =
        says (codes "CALL {") ++ (body_template true body ++ says (codes " }"))
    template (delete_node xs detach) =
        says (if detach then codes "DETACH DELETE " else codes "DELETE ")
        ++ items_template true (codes ", ") xs
    template (load_csv headers x name) =
        says (codes "LOAD CSV ")
        ++ (says_if headers (codes "WITH HEADERS ")
            ++ (says (codes "FROM ") ++ (item_template x ++ as_template name)))
    template pattern_node = []

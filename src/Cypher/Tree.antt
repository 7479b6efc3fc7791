-- ===== src/Cypher/Tree.antt =====
-- The tree of a query: the node types of src/cypher/*_node.go and src/optimized, the expressions
-- of src/cypher/expression.go, and what stands in a field of type interface{}.
use gopher_cypher.Common.{ℕ, Bool, List}

module _ {ℓ} (V : Type ℓ) where
  -- src/cypher/expression.go. `raw` is an implementation by a caller that writes a fixed text.
  pub data Expression : Type ℓ where
    comparison : Expression → List ℕ → Expression → Expression
    property_access : Expression → List ℕ → Expression
    literal : V → Expression
    function_call : List ℕ → List V → Expression
    alias : Expression → List ℕ → Expression
    alias_value : V → List ℕ → Expression
    math : V → List ℕ → V → Expression
    raw : List ℕ → Expression

  -- []interface{} as formatArrayLiteral reads it.
  mutual
    pub data Element : Type ℓ where
      quoted : List ℕ → Element
      nested : Elements → Element
      printed : V → Element

    pub data Elements : Type ℓ where
      no_elements : Elements
      element : Element → Elements → Elements

  -- RemoveItem
  pub data Removal : Type ℓ where
    property_removal : List ℕ → Removal
    label_removal : List ℕ → List ℕ → Removal
    text_removal : List ℕ → Removal
    other_removal : V → Removal

  mutual
    -- A value of type interface{} by the cases of renderExpression.
    pub data Item : Type ℓ where
      expression : Expression → Item
      node : Node → Item
      text : List ℕ → Item
      array : Elements → Item
      value : V → Item

    pub data Items : Type ℓ where
      no_items : Items
      item : Item → Items → Items

    -- SetAssignment
    pub data Assignment : Type ℓ where
      property_assignment : List ℕ → Item → Assignment
      variable_properties : List ℕ → Item → Bool → Assignment
      label_assignment : List ℕ → List ℕ → Assignment
      other_assignment : V → Assignment

    pub data Assignments : Type ℓ where
      no_assignments : Assignments
      assignment : Assignment → Assignments → Assignments

    -- []OrderByItem: an expression and a direction each.
    pub data Sorts : Type ℓ where
      no_sorts : Sorts
      sort_by : Item → List ℕ → Sorts → Sorts

    -- `pattern_node` is the one type whose visitor no compiler has.
    pub data Node : Type ℓ where
      literal_node : V → Node
      literal_data : V → Node
      optimized_literal : V → Node
      set_node : Assignments → Node
      remove_node : List Removal → Node
      return_node : Items → Bool → Node
      with_node : Items → Bool → Items → Node
      unwind_node : Item → List ℕ → Node
      foreach_node : List ℕ → Item → Nodes → Node
      where_node : List Expression → Node
      skip_node : Item → Node
      limit_node : Item → Node
      skip_data : Item → Node
      limit_data : Item → Node
      order_by_node : Sorts → Node
      match_node : Item → Node
      merge_node : Item → OptionalNode → Node
      procedure_call : Item → List (List ℕ) → Node
      call_subquery : Nodes → Node
      delete_node : Items → Bool → Node
      load_csv : Bool → Item → List ℕ → Node
      pattern_node : Node

    -- A field that may be nil.
    pub data OptionalNode : Type ℓ where
      no_node : OptionalNode
      on_create : Node → OptionalNode

    pub data Nodes : Type ℓ where
      no_nodes : Nodes
      and_node : Node → Nodes → Nodes

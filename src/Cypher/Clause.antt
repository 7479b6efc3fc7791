-- ===== src/Cypher/Clause.antt =====
-- src/cypher/clause.go and src/cypher/clause_adapter.go: the clauses of a query and their order.
use gopher_cypher.Common.{ℕ, List, ◌++◌}
use gopher_cypher.Common.Text.{codes}
use gopher_cypher.Cypher.Parameters.{decimal}
use gopher_cypher.Cypher.Tree.{
  Node, literal_node, literal_data, optimized_literal, set_node, remove_node, return_node,
  with_node, unwind_node, foreach_node, where_node, skip_node, limit_node, skip_data, limit_data,
  order_by_node, match_node, merge_node, procedure_call, call_subquery, delete_node, load_csv,
  pattern_node,
}
use gopher_cypher.Cypher.Template.{Template}

pub data ClauseType : Type 0 where
  unknown_clause call_clause delete_clause foreach_clause load_csv_clause : ClauseType
  match_clause merge_clause remove_clause return_clause set_clause : ClauseType
  order_by_clause skip_clause limit_clause unwind_clause where_clause with_clause : ClauseType

-- ClauseOrder, on the type of the clause
unfoldable pub type_order : ClauseType → ℕ
type_order match_clause = 5
type_order merge_clause = 6
type_order unwind_clause = 7
type_order where_clause = 11
type_order set_clause = 20
type_order remove_clause = 21
type_order return_clause = 37
type_order order_by_clause = 41
type_order skip_clause = 43
type_order limit_clause = 47
type_order call_clause = 1
type_order delete_clause = 25
type_order with_clause = 30
type_order unknown_clause = 99
type_order foreach_clause = 99
type_order load_csv_clause = 99

-- A ClauseAdapter with the address of its node, or an implementation of Clause outside the package,
-- which writes fixed words and registers values.
pub data Clause {ℓ} (V : Type ℓ) : Type ℓ where
  adapter : ℕ → Node V → Clause V
  custom : ClauseType → Template V → Clause V

-- ClauseAdapter.Type
unfoldable pub node_clause_type {ℓ} : {V : Type ℓ} → Node V → ClauseType
node_clause_type (match_node _) = match_clause
node_clause_type (merge_node _ _) = merge_clause
node_clause_type (unwind_node _ _) = unwind_clause
node_clause_type (where_node _) = where_clause
node_clause_type (set_node _) = set_clause
node_clause_type (remove_node _) = remove_clause
node_clause_type (return_node _ _) = return_clause
node_clause_type (with_node _ _ _) = with_clause
node_clause_type (order_by_node _) = order_by_clause
node_clause_type (procedure_call _ _) = call_clause
node_clause_type (call_subquery _) = call_clause
node_clause_type (delete_node _ _) = delete_clause
node_clause_type (foreach_node _ _ _) = foreach_clause
node_clause_type (load_csv _ _ _) = load_csv_clause
node_clause_type (skip_node _) = skip_clause
node_clause_type (limit_node _) = limit_clause
node_clause_type _ = unknown_clause

unfoldable pub clause_order {ℓ} : {V : Type ℓ} → Clause V → ℕ
unfolding type_order node_clause_type
clause_order (adapter key n) = type_order (node_clause_type n)
clause_order (custom t fs) = type_order t

-- The verb %T
type_name {ℓ} : {V : Type ℓ} → Node V → List ℕ
type_name (literal_node _) = codes "*cypher.LiteralNode"
type_name (literal_data _) = codes "*cypher.LiteralData"
type_name (optimized_literal _) = codes "*optimized.LiteralData"
type_name (set_node _) = codes "*cypher.SetNode"
type_name (remove_node _) = codes "*cypher.RemoveNode"
type_name (return_node _ _) = codes "*cypher.ReturnNode"
type_name (with_node _ _ _) = codes "*cypher.WithNode"
type_name (unwind_node _ _) = codes "*cypher.UnwindNode"
type_name (foreach_node _ _ _) = codes "*cypher.ForeachNode"
type_name (where_node _) = codes "*cypher.WhereNode"
type_name (skip_node _) = codes "*cypher.SkipNode"
type_name (limit_node _) = codes "*cypher.LimitNode"
type_name (skip_data _) = codes "*optimized.SkipData"
type_name (limit_data _) = codes "*optimized.LimitData"
type_name (order_by_node _) = codes "*cypher.OrderByNode"
type_name (match_node _) = codes "*cypher.MatchNode"
type_name (merge_node _ _) = codes "*cypher.MergeNode"
type_name (procedure_call _ _) = codes "*cypher.ProcedureCallNode"
type_name (call_subquery _) = codes "*cypher.CallSubqueryNode"
type_name (delete_node _ _) = codes "*cypher.DeleteNode"
type_name (load_csv _ _ _) = codes "*cypher.LoadCSVNode"
type_name pattern_node = codes "*cypher.PatternNode"

-- fmt.Sprintf("%d:%T", c.key, c.Node)
unfoldable pub cache_key {ℓ} : {V : Type ℓ} → ℕ → Node V → List ℕ
unfolding type_name
cache_key key n = decimal key ++ (codes ":" ++ type_name n)

-- ===== src/Cypher/Samples.antt =====
-- Sample values for the runs of the query compiler.
use gopher_cypher.Cypher.Renders.{NeverPanics}
use gopher_cypher.Common.{ℕ, false, some, refl, ◌==◌}
use gopher_cypher.Common.Text.{codes}
use gopher_cypher.Cypher.Parameters.{Host, decimal}
use gopher_cypher.Cypher.Tree.{
  no_items, literal, expression, value, text, item, match_node, return_node, Node,
}

-- Numbers as the values.
unfoldable pub numbers : Host ℕ
numbers = record {
  equal = λ v w. some (v == w);
  sprint = decimal;
  visit = λ m. m;
  to_upper = λ s. s;
}

-- MATCH (n) and RETURN 7, 7, 8
abbrev pub match_all : Node ℕ
match_all = match_node (text (codes "(n)"))

abbrev pub three : Node ℕ
three = return_node (item (value 7) (item (expression (literal 7)) (item (value 8) no_items))) false

pub numbers-NeverPanics : NeverPanics numbers
unfolding numbers
numbers-NeverPanics = record { answers = λ v w. (v == w, refl) }

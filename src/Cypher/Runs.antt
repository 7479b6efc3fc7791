-- ===== src/Cypher/Runs.antt =====
-- Concrete runs of the query compiler.
use gopher_cypher.Cypher.Samples.{numbers, match_all, three, numbers-NeverPanics}
use gopher_cypher.Cypher.Template.{template}
use gopher_cypher.Cypher.Minimal.{compile-AreDifferent}
use gopher_cypher.Cypher.Numbered.{here, there, IsNumbered}
use gopher_cypher.Cypher.Renders.{Renders}
use gopher_cypher.Cypher.Shares.{nowhere, AreDifferent, VisitsAll, register_shares, IsEquality}
use gopher_cypher.Cypher.Blind.{on_fragment, compile_query_blind, Respects, on_returned, IsPlain}
use mathlib.Core.Path.{subst}
use gopher_cypher.Cypher.Numbered.{In}
use gopher_cypher.Cypher.Compiled.{compile_query-Renders, query_template}
use gopher_cypher.Cypher.Strings.{read_string-format_element, read_string}
use gopher_cypher.Cypher.Registers.{VisitsEntries}
use gopher_cypher.Cache.Table.{put}
use gopher_cypher.Common.{
  str_eq, ℕ, suc, List, [], ◌∷◌, ◌++◌, true, false, some, ◌≡◌, refl, ap, arith, ◌==◌, map,
}
use gopher_cypher.Common.Text.{codes}
use gopher_cypher.Cypher.Parameters.{Host, Parameters, no_parameters, register}
use gopher_cypher.Cypher.Tree.{
  quoted, no_items, literal, expression, value, item, return_node, Node,
}
use gopher_cypher.Cypher.Compile.{format_element, skip, Compiler, new_compiler}
use mathlib.Core.Option.{some-injective}
use gopher_cypher.Cypher.Visit.{compile, compile_query}

abbrev two_entries : Parameters ℕ
two_entries = record { entries = (codes "p1", 7) ∷ (codes "p2", 8) ∷ []; counter = 2 }

abbrev two_clauses : Compiler ℕ
two_clauses = record {
  output = codes "MATCH (n)\nRETURN $p1, $p1, $p2";
  parameters = two_entries;
  first_clause = false;
}

compile-three : compile numbers (match_all ∷ three ∷ []) new_compiler ≡ some two_clauses
unfolding numbers compile register put skip str_eq
compile-three = refl

numbers-VisitsEntries : VisitsEntries numbers
unfolding numbers
numbers-VisitsEntries = record { visited = λ k v m i. i }

numbers-VisitsAll : VisitsAll numbers
unfolding numbers
numbers-VisitsAll = record { reached = λ k v m i. i }

same_number : (v w : ℕ) → some (v == w) ≡ some true → v ≡ w
same_number v w h = let e : (v == w) ≡ true = some-injective (v == w) true h in ground arith

equal_itself : (v : ℕ) → some (v == v) ≡ some true
equal_itself v = ap some (ground arith)

numbers-IsEquality : IsEquality numbers
unfolding numbers
numbers-IsEquality = record {
  turned = λ v w h. rw (same_number v w h) (equal_itself w);
  chained = λ u v w h k. rw (same_number u v h) k;
}

none_yet : IsNumbered {V = ℕ} no_parameters
unfolding IsNumbered
none_yet = refl

none-AreDifferent : AreDifferent numbers []
none-AreDifferent = record { one_key = λ j k v w i h e. absurd (nowhere j v [] i refl) }

compile-AreDifferent_example : AreDifferent numbers two_entries.entries
compile-AreDifferent_example =
    compile-AreDifferent numbers numbers-NeverPanics numbers-VisitsEntries numbers-VisitsAll
      numbers-IsEquality (match_all ∷ three ∷ []) new_compiler two_clauses none_yet
      none-AreDifferent compile-three

compile_query-Renders_example :
    (s : List ℕ) × (p : Parameters ℕ) × (compile_query numbers (match_all ∷ three ∷ [])
      ≡ some (s, p))
    × IsNumbered p
    × Renders numbers p (query_template numbers true (match_all ∷ three ∷ [])) s
compile_query-Renders_example =
    compile_query-Renders numbers numbers-VisitsEntries numbers-NeverPanics (match_all ∷ three ∷ [])

equal_itself_here : numbers.equal 8 8 ≡ some true
unfolding numbers
equal_itself_here = refl

register_shares_example : register numbers 8 two_entries ≡ some (codes "p2", two_entries)
register_shares_example =
    register_shares numbers numbers-NeverPanics numbers-VisitsEntries numbers-VisitsAll
      numbers-IsEquality 8 8 (codes "p2") two_entries compile-AreDifferent_example
      (there _ _ (here _)) (equal_itself_here)

-- The same with each number one larger.
abbrev larger : Node ℕ
larger =
    return_node (item (value 8) (item (expression (literal 8)) (item (value 9) no_items))) false

larger-equal : (v w : ℕ) → (suc v == suc w) ≡ (v == w)
larger-equal v w = ground arith

-- The same numbers, with maps that are visited in another order.
swapped : List (List ℕ × ℕ) → List (List ℕ × ℕ)
swapped [] = []
swapped (a ∷ []) = a ∷ []
swapped (a ∷ b ∷ m) = b ∷ a ∷ m

swapped_twice : (m : List (List ℕ × ℕ)) → swapped (swapped m) ≡ m
unfolding swapped
swapped_twice [] = refl
swapped_twice (a ∷ []) = refl
swapped_twice (a ∷ b ∷ m) = refl

In-swapped : (k : List ℕ) (v : ℕ) (m : List (List ℕ × ℕ)) → In k v m → In k v (swapped m)
unfolding swapped
In-swapped k v _ (here []) = here []
In-swapped k v _ (here (b ∷ m)) = there b ((k, v) ∷ m) (here m)
In-swapped k v _ (there a [] i) = there a [] i
In-swapped k v _ (there a _ (here m)) = here (a ∷ m)
In-swapped k v _ (there a _ (there b m i)) = there b (a ∷ m) (there a m i)

other_numbers : Host ℕ
unfolding numbers
other_numbers = record numbers { visit = λ m. swapped m }

larger-Respects : Respects (λ n. suc n) numbers other_numbers
unfolding numbers other_numbers
larger-Respects = record { equal_kept = λ v w. ap some (larger-equal v w) }

numbers-IsPlain : IsPlain numbers
numbers-IsPlain = record {
  calm = numbers-NeverPanics;
  visits = numbers-VisitsEntries;
  all = numbers-VisitsAll;
  equality = numbers-IsEquality;
}

other-IsPlain : IsPlain other_numbers
unfolding other_numbers numbers
other-IsPlain = record {
  calm = record { answers = λ v w. (v == w, refl) };
  visits = record {
    visited = λ k v m i. subst (In k v) (swapped_twice m) (In-swapped k v (swapped m) i);
  };
  all = record { reached = λ k v m i. In-swapped k v m i };
  equality = record { turned = numbers-IsEquality.turned; chained = numbers-IsEquality.chained };
}

same_template :
    query_template other_numbers true (match_all ∷ larger ∷ [])
    ≡ map (on_fragment (λ n. suc n)) (query_template numbers true (match_all ∷ three ∷ []))
unfolding query_template template other_numbers
same_template = refl

compile_query_blind_example :
    compile_query other_numbers (match_all ∷ larger ∷ [])
    ≡ on_returned (λ n. suc n) (compile_query numbers (match_all ∷ three ∷ []))
compile_query_blind_example =
    compile_query_blind (λ n. suc n) numbers other_numbers larger-Respects numbers-IsPlain
      other-IsPlain (match_all ∷ larger ∷ []) (match_all ∷ three ∷ []) same_template

read_string-format_element_example :
    read_string (format_element numbers (quoted (codes "say \"hi\\\"")) ++ codes ", 2]")
    ≡ some (codes "say \"hi\\\"", codes ", 2]")
read_string-format_element_example =
    read_string-format_element numbers (codes "say \"hi\\\"") (codes ", 2]")

-- ===== src/Cypher/QueryRuns.antt =====
-- Concrete runs of queries.
use gopher_cypher.Cypher.Samples.{numbers, match_all, three, numbers-NeverPanics}
use gopher_cypher.Cypher.Stale.{build_adapter_stale}
use gopher_cypher.Cache.Fifo.{fetch}
use gopher_cypher.Cypher.Template.{slot, words}
use gopher_cypher.Cypher.Locked.{asks_slot, build_cypher_parameters}
use gopher_cypher.Cypher.Clause.{where_clause, custom, adapter, Clause, cache_key}
use gopher_cypher.Cypher.Deadlock.{build_cypher_deadlocks, asks_any}
use gopher_cypher.Cypher.Query.{
  deadlocks, returns, sort_clauses, Query, build_cypher, TextCache, build_adapter,
}
use gopher_cypher.Cache.Table.{lookup, put}
use gopher_cypher.Common.{str_eq, ℕ, List, [], ◌∷◌, true, false, ◌≡◌, refl}
use gopher_cypher.Common.Text.{codes}
use gopher_cypher.Cypher.Parameters.{no_parameters, register}
use gopher_cypher.Cypher.Tree.{no_items, return_node, Node}
use gopher_cypher.Cypher.Compile.{skip}
use gopher_cypher.Cypher.Visit.{compile, compile_query}

abbrev out_of_order : List (Clause ℕ)
out_of_order =
    adapter 1 three
    ∷ adapter 2 match_all
    ∷ custom where_clause (words (codes "WHERE true") ∷ [])
    ∷ []

abbrev returning : Query ℕ
returning = record { locked = false; parameters = no_parameters; clauses = adapter 1 three ∷ [] }

abbrev empty_cache : TextCache
empty_cache = record { cache = []; order = []; max_size = 1000 }

abbrev cached_name : List ℕ
cached_name = codes "1:*cypher.ReturnNode"

abbrev kept_three : TextCache
kept_three = record {
  cache = (cached_name, codes "RETURN $p1, $p1, $p2") ∷ [];
  order = cached_name ∷ [];
  max_size = 1000;
}

-- The text has three placeholders, and the parameters of the query are empty.
build_cypher-returning :
    build_cypher numbers returning empty_cache
    ≡ returns ((codes "RETURN $p1, $p1, $p2", no_parameters), returning, kept_three)
unfolding numbers build_cypher compile_query compile register put skip str_eq fetch cache_key lookup
build_cypher-returning = refl

abbrev unsorted : Query ℕ
unsorted = record { locked = false; parameters = no_parameters; clauses = out_of_order }

abbrev sorted : Query ℕ
sorted = record unsorted {
  clauses =
      adapter 2 match_all
      ∷ custom where_clause (words (codes "WHERE true") ∷ [])
      ∷ adapter 1 three
      ∷ [];
}

abbrev match_name : List ℕ
match_name = codes "2:*cypher.MatchNode"

abbrev kept_both : TextCache
kept_both = record {
  cache = (match_name, codes "MATCH (n)") ∷ (cached_name, codes "RETURN $p1, $p1, $p2") ∷ [];
  order = match_name ∷ cached_name ∷ [];
  max_size = 1000;
}

build_cypher_parameters_example :
    (no_parameters ≡ returning.parameters)
    × (returning ≡ record {
      locked = false;
      parameters = returning.parameters;
      clauses = sort_clauses returning.clauses;
    })
build_cypher_parameters_example =
    build_cypher_parameters numbers returning returning empty_cache kept_three
      (codes "RETURN $p1, $p1, $p2") no_parameters build_cypher-returning

abbrev asking : Query ℕ
asking = record {
  locked = false;
  parameters = no_parameters;
  clauses = adapter 2 match_all ∷ custom where_clause (slot 3 ∷ []) ∷ [];
}

asking_asks : asks_any asking.clauses ≡ true
unfolding asks_any asks_slot
asking_asks = refl

build_cypher_deadlocks_example : build_cypher numbers asking empty_cache ≡ deadlocks
build_cypher_deadlocks_example =
    build_cypher_deadlocks numbers numbers-NeverPanics asking empty_cache asking_asks

build_adapter-three :
    build_adapter numbers 1 three empty_cache ≡ returns (codes "RETURN $p1, $p1, $p2", kept_three)
unfolding numbers build_adapter compile_query compile register put skip str_eq fetch cache_key
    lookup
build_adapter-three = refl

abbrev other_return : Node ℕ
other_return = return_node no_items true

same_key : cache_key 1 other_return ≡ cache_key 1 three
unfolding cache_key
same_key = refl

-- Another RETURN at the same address.
build_adapter_stale_example :
    build_adapter numbers 1 other_return kept_three
    ≡ returns (codes "RETURN $p1, $p1, $p2", kept_three)
build_adapter_stale_example =
    build_adapter_stale numbers 1 three other_return (codes "RETURN $p1, $p1, $p2") empty_cache
      kept_three same_key build_adapter-three

-- ===== src/Cypher/Order.antt =====
-- The order in which BuildCypher of src/cypher/query.go writes the clauses.
use gopher_cypher.Cypher.Parameters.{Parameters, Host}
use gopher_cypher.Cypher.Place.{clause_place}
use gopher_cypher.Cypher.Query.{returns, Query, TextCache, build_clauses}
use gopher_cypher.Common.{true, ℕ, ◌≤◌, List, [], ◌∷◌, ◌≡◌, ◌==◌, if◌then◌else◌, All}
use gopher_cypher.Cypher.Clause.{Clause}

module _ {ℓ} {V : Type ℓ} where
  -- No clause comes before one of an earlier place.
  abbrev pub Ordered : List (Clause V) → Type 0
  Ordered [] = Unit
  Ordered (c ∷ cs) = All (λ d. clause_place c ≤ clause_place d) cs × Ordered cs

  -- The clauses of one place, in their sequence.
  unfoldable pub of_place : ℕ → List (Clause V) → List (Clause V)
  of_place n [] = []
  of_place n (c ∷ cs) = let rest = of_place n cs in if clause_place c == n then c ∷ rest else rest

module _ {ℓ} {V : Type ℓ} (host : Host V) where
  -- The clauses of the query after a BuildCypher are in order, and the text is what they write one
  -- after the other in this order.
  pub record IsWritten (added : List (Clause V)) (cache : TextCache) (s : List ℕ) (q' : Query V)
      (cache' : TextCache) : Type ℓ where
    pub in_order : Ordered q'.clauses
    pub same_clauses : (n : ℕ) → of_place n q'.clauses ≡ of_place n added
    pub one_by_one :
        build_clauses host true q'.clauses (record q' { locked = true }) cache
        ≡ returns (s, record q' { locked = true }, cache')

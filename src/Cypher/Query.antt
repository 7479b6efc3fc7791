-- ===== src/Cypher/Query.antt =====
-- src/cypher/query.go, and BuildCypher of src/cypher/clause_adapter.go.
use gopher_cypher.Common.{
  ℕ, List, [], ◌∷◌, ◌++◌, Bool, true, false, Option, none, some, leb, if◌then◌else◌, str_eq,
}
use gopher_cypher.Common.Text.{codes}
use gopher_cypher.Cache.Table.{lookup}
use gopher_cypher.Cache.Fifo.{FifoCache, fetch}
use gopher_cypher.Cypher.Parameters.{Host, Parameters, no_parameters, register}
use gopher_cypher.Cypher.Tree.{Node}
use gopher_cypher.Cypher.Template.{Template, words, slot}
use gopher_cypher.Cypher.Visit.{compile_query}
use gopher_cypher.Cypher.Clause.{Clause, adapter, custom, clause_order, cache_key}

-- How a call ends: it returns, panics, or waits for a lock that its own goroutine holds.
pub data Run {ℓ} (A : Type ℓ) : Type ℓ where
  returns : A → Run A
  panics deadlocks : Run A

abbrev pub and_run {ℓ κ} : {A : Type ℓ} {B : Type κ} → Run A → (A → Run B) → Run B
and_run (returns a) f = f a
and_run panics f = panics
and_run deadlocks f = deadlocks

abbrev pub or_panics {ℓ} : {A : Type ℓ} → Option A → Run A
or_panics none = panics
or_panics (some a) = returns a

-- `locked` is q.mu.
pub record Query {ℓ} (V : Type ℓ) : Type ℓ where
  pub locked : Bool
  pub parameters : Parameters V
  pub clauses : List (Clause V)

abbrev pub new_query {ℓ} : {V : Type ℓ} → Query V
new_query = record { locked = false; parameters = no_parameters; clauses = [] }

-- simpleCache
abbrev pub TextCache : Type 0
TextCache = FifoCache (List ℕ) (List ℕ)

-- sort.SliceStable by ClauseOrder
unfoldable pub insert_clause {ℓ} : {V : Type ℓ} → Clause V → List (Clause V) → List (Clause V)
insert_clause c [] = c ∷ []
insert_clause c (d ∷ ds) =
    let later = insert_clause c ds in
    if leb (clause_order c) (clause_order d) then c ∷ d ∷ ds else d ∷ later

unfoldable pub sort_clauses {ℓ} : {V : Type ℓ} → List (Clause V) → List (Clause V)
unfolding insert_clause
sort_clauses [] = []
sort_clauses (c ∷ cs) = insert_clause c (sort_clauses cs)

-- q.mu.Lock() and the deferred q.mu.Unlock() around a body.
abbrev pub under_lock {ℓ κ} :
    {V : Type ℓ} {A : Type κ} → (Query V → Run (A × Query V)) → Query V → Run (A × Query V)
under_lock body q =
    if q.locked
    then deadlocks
    else and_run (body (record q { locked = true }))
        λ r. returns (r.0, record r.1 { locked = false })

unfoldable pub add_clause {ℓ} : {V : Type ℓ} → Clause V → Query V → Run (Unit {0} × Query V)
add_clause c = under_lock λ q. returns (tt, record q { clauses = q.clauses ++ (c ∷ []) })

module _ {ℓ} {V : Type ℓ} (host : Host V) where
  unfoldable pub register_parameter : V → Query V → Run (List ℕ × Query V)
  register_parameter v = under_lock λ q.
      and_run (or_panics (register host v q.parameters))
        λ r. returns (r.0, record q { parameters = r.1 })

  -- The BuildCypher of a clause from outside: its words, and a registration for each slot.
  unfoldable pub build_custom : Template V → Query V → Run (List ℕ × Query V)
  unfolding register_parameter
  build_custom [] q = returns ([], q)
  build_custom (words s ∷ fs) q = and_run (build_custom fs q) λ r. returns (s ++ r.0, r.1)
  build_custom (slot v ∷ fs) q =
      and_run (register_parameter v q)
        λ k. and_run (build_custom fs k.1) λ r. returns ((b'$' ∷ k.0) ++ r.0, r.1)

  -- simpleCache.Fetch, with what the function argument returns if it is called, or its panic.
  unfoldable pub fetch_text :
      Option (List ℕ × Parameters V) → List ℕ → TextCache → Run (List ℕ × TextCache)
  fetch_text (some (s, p)) key cache =
      let r = fetch str_eq key s cache in returns (r.value, r.after)
  fetch_text none key cache =
      and_run (or_panics (lookup str_eq key cache.cache)) λ s. returns (s, cache)

  unfoldable pub build_adapter : ℕ → Node V → TextCache → Run (List ℕ × TextCache)
  unfolding fetch_text
  build_adapter key n cache = fetch_text (compile_query host (n ∷ [])) (cache_key key n) cache

  -- c.BuildCypher(q)
  unfoldable pub build_clause : Clause V → Query V → TextCache → Run (List ℕ × Query V × TextCache)
  unfolding build_adapter build_custom
  build_clause (adapter key n) q cache =
      and_run (build_adapter key n cache) λ r. returns (r.0, q, r.1)
  build_clause (custom t fs) q cache = and_run (build_custom fs q) λ r. returns (r.0, r.1, cache)

  -- The loop of BuildCypher.
  unfoldable pub build_clauses :
      Bool → List (Clause V) → Query V → TextCache → Run (List ℕ × Query V × TextCache)
  unfolding build_clause
  build_clauses first [] q cache = returns ([], q, cache)
  build_clauses first (c ∷ cs) q cache = and_run (build_clause c q cache) λ (s, q', cache').
      and_run (build_clauses false cs q' cache')
        λ (t, q'', cache''). returns ((if first then [] else codes "\n") ++ (s ++ t), q'', cache'')

  -- BuildCypher: the text and the parameters, with the query and the cache after it.
  unfoldable pub build_cypher :
      Query V → TextCache → Run ((List ℕ × Parameters V) × Query V × TextCache)
  unfolding sort_clauses build_clauses
  build_cypher q cache =
      let sorted = sort_clauses q.clauses in
      if q.locked
      then deadlocks
      else and_run (build_clauses true sorted (record q { locked = true; clauses = sorted }) cache)
          λ (s, q', cache'). returns ((s, q'.parameters), record q' { locked = false }, cache')

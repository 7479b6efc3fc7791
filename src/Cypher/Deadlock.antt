-- ===== src/Cypher/Deadlock.antt =====
-- A clause that registers a parameter while BuildCypher of src/cypher/query.go runs.
use gopher_cypher.Common.{
  ℕ, List, [], ◌∷◌, ◌++◌, Bool, true, false, ◌||◌, ◌≡◌, refl, ap, ◌∙◌, inl, inr, leb, Bool-cases,
}
use gopher_cypher.Cypher.Parameters.{Host}
use gopher_cypher.Cypher.Tree.{Node}
use gopher_cypher.Cypher.Template.{Template, words, slot}
use gopher_cypher.Cypher.Clause.{Clause, adapter, custom, clause_order}
use gopher_cypher.Cypher.Query.{
  returns, deadlocks, Query, TextCache, register_parameter, build_custom, build_adapter,
  build_clause, build_clauses, build_cypher, sort_clauses, fetch_text, insert_clause,
}
use gopher_cypher.Cypher.Renders.{NeverPanics}
use gopher_cypher.Cypher.Compiled.{compile_query_total}
use gopher_cypher.Cypher.Locked.{asks_slot}

abbrev pub asks_clause {ℓ} : {V : Type ℓ} → Clause V → Bool
asks_clause (adapter key n) = false
asks_clause (custom t fs) = asks_slot fs

-- One of the clauses registers a parameter.
unfoldable pub asks_any {ℓ} : {V : Type ℓ} → List (Clause V) → Bool
asks_any [] = false
asks_any (c ∷ cs) = asks_clause c || asks_any cs

or_swap : (a b c : Bool) → (a || (b || c)) ≡ (b || (a || c))
or_swap true true c = refl
or_swap true false c = refl
or_swap false b c = refl

asks_any-insert {ℓ} :
    {V : Type ℓ} (c : Clause V) (cs : List (Clause V))
    → asks_any (insert_clause c cs) ≡ (asks_clause c || asks_any cs)
unfolding asks_any insert_clause
asks_any-insert c [] = refl
asks_any-insert c (d ∷ ds) = elim (Bool-cases (leb (clause_order c) (clause_order d))) [
  | inl e ↦ rw e refl
  | inr e ↦ rw (e, asks_any-insert c ds) (or_swap (asks_clause d) (asks_clause c) (asks_any ds))
]

asks_any-sort {ℓ} : {V : Type ℓ} (cs : List (Clause V)) → asks_any (sort_clauses cs) ≡ asks_any cs
unfolding asks_any sort_clauses
asks_any-sort [] = refl
asks_any-sort (c ∷ cs) =
    asks_any-insert c (sort_clauses cs) ∙ ap (λ b. asks_clause c || b) (asks_any-sort cs)

module _ {ℓ} {V : Type ℓ} (host : Host V) where
  custom_deadlocks :
      (fs : Template V) (q : Query V)
      → q.locked ≡ true
      → asks_slot fs ≡ true
      → build_custom host fs q ≡ deadlocks
  unfolding build_custom register_parameter asks_slot
  custom_deadlocks [] q l h = absurd (cc h)
  custom_deadlocks (words s ∷ fs) q l h = rw (custom_deadlocks fs q l h) refl
  custom_deadlocks (slot v ∷ fs) q l h = rw l refl

  custom_returns :
      (fs : Template V) (q : Query V)
      → asks_slot fs ≡ false
      → (s : List ℕ) × (build_custom host fs q ≡ returns (s, q))
  unfolding build_custom asks_slot
  custom_returns [] q h = ([], refl)
  custom_returns (words s ∷ fs) q h = let (t, e) = custom_returns fs q h in (s ++ t, rw e refl)
  custom_returns (slot v ∷ fs) q h = absurd (cc h)

  module _ (calm : NeverPanics host) where
    adapter_returns :
        (key : ℕ) (n : Node V) (cache : TextCache)
        → (s : List ℕ) × (cache' : TextCache) × (build_adapter host key n cache
            ≡ returns (s, cache'))
    unfolding build_adapter fetch_text
    adapter_returns key n cache =
        let (s, p, e) = compile_query_total host calm (n ∷ []) in rw e (_, _, refl)

    clause_returns :
        (c : Clause V) (q : Query V) (cache : TextCache)
        → asks_clause c ≡ false
        → (s : List ℕ) × (cache' : TextCache) × (build_clause host c q cache
            ≡ returns (s, q, cache'))
    unfolding build_clause
    clause_returns (adapter key n) q cache h =
        let (s, cache', e) = adapter_returns key n cache in (s, cache', rw e refl)
    clause_returns (custom t fs) q cache h =
        let (s, e) = custom_returns fs q h in (s, cache, rw e refl)

    clause_deadlocks :
        (c : Clause V) (q : Query V) (cache : TextCache)
        → q.locked ≡ true
        → asks_clause c ≡ true
        → build_clause host c q cache ≡ deadlocks
    unfolding build_clause
    clause_deadlocks (adapter key n) q cache l h = absurd (cc h)
    clause_deadlocks (custom t fs) q cache l h = rw (custom_deadlocks fs q l h) refl

    clauses_deadlock :
        (first : Bool) (cs : List (Clause V)) (q : Query V) (cache : TextCache)
        → q.locked ≡ true
        → asks_any cs ≡ true
        → build_clauses host first cs q cache ≡ deadlocks
    unfolding build_clauses asks_any
    clauses_deadlock first [] q cache l h = absurd (cc h)
    clauses_deadlock first (c ∷ cs) q cache l h = elim (Bool-cases (asks_clause c)) [
      | inl e ↦ rw (clause_deadlocks c q cache l e) refl
      | inr e ↦
          let (s, cache', g) = clause_returns c q cache e in
          let more : asks_any cs ≡ true = rw e at h in
          rw (g, clauses_deadlock false cs q cache' l more) refl
    ]

    -- If no comparison panics, and a clause of the query registers a parameter with it, then
    -- BuildCypher never returns: it waits for the lock that it holds.
    pub build_cypher_deadlocks :
        (q : Query V) (cache : TextCache)
        → asks_any q.clauses ≡ true
        → build_cypher host q cache ≡ deadlocks
    unfolding build_cypher
    build_cypher_deadlocks q cache h = elim (Bool-cases q.locked) [
      | inl e ↦ rw e refl
      | inr e ↦
          rw
            (
              e,
              clauses_deadlock true (sort_clauses q.clauses)
                  (record q { locked = true; clauses = sort_clauses q.clauses }) cache refl
                  (asks_any-sort q.clauses ∙ h),
            )
            refl
    ]

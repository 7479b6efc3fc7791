-- ===== src/Cypher/Locked.antt =====
-- BuildCypher of src/cypher/query.go holds the lock that RegisterParameter needs.
use mathlib.Core.Path.{subst}
use gopher_cypher.Common.{
  ℕ, List, [], ◌∷◌, Bool, true, false, ◌≡◌, refl, ap, ◌∙◌, inl, inr, Bool-cases,
}
use gopher_cypher.Cypher.Parameters.{Host, Parameters}
use gopher_cypher.Cypher.Template.{Template, words, slot}
use gopher_cypher.Cypher.Clause.{Clause, adapter, custom}
use gopher_cypher.Cypher.Query.{
  Run, returns, panics, deadlocks, and_run, Query, TextCache, register_parameter, build_custom,
  build_adapter, build_clause, build_clauses, build_cypher, sort_clauses,
}

-- What holds of the value that a run returns, if it returns.
abbrev pub Returning {ℓ κ} : {A : Type ℓ} → (A → Type κ) → Run A → Type κ
Returning P (returns a) = P a
Returning P panics = Unit
Returning P deadlocks = Unit

Returning-and_run {ℓ κ μ ν} :
    {A : Type ℓ} {B : Type κ} (P : A → Type μ) (Q : B → Type ν) (r : Run A) (f : A → Run B)
    → Returning P r
    → ((a : A) → P a → Returning Q (f a))
    → Returning Q (and_run r f)
Returning-and_run P Q (returns a) f h k = k a h
Returning-and_run P Q panics f h k = tt
Returning-and_run P Q deadlocks f h k = tt

pub returned-Returning {ℓ κ} :
    {A : Type ℓ} (P : A → Type κ) (r : Run A) (a : A) → Returning P r → r ≡ returns a → P a
returned-Returning P r a h e = subst (Returning P) e h

-- A clause that registers a parameter.
unfoldable pub asks_slot {ℓ} : {V : Type ℓ} → Template V → Bool
asks_slot [] = false
asks_slot (words s ∷ fs) = asks_slot fs
asks_slot (slot v ∷ fs) = true

module _ {ℓ} {V : Type ℓ} (host : Host V) where
  custom_leaves :
      (fs : Template V) (q : Query V)
      → q.locked ≡ true
      → Returning (λ (r : List ℕ × Query V). r.1 ≡ q) (build_custom host fs q)
  unfolding build_custom register_parameter
  custom_leaves [] q l = refl
  custom_leaves (words s ∷ fs) q l =
      Returning-and_run (λ (r : List ℕ × Query V). r.1 ≡ q) _ (build_custom host fs q) _
        (custom_leaves fs q l) (λ a e. e)
  custom_leaves (slot v ∷ fs) q l = rw l tt

  adapter_leaves :
      (q : Query V) (r : Run (List ℕ × TextCache))
      → Returning
          (λ (r : List ℕ × Query V × TextCache). r.1 ≡ q)
          (and_run r λ r. returns (r.0, q, r.1))
  adapter_leaves q (returns r) = refl
  adapter_leaves q panics = tt
  adapter_leaves q deadlocks = tt

  clause_leaves :
      (c : Clause V) (q : Query V) (cache : TextCache)
      → q.locked ≡ true
      → Returning (λ (r : List ℕ × Query V × TextCache). r.1 ≡ q) (build_clause host c q cache)
  unfolding build_clause
  clause_leaves (adapter key n) q cache l = adapter_leaves q (build_adapter host key n cache)
  clause_leaves (custom t fs) q cache l =
      Returning-and_run (λ (r : List ℕ × Query V). r.1 ≡ q) _ (build_custom host fs q) _
        (custom_leaves fs q l) (λ a e. e)

  pub clauses_leave :
      (first : Bool) (cs : List (Clause V)) (q : Query V) (cache : TextCache)
      → q.locked ≡ true
      → Returning
          (λ (r : List ℕ × Query V × TextCache). r.1 ≡ q)
          (build_clauses host first cs q cache)
  unfolding build_clauses
  clauses_leave first [] q cache l = refl
  clauses_leave first (c ∷ cs) q cache l =
      Returning-and_run (λ (r : List ℕ × Query V × TextCache). r.1 ≡ q) _
        (build_clause host c q cache) _ (clause_leaves c q cache l)
        (λ (s, q', cache') e.
          Returning-and_run (λ (r : List ℕ × Query V × TextCache). r.1 ≡ q') _
            (build_clauses host false cs q' cache') _
            (clauses_leave false cs q' cache' (ap (λ (q : Query V). q.locked) e ∙ l))
            (λ a g. g ∙ e))

  cypher_leaves :
      (q : Query V) (cache : TextCache)
      → Returning
          (λ (r : (List ℕ × Parameters V) × Query V × TextCache).
            (r.0.1 ≡ q.parameters)
            × (r.1 ≡ record {
              locked = false;
              parameters = q.parameters;
              clauses = sort_clauses q.clauses;
            }))
          (build_cypher host q cache)
  unfolding build_cypher
  cypher_leaves q cache = elim (Bool-cases q.locked) [
    | inl e ↦ rw e tt
    | inr e ↦
        let q1 : Query V = record q { locked = true; clauses = sort_clauses q.clauses } in
        rw e (
          Returning-and_run (λ (r : List ℕ × Query V × TextCache). r.1 ≡ q1) _
            (build_clauses host true (sort_clauses q.clauses) q1 cache) _
            (clauses_leave true (sort_clauses q.clauses) q1 cache refl)
            (λ r g. (
              ap (λ (q : Query V). q.parameters) g,
              ap (λ (q : Query V). record q { locked = false }) g,
            )))
  ]

  -- If BuildCypher returns, then the parameters that it returns are those that the query had
  -- before, whatever the clauses are, and the query is left as it was but for the order of its
  -- clauses and the lock, which is free.
  pub build_cypher_parameters :
      (q q' : Query V) (cache cache' : TextCache) (s : List ℕ) (p : Parameters V)
      → build_cypher host q cache ≡ returns ((s, p), q', cache')
      → (p ≡ q.parameters)
        × (q' ≡ record {
          locked = false;
          parameters = q.parameters;
          clauses = sort_clauses q.clauses;
        })
  build_cypher_parameters q q' cache cache' s p h =
      returned-Returning _ (build_cypher host q cache) ((s, p), q', cache') (cypher_leaves q cache)
        h

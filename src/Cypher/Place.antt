-- ===== src/Cypher/Place.antt =====
-- The order that ClauseOrder of src/cypher/clause.go means, as the places of the types in a query.
use gopher_cypher.Common.{
  sym, ◌∙◌, ap, ℕ, suc, ◌≤◌, ◌<◌, List, [], ◌∷◌, Bool, true, false, ◌≡◌, refl, inl, inr, arith, ltb,
  leb, ◌==◌, ◌||◌, if◌then◌else◌, Bool-cases,
}
use gopher_cypher.Cypher.Clause.{
  ClauseType, Clause, adapter, custom, type_order, clause_order, node_clause_type, unknown_clause,
  call_clause, delete_clause, foreach_clause, load_csv_clause, match_clause, merge_clause,
  remove_clause, return_clause, set_clause, order_by_clause, skip_clause, limit_clause,
  unwind_clause, where_clause, with_clause,
}

-- CALL, MATCH, MERGE, UNWIND, WHERE, SET, REMOVE, DELETE, WITH, RETURN, ORDER BY, SKIP, LIMIT, and
-- then all that is left.
abbrev pub place : ClauseType → ℕ
place call_clause = 0
place match_clause = 1
place merge_clause = 2
place unwind_clause = 3
place where_clause = 4
place set_clause = 5
place remove_clause = 6
place delete_clause = 7
place with_clause = 8
place return_clause = 9
place order_by_clause = 10
place skip_clause = 11
place limit_clause = 12
place unknown_clause = 13
place foreach_clause = 13
place load_csv_clause = 13

abbrev pub clause_type {ℓ} : {V : Type ℓ} → Clause V → ClauseType
clause_type (adapter key n) = node_clause_type n
clause_type (custom t fs) = t

abbrev orders : List ℕ
orders = 1 ∷ 5 ∷ 6 ∷ 7 ∷ 11 ∷ 20 ∷ 21 ∷ 25 ∷ 30 ∷ 37 ∷ 41 ∷ 43 ∷ 47 ∷ 99 ∷ []

count_below : ℕ → List ℕ → ℕ
count_below n [] = 0
count_below n (x ∷ xs) = let rest = count_below n xs in if ltb x n then suc rest else rest

is_among : ℕ → List ℕ → Bool
is_among n [] = false
is_among n (x ∷ xs) = (x == n) || is_among n xs

type_order-place : (t : ClauseType) → count_below (type_order t) orders ≡ place t
unfolding count_below type_order
type_order-place unknown_clause = refl
type_order-place call_clause = refl
type_order-place delete_clause = refl
type_order-place foreach_clause = refl
type_order-place load_csv_clause = refl
type_order-place match_clause = refl
type_order-place merge_clause = refl
type_order-place remove_clause = refl
type_order-place return_clause = refl
type_order-place set_clause = refl
type_order-place order_by_clause = refl
type_order-place skip_clause = refl
type_order-place limit_clause = refl
type_order-place unwind_clause = refl
type_order-place where_clause = refl
type_order-place with_clause = refl

type_order-among : (t : ClauseType) → is_among (type_order t) orders ≡ true
unfolding is_among type_order
type_order-among unknown_clause = refl
type_order-among call_clause = refl
type_order-among delete_clause = refl
type_order-among foreach_clause = refl
type_order-among load_csv_clause = refl
type_order-among match_clause = refl
type_order-among merge_clause = refl
type_order-among remove_clause = refl
type_order-among return_clause = refl
type_order-among set_clause = refl
type_order-among order_by_clause = refl
type_order-among skip_clause = refl
type_order-among limit_clause = refl
type_order-among unwind_clause = refl
type_order-among where_clause = refl
type_order-among with_clause = refl

count_below_mono : (m n : ℕ) (xs : List ℕ) → m ≤ n → count_below m xs ≤ count_below n xs
unfolding count_below
count_below_mono m n [] h = omega arith
count_below_mono m n (x ∷ xs) h = elim (Bool-cases (ltb x m)) [
  | inl a ↦
      let b : ltb x n ≡ true = ground arith in rw (a, b) (omega (arith, count_below_mono m n xs h))
  | inr a ↦ elim (Bool-cases (ltb x n)) [
    | inl b ↦ rw (a, b) (omega (arith, count_below_mono m n xs h))
    | inr b ↦ rw (a, b) (count_below_mono m n xs h)
  ]
]

count_below_strict :
    (m n : ℕ) (xs : List ℕ) → is_among m xs ≡ true → m < n → count_below m xs < count_below n xs
unfolding count_below is_among
count_below_strict m n [] i h = absurd (cc i)
count_below_strict m n (x ∷ xs) i h = elim (Bool-cases (x == m)) [
  | inl e ↦
      let a : ltb x m ≡ false = ground arith in
      let b : ltb x n ≡ true = ground arith in
      let l : m ≤ n = omega arith in rw (a, b) (omega (arith, count_below_mono m n xs l))
  | inr e ↦
      let j : is_among m xs ≡ true = rw e at i in
      elim (Bool-cases (ltb x m)) [
        | inl a ↦
            let b : ltb x n ≡ true = ground arith in
            rw (a, b) (omega (arith, count_below_strict m n xs j h))
        | inr a ↦ elim (Bool-cases (ltb x n)) [
          | inl b ↦ rw (a, b) (omega (arith, count_below_strict m n xs j h))
          | inr b ↦ rw (a, b) (count_below_strict m n xs j h)
        ]
      ]
]

module _ {ℓ} {V : Type ℓ} where
  clause_order-type_order : (c : Clause V) → clause_order c ≡ type_order (clause_type c)
  unfolding clause_order
  clause_order-type_order (adapter key n) = refl
  clause_order-type_order (custom t fs) = refl

  abbrev pub clause_place : Clause V → ℕ
  clause_place c = place (clause_type c)

  clause_order-count : (c : Clause V) → count_below (clause_order c) orders ≡ clause_place c
  clause_order-count c =
      ap (λ n. count_below n orders) (clause_order-type_order c) ∙ type_order-place (clause_type c)

  clause_order-among : (c : Clause V) → is_among (clause_order c) orders ≡ true
  clause_order-among c =
      ap (λ n. is_among n orders) (clause_order-type_order c) ∙ type_order-among (clause_type c)

  -- ClauseOrder compares clauses as their places do.
  pub clause_order-clause_place :
      (c d : Clause V)
      → leb (clause_order c) (clause_order d) ≡ leb (clause_place c) (clause_place d)
  clause_order-clause_place c d =
      let pc = clause_order-count c in
      let pd = clause_order-count d in
      elim (Bool-cases (leb (clause_order c) (clause_order d))) [
        | inl e ↦
            let l : clause_order c ≤ clause_order d = ground arith in
            let m = count_below_mono (clause_order c) (clause_order d) orders l in
            let t : leb (clause_place c) (clause_place d) ≡ true = ground (arith, m, pc, pd) in
            e ∙ sym t
        | inr e ↦
            let l : clause_order d < clause_order c = ground arith in
            let m =
              count_below_strict (clause_order d) (clause_order c) orders (clause_order-among d)
                l in
            let t : leb (clause_place c) (clause_place d) ≡ false = ground (arith, m, pc, pd) in
            e ∙ sym t
      ]

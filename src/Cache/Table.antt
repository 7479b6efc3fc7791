-- ===== src/Cache/Table.antt =====
-- The Go map of the caches in src/cypher/cache.go and src/optimized/cache.go, as a list of pairs.
use mathlib.Core.Path.{subst}
use gopher_cypher.Common.{
  ◌≤◌, ◌<◌, inr, sym, inl, ap, ◌∙◌, Bool-cases, length-append, suc, ◌≡◌, refl, List, [], ◌∷◌, ◌++◌,
  Bool, true, false, length, some, none, Option, if◌then◌else◌, arith,
}

-- A test that decides equality is symmetric.
pub test_sym {κ} :
    {K : Type κ} (eq : K → K → Bool)
    → ((k : K) → eq k k ≡ true)
    → ((j k : K) → eq j k ≡ true → j ≡ k)
    → (j k : K) → eq j k ≡ false
    → eq k j ≡ false
test_sym eq eq_refl eq→eq j k e = elim (Bool-cases (eq k j)) [
  | inl t ↦ absurd (cc (e, subst (λ x. eq j x ≡ true) (sym (eq→eq k j t)) (eq_refl j)))
  | inr f ↦ f
]

module _ {κ ℓ} {K : Type κ} {V : Type ℓ} (eq : K → K → Bool) where
  -- `v, ok := c.cache[key]`
  unfoldable pub lookup : K → List (K × V) → Option V
  lookup k [] = none
  lookup k ((j, v) ∷ m) = let rest = lookup k m in if eq j k then some v else rest

  -- `delete(c.cache, key)`
  unfoldable pub delete : K → List (K × V) → List (K × V)
  delete k [] = []
  delete k ((j, v) ∷ m) = let rest = delete k m in if eq j k then rest else (j, v) ∷ rest

  -- `c.cache[key] = val`
  unfoldable pub put : K → V → List (K × V) → List (K × V)
  put k v [] = (k, v) ∷ []
  put k v ((j, w) ∷ m) = let rest = put k v m in if eq j k then (k, v) ∷ m else (j, w) ∷ rest

  -- No key stands twice.
  abbrev pub Distinct : List (K × V) → Type ℓ
  Distinct [] = Unit
  Distinct ((k, v) ∷ m) = (lookup k m ≡ none) × Distinct m

  absent_head :
      (b : Bool) (v : V) (rest : Option V)
      → (if b then some v else rest) ≡ none
      → (b ≡ false) × (rest ≡ none)
  absent_head true v rest h = absurd (cc h)
  absent_head false v rest h = (refl, h)

  pub absent_tail :
      (k j : K) (w : V) (m : List (K × V)) → lookup k ((j, w) ∷ m) ≡ none → lookup k m ≡ none
  unfolding lookup
  absent_tail k j w m h = (absent_head (eq j k) w (lookup k m) h).1

  pub put-absent :
      (k : K) (v : V) (m : List (K × V)) → lookup k m ≡ none → put k v m ≡ m ++ ((k, v) ∷ [])
  unfolding lookup put
  put-absent k v [] h = refl
  put-absent k v ((j, w) ∷ m) h =
      let (e, h') = absent_head (eq j k) w (lookup k m) h in
      rw e (ap (λ t. (j, w) ∷ t) (put-absent k v m h'))

  pub delete-absent : (k : K) (m : List (K × V)) → lookup k m ≡ none → delete k m ≡ m
  unfolding lookup delete
  delete-absent k [] h = refl
  delete-absent k ((j, w) ∷ m) h =
      let (e, h') = absent_head (eq j k) w (lookup k m) h in
      rw e (ap (λ t. (j, w) ∷ t) (delete-absent k m h'))

  pub lookup-append :
      (k : K) (m : List (K × V)) (j : K) (v : V)
      → eq j k ≡ false
      → lookup k (m ++ ((j, v) ∷ [])) ≡ lookup k m
  unfolding lookup
  lookup-append k [] j v e = rw e refl
  lookup-append k ((i, w) ∷ m) j v e = rw (lookup-append k m j v e) refl

  pub lookup-append_self :
      (k : K) (v : V) (m : List (K × V))
      → eq k k ≡ true
      → lookup k m ≡ none
      → lookup k (m ++ ((k, v) ∷ [])) ≡ some v
  unfolding lookup
  lookup-append_self k v [] r h = rw r refl
  lookup-append_self k v ((j, w) ∷ m) r h =
      let (e, h') = absent_head (eq j k) w (lookup k m) h in rw e (lookup-append_self k v m r h')

  pub length-put :
      (k : K) (v : V) (m : List (K × V)) → lookup k m ≡ none → length (put k v m) ≡ suc (length m)
  length-put k v m h = rw (put-absent k v m h) (omega (arith, length-append m ((k, v) ∷ [])))

  length-delete : (k : K) (m : List (K × V)) → length (delete k m) ≤ length m
  unfolding delete
  length-delete k [] = omega arith
  length-delete k ((j, w) ∷ m) = ground (arith, length-delete k m)

  -- Deleting a key that is there makes the map smaller.
  pub length-delete_present :
      (k : K) (v : V) (m : List (K × V)) → lookup k m ≡ some v → length (delete k m) < length m
  unfolding lookup delete
  length-delete_present k v [] h = absurd (cc h)
  length-delete_present k v ((j, w) ∷ m) h = elim (Bool-cases (eq j k)) [
    | inl t ↦ rw t (omega (arith, length-delete k m))
    | inr f ↦ rw f (
        omega (
          arith,
          length-delete_present k v m
              (subst (λ b. (if b then some w else lookup k m) ≡ some v) f h),
        ))
  ]

  pub lookup-delete :
      (k j : K) (m : List (K × V)) → lookup k m ≡ none → lookup k (delete j m) ≡ none
  unfolding lookup delete
  lookup-delete k j [] h = refl
  lookup-delete k j ((i, w) ∷ m) h =
      let (e, h') = absent_head (eq i k) w (lookup k m) h in
      elim (Bool-cases (eq i j)) [
        | inl t ↦ rw t (lookup-delete k j m h')
        | inr f ↦ rw f (rw e (lookup-delete k j m h'))
      ]

  module _ (eq_refl : (k : K) → eq k k ≡ true) (eq→eq : (j k : K) → eq j k ≡ true → j ≡ k) where
    pub Distinct-append :
        (k : K) (v : V) (m : List (K × V))
        → lookup k m ≡ none
        → Distinct m
        → Distinct (m ++ ((k, v) ∷ []))
    unfolding lookup
    Distinct-append k v [] h d = (refl, tt)
    Distinct-append k v ((j, w) ∷ m) h (a, d) =
        let (e, h') = absent_head (eq j k) w (lookup k m) h in
        (lookup-append j m k v (test_sym eq eq_refl eq→eq j k e) ∙ a, Distinct-append k v m h' d)

    pub delete-first :
        (k : K) (v : V) (m : List (K × V)) → lookup k m ≡ none → delete k ((k, v) ∷ m) ≡ m
    unfolding delete
    delete-first k v m h = rw (eq_refl k) (delete-absent k m h)

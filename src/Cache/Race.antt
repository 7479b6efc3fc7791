-- ===== src/Cache/Race.antt =====
-- The invariant of the caches of src/cypher/cache.go, and calls of Fetch that race.
use gopher_cypher.Cache.Table.{absent_tail, Distinct-append, lookup-append_self, lookup, Distinct}
use mathlib.Core.Path.{subst}
use gopher_cypher.Common.{
  ◌∙◌, ◌-◌, ap, false, length-drop, length-append, inr, arith, Option-cases, inl, none, sym, some,
  [], ◌∷◌, ◌++◌, ◌≤◌, length, ◌<◌, List, true, Bool, ℕ, suc, ◌≡◌, refl,
}
use gopher_cypher.Cache.Queue.{
  newest, newest-fits, newest-full, lt_or_eq, holding, fetch-queue_fetch, queue_fetch, keys_of,
}
use gopher_cypher.Cache.Fifo.{FifoCache, fetch, fetch_between, fetch_fast, fetch_locked}

-- The keys in order of insertion are those of the map, distinct, and no more than the limit.
abbrev pub IsFifo {κ ℓ} : {K : Type κ} {V : Type ℓ} → (K → K → Bool) → FifoCache K V → Type (κ ⊔ ℓ)
IsFifo eq c =
    (c.order ≡ keys_of c.cache)
    × Distinct eq c.cache
    × (length c.cache ≤ c.max_size)
    × (0 < c.max_size)

module _ {κ ℓ} {K : Type κ} {V : Type ℓ} (eq : K → K → Bool) (eq_refl : (k : K) → eq k k ≡ true)
    (eq→eq : (j k : K) → eq j k ≡ true → j ≡ k) where
  -- What holds of the newest pairs, whether the oldest is left out or not.
  newest-elim {ι} :
      (P : List (K × V) → Type ι) (n : ℕ) (m : List (K × V)) (x : K × V)
      → 0 < n
      → length m ≤ n
      → P (m ++ (x ∷ []))
      → ((y : K × V) (m' : List (K × V)) → m ≡ y ∷ m' → P (m' ++ (x ∷ [])))
      → P (newest n (m ++ (x ∷ [])))
  newest-elim P n [] x p l h k = subst P (sym (newest-fits n (x ∷ []) p)) h
  newest-elim P n (y ∷ m) x p l h k = elim (lt_or_eq (suc (length m)) n l) [
    | inl fits ↦
        subst P
          (sym (newest-fits n ((y ∷ m) ++ (x ∷ [])) (omega (arith, length-append m (x ∷ []))))) h
    | inr full ↦
        subst P
          (sym (newest-full n y (m ++ (x ∷ [])) (omega (arith, full, length-append m (x ∷ [])))))
          (k y m refl)
  ]

  lookup-newest :
      (n : ℕ) (k : K) (v : V) (m : List (K × V))
      → 0 < n
      → length m ≤ n
      → lookup eq k m ≡ none
      → lookup eq k (newest n (m ++ ((k, v) ∷ []))) ≡ some v
  lookup-newest n k v m p l h =
      newest-elim (λ m'. lookup eq k m' ≡ some v) n m (k, v) p l
        (lookup-append_self eq k v m (eq_refl k) h)
        λ (j, w) m' e.
          lookup-append_self eq k v m' (eq_refl k)
            (absent_tail eq k j w m' (subst (λ t. lookup eq k t ≡ none) e h))

  Distinct-newest :
      (n : ℕ) (k : K) (v : V) (m : List (K × V))
      → 0 < n
      → length m ≤ n
      → lookup eq k m ≡ none
      → Distinct eq m
      → Distinct eq (newest n (m ++ ((k, v) ∷ [])))
  Distinct-newest n k v m p l h d =
      newest-elim (λ m'. Distinct eq m') n m (k, v) p l (Distinct-append eq eq_refl eq→eq k v m h d)
        λ (j, w) m' e.
          Distinct-append eq eq_refl eq→eq k v m'
            (absent_tail eq k j w m' (subst (λ t. lookup eq k t ≡ none) e h))
            (subst (λ t. Distinct eq t) e d).1

  length-newest : (n : ℕ) (m : List (K × V)) → length (newest n m) ≤ n
  length-newest n m = omega (arith, length-drop (length m - n) m)

  found-IsFifo :
      (n : ℕ) (k : K) (v : V) (m : List (K × V))
      → 0 < n
      → Distinct eq m
      → length m ≤ n
      → IsFifo eq (holding n (queue_fetch (lookup eq k m) n k v m).after)
        × (lookup eq k (queue_fetch (lookup eq k m) n k v m).after
            ≡ some (queue_fetch (lookup eq k m) n k v m).value)
  found-IsFifo n k v m p d l = elim (Option-cases (lookup eq k m)) [
    | inl e ↦
        rw e (
          (refl, Distinct-newest n k v m p l e d, length-newest n _, p),
          lookup-newest n k v m p l e,
        )
    | inr (w, e) ↦ rw e ((refl, d, l, p), e)
  ]

  fetch-found :
      (k : K) (v : V) (c : FifoCache K V)
      → IsFifo eq c
      → IsFifo eq (fetch eq k v c).after
        × (lookup eq k (fetch eq k v c).after.cache ≡ some (fetch eq k v c).value)
  fetch-found k v c (o, d, l, p) =
      let n = c.max_size in
      subst (λ f. IsFifo eq f.after × (lookup eq k f.after.cache ≡ some f.value))
        (sym (
          ap (λ order. fetch eq k v (record c { order = order })) o
          ∙ fetch-queue_fetch eq eq_refl eq→eq n k v c.cache p d l))
        (found-IsFifo n k v c.cache p d l)

  -- Fetch keeps the invariant: the insertion order lists the keys of the map, each once, and there
  -- are no more of them than the limit, which is not 0.
  pub fetch-IsFifo :
      (k : K) (v : V) (c : FifoCache K V) → IsFifo eq c → IsFifo eq (fetch eq k v c).after
  fetch-IsFifo k v c h = (fetch-found k v c h).0

  fetch_between-present :
      (k : K) (v w : V) (seen locked : FifoCache K V)
      → lookup eq k seen.cache ≡ none
      → lookup eq k locked.cache ≡ some w
      → fetch_between eq k v seen locked ≡ record { value = w; computed = false; after = locked }
  unfolding fetch_between fetch_fast fetch_locked
  fetch_between-present k v w seen locked e e' = rw e (rw e' refl)

  -- Two calls of Fetch race for a key on a cache that keeps its invariant: the second looked before
  -- the first had stored its value. It still returns the value of the first, does not call its own
  -- function, and changes nothing.
  pub fetch_between-fetch :
      (k : K) (v w : V) (seen c : FifoCache K V)
      → IsFifo eq c
      → lookup eq k seen.cache ≡ none
      → fetch_between eq k w seen (fetch eq k v c).after ≡ record {
        value = (fetch eq k v c).value;
        computed = false;
        after = (fetch eq k v c).after;
      }
  fetch_between-fetch k v w seen c h e =
      fetch_between-present k w _ seen (fetch eq k v c).after e (fetch-found k v c h).1

-- ===== src/Cache/Queue.antt =====
-- The caches of src/cypher/cache.go as queues: what Fetch does to the stored pairs.
use gopher_cypher.Common.{
  Option-cases, ℕ, suc, ◌-◌, ◌≤◌, ◌<◌, ◌≡◌, refl, sym, ap, ◌∙◌, ◌⊎◌, inl, inr, List, [], ◌∷◌, ◌++◌,
  Bool, true, false, length, length-append, drop, some, none, Option, arith,
}
use gopher_cypher.Cache.Table.{absent_tail, lookup, Distinct, delete-first, put-absent}
use gopher_cypher.Cache.Fifo.{
  fetch_locked, fetch_fast, FifoCache, Fetched, fetch, evict, store, drop_oldest,
}

-- The last n elements.
abbrev pub newest {ℓ} : {A : Type ℓ} → ℕ → List A → List A
newest n xs = drop (length xs - n) xs

pub newest-fits {ℓ} : {A : Type ℓ} (n : ℕ) (xs : List A) → length xs ≤ n → newest n xs ≡ xs
newest-fits n xs h = let e : (length xs - n) ≡ 0 = omega arith in ap (λ i. drop i xs) e

pub newest-full {ℓ} :
    {A : Type ℓ} (n : ℕ) (x : A) (xs : List A) → length xs ≡ n → newest n (x ∷ xs) ≡ xs
newest-full n x xs h =
    let e : (suc (length xs) - n) ≡ 1 = omega (arith, h) in ap (λ i. drop i (x ∷ xs)) e

pub lt_or_eq : (m n : ℕ) → m ≤ n → (m < n) ⊎ (m ≡ n)
lt_or_eq m n h = grind arith

module _ {κ ℓ} {K : Type κ} {V : Type ℓ} where
  abbrev pub keys_of : List (K × V) → List K
  keys_of [] = []
  keys_of ((k, v) ∷ m) = k ∷ keys_of m

  keys_of-append : (m m' : List (K × V)) → keys_of (m ++ m') ≡ keys_of m ++ keys_of m'
  keys_of-append [] m' = refl
  keys_of-append ((k, v) ∷ m) m' = ap (λ t. k ∷ t) (keys_of-append m m')

  -- The cache that holds these pairs, the oldest first.
  abbrev pub holding : ℕ → List (K × V) → FifoCache K V
  holding n m = record { cache = m; order = keys_of m; max_size = n }

  -- A queue of n pairs: a key that is there is found, and a new one is put last.
  abbrev pub queue_fetch : Option V → ℕ → K → V → List (K × V) → Fetched (List (K × V)) V
  queue_fetch (some w) n k v m = record { value = w; computed = false; after = m }
  queue_fetch none n k v m = record {
    value = v;
    computed = true;
    after = newest n (m ++ ((k, v) ∷ []));
  }

  abbrev pub as_cache : ℕ → Fetched (List (K × V)) V → Fetched (FifoCache K V) V
  as_cache n f = record { value = f.value; computed = f.computed; after = holding n f.after }

  module _ (eq : K → K → Bool) (eq_refl : (k : K) → eq k k ≡ true)
      (eq→eq : (j k : K) → eq j k ≡ true → j ≡ k) where
    store-holding :
        (n : ℕ) (k : K) (v : V) (m : List (K × V))
        → lookup eq k m ≡ none
        → store eq k v (holding n m) ≡ holding n (m ++ ((k, v) ∷ []))
    unfolding store
    store-holding n k v m h = rw (put-absent eq k v m h) (rw (keys_of-append m ((k, v) ∷ [])) refl)

    evict-fits : (n : ℕ) (m : List (K × V)) → length m < n → evict eq (holding n m) ≡ holding n m
    unfolding evict
    evict-fits n m h = ground arith

    evict-full :
        (n : ℕ) (k : K) (v : V) (m : List (K × V))
        → length ((k, v) ∷ m) ≡ n
        → lookup eq k m ≡ none
        → evict eq (holding n ((k, v) ∷ m)) ≡ holding n m
    unfolding evict drop_oldest
    evict-full n k v m h d = rw (delete-first eq eq_refl eq→eq k v m d) (ground arith)

    store-fits :
        (n : ℕ) (k : K) (v : V) (m : List (K × V))
        → length m < n
        → lookup eq k m ≡ none
        → store eq k v (evict eq (holding n m)) ≡ holding n (newest n (m ++ ((k, v) ∷ [])))
    store-fits n k v m l h = rw (evict-fits n m l) (
        store-holding n k v m h
        ∙ ap (holding n) (
            sym
              (newest-fits n (m ++ ((k, v) ∷ [])) (omega (arith, length-append m ((k, v) ∷ []))))))

    store-full :
        (n : ℕ) (k : K) (v : V) (j : K) (w : V) (m : List (K × V))
        → suc (length m) ≡ n
        → lookup eq j m ≡ none
        → lookup eq k m ≡ none
        → store eq k v (evict eq (holding n ((j, w) ∷ m)))
          ≡ holding n (newest n ((j, w) ∷ (m ++ ((k, v) ∷ []))))
    store-full n k v j w m l a h = rw (evict-full n j w m l a) (
        store-holding n k v m h
        ∙ ap (holding n) (
            sym (
              newest-full n (j, w) (m ++ ((k, v) ∷ []))
                (omega (arith, l, length-append m ((k, v) ∷ []))))))

    -- The pairs that a Fetch of a new key leaves.
    store-evict :
        (n : ℕ) (k : K) (v : V) (m : List (K × V))
        → 0 < n
        → Distinct eq m
        → length m ≤ n
        → lookup eq k m ≡ none
        → store eq k v (evict eq (holding n m)) ≡ holding n (newest n (m ++ ((k, v) ∷ [])))
    store-evict n k v [] p d l h = store-fits n k v [] p h
    store-evict n k v ((j, w) ∷ m) p (a, d) l h = elim (lt_or_eq (suc (length m)) n l) [
      | inl fits ↦ store-fits n k v ((j, w) ∷ m) fits h
      | inr full ↦ store-full n k v j w m full a (absent_tail eq k j w m h)
    ]

    -- On a cache of one place at least, that holds no more pairs than places, of distinct keys in
    -- the order of insertion, Fetch is the queue: it returns the stored value of a key that is
    -- there, and changes nothing; for a new key it calls its function, and keeps the newest pairs
    -- up to the limit.
    pub fetch-queue_fetch :
        (n : ℕ) (k : K) (v : V) (m : List (K × V))
        → 0 < n
        → Distinct eq m
        → length m ≤ n
        → fetch eq k v (holding n m) ≡ as_cache n (queue_fetch (lookup eq k m) n k v m)
    unfolding fetch fetch_fast fetch_locked
    fetch-queue_fetch n k v m p d l = elim (Option-cases (lookup eq k m)) [
      | inl e ↦ rw e (rw e (rw (store-evict n k v m p d l e) refl))
      | inr (w, e) ↦ rw e refl
    ]

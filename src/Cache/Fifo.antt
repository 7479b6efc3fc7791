-- ===== src/Cache/Fifo.antt =====
-- SimpleCache and OptimizedCache of src/cypher/cache.go.
use gopher_cypher.Common.{
  ℕ, leb, List, [], ◌∷◌, ◌++◌, Bool, true, false, length, some, none, Option, if◌then◌else◌,
}
use gopher_cypher.Cache.Table.{lookup, delete, put}

-- The two caches have the same code on keys of two types, a string and a node.
pub record FifoCache {κ ℓ} (K : Type κ) (V : Type ℓ) : Type (κ ⊔ ℓ) where
  pub cache : List (K × V)
  pub order : List K
  pub max_size : ℕ

-- What Fetch returns, and whether it called its function argument.
pub record Fetched {κ ℓ} (C : Type κ) (V : Type ℓ) : Type (κ ⊔ ℓ) where
  pub value : V
  pub computed : Bool
  pub after : C

abbrev pub new_cache {κ ℓ} : {K : Type κ} {V : Type ℓ} → FifoCache K V
new_cache = record { cache = []; order = []; max_size = 1000 }

module _ {κ ℓ} {K : Type κ} {V : Type ℓ} (eq : K → K → Bool) where
  -- The oldest key goes, if there is one.
  unfoldable pub drop_oldest : List K → FifoCache K V → FifoCache K V
  drop_oldest [] c = c
  drop_oldest (oldest ∷ order) c = record c { order = order; cache = delete eq oldest c.cache }

  -- `if len(c.cache) >= c.maxSize && len(c.order) > 0`
  unfoldable pub evict : FifoCache K V → FifoCache K V
  unfolding drop_oldest
  evict c = if leb c.max_size (length c.cache) then drop_oldest c.order c else c

  unfoldable pub store : K → V → FifoCache K V → FifoCache K V
  store key val c = record c { cache = put eq key val c.cache; order = c.order ++ (key ∷ []) }

  -- The slow path, which looks again: under the write lock.
  unfoldable pub fetch_locked : Option V → K → V → FifoCache K V → Fetched (FifoCache K V) V
  unfolding store evict
  fetch_locked (some v) key val c = record { value = v; computed = false; after = c }
  fetch_locked none key val c = record {
    value = val;
    computed = true;
    after = store key val (evict c);
  }

  unfoldable pub fetch_fast : Option V → K → V → FifoCache K V → Fetched (FifoCache K V) V
  unfolding fetch_locked
  fetch_fast (some v) key val locked = record { value = v; computed = false; after = locked }
  fetch_fast none key val locked = fetch_locked (lookup eq key locked.cache) key val locked

  -- Fetch(key, fn), `val` being what fn returns if it is called. `seen` is the cache at the
  -- first look, and `locked` at the second: others may have stored keys between the two.
  unfoldable pub fetch_between : K → V → FifoCache K V → FifoCache K V → Fetched (FifoCache K V) V
  unfolding fetch_fast
  fetch_between key val seen locked = fetch_fast (lookup eq key seen.cache) key val locked

  -- Fetch when no other call comes between.
  unfoldable pub fetch : K → V → FifoCache K V → Fetched (FifoCache K V) V
  unfolding fetch_between
  fetch key val c = fetch_between key val c c

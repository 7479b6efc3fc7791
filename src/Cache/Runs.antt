-- ===== src/Cache/Runs.antt =====
-- Concrete runs of the caches.
use gopher_cypher.Common.{ℕ, List, ◌≡◌, refl, arith, Bool, ◌==◌, true, false, [], ◌∷◌, none}
use gopher_cypher.Cache.Table.{lookup, Distinct}
use gopher_cypher.Cache.Fifo.{FifoCache, fetch, fetch_between}
use gopher_cypher.Cache.Queue.{holding, as_cache, queue_fetch, fetch-queue_fetch}
use gopher_cypher.Cache.Race.{IsFifo, fetch_between-fetch}

same : ℕ → ℕ → Bool
same a b = a == b

same_refl : (a : ℕ) → same a a ≡ true
unfolding same
same_refl a = ground arith

same→eq : (a b : ℕ) → same a b ≡ true → a ≡ b
unfolding same
same→eq a b h = ground arith

abbrev stored : List (ℕ × ℕ)
stored = (1, 10) ∷ (2, 20) ∷ []

-- Two places, both taken.
abbrev full_cache : FifoCache ℕ ℕ
full_cache = holding 2 stored

stored-Distinct : Distinct same stored
unfolding lookup same
stored-Distinct = (refl, (refl, tt))

fetch-queue_fetch_example :
    fetch same 3 30 full_cache ≡ as_cache 2 (queue_fetch (lookup same 3 stored) 2 3 30 stored)
fetch-queue_fetch_example =
    fetch-queue_fetch same same_refl same→eq 2 3 30 stored (omega arith) stored-Distinct
      (omega arith)

full_cache-IsFifo : IsFifo same full_cache
full_cache-IsFifo = (refl, stored-Distinct, omega arith, omega arith)

not_yet : lookup same 3 full_cache.cache ≡ none
unfolding lookup same
not_yet = refl

fetch_between-fetch_example :
    fetch_between same 3 31 full_cache (fetch same 3 30 full_cache).after ≡ record {
      value = (fetch same 3 30 full_cache).value;
      computed = false;
      after = (fetch same 3 30 full_cache).after;
    }
fetch_between-fetch_example =
    fetch_between-fetch same same_refl same→eq 3 30 31 full_cache full_cache full_cache-IsFifo
      not_yet

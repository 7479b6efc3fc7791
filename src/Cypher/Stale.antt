-- ===== src/Cypher/Stale.antt =====
-- The cache that BuildCypher of src/cypher/clause_adapter.go looks in first.
use gopher_cypher.Cypher.Locked.{returned-Returning, Returning}
use gopher_cypher.Common.{
  ℕ, List, [], ◌∷◌, false, Option, none, some, ◌≡◌, refl, ap, ◌∙◌, inl, inr, str_eq, str_eq_refl,
  Option-cases, Bool-cases,
}
use gopher_cypher.Cache.Table.{lookup, put}
use gopher_cypher.Cache.Fifo.{fetch, fetch_between, fetch_fast, fetch_locked, store, evict}
use gopher_cypher.Cypher.Parameters.{Host, Parameters}
use gopher_cypher.Cypher.Tree.{Node}
use gopher_cypher.Cypher.Visit.{compile_query}
use gopher_cypher.Cypher.Clause.{cache_key}
use gopher_cypher.Cypher.Query.{or_panics, returns, and_run, TextCache, build_adapter, fetch_text}

lookup-put :
    (k s : List ℕ) (m : List (List ℕ × List ℕ)) → lookup str_eq k (put str_eq k s m) ≡ some s
unfolding lookup put
lookup-put k s [] = rw (str_eq_refl k) refl
lookup-put k s ((j, t) ∷ m) = elim (Bool-cases (str_eq j k)) [
  | inl e ↦ rw e (rw (str_eq_refl k) refl)
  | inr e ↦ rw e (rw (e) (lookup-put k s m))
]

-- After a Fetch, its key has what it returned.
lookup-fetch :
    (k s : List ℕ) (c : TextCache)
    → lookup str_eq k (fetch str_eq k s c).after.cache ≡ some (fetch str_eq k s c).value
unfolding fetch fetch_between fetch_fast fetch_locked store
lookup-fetch k s c = elim (Option-cases (lookup str_eq k c.cache)) [
  | inl e ↦ rw e (rw e (lookup-put k s (evict str_eq c).cache))
  | inr (t, e) ↦ rw e e
]

fetch-hit :
    (k s t : List ℕ) (c : TextCache)
    → lookup str_eq k c.cache ≡ some t
    → fetch str_eq k s c ≡ record { value = t; computed = false; after = c }
unfolding fetch fetch_between fetch_fast
fetch-hit k s t c h = rw h refl

module _ {ℓ} {V : Type ℓ} (host : Host V) where
  fetch_text-hit :
      (o : Option (List ℕ × Parameters V)) (k t : List ℕ) (c : TextCache)
      → lookup str_eq k c.cache ≡ some t
      → fetch_text host o k c ≡ returns (t, c)
  unfolding fetch_text
  fetch_text-hit none k t c h = rw h refl
  fetch_text-hit (some (s, p)) k t c h = ap (λ r. returns (r.value, r.after)) (fetch-hit k s t c h)

  fetch_none :
      (k : List ℕ) (c : TextCache) (o : Option (List ℕ))
      → lookup str_eq k c.cache ≡ o
      → Returning
          (λ (r : List ℕ × TextCache). lookup str_eq k r.1.cache ≡ some r.0)
          (and_run (or_panics o) λ s. returns (s, c))
  fetch_none k c none e = tt
  fetch_none k c (some s) e = e

  fetch_text_stores :
      (o : Option (List ℕ × Parameters V)) (k : List ℕ) (c : TextCache)
      → Returning
          (λ (r : List ℕ × TextCache). lookup str_eq k r.1.cache ≡ some r.0)
          (fetch_text host o k c)
  unfolding fetch_text
  fetch_text_stores none k c = fetch_none k c (lookup str_eq k c.cache) refl
  fetch_text_stores (some (s, p)) k c = lookup-fetch k s c

  -- When a ClauseAdapter has returned a text, any adapter whose node has the same address and type
  -- then returns that text, whatever its node is, and leaves the cache as it is.
  pub build_adapter_stale :
      (key : ℕ) (n m : Node V) (t : List ℕ) (c c' : TextCache)
      → cache_key key m ≡ cache_key key n
      → build_adapter host key n c ≡ returns (t, c')
      → build_adapter host key m c' ≡ returns (t, c')
  unfolding build_adapter
  build_adapter_stale key n m t c c' same h =
      fetch_text-hit (compile_query host (m ∷ [])) (cache_key key m) t c' (
        ap (λ k. lookup str_eq k c'.cache) same
        ∙ returned-Returning
            (λ (r : List ℕ × TextCache). lookup str_eq (cache_key key n) r.1.cache ≡ some r.0)
            (build_adapter host key n c) (t, c')
            (fetch_text_stores (compile_query host (n ∷ [])) (cache_key key n) c) h)

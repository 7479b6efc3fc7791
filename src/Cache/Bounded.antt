-- ===== src/Cache/Bounded.antt =====
-- The Cache of src/optimized/cache.go, which drops any entry when it is full.
use gopher_cypher.Cache.Queue.{lt_or_eq}
use gopher_cypher.Common.{
  ◌∙◌, ap, inr, inl, Option-cases, ℕ, ◌≤◌, ◌<◌, ◌≡◌, arith, leb, List, Bool, true, false, length,
  some, none, Option, if◌then◌else◌,
}
use gopher_cypher.Cache.Table.{
  lookup-append_self, put-absent, length-delete_present, length-put, lookup-delete, lookup, delete,
  put,
}
use gopher_cypher.Cache.Fifo.{Fetched}

pub record BoundedCache {κ ℓ} (K : Type κ) (V : Type ℓ) : Type (κ ⊔ ℓ) where
  pub entries : List (K × V)
  pub limit : ℕ

-- The key that `for k := range c.cache` meets first is up to the runtime: a parameter.
module _ {κ ℓ} {K : Type κ} {V : Type ℓ} (eq : K → K → Bool)
    (first_key : List (K × V) → Option K) where
  drop_first : Option K → List (K × V) → List (K × V)
  drop_first none m = m
  drop_first (some k) m = delete eq k m

  make_room : BoundedCache K V → List (K × V)
  unfolding drop_first
  make_room c =
      if leb c.limit (length c.entries)
      then drop_first (first_key c.entries) c.entries
      else c.entries

  fetch_any_found : Option V → K → V → BoundedCache K V → Fetched (BoundedCache K V) V
  unfolding make_room
  fetch_any_found (some v) node val c = record { value = v; computed = false; after = c }
  fetch_any_found none node val c = record {
    value = val;
    computed = true;
    after = record c { entries = put eq node val (make_room c) };
  }

  unfoldable pub fetch_any : K → V → BoundedCache K V → Fetched (BoundedCache K V) V
  unfolding fetch_any_found
  fetch_any node val c = fetch_any_found (lookup eq node c.entries) node val c

  -- A range over a map that is not empty meets a key of the map.
  abbrev pub MeetsAKey : Type (κ ⊔ ℓ)
  MeetsAKey =
      (m : List (K × V))
      → 0 < length m
      → (k : K) × (v : V) × (first_key m ≡ some k) × (lookup eq k m ≡ some v)

  module _ (eq_refl : (k : K) → eq k k ≡ true) (meets : MeetsAKey) where
    make_room-fits :
        (k : K) (c : BoundedCache K V)
        → 0 < c.limit
        → length c.entries ≤ c.limit
        → lookup eq k c.entries ≡ none
        → (length (make_room c) < c.limit) × (lookup eq k (make_room c) ≡ none)
    unfolding make_room drop_first
    make_room-fits k c p l h = elim (lt_or_eq (length c.entries) c.limit l) [
      | inl fits ↦ (let e : leb c.limit (length c.entries) ≡ false = ground arith in rw e (fits, h))
      | inr full ↦
          (let (j, v, f, g) = meets c.entries (omega arith) in
            let e : leb c.limit (length c.entries) ≡ true = ground arith in
            rw e (
              rw f (
                omega (arith, length-delete_present eq j v c.entries g),
                lookup-delete eq k j c.entries h,
              )))
    ]

    -- If a range over a map that is not empty meets a key of it, then a cache of one place at least
    -- that is within its limit stays so, and the value that Fetch returned is the one it finds for
    -- the key afterwards, whichever entry the runtime lets it drop.
    pub fetch_any-keeps :
        (k : K) (v : V) (c : BoundedCache K V)
        → 0 < c.limit
        → length c.entries ≤ c.limit
        → (length (fetch_any k v c).after.entries ≤ (fetch_any k v c).after.limit)
          × (lookup eq k (fetch_any k v c).after.entries ≡ some (fetch_any k v c).value)
    unfolding fetch_any fetch_any_found
    fetch_any-keeps k v c p l = elim (Option-cases (lookup eq k c.entries)) [
      | inl e ↦
          (let (s, a) = make_room-fits k c p l e in
            rw e (
              omega (arith, length-put eq k v (make_room c) a),
              ap (lookup eq k) (put-absent eq k v (make_room c) a)
                  ∙ lookup-append_self eq k v (make_room c) (eq_refl k) a,
            ))
      | inr (w, e) ↦ rw e (l, e)
    ]

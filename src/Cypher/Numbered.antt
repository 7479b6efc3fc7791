-- ===== src/Cypher/Numbered.antt =====
-- The state that RegisterParameter of src/cypher/query.go keeps: the keys are "p1" up to the
-- counter's, each once.
use gopher_cypher.Common.{
  str_eq→eq, Bool-cases, ℕ, suc, ◌≤◌, ◌<◌, List, [], ◌∷◌, ◌++◌, none, some, ◌≡◌, refl, sym, ap, ◌⊎◌,
  inl, inr, arith, Option-cases, str_eq, str_eq_refl,
}
use gopher_cypher.Cache.Table.{lookup, put-absent}
use gopher_cypher.Cypher.Parameters.{Host, Parameters, param_key, find_key, registered, register}
use gopher_cypher.Cypher.Decimal.{str_eq-param_key}

-- An entry stands in a map.
pub data In {ℓ} {V : Type ℓ} (k : List ℕ) (v : V) : List (List ℕ × V) → Type ℓ where
  here : (m : List (List ℕ × V)) → In k v ((k, v) ∷ m)
  there : (e : List ℕ × V) (m : List (List ℕ × V)) → In k v m → In k v (e ∷ m)

module _ {ℓ} {V : Type ℓ} where
  -- The keys follow on `from`, and `to` is the last.
  abbrev pub NumberedFrom : ℕ → List (List ℕ × V) → ℕ → Type 0
  NumberedFrom from [] to = from ≡ to
  NumberedFrom from ((k, v) ∷ m) to = (k ≡ param_key (suc from)) × NumberedFrom (suc from) m to

  unfoldable pub IsNumbered : Parameters V → Type 0
  IsNumbered p = NumberedFrom 0 p.entries p.counter

  le-NumberedFrom : (from to : ℕ) (m : List (List ℕ × V)) → NumberedFrom from m to → from ≤ to
  le-NumberedFrom from to [] h = omega arith
  le-NumberedFrom from to ((k, v) ∷ m) (e, h) = omega (arith, le-NumberedFrom (suc from) to m h)

  pub lookup-above :
      (from to k : ℕ) (m : List (List ℕ × V))
      → NumberedFrom from m to
      → to < k
      → lookup str_eq (param_key k) m ≡ none
  unfolding lookup
  lookup-above from to k [] h l = refl
  lookup-above from to k ((j, v) ∷ m) (e, h) l =
      let le = le-NumberedFrom (suc from) to m h in
      rw (e, str_eq-param_key (suc from) k (λ s. omega arith)) (lookup-above (suc from) to k m h l)

  lookup-below :
      (from to k : ℕ) (m : List (List ℕ × V))
      → NumberedFrom from m to
      → k ≤ from
      → lookup str_eq (param_key k) m ≡ none
  unfolding lookup
  lookup-below from to k [] h l = refl
  lookup-below from to k ((j, v) ∷ m) (e, h) l =
      rw (e, str_eq-param_key (suc from) k (λ s. omega arith))
        (lookup-below (suc from) to k m h (omega arith))

  pub NumberedFrom-append :
      (from to : ℕ) (m : List (List ℕ × V)) (v : V)
      → NumberedFrom from m to
      → NumberedFrom from (m ++ ((param_key (suc to), v) ∷ [])) (suc to)
  NumberedFrom-append from to [] v h = (ap (λ n. param_key (suc n)) (sym h), ap suc h)
  NumberedFrom-append from to ((k, w) ∷ m) v (e, h) = (e, NumberedFrom-append (suc from) to m v h)

  -- An entry is found under its key, since no other has it.
  pub lookup-In :
      (k : List ℕ) (v : V) (from to : ℕ) (m : List (List ℕ × V))
      → In k v m
      → NumberedFrom from m to
      → lookup str_eq k m ≡ some v
  unfolding lookup
  lookup-In k v from to _ (here m) n = rw (str_eq_refl k) refl
  lookup-In k v from to _ (there (j, w) m i) (e, n) =
      let found = lookup-In k v (suc from) to m i n in
      elim (Bool-cases (str_eq j k)) [
        | inl t ↦
            let at : j ≡ k = str_eq→eq j k t in
            let absent = lookup-below (suc from) to (suc from) m n (omega arith) in
            absurd (cc (found, absent, at, e))
        | inr f ↦ rw f found
      ]

module _ {ℓ} {V : Type ℓ} (host : Host V) where
  -- The outcomes of a registration: a panic, a key that is there, and a new entry.
  pub register-cases :
      (v : V) (p : Parameters V)
      → IsNumbered p
      → (register host v p ≡ none)
        ⊎ (((k : List ℕ) × (find_key host v (host.visit p.entries) ≡ some (some k))
              × (register host v p ≡ some (k, p)))
            ⊎ ((find_key host v (host.visit p.entries) ≡ some none)
                × (register host v p
                    ≡ some (
                      param_key (suc p.counter),
                      record {
                        entries = p.entries ++ ((param_key (suc p.counter), v) ∷ []);
                        counter = suc p.counter;
                      },
                    ))))
  unfolding register registered IsNumbered
  register-cases v p n = elim (Option-cases (find_key host v (host.visit p.entries))) [
    | inl e ↦ inl (rw e refl)
    | inr (none, e) ↦ inr (
        inr (
          e,
          rw
              (
                e,
                put-absent str_eq (param_key (suc p.counter)) v p.entries
                    (lookup-above 0 p.counter (suc p.counter) p.entries n (omega arith)),
              )
              refl,
        ))
    | inr (some k, e) ↦ inr (inl (k, e, rw e refl))
  ]

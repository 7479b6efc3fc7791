-- ===== src/Cypher/Registers.antt =====
-- What RegisterParameter of src/cypher/query.go promises: the key that it returns has a value
-- equal to the one asked for, and no entry is lost.
use gopher_cypher.Common.{
  ℕ, suc, List, [], ◌∷◌, ◌++◌, Bool, true, false, Option, none, some, ◌≡◌, refl, sym, ◌∙◌, ◌⊎◌, inl,
  inr, arith, str_eq, str_eq_refl, if◌then◌else◌,
}
use mathlib.Core.Path.{subst}
use mathlib.Core.Option.{some-injective}
use gopher_cypher.Cache.Table.{lookup, lookup-append_self}
use gopher_cypher.Cypher.Parameters.{Host, Parameters, param_key, compared, find_key, register}
use gopher_cypher.Cypher.Numbered.{
  In, here, there, IsNumbered, NumberedFrom-append, lookup-above, lookup-In, register-cases,
}

module _ {ℓ} {V : Type ℓ} where
  -- Every value that has a key keeps it.
  unfoldable pub Keeps : Parameters V → Parameters V → Type ℓ
  Keeps p q =
      (k : List ℕ) (w : V) → lookup str_eq k p.entries ≡ some w → lookup str_eq k q.entries ≡ some w

  pub Keeps-refl : (p : Parameters V) → Keeps p p
  unfolding Keeps
  Keeps-refl p k w h = h

  pub Keeps-trans : (p q r : Parameters V) → Keeps p q → Keeps q r → Keeps p r
  unfolding Keeps
  Keeps-trans p q r f g k w h = g k w (f k w h)

  under_test :
      (b : Bool) (v w : V) (x y : Option V)
      → (x ≡ some w → y ≡ some w)
      → (if b then some v else x) ≡ some w
      → (if b then some v else y) ≡ some w
  under_test true v w x y f h = h
  under_test false v w x y f h = f h

  lookup-append_found :
      (k : List ℕ) (w : V) (m l : List (List ℕ × V))
      → lookup str_eq k m ≡ some w
      → lookup str_eq k (m ++ l) ≡ some w
  unfolding lookup
  lookup-append_found k w [] l h = absurd (cc h)
  lookup-append_found k w ((j, v) ∷ m) l h =
      under_test (str_eq j k) v w (lookup str_eq k m) (lookup str_eq k (m ++ l))
        (lookup-append_found k w m l) h

module _ {ℓ} {V : Type ℓ} (host : Host V) where
  -- `range` visits entries of the map only.
  pub record VisitsEntries : Type ℓ where
    pub visited : (k : List ℕ) (v : V) (m : List (List ℕ × V)) → In k v (host.visit m) → In k v m

  -- The key's value in the map is the value asked for, or `==` to it.
  unfoldable pub Holds : Parameters V → List ℕ → V → Type ℓ
  Holds p k v =
      (w : V) × (lookup str_eq k p.entries ≡ some w) × ((w ≡ v) ⊎ (host.equal w v ≡ some true))

  pub Holds-Keeps :
      (p q : Parameters V) (k : List ℕ) (v : V) → Keeps p q → Holds p k v → Holds q k v
  unfolding Keeps Holds
  Holds-Keeps p q k v f (w, h, e) = (w, f k w h, e)

  compared-In :
      (o : Option Bool) (v w : V) (j k : List ℕ) (m : List (List ℕ × V))
      (rest : Option (Option (List ℕ)))
      → host.equal w v ≡ o
      → (rest ≡ some (some k) → (u : V) × In k u m × (host.equal u v ≡ some true))
      → compared o j rest ≡ some (some k)
      → (u : V) × In k u ((j, w) ∷ m) × (host.equal u v ≡ some true)
  unfolding compared
  compared-In none v w j k m rest e f h = absurd (cc h)
  compared-In (some true) v w j k m rest e f h =
      let same : j ≡ k = some-injective j k (some-injective (some j) (some k) h) in
      (w, rw (sym same) (here m), e)
  compared-In (some false) v w j k m rest e f h = let (u, i, g) = f h in (u, there (j, w) m i, g)

  pub find_key-In :
      (v : V) (m : List (List ℕ × V)) (k : List ℕ)
      → find_key host v m ≡ some (some k)
      → (w : V) × In k w m × (host.equal w v ≡ some true)
  unfolding find_key
  find_key-In v [] k h = absurd (cc h)
  find_key-In v ((j, w) ∷ m) k h =
      compared-In (host.equal w v) v w j k m (find_key host v m) refl (find_key-In v m k) h

  old-Registers :
      VisitsEntries
      → (v : V) (p : Parameters V) (k : List ℕ) → IsNumbered p
      → find_key host v (host.visit p.entries) ≡ some (some k)
      → IsNumbered p × Keeps p p × Holds p k v
  unfolding Holds IsNumbered
  old-Registers visits v p k n f =
      let (w, i, e) = find_key-In v (host.visit p.entries) k f in
      (
        n,
        Keeps-refl p,
        (w, lookup-In k w 0 p.counter p.entries (visits.visited k w p.entries i) n, inr e),
      )

  new-Registers :
      (v : V) (p : Parameters V)
      → IsNumbered p
      → (let q : Parameters V = record {
        entries = p.entries ++ ((param_key (suc p.counter), v) ∷ []);
        counter = suc p.counter;
      } in
          IsNumbered q × Keeps p q × Holds q (param_key (suc p.counter)) v)
  unfolding Holds IsNumbered Keeps
  new-Registers v p n =
      let key : List ℕ = param_key (suc p.counter) in
      (
        NumberedFrom-append 0 p.counter p.entries v n,
        λ k w h. lookup-append_found k w p.entries ((key, v) ∷ []) h,
        (
          v,
          lookup-append_self str_eq key v p.entries (str_eq_refl key)
              (lookup-above 0 p.counter (suc p.counter) p.entries n (omega arith)),
          inl refl,
        ),
      )

  pub register-Holds :
      VisitsEntries
      → (v : V) (p : Parameters V) (k : List ℕ) (q : Parameters V) → IsNumbered p
      → register host v p ≡ some (k, q)
      → IsNumbered q × Keeps p q × Holds q k v
  register-Holds visits v p k q n h = elim (register-cases host v p n) [
    | inl e ↦ absurd (cc (h, e))
    | inr (inl (j, f, e)) ↦
        subst (λ (r : List ℕ × Parameters V). IsNumbered r.1 × Keeps p r.1 × Holds r.1 r.0 v)
          (some-injective (j, p) (k, q) (sym e ∙ h)) (old-Registers visits v p j n f)
    | inr (inr (_, e)) ↦
        subst (λ (r : List ℕ × Parameters V). IsNumbered r.1 × Keeps p r.1 × Holds r.1 r.0 v)
          (some-injective (param_key (suc p.counter), _) (k, q) (sym e ∙ h)) (new-Registers v p n)
  ]

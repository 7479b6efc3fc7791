-- ===== src/Cypher/Shares.antt =====
-- Equal values share a parameter in src/cypher/query.go, whatever the order in which `range` visits
-- the map.
use mathlib.Core.Option.{some-injective}
use gopher_cypher.Common.{
  ◌≢◌, ℕ, List, [], ◌∷◌, ◌++◌, Bool, true, false, Option, none, some, ◌≡◌, refl, sym, ap, ◌∙◌, ◌⊎◌,
  inl, inr,
}
use gopher_cypher.Cypher.Parameters.{Host, Parameters, compared, find_key, registered, register}
use gopher_cypher.Cypher.Numbered.{In, here, there}
use gopher_cypher.Cypher.Registers.{VisitsEntries, find_key-In}
use gopher_cypher.Cypher.Renders.{NeverPanics, find_key_total}

-- The entries of a map with one more.
abbrev pub Heads {ℓ} : {V : Type ℓ} → List ℕ → V → List (List ℕ × V) → Type ℓ
Heads j v [] = In j v []
Heads j v (e ∷ m) = (e ≡ (j, v)) ⊎ In j v m

pub In-Heads {ℓ} :
    {V : Type ℓ} (j : List ℕ) (v : V) (l : List (List ℕ × V)) → In j v l → Heads j v l
In-Heads j v _ (here m) = inl refl
In-Heads j v _ (there e m i) = inr i

pub nowhere {ℓ} : {V : Type ℓ} (j : List ℕ) (v : V) (l : List (List ℕ × V)) → In j v l → l ≢ []
nowhere j v _ (here m) h = absurd (cc h)
nowhere j v _ (there e m i) h = absurd (cc h)

In-append {ℓ} :
    {V : Type ℓ} (j k : List ℕ) (v w : V) (m : List (List ℕ × V))
    → In j v (m ++ ((k, w) ∷ []))
    → In j v m ⊎ ((j ≡ k) × (v ≡ w))
In-append j k v w [] i = elim (In-Heads j v ((k, w) ∷ []) i) [
  | inl e ↦ inr (sym (ap (λ (e : List ℕ × _). e.0) e), sym (ap (λ (e : List ℕ × _). e.1) e))
  | inr i ↦ absurd (nowhere j v [] i refl)
]
In-append j k v w ((l, u) ∷ m) i = elim (In-Heads j v ((l, u) ∷ (m ++ ((k, w) ∷ []))) i) [
  | inl e ↦ inl (rw e (here m))
  | inr i ↦ elim (In-append j k v w m i) [ inl a ↦ inl (there (l, u) m a) | inr b ↦ inr b ]
]

module _ {ℓ} {V : Type ℓ} (host : Host V) where
  -- `==` is symmetric and transitive where it answers.
  pub record IsEquality : Type ℓ where
    pub turned : (v w : V) → host.equal v w ≡ some true → host.equal w v ≡ some true
    pub chained :
        (u v w : V)
        → host.equal u v ≡ some true
        → host.equal v w ≡ some true
        → host.equal u w ≡ some true

  -- `range` visits every entry of the map.
  pub record VisitsAll : Type ℓ where
    pub reached : (k : List ℕ) (v : V) (m : List (List ℕ × V)) → In k v m → In k v (host.visit m)

  -- No two keys have equal values.
  pub record AreDifferent (m : List (List ℕ × V)) : Type ℓ where
    pub one_key :
        (j k : List ℕ) (v w : V) → In j v m → In k w m → host.equal v w ≡ some true → j ≡ k

  -- A search that finds no key has compared the value with every entry.
  compared-none :
      (o : Option Bool) (j : List ℕ) (rest : Option (Option (List ℕ)))
      → compared o j rest ≡ some none
      → (o ≡ some false) × (rest ≡ some none)
  unfolding compared
  compared-none none j rest h = absurd (cc h)
  compared-none (some true) j rest h = absurd (cc (some-injective (some j) none h))
  compared-none (some false) j rest h = (refl, h)

  pub find_key-none :
      (v : V) (k : List ℕ) (w : V) (m : List (List ℕ × V))
      → In k w m
      → find_key host v m ≡ some none
      → host.equal w v ≡ some false
  unfolding find_key
  find_key-none v k w _ (here m) h = (compared-none (host.equal w v) k (find_key host v m) h).0
  find_key-none v k w _ (there (j, u) m i) h =
      find_key-none v k w m i (compared-none (host.equal u v) j (find_key host v m) h).1

  module _ (calm : NeverPanics host) (visits : VisitsEntries host) (all : VisitsAll)
      (equality : IsEquality) where
    found :
        (v w : V) (k : List ℕ) (p : Parameters V) (o : Option (List ℕ))
        → AreDifferent p.entries
        → In k w p.entries
        → host.equal w v ≡ some true
        → find_key host v (host.visit p.entries) ≡ some o
        → o ≡ some k
    found v w k p none d i e f =
        absurd (cc (e, find_key-none v k w (host.visit p.entries) (all.reached k w p.entries i) f))
    found v w k p (some j) d i e f =
        let (u, i', e') = find_key-In host v (host.visit p.entries) j f in
        ap some (
          d.one_key j k u w (visits.visited j u p.entries i') i
            (equality.chained u v w e' (equality.turned w v e)))

    -- If == answers on every pair of values, is symmetric and transitive, a range visits every
    -- entry and no other, and no two parameters have equal values: registering a value that a
    -- parameter equals returns the key of that parameter, and adds nothing, in whatever order the
    -- range visits the map.
    pub register_shares :
        (v w : V) (k : List ℕ) (p : Parameters V)
        → AreDifferent p.entries
        → In k w p.entries
        → host.equal w v ≡ some true
        → register host v p ≡ some (k, p)
    unfolding register registered
    register_shares v w k p d i e =
        let (o, f) = find_key_total host calm v (host.visit p.entries) in
        rw (f, found v w k p o d i e f) refl

    new_against_old :
        (j : List ℕ) (u v : V) (p : Parameters V)
        → find_key host v (host.visit p.entries) ≡ some none
        → In j u p.entries
        → ¬ (host.equal u v ≡ some true)
    new_against_old j u v p f i e =
        absurd (cc (e, find_key-none v j u (host.visit p.entries) (all.reached j u p.entries i) f))

    different :
        (key : List ℕ) (v : V) (p : Parameters V)
        → find_key host v (host.visit p.entries) ≡ some none
        → AreDifferent p.entries
        → (j k : List ℕ) (u w : V) → In j u p.entries ⊎ ((j ≡ key) × (u ≡ v))
        → In k w p.entries ⊎ ((k ≡ key) × (w ≡ v))
        → host.equal u w ≡ some true
        → j ≡ k
    different key v p f d j k u w (inl a) (inl b) e = d.one_key j k u w a b e
    different key v p f d j k u w (inl a) (inr (_, g)) e =
        absurd (new_against_old j u v p f a (rw (sym g) e))
    different key v p f d j k u w (inr (_, g)) (inl b) e =
        absurd (new_against_old k w v p f b (rw (sym g) (equality.turned u w e)))
    different key v p f d j k u w (inr (a, _)) (inr (b, _)) e = a ∙ sym b

    pub AreDifferent-append :
        (key : List ℕ) (v : V) (p : Parameters V)
        → find_key host v (host.visit p.entries) ≡ some none
        → AreDifferent p.entries
        → AreDifferent (p.entries ++ ((key, v) ∷ []))
    AreDifferent-append key v p f d = record {
      one_key = λ j k u w a b e.
          different key v p f d j k u w (In-append j key u v p.entries a)
            (In-append k key w v p.entries b) e;
    }

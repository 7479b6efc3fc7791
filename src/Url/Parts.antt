-- ===== src/Url/Parts.antt =====
-- The parts of a URL that src/connection_url_resolver/url_resolver.go has cut, put together again.
use mathlib.Core.Path.{subst}
use mathlib.Core.Option.{some-injective}
use gopher_cypher.Common.{
  ℕ, List, [], ◌∷◌, ◌++◌, true, Option, none, some, map, ◌≡◌, refl, sym, ap, ◌∙◌, inl, inr, arith,
  ◌==◌, Bool-cases, str_eq, str_eq→eq,
}
use gopher_cypher.Common.Text.{codes}
use gopher_cypher.Url.Text.{behind, cut_here, split_in_two, split_by, contains_text}
use gopher_cypher.Url.Scheme.{supported_adapters, modifier, with_modifier, modifiers_of}
use gopher_cypher.Url.Written.{
  Adapter, neo4j, memgraph, Word, ssl_word, ssc_word, s_word, adapter_text, word_text, words_text,
  modifier_text,
}

behind-append : (prefix s rest : List ℕ) → behind prefix s ≡ some rest → s ≡ prefix ++ rest
unfolding behind
behind-append [] s rest h = some-injective s rest h
behind-append (p ∷ prefix) [] rest h = absurd (cc h)
behind-append (p ∷ prefix) (c ∷ s) rest h = elim (Bool-cases (p == c)) [
  | inl e ↦
      let same : c ≡ p = ground arith in
      rw same (ap (λ t. p ∷ t) (behind-append prefix s rest (rw e at h)))
  | inr e ↦ absurd (cc (rw e at h))
]

cut_here-append :
    (o : Option (List ℕ)) (c : ℕ) (s separator before rest : List ℕ)
    (later : Option (List ℕ × List ℕ))
    → ((r : List ℕ) → o ≡ some r → c ∷ s ≡ separator ++ r)
    → ((b r : List ℕ) → later ≡ some (b, r) → s ≡ b ++ (separator ++ r))
    → cut_here o c later ≡ some (before, rest)
    → c ∷ s ≡ before ++ (separator ++ rest)
cut_here-append (some r) c s separator before rest later f g h =
    let e : ([], r) ≡ (before, rest) = some-injective ([], r) (before, rest) h in
    subst (λ (x : List ℕ × List ℕ). c ∷ s ≡ x.0 ++ (separator ++ x.1)) e (f r refl)
cut_here-append none c s separator before rest none f g h = absurd (cc h)
cut_here-append none c s separator before rest (some (b, r)) f g h =
    let e : (c ∷ b, r) ≡ (before, rest) = some-injective (c ∷ b, r) (before, rest) h in
    subst (λ (x : List ℕ × List ℕ). c ∷ s ≡ x.0 ++ (separator ++ x.1)) e
      (ap (λ t. c ∷ t) (g b r refl))

pub split_in_two-append :
    (separator s before rest : List ℕ)
    → split_in_two separator s ≡ some (before, rest)
    → s ≡ before ++ (separator ++ rest)
unfolding split_in_two
split_in_two-append separator [] before rest h = absurd (cc h)
split_in_two-append separator (c ∷ s) before rest h =
    cut_here-append (behind separator (c ∷ s)) c s separator before rest (split_in_two separator s)
      (behind-append separator (c ∷ s)) (split_in_two-append separator s) h

-- Parts with a byte before each but the first.
pub joined : ℕ → List (List ℕ) → List ℕ
joined separator [] = []
joined separator (p ∷ ps) = separator ∷ (p ++ joined separator ps)

pub joined-split_by :
    (separator : ℕ) (s : List ℕ)
    → s ≡ (split_by separator s).0 ++ joined separator (split_by separator s).1
unfolding split_by joined
joined-split_by separator [] = refl
joined-split_by separator (c ∷ s) = elim (Bool-cases (c == separator)) [
  | inl e ↦
      let same : c ≡ separator = ground arith in
      rw e (rw same (ap (λ t. separator ∷ t) (joined-split_by separator s)))
  | inr e ↦ rw e (ap (λ t. c ∷ t) (joined-split_by separator s))
]

modifier-word :
    (m m' : List ℕ) → modifier m ≡ some m' → (w : Word) × (m ≡ word_text w) × (m' ≡ modifier_text w)
unfolding modifier
modifier-word m m' h = elim (Bool-cases (str_eq m (codes "ssl"))) [
  | inl e ↦
      (ssl_word, str_eq→eq m (codes "ssl") e, sym (some-injective (codes "ssl") m' (rw e at h)))
  | inr e ↦ elim (Bool-cases (str_eq m (codes "ssc"))) [
    | inl f ↦ (
      ssc_word,
      str_eq→eq m (codes "ssc") f,
      sym (some-injective (codes "ssc") m' (rw f at (rw e at h))),
    )
    | inr f ↦ elim (Bool-cases (str_eq m (codes "s"))) [
      | inl g ↦ (
        s_word,
        str_eq→eq m (codes "s") g,
        sym (some-injective (codes "ssc") m' (rw g at (rw f at (rw e at h)))),
      )
      | inr g ↦ absurd (cc (rw g at (rw f at (rw e at h))))
    ]
  ]
]

with_modifier-some :
    (o : Option (List ℕ)) (rest : Option (List (List ℕ))) (ms : List (List ℕ))
    → with_modifier o rest ≡ some ms
    → (m : List ℕ) × (r : List (List ℕ)) × (o ≡ some m) × (rest ≡ some r) × (m ∷ r ≡ ms)
with_modifier-some none rest ms h = absurd (cc h)
with_modifier-some (some m) none ms h = absurd (cc h)
with_modifier-some (some m) (some r) ms h = (m, r, refl, refl, some-injective (m ∷ r) ms h)

pub modifiers_of-words :
    (ps ms : List (List ℕ))
    → modifiers_of ps ≡ some ms
    → (ws : List Word) × (ps ≡ map word_text ws) × (ms ≡ map modifier_text ws)
unfolding modifiers_of
modifiers_of-words [] ms h = ([], refl, sym (some-injective [] ms h))
modifiers_of-words (p ∷ ps) ms h =
    let (m, r, e, f, g) = with_modifier-some (modifier p) (modifiers_of ps) ms h in
    let (w, a, b) = modifier-word p m e in
    let (ws, c, d) = modifiers_of-words ps r f in (w ∷ ws, rw (a, c) refl, sym g ∙ rw (b, d) refl)

pub supported-adapter :
    (x : List ℕ) → contains_text supported_adapters x ≡ true → (a : Adapter) × (x ≡ adapter_text a)
unfolding contains_text
supported-adapter x h = elim (Bool-cases (str_eq (codes "neo4j") x)) [
  | inl e ↦ (neo4j, sym (str_eq→eq (codes "neo4j") x e))
  | inr e ↦ elim (Bool-cases (str_eq (codes "memgraph") x)) [
    | inl f ↦ (memgraph, sym (str_eq→eq (codes "memgraph") x f))
    | inr f ↦ absurd (cc (rw f at (rw e at h)))
  ]
]

pub joined-words : (ws : List Word) → joined b'+' (map word_text ws) ≡ words_text ws
unfolding joined
joined-words [] = refl
joined-words (w ∷ ws) = ap (λ t. b'+' ∷ (word_text w ++ t)) (joined-words ws)

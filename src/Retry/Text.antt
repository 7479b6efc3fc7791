-- ===== src/Retry/Text.antt =====
-- The search of src/driver/retry.go for words in an error's text.
use gopher_cypher.Common.{
  ◌∙◌, ℕ, ◌≡◌, ◌↔◌, refl, ap, arith, List, [], ◌∷◌, ◌++◌, map, Bool, true, false, ◌==◌,
  if◌then◌else◌, inl, inr, Bool-cases,
}
use gopher_cypher.Common.Text.{lower}

-- The comparison at one place: each byte of `sub` against the byte of `s`, without case.
unfoldable pub matches_here : List ℕ → List ℕ → Bool
matches_here [] s = true
matches_here (b ∷ sub) [] = false
matches_here (b ∷ sub) (a ∷ s) =
    let rest = matches_here sub s in if lower a == lower b then rest else false

-- The places of one word, from the first to the last; an empty word is nowhere.
unfoldable pub contains_word : List ℕ → List ℕ → Bool
contains_word [] s = false
contains_word (b ∷ sub) [] = false
contains_word (b ∷ sub) (a ∷ s) =
    let later = contains_word (b ∷ sub) s in if matches_here (b ∷ sub) (a ∷ s) then true else later

unfoldable pub contains : List ℕ → List (List ℕ) → Bool
contains s [] = false
contains s (sub ∷ subs) = let rest = contains s subs in if contains_word sub s then true else rest

if-true : (b c : Bool) → (if b then c else false) ≡ true → (b ≡ true) × (c ≡ true)
if-true true c h = (refl, h)
if-true false c h = absurd (cc h)

equal_of : (m n : ℕ) → (m == n) ≡ true → m ≡ n
equal_of m n h = ground arith

matches_here_sound :
    (sub s : List ℕ)
    → matches_here sub s ≡ true
    → (mid : List ℕ) × (back : List ℕ) × (s ≡ mid ++ back) × (map lower mid ≡ map lower sub)
unfolding matches_here
matches_here_sound [] s h = ([], s, refl, refl)
matches_here_sound (b ∷ sub) [] h = absurd (cc h)
matches_here_sound (b ∷ sub) (a ∷ s) h =
    let (e, h') = if-true (lower a == lower b) (matches_here sub s) h in
    let (mid, back, p, q) = matches_here_sound sub s h' in
    let same : lower a ≡ lower b = equal_of (lower a) (lower b) e in
    (a ∷ mid, back, ap (λ t. a ∷ t) p, cc (same, q))

test_of : (m n : ℕ) → m ≡ n → (m == n) ≡ true
test_of m n h = ground arith

else_of : (b c : Bool) → b ≡ false → (if b then true else c) ≡ true → c ≡ true
else_of true c e h = absurd (cc e)
else_of false c e h = h

matches_here_complete :
    (sub mid back : List ℕ) → map lower mid ≡ map lower sub → matches_here sub (mid ++ back) ≡ true
unfolding matches_here
matches_here_complete [] mid back h = refl
matches_here_complete (b ∷ sub) [] back h = absurd (cc h)
matches_here_complete (b ∷ sub) (a ∷ mid) back h =
    let e : lower a ≡ lower b = cc in
    let h' : map lower mid ≡ map lower sub = cc in
    rw (test_of (lower a) (lower b) e) (matches_here_complete sub mid back h')

-- A word occurs in a text, up to the case of its letters.
abbrev pub Occurs : List ℕ → List ℕ → Type 0
Occurs sub s =
    (front : List ℕ) × (mid : List ℕ) × (back : List ℕ) × (s ≡ front ++ (mid ++ back))
    × (map lower mid ≡ map lower sub)

contains_word_sound : (sub s : List ℕ) → contains_word sub s ≡ true → Occurs sub s
unfolding contains_word
contains_word_sound [] s h = absurd (cc h)
contains_word_sound (b ∷ sub) [] h = absurd (cc h)
contains_word_sound (b ∷ sub) (a ∷ s) h = elim (Bool-cases (matches_here (b ∷ sub) (a ∷ s))) [
  | inl t ↦
      (let (mid, back, p, q) = matches_here_sound (b ∷ sub) (a ∷ s) t in ([], mid, back, p, q))
  | inr f ↦
      (let later : contains_word (b ∷ sub) s ≡ true = else_of _ _ f h in
        let (front, mid, back, p, q) = contains_word_sound (b ∷ sub) s later in
        (a ∷ front, mid, back, ap (λ t. a ∷ t) p, q))
]

contains_word_complete :
    (b : ℕ) (sub front mid back : List ℕ)
    → map lower mid ≡ map lower (b ∷ sub)
    → contains_word (b ∷ sub) (front ++ (mid ++ back)) ≡ true
unfolding contains_word
contains_word_complete b sub [] [] back h = absurd (cc h)
contains_word_complete b sub [] (a ∷ mid) back h =
    rw (matches_here_complete (b ∷ sub) (a ∷ mid) back h) refl
contains_word_complete b sub (a ∷ front) mid back h =
    elim (Bool-cases (matches_here (b ∷ sub) (a ∷ (front ++ (mid ++ back))))) [
      | inl t ↦ rw t refl
      | inr f ↦ rw f (contains_word_complete b sub front mid back h)
    ]

-- The search finds a word that is not empty exactly if it occurs in the text at some place, capital
-- letters and small ones of ASCII being the same.
pub contains_word-Occurs_iff :
    (b : ℕ) (sub s : List ℕ) → (contains_word (b ∷ sub) s ≡ true) ↔ Occurs (b ∷ sub) s
contains_word-Occurs_iff b sub s = (
  contains_word_sound (b ∷ sub) s,
  λ (front, mid, back, p, q).
      ap (contains_word (b ∷ sub)) p ∙ contains_word_complete b sub front mid back q,
)

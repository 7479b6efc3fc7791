-- ===== src/Cypher/Strings.antt =====
-- The strings of an array literal, that formatArrayLiteral of src/cypher/compiler.go quotes, read
-- back by the rules of Cypher for a string in double quotes.
use gopher_cypher.Common.{
  ℕ, List, [], ◌∷◌, ◌++◌, Bool, true, false, Option, none, some, ◌≡◌, refl, ap, ◌∙◌, inl, inr,
  arith, ◌==◌, if◌then◌else◌, Bool-cases, append_assoc,
}
use gopher_cypher.Common.Text.{codes}
use gopher_cypher.Cypher.Parameters.{Host}
use gopher_cypher.Cypher.Tree.{quoted}
use gopher_cypher.Cypher.Compile.{replace_all, escape, format_element}

-- What a backslash and a letter stand for.
meaning : ℕ → Option ℕ
meaning c =
    if c == b'\\'
    then some b'\\'
    else if c == b'"'
    then some b'"'
    else if c == b'\''
    then some b'\''
    else if c == b'n'
    then some 10
    else if c == b't'
    then some 9
    else if c == b'r'
    then some 13
    else if c == b'b'
    then some 8
    else if c == b'f'
    then some 12
    else none

before_rest : Option ℕ → Option (List ℕ × List ℕ) → Option (List ℕ × List ℕ)
before_rest (some c) (some (s, rest)) = some (c ∷ s, rest)
before_rest _ _ = none

-- The string up to its closing quote, and what follows; `escaped` says that a backslash was read.
scan_string : Bool → List ℕ → Option (List ℕ × List ℕ)
unfolding meaning before_rest
scan_string escaped [] = none
scan_string true (c ∷ r) = before_rest (meaning c) (scan_string false r)
scan_string false (c ∷ r) =
    let after_backslash = scan_string true r in
    let after_char = scan_string false r in
    if c == b'"'
    then some ([], r)
    else if c == b'\\'
    then after_backslash
    else before_rest (some c) after_char

-- A string in double quotes, and what follows it.
unfoldable pub read_string : List ℕ → Option (List ℕ × List ℕ)
unfolding scan_string
read_string [] = none
read_string (c ∷ r) = let s = scan_string false r in if c == b'"' then s else none

escape-plain :
    (c : ℕ) (s : List ℕ)
    → (c == b'\\') ≡ false
    → (c == b'"') ≡ false
    → escape (c ∷ s) ≡ c ∷ escape s
unfolding escape replace_all
escape-plain c s e q = rw e (rw q refl)

scan_string-plain :
    (c : ℕ) (r s rest : List ℕ)
    → (c == b'\\') ≡ false
    → (c == b'"') ≡ false
    → scan_string false r ≡ some (s, rest)
    → scan_string false (c ∷ r) ≡ some (c ∷ s, rest)
unfolding scan_string before_rest
scan_string-plain c r s rest e q h = rw (q, e, h) refl

scan_string-escape :
    (s rest : List ℕ) → scan_string false (escape s ++ (b'"' ∷ rest)) ≡ some (s, rest)
unfolding scan_string escape replace_all meaning before_rest
scan_string-escape [] rest = refl
scan_string-escape (c ∷ s) rest = elim (Bool-cases (c == b'\\')) [
  | inl e ↦
      let eq : c ≡ b'\\' = ground arith in
      rw (eq) (ap (before_rest (some b'\\')) (scan_string-escape s rest))
  | inr e ↦ elim (Bool-cases (c == b'"')) [
    | inl q ↦
        let eq : c ≡ b'"' = ground arith in
        rw (eq) (ap (before_rest (some b'"')) (scan_string-escape s rest))
    | inr q ↦
        ap (λ t. scan_string false (t ++ (b'"' ∷ rest))) (escape-plain c s e q)
        ∙ scan_string-plain c (escape s ++ (b'"' ∷ rest)) s rest e q (scan_string-escape s rest)
  ]
]

module _ {ℓ} {V : Type ℓ} (host : Host V) where
  -- A string that is written into an array literal is read back by the rules for strings in double
  -- quotes, and what follows it is left.
  pub read_string-format_element :
      (s rest : List ℕ) → read_string (format_element host (quoted s) ++ rest) ≡ some (s, rest)
  unfolding format_element read_string
  read_string-format_element s rest =
      ap (scan_string false) (append_assoc (escape s) (codes "\"") rest) ∙ scan_string-escape s rest

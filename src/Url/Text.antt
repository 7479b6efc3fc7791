-- ===== src/Url/Text.antt =====
-- The functions of Go's strings and strconv that src/connection_url_resolver/url_resolver.go uses.
use gopher_cypher.Common.{
  ℕ, ◌+◌, ◌-◌, ◌*◌, Bool, true, false, ◌&&◌, Option, none, some, List, [], ◌∷◌, ltb, leb, ◌==◌,
  if◌then◌else◌, str_eq,
}

-- The text behind a prefix, if the text starts with it.
unfoldable pub behind : List ℕ → List ℕ → Option (List ℕ)
behind [] s = some s
behind (p ∷ prefix) [] = none
behind (p ∷ prefix) (c ∷ s) = let rest = behind prefix s in if p == c then rest else none

abbrev pub cut_here : Option (List ℕ) → ℕ → Option (List ℕ × List ℕ) → Option (List ℕ × List ℕ)
cut_here (some rest) c later = some ([], rest)
cut_here none c none = none
cut_here none c (some (before, rest)) = some (c ∷ before, rest)

-- strings.SplitN(s, sep, 2), for a separator that is not empty: none if there is only one part.
unfoldable pub split_in_two : List ℕ → List ℕ → Option (List ℕ × List ℕ)
unfolding behind
split_in_two separator [] = none
split_in_two separator (c ∷ s) = cut_here (behind separator (c ∷ s)) c (split_in_two separator s)

-- strings.Split by one byte: the first part and the others.
unfoldable pub split_by : ℕ → List ℕ → List ℕ × List (List ℕ)
split_by separator [] = ([], [])
split_by separator (c ∷ s) =
    let rest = split_by separator s in
    if c == separator then ([], rest.0 ∷ rest.1) else (c ∷ rest.0, rest.1)

abbrev pub is_empty : List ℕ → Bool
is_empty [] = true
is_empty (c ∷ s) = false

-- contains
unfoldable pub contains_text : List (List ℕ) → List ℕ → Bool
contains_text [] element = false
contains_text (e ∷ es) element =
    let rest = contains_text es element in if str_eq e element then true else rest

-- strings.TrimPrefix(s, "/")
unfoldable pub trim_slash : List ℕ → List ℕ
trim_slash [] = []
trim_slash (c ∷ s) = if c == b'/' then s else c ∷ s

unfoldable pub digits_from : ℕ → List ℕ → Option ℕ
digits_from n [] = some n
digits_from n (c ∷ s) =
    let rest = digits_from (n * 10 + (c - 48)) s in if leb 48 c && leb c 57 then rest else none

abbrev pub in_range : Option ℕ → Option ℕ
in_range none = none
in_range (some n) = if ltb n 9223372036854775808 then some n else none

-- strconv.Atoi on a text without a sign: none where it returns an error.
unfoldable pub atoi : List ℕ → Option ℕ
unfolding digits_from
atoi [] = none
atoi (c ∷ s) = in_range (digits_from 0 (c ∷ s))

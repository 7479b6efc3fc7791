-- ===== src/Url/Scheme.antt =====
-- extractAdapterAndModifiers of src/connection_url_resolver/url_resolver.go.
use gopher_cypher.Common.Text.{codes}
use gopher_cypher.Url.Text.{split_by, contains_text}
use gopher_cypher.Common.{ℕ, Option, none, some, List, [], ◌∷◌, if◌then◌else◌, str_eq}

abbrev pub supported_adapters : List (List ℕ)
supported_adapters = codes "neo4j" ∷ codes "memgraph" ∷ []

-- The switch on one part of the scheme.
unfoldable pub modifier : List ℕ → Option (List ℕ)
modifier m =
    if str_eq m (codes "ssl")
    then some (codes "ssl")
    else if str_eq m (codes "ssc")
    then some (codes "ssc")
    else if str_eq m (codes "s")
    then some (codes "ssc")
    else none

abbrev pub with_modifier : Option (List ℕ) → Option (List (List ℕ)) → Option (List (List ℕ))
with_modifier none rest = none
with_modifier (some m) none = none
with_modifier (some m) (some ms) = some (m ∷ ms)

-- The loop over the parts behind the adapter.
unfoldable pub modifiers_of : List (List ℕ) → Option (List (List ℕ))
unfolding modifier
modifiers_of [] = some []
modifiers_of (m ∷ ms) = with_modifier (modifier m) (modifiers_of ms)

abbrev pub with_adapter : List ℕ → Option (List (List ℕ)) → Option (List ℕ × List (List ℕ))
with_adapter a none = none
with_adapter a (some ms) = some (a, ms)

unfoldable pub extract_parts : List ℕ × List (List ℕ) → Option (List ℕ × List (List ℕ))
unfolding modifiers_of contains_text
extract_parts (adapter, parts) =
    if contains_text supported_adapters adapter
    then with_adapter adapter (modifiers_of parts)
    else none

unfoldable pub extract_adapter_and_modifiers : List ℕ → Option (List ℕ × List (List ℕ))
unfolding extract_parts split_by
extract_adapter_and_modifiers scheme = extract_parts (split_by b'+' scheme)

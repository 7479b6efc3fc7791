-- ===== src/Url/Written.antt =====
-- The URLs that src/connection_url_resolver/url_resolver.go is made for, as they are written: an
-- adapter, words behind "+", and the rest behind "://".
use gopher_cypher.Url.Resolver.{
  parse_rest, configured, Uri, config_of, parse_url, ssl_connection_params,
}
use gopher_cypher.Url.Scheme.{modifier, extract_parts, modifiers_of, extract_adapter_and_modifiers}
use gopher_cypher.Url.Text.{behind, split_by, contains_text, split_in_two}
use gopher_cypher.Common.Text.{codes}
use gopher_cypher.Common.{
  ◌||◌, ℕ, ◌≡◌, refl, ap, ◌∙◌, inl, inr, Bool, true, false, not, ◌&&◌, Option, some, List, [], ◌∷◌,
  ◌++◌, map, if◌then◌else◌, Bool-cases, str_eq,
}

pub data Adapter : Type 0 where
  neo4j memgraph : Adapter

pub data Word : Type 0 where
  ssl_word ssc_word s_word : Word

abbrev pub adapter_text : Adapter → List ℕ
adapter_text neo4j = codes "neo4j"
adapter_text memgraph = codes "memgraph"

abbrev pub word_text : Word → List ℕ
word_text ssl_word = codes "ssl"
word_text ssc_word = codes "ssc"
word_text s_word = codes "s"

-- Whether the word asks for a certificate to be taken unverified.
abbrev pub trusts_any : Word → Bool
trusts_any ssl_word = false
trusts_any ssc_word = true
trusts_any s_word = true

abbrev pub any_trusts : List Word → Bool
any_trusts [] = false
any_trusts (w ∷ ws) = trusts_any w || any_trusts ws

abbrev pub has_word : List Word → Bool
has_word [] = false
has_word (w ∷ ws) = true

abbrev pub words_text : List Word → List ℕ
words_text [] = []
words_text (w ∷ ws) = b'+' ∷ (word_text w ++ words_text ws)

abbrev pub written : Adapter → List Word → List ℕ
written a ws = adapter_text a ++ words_text ws

abbrev pub modifier_text : Word → List ℕ
modifier_text ssl_word = codes "ssl"
modifier_text ssc_word = codes "ssc"
modifier_text s_word = codes "ssc"

split-words : (ws : List Word) → split_by b'+' (words_text ws) ≡ ([], map word_text ws)
unfolding split_by
split-words [] = refl
split-words (ssl_word ∷ ws) = rw (split-words ws) refl
split-words (ssc_word ∷ ws) = rw (split-words ws) refl
split-words (s_word ∷ ws) = rw (split-words ws) refl

split-written :
    (a : Adapter) (ws : List Word)
    → split_by b'+' (written a ws) ≡ (adapter_text a, map word_text ws)
unfolding split_by
split-written neo4j ws = rw (split-words ws) refl
split-written memgraph ws = rw (split-words ws) refl

modifiers-words : (ws : List Word) → modifiers_of (map word_text ws) ≡ some (map modifier_text ws)
unfolding modifiers_of modifier str_eq
modifiers-words [] = refl
modifiers-words (ssl_word ∷ ws) = rw (modifiers-words ws) refl
modifiers-words (ssc_word ∷ ws) = rw (modifiers-words ws) refl
modifiers-words (s_word ∷ ws) = rw (modifiers-words ws) refl

extract_parts-written :
    (a : Adapter) (ws : List Word)
    → extract_parts (adapter_text a, map word_text ws) ≡ some (adapter_text a, map modifier_text ws)
unfolding extract_parts contains_text str_eq
extract_parts-written neo4j ws = rw (modifiers-words ws) refl
extract_parts-written memgraph ws = rw (modifiers-words ws) refl

extract-written :
    (a : Adapter) (ws : List Word)
    → extract_adapter_and_modifiers (written a ws) ≡ some (adapter_text a, map modifier_text ws)
unfolding extract_adapter_and_modifiers
extract-written a ws = ap extract_parts (split-written a ws) ∙ extract_parts-written a ws

cut-words :
    (ws : List Word) (rest : List ℕ)
    → split_in_two (codes "://") (words_text ws ++ (codes "://" ++ rest))
      ≡ some (words_text ws, rest)
unfolding split_in_two behind
cut-words [] rest = refl
cut-words (ssl_word ∷ ws) rest = rw (cut-words ws rest) refl
cut-words (ssc_word ∷ ws) rest = rw (cut-words ws rest) refl
cut-words (s_word ∷ ws) rest = rw (cut-words ws rest) refl

pub parse_url-written :
    (parse : List ℕ → Option Uri) (a : Adapter) (ws : List Word) (rest : List ℕ)
    → parse_url parse (written a ws ++ (codes "://" ++ rest))
      ≡ configured
          (adapter_text a)
          (map modifier_text ws)
          (parse (adapter_text a ++ (codes "://" ++ rest)))
unfolding parse_url split_in_two behind
parse_url-written parse neo4j ws rest =
    rw (cut-words ws rest) (ap (λ e. parse_rest parse e rest) (extract-written neo4j ws))
parse_url-written parse memgraph ws rest =
    rw (cut-words ws rest) (ap (λ e. parse_rest parse e rest) (extract-written memgraph ws))

ssc-words : (ws : List Word) → contains_text (map modifier_text ws) (codes "ssc") ≡ any_trusts ws
unfolding contains_text str_eq
ssc-words [] = refl
ssc-words (ssl_word ∷ ws) = ssc-words ws
ssc-words (ssc_word ∷ ws) = refl
ssc-words (s_word ∷ ws) = refl

ssl-words :
    (ws : List Word)
    → (if any_trusts ws then true else contains_text (map modifier_text ws) (codes "ssl"))
      ≡ has_word ws
unfolding contains_text str_eq
ssl-words [] = refl
ssl-words (ssl_word ∷ ws) = elim (Bool-cases (any_trusts ws)) [
  | inl e ↦ rw e refl
  | inr e ↦ rw e refl
]
ssl-words (ssc_word ∷ ws) = refl
ssl-words (s_word ∷ ws) = refl

trusting_secure : (ws : List Word) → (has_word ws || any_trusts ws) ≡ has_word ws
trusting_secure [] = refl
trusting_secure (w ∷ ws) = refl

-- If net/url parses the adapter, :// and the rest of a written URL, the connection is secure
-- exactly if the URL has one of the words, and its certificate is verified exactly if, besides,
-- none of them is ssc or s.
pub parse_url-security :
    (parse : List ℕ → Option Uri) (a : Adapter) (ws : List Word) (rest : List ℕ) (uri : Uri)
    → parse (adapter_text a ++ (codes "://" ++ rest)) ≡ some uri
    → ssl_connection_params (parse_url parse (written a ws ++ (codes "://" ++ rest)))
      ≡ some (has_word ws, has_word ws && not (any_trusts ws))
unfolding ssl_connection_params config_of
parse_url-security parse a ws rest uri h =
    ap ssl_connection_params (
      parse_url-written parse a ws rest ∙ ap (configured (adapter_text a) (map modifier_text ws)) h)
    ∙ rw (ssc-words ws)
        (rw (ssl-words ws) (ap (λ c. some (c, c && not (any_trusts ws))) (trusting_secure ws)))

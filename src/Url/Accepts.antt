-- ===== src/Url/Accepts.antt =====
-- The URLs that parseURL of src/connection_url_resolver/url_resolver.go accepts.
use gopher_cypher.Url.Parts.{
  joined-words, modifiers_of-words, joined, joined-split_by, supported-adapter, split_in_two-append,
}
use mathlib.Core.Path.{subst}
use mathlib.Core.Option.{some-injective}
use gopher_cypher.Common.{
  ℕ, List, [], ◌∷◌, ◌++◌, ◌↔◌, Option, none, some, map, ◌≡◌, refl, sym, ap, ◌∙◌, inl, inr,
  Bool-cases, Option-cases,
}
use gopher_cypher.Common.Text.{codes}
use gopher_cypher.Url.Text.{split_in_two, split_by, contains_text}
use gopher_cypher.Url.Scheme.{
  supported_adapters, modifiers_of, extract_parts, extract_adapter_and_modifiers,
}
use gopher_cypher.Url.Resolver.{
  Uri, ConnectionConfig, config_of, configured, parse_rest, parse_parts, parse_url,
}
use gopher_cypher.Url.Written.{
  Adapter, Word, adapter_text, word_text, written, modifier_text, parse_url-written,
}

extract_parts-written_only :
    (x : List ℕ) (ps : List (List ℕ)) (y : List ℕ) (ms : List (List ℕ))
    → extract_parts (x, ps) ≡ some (y, ms)
    → (a : Adapter) × (ws : List Word) × (x ≡ adapter_text a)
      × (ps ≡ map word_text ws)
      × (y ≡ adapter_text a)
      × (ms ≡ map modifier_text ws)
unfolding extract_parts
extract_parts-written_only x ps y ms h = elim (Bool-cases (contains_text supported_adapters x)) [
  | inr e ↦ absurd (cc (rw e at h))
  | inl e ↦ elim (Option-cases (modifiers_of ps)) [
    | inl f ↦ absurd (cc (rw f at (rw e at h)))
    | inr (ns, f) ↦
        let (a, g) = supported-adapter x e in
        let (ws, k, l) = modifiers_of-words ps ns f in
        let same : (x, ns) ≡ (y, ms) = some-injective (x, ns) (y, ms) (rw f at (rw e at h)) in
        (
          a,
          ws,
          g,
          k,
          sym (ap (λ (t : List ℕ × List (List ℕ)). t.0) same) ∙ g,
          sym (ap (λ (t : List ℕ × List (List ℕ)). t.1) same) ∙ l,
        )
  ]
]

extract-written_only :
    (scheme y : List ℕ) (ms : List (List ℕ))
    → extract_adapter_and_modifiers scheme ≡ some (y, ms)
    → (a : Adapter) × (ws : List Word) × (scheme ≡ written a ws)
      × (y ≡ adapter_text a)
      × (ms ≡ map modifier_text ws)
unfolding extract_adapter_and_modifiers
extract-written_only scheme y ms h =
    let (a, ws, e, f, g, k) =
      extract_parts-written_only (split_by b'+' scheme).0 (split_by b'+' scheme).1 y ms h in
    (
      a,
      ws,
      joined-split_by b'+' scheme
          ∙ ap (λ t. t ++ joined b'+' (split_by b'+' scheme).1) e
          ∙ ap (λ t. adapter_text a ++ joined b'+' t) f
          ∙ ap (λ t. adapter_text a ++ t) (joined-words ws),
      g,
      k,
    )

-- A URL as it is written, what net/url gives of its rest, and the configuration made of that.
abbrev pub Configures : (List ℕ → Option Uri) → List ℕ → ConnectionConfig → Type 0
Configures parse url config =
    (a : Adapter) × (ws : List Word) × (rest : List ℕ) × (uri : Uri) × (url
      ≡ written a ws ++ (codes "://" ++ rest))
    × (parse (adapter_text a ++ (codes "://" ++ rest)) ≡ some uri)
    × (config ≡ config_of (adapter_text a) (map modifier_text ws) uri)

configured-some :
    (y : List ℕ) (ms : List (List ℕ)) (o : Option Uri) (config : ConnectionConfig)
    → configured y ms o ≡ some config
    → (uri : Uri) × (o ≡ some uri) × (config ≡ config_of y ms uri)
configured-some y ms none config h = absurd (cc h)
configured-some y ms (some uri) config h =
    (uri, refl, sym (some-injective (config_of y ms uri) config h))

rest-Configures :
    (parse : List ℕ → Option Uri) (scheme rest : List ℕ) (o : Option (List ℕ × List (List ℕ)))
    (config : ConnectionConfig)
    → extract_adapter_and_modifiers scheme ≡ o
    → parse_rest parse o rest ≡ some config
    → Configures parse (scheme ++ (codes "://" ++ rest)) config
rest-Configures parse scheme rest none config e h = absurd (cc h)
rest-Configures parse scheme rest (some (y, ms)) config e h =
    let (a, ws, f, g, k) = extract-written_only scheme y ms e in
    let (uri, l, m) = configured-some y ms (parse (y ++ (codes "://" ++ rest))) config h in
    (
      a,
      ws,
      rest,
      uri,
      ap (λ t. t ++ (codes "://" ++ rest)) f,
      ap (λ t. parse (t ++ (codes "://" ++ rest))) (sym g) ∙ l,
      m ∙ ap (λ t. config_of t ms uri) g ∙ ap (λ t. config_of (adapter_text a) t uri) k,
    )

parts-Configures :
    (parse : List ℕ → Option Uri) (url : List ℕ) (o : Option (List ℕ × List ℕ))
    (config : ConnectionConfig)
    → split_in_two (codes "://") url ≡ o
    → parse_parts parse o ≡ some config
    → Configures parse url config
parts-Configures parse url none config e h = absurd (cc h)
parts-Configures parse url (some (scheme, rest)) config e h =
    subst (λ u. Configures parse u config)
      (sym (split_in_two-append (codes "://") url scheme rest e))
      (rest-Configures parse scheme rest (extract_adapter_and_modifiers scheme) config refl h)

url-Configures :
    (parse : List ℕ → Option Uri) (url : List ℕ) (config : ConnectionConfig)
    → parse_url parse url ≡ some config
    → Configures parse url config
unfolding parse_url
url-Configures parse [] config h = absurd (cc h)
url-Configures parse (c ∷ url) config h =
    parts-Configures parse (c ∷ url) (split_in_two (codes "://") (c ∷ url)) config refl h

-- A URL gives a configuration exactly if it is written as neo4j or memgraph, any number of the
-- words ssl, ssc and s with a + before each, :// and a rest, and net/url parses the adapter, ://
-- and the rest; the configuration is then the one made of what net/url gives.
pub parse_url-Configures_iff :
    (parse : List ℕ → Option Uri) (url : List ℕ) (config : ConnectionConfig)
    → (parse_url parse url ≡ some config) ↔ Configures parse url config
parse_url-Configures_iff parse url config = (
  url-Configures parse url config,
  λ (a, ws, rest, uri, e, f, g).
      ap (parse_url parse) e
      ∙ parse_url-written parse a ws rest
      ∙ ap (configured (adapter_text a) (map modifier_text ws)) f
      ∙ ap some (sym g),
)

-- ===== src/Url/Runs.antt =====
-- Concrete runs of the resolver.
use gopher_cypher.Url.Accepts.{parse_url-Configures_iff, Configures}
use gopher_cypher.Cypher.Parameters.{decimal}
use gopher_cypher.Url.Scheme.{extract_adapter_and_modifiers}
use gopher_cypher.Url.Resolver.{
  Uri, ssl_connection_params, address, port_of, ConnectionConfig, parse_url,
}
use gopher_cypher.Common.Text.{codes}
use gopher_cypher.Url.Written.{parse_url-security, neo4j, ssl_word, s_word}
use gopher_cypher.Common.{
  ◌↔◌, ℕ, ◌≡◌, refl, true, false, Option, none, some, List, [], ◌∷◌, if◌then◌else◌, str_eq,
}

-- What net/url gives of "neo4j://ann:secret@db:7688/".
abbrev ann_at_db : Uri
ann_at_db = record {
  path = codes "/";
  user = some (codes "ann", some (codes "secret"));
  hostname = codes "db";
  port = codes "7688";
  query = [];
}

only_ann : List ℕ → Option Uri
only_ann s = if str_eq s (codes "neo4j://ann:secret@db:7688/") then some ann_at_db else none

abbrev ann_config : ConnectionConfig
ann_config = record {
  adapter = codes "neo4j";
  username = codes "ann";
  password = codes "secret";
  host = codes "db";
  port_number = 7688;
  database = codes "neo4j";
  ssl = true;
  ssc = true;
  options = [];
}

only_ann-uri : only_ann (codes "neo4j://ann:secret@db:7688/") ≡ some ann_at_db
unfolding only_ann str_eq
only_ann-uri = refl

parse_url-security_example :
    ssl_connection_params (parse_url only_ann (codes "neo4j+ssl+s://ann:secret@db:7688/"))
    ≡ some (true, false)
parse_url-security_example =
    parse_url-security only_ann neo4j (ssl_word ∷ s_word ∷ []) (codes "ann:secret@db:7688/")
      ann_at_db only_ann-uri

parse_url-Configures_iff_example :
    (parse_url only_ann (codes "neo4j+s://ann:secret@db:7688/") ≡ some ann_config)
    ↔ Configures only_ann (codes "neo4j+s://ann:secret@db:7688/") ann_config
parse_url-Configures_iff_example =
    parse_url-Configures_iff only_ann (codes "neo4j+s://ann:secret@db:7688/") ann_config

ann-address : address ann_config ≡ codes "db:7688"
unfolding address decimal
ann-address = refl

-- A port that strconv cannot hold is the default port.
huge_port : port_of (codes "99999999999999999999") ≡ 7687
unfolding port_of
huge_port = refl

no_adapter : parse_url only_ann (codes "http://db") ≡ none
unfolding parse_url extract_adapter_and_modifiers str_eq
no_adapter = refl

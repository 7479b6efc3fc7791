-- ===== src/Url/Resolver.antt =====
-- parseURL and the accessors of src/connection_url_resolver/url_resolver.go. Parsing a standard
-- URI, by Go's net/url, is a parameter.
use gopher_cypher.Cypher.Parameters.{decimal}
use gopher_cypher.Cache.Table.{put}
use gopher_cypher.Common.Text.{codes}
use gopher_cypher.Url.Text.{atoi, trim_slash, is_empty, split_in_two, contains_text}
use gopher_cypher.Url.Scheme.{extract_adapter_and_modifiers}
use gopher_cypher.Common.{
  ◌||◌, ℕ, Bool, true, not, ◌&&◌, Option, none, some, List, [], ◌∷◌, ◌++◌, if◌then◌else◌, str_eq,
}

-- What net/url gives of a URI. The query is a map from keys to their values, in the order in which
-- `range` visits it; a user may have no password.
pub record Uri : Type 0 where
  pub path : List ℕ
  pub user : Option (List ℕ × Option (List ℕ))
  pub hostname : List ℕ
  pub port : List ℕ
  pub query : List (List ℕ × List (List ℕ))

pub record ConnectionConfig : Type 0 where
  pub adapter : List ℕ
  pub username : List ℕ
  pub password : List ℕ
  pub host : List ℕ
  pub port_number : ℕ
  pub database : List ℕ
  pub ssl : Bool
  pub ssc : Bool
  pub options : List (List ℕ × List ℕ)

-- The first value of a key, if neither is empty.
add_option : List ℕ → List (List ℕ) → List (List ℕ × List ℕ) → List (List ℕ × List ℕ)
add_option key [] options = options
add_option key (v ∷ vs) options =
    if not (is_empty key) && not (is_empty v) then put str_eq key v options else options

unfoldable pub add_options :
    List (List ℕ × List (List ℕ)) → List (List ℕ × List ℕ) → List (List ℕ × List ℕ)
unfolding add_option
add_options [] options = options
add_options ((key, vs) ∷ rest) options = add_options rest (add_option key vs options)

abbrev pub adapter_database : List ℕ → List ℕ
adapter_database adapter = if str_eq adapter (codes "memgraph") then [] else adapter

named_database : List ℕ → List ℕ → List ℕ
named_database adapter [] = adapter_database adapter
named_database adapter (c ∷ name) = c ∷ name

unfoldable pub database_of : List ℕ → List ℕ → List ℕ
unfolding trim_slash named_database
database_of adapter path =
    if not (is_empty path) && not (str_eq path (codes "/"))
    then named_database adapter (trim_slash path)
    else adapter_database adapter

unfoldable pub username_of : Option (List ℕ × Option (List ℕ)) → List ℕ
username_of none = []
username_of (some (name, pass)) = name

unfoldable pub password_of : Option (List ℕ × Option (List ℕ)) → List ℕ
password_of (some (name, some pass)) = pass
password_of _ = []

unfoldable pub host_of : List ℕ → List ℕ
host_of [] = codes "localhost"
host_of (c ∷ host) = c ∷ host

abbrev pub default_port : ℕ
default_port = 7687

port_or_default : Option ℕ → ℕ
port_or_default none = default_port
port_or_default (some n) = n

unfoldable pub port_of : List ℕ → ℕ
unfolding atoi port_or_default
port_of [] = default_port
port_of (c ∷ port) = port_or_default (atoi (c ∷ port))

-- parseURL from the parsed URI on.
unfoldable pub config_of : List ℕ → List (List ℕ) → Uri → ConnectionConfig
unfolding add_options database_of username_of password_of host_of port_of contains_text
config_of adapter modifiers uri =
    let use_ssc = contains_text modifiers (codes "ssc") in
    record {
      adapter = adapter;
      username = username_of uri.user;
      password = password_of uri.user;
      host = host_of uri.hostname;
      port_number = port_of uri.port;
      database = database_of adapter uri.path;
      ssl = if use_ssc then true else contains_text modifiers (codes "ssl");
      ssc = use_ssc;
      options = add_options uri.query [];
    }

abbrev pub configured : List ℕ → List (List ℕ) → Option Uri → Option ConnectionConfig
configured adapter modifiers none = none
configured adapter modifiers (some uri) = some (config_of adapter modifiers uri)

-- url.Parse of the URL with the adapter for a scheme.
abbrev pub parse_rest :
    (List ℕ → Option Uri) → Option (List ℕ × List (List ℕ)) → List ℕ → Option ConnectionConfig
parse_rest parse none rest = none
parse_rest parse (some (adapter, modifiers)) rest =
    configured adapter modifiers (parse (adapter ++ (codes "://" ++ rest)))

abbrev pub parse_parts : (List ℕ → Option Uri) → Option (List ℕ × List ℕ) → Option ConnectionConfig
parse_parts parse none = none
parse_parts parse (some (scheme, rest)) =
    parse_rest parse (extract_adapter_and_modifiers scheme) rest

unfoldable pub parse_url : (List ℕ → Option Uri) → List ℕ → Option ConnectionConfig
unfolding split_in_two
parse_url parse [] = none
parse_url parse (c ∷ url) = parse_parts parse (split_in_two (codes "://") (c ∷ url))

-- Address; Go panics on a resolver that parsed nothing.
unfoldable pub address : ConnectionConfig → List ℕ
address config = config.host ++ (codes ":" ++ decimal config.port_number)

-- SSLConnectionParams: secure and verify_cert.
unfoldable pub ssl_connection_params : Option ConnectionConfig → Option (Bool × Bool)
ssl_connection_params none = none
ssl_connection_params (some config) =
    let secure = config.ssl || config.ssc in some (secure, secure && not config.ssc)

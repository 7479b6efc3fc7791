-- ===== src/Messaging/Message.antt =====
-- The messages of src/bolt/messaging/messages.go.
use gopher_cypher.Common.{
  ℕ, List, [], ◌∷◌, Bool, false, ◌==◌, ltb, Option, none, some, if◌then◌else◌, length, take, str_eq,
}
use gopher_cypher.Packstream.Value.{
  Value, Items, Fields, string, dict, item, no_items, no_fields, get_field, set_field, field,
}

-- Go map operations on metadata. A nil map is no key at all.
unfoldable pub delete_field : List ℕ → Fields → Fields
delete_field k no_fields = no_fields
delete_field k (field j w fs) =
    let rest = delete_field k fs in if str_eq j k then fs else field j w rest

-- m[key].(string), with its ok flag.
unfoldable pub get_string : List ℕ → Fields → Option (List ℕ)
get_string k fs = elim (get_field k fs) [ some (string s) ↦ some s | _ ↦ none ]

abbrev pub mode_key : List ℕ
mode_key = b'm' ∷ b'o' ∷ b'd' ∷ b'e' ∷ []

abbrev pub db_key : List ℕ
db_key = b'd' ∷ b'b' ∷ []

abbrev pub adapter_key : List ℕ
adapter_key = b'a' ∷ b'd' ∷ b'a' ∷ b'p' ∷ b't' ∷ b'e' ∷ b'r' ∷ []

abbrev pub code_key : List ℕ
code_key = b'c' ∷ b'o' ∷ b'd' ∷ b'e' ∷ []

abbrev pub message_key : List ℕ
message_key = b'm' ∷ b'e' ∷ b's' ∷ b's' ∷ b'a' ∷ b'g' ∷ b'e' ∷ []

abbrev pub memgraph : List ℕ
memgraph = b'm' ∷ b'e' ∷ b'm' ∷ b'g' ∷ b'r' ∷ b'a' ∷ b'p' ∷ b'h' ∷ []

abbrev pub neo4j : List ℕ
neo4j = b'n' ∷ b'e' ∷ b'o' ∷ b'4' ∷ b'j' ∷ []

abbrev pub write_mode : List ℕ
write_mode = b'w' ∷ b'r' ∷ b'i' ∷ b't' ∷ b'e' ∷ []

-- The types that implement Message, each with its fields.
pub data Message : Type 0 where
  generic : ℕ → Items → Message
  hello logon begin discard pull route success failure : Fields → Message
  goodbye reset commit rollback : Message
  run : List ℕ → Fields → Fields → Message

unfoldable pub signature : Message → ℕ
signature (generic sig fields) = sig
signature (hello m) = 0x01
signature goodbye = 0x02
signature reset = 0x0f
signature (run query parameters metadata) = 0x10
signature (begin m) = 0x11
signature commit = 0x12
signature rollback = 0x13
signature (discard m) = 0x2f
signature (pull m) = 0x3f
signature (route m) = 0x66
signature (logon m) = 0x6a
signature (success m) = 0x70
signature (failure m) = 0x7f

abbrev one_map : Fields → Items
one_map m = item (dict m) no_items

unfoldable pub message_fields : Message → Items
message_fields (generic sig fields) = fields
message_fields (run query parameters metadata) =
    item (string query) (item (dict parameters) (item (dict metadata) no_items))
message_fields (hello m) = one_map m
message_fields (begin m) = one_map m
message_fields (discard m) = one_map m
message_fields (pull m) = one_map m
message_fields (route m) = one_map m
message_fields (logon m) = one_map m
message_fields (success m) = one_map m
message_fields (failure m) = one_map m
message_fields _ = no_items

-- NewRun: a mode longer than one byte is cut to its first.
short_mode : Option (List ℕ) → Fields → Fields
short_mode none metadata = metadata
short_mode (some mode) metadata =
    if ltb 1 (length mode) then set_field mode_key (string (take 1 mode)) metadata else metadata

unfoldable pub new_run : List ℕ → Fields → Fields → Message
unfolding short_mode
new_run query parameters metadata =
    run query parameters (short_mode (get_string mode_key metadata) metadata)

-- `if _, exists := metadata["mode"]; !exists`
unfoldable pub add_mode : Option Value → Fields → Fields
add_mode (some v) metadata = metadata
add_mode none metadata = set_field mode_key (string write_mode) metadata

unfoldable pub default_mode : Fields → Fields
unfolding add_mode
default_mode metadata = add_mode (get_field mode_key metadata) metadata

pub is_memgraph : Option (List ℕ) → Bool
is_memgraph none = false
is_memgraph (some adapter) = str_eq adapter memgraph

pub is_one_letter : Option (List ℕ) → Bool
is_one_letter none = false
is_one_letter (some mode) = length mode == 1

unfoldable pub default_db : Option Value → Fields → Fields
default_db (some v) metadata = metadata
default_db none metadata = set_field db_key (string neo4j) metadata

-- The database name by the adapter: Memgraph takes none; a one-letter mode defaults it to neo4j.
unfoldable pub default_database : Fields → Fields
unfolding is_memgraph is_one_letter default_db
default_database metadata =
    if is_memgraph (get_string adapter_key metadata)
    then delete_field db_key metadata
    else if is_one_letter (get_string mode_key metadata)
    then default_db (get_field db_key metadata) metadata
    else metadata

unfoldable pub new_begin : Fields → Message
unfolding default_mode default_database
new_begin metadata = begin (default_database (default_mode metadata))

-- The metadata of a response: its first field if that is a map, else an empty map.
unfoldable pub metadata_of : Items → Fields
metadata_of (item (dict m) rest) = m
metadata_of _ = no_fields

unfoldable pub new_success : Items → Message
unfolding metadata_of
new_success fields = success (metadata_of fields)

unfoldable pub new_failure : Items → Message
unfolding metadata_of
new_failure fields = failure (metadata_of fields)

-- CreateMessage: `init` registers constructors for these two signatures alone.
unfoldable pub create_message : ℕ → Items → Message
unfolding new_success new_failure
create_message sig fields =
    if sig == 0x70
    then new_success fields
    else if sig == 0x7f
    then new_failure fields
    else generic sig fields

unfoldable pub string_or_empty : Option (List ℕ) → List ℕ
string_or_empty none = []
string_or_empty (some s) = s

-- Failure.Code and Failure.Message.
unfoldable pub failure_code : Fields → List ℕ
failure_code m = string_or_empty (get_string code_key m)

unfoldable pub failure_message : Fields → List ℕ
failure_message m = string_or_empty (get_string message_key m)

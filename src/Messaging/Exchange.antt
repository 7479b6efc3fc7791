-- ===== src/Messaging/Exchange.antt =====
-- sendRequestData of src/bolt/messaging/request.go: RUN, then PULL, then the records up to the
-- message that ends them.
use gopher_cypher.Common.{
  ℕ, zero, suc, List, [], ◌∷◌, ◌++◌, ◌==◌, if◌then◌else◌, length, Option, none, some,
}
use gopher_cypher.Common.Int.{negsuc}
use gopher_cypher.Packstream.Value.{
  Value, Items, Fields, null, integer, string, list, dict, int, item, no_items, no_fields, field,
  get_field, set_field,
}
use gopher_cypher.Messaging.Connection.{
  stuck, Action, ◌>>=◌, pure, fail, query_failed, pull_failed, unexpected_response,
  unexpected_pull_response, invalid_fields_length, expected_map, missing_fields_key,
  fields_not_a_list, invalid_record, invalid_record_values,
}
use gopher_cypher.Messaging.Message.{
  Message, failure, signature, message_fields, failure_code, failure_message, pull,
}
use gopher_cypher.Messaging.Request.{send_request, read_chunked_message}

abbrev pub fields_key : List ℕ
fields_key = b'f' ∷ b'i' ∷ b'e' ∷ b'l' ∷ b'd' ∷ b's' ∷ []

-- A row is a map from the column's name to its value.
abbrev pub Row : Type 0
Row = Fields

-- What a call returns: the columns and the rows.
abbrev pub Table : Type 0
Table = List (List ℕ) × List Row

-- The metadata {"n": -1, "qid": -1} of the PULL.
abbrev pub pull_all : Message
pull_all = pull (
    field (b'n' ∷ []) (integer int (negsuc 0))
      (field (b'q' ∷ b'i' ∷ b'd' ∷ []) (integer int (negsuc 0)) no_fields))

-- The columns by position, nil where the record has fewer values.
unfoldable pub row_of : List (List ℕ) → Items → Row → Row
row_of [] values row = row
row_of (c ∷ columns) no_items row = row_of columns no_items (set_field c null row)
row_of (c ∷ columns) (item v values) row = row_of columns values (set_field c v row)

-- pullFields[0].([]interface{}) of a record with one field.
unfoldable pub record_values : Items → Action Items
record_values no_items = fail invalid_record
record_values (item v (item w rest)) = fail invalid_record
record_values (item (list values) no_items) = pure values
record_values (item _ no_items) = fail invalid_record_values

-- `failure, ok := msg.(*Failure)`: every message with this signature is one.
unfoldable pub failure_metadata : Message → Fields
failure_metadata (failure m) = m
failure_metadata _ = no_fields

-- The loop after PULL. A response costs one unit of fuel.
unfoldable pub pull_loop : ℕ → List (List ℕ) → List Row → Message → Action Table
pull_loop zero columns rows response = λ conn. stuck
pull_loop (suc fuel) columns rows response =
    let failed : Action Table = fail (
      pull_failed (failure_code (failure_metadata response))
        (failure_message (failure_metadata response))) in
    let one_more : Action Table = record_values (message_fields response) >>= (λ values.
      read_chunked_message >>= (λ next conn.
        pull_loop fuel columns (rows ++ (row_of columns values no_fields ∷ [])) next conn)) in
    if signature response == 0x7f
    then failed
    else if signature response == 0x70
    then pure (columns, rows)
    else if signature response == 0x71
    then one_more
    else fail (unexpected_pull_response (signature response))

-- The value of "fields": a list, or nothing for nil.
unfoldable pub column_items : Option Value → Action Items
column_items none = fail missing_fields_key
column_items (some (list columns)) = pure columns
column_items (some null) = pure no_items
column_items (some _) = fail fields_not_a_list

-- fieldsW[0].(map[string]interface{}) of a response with one field.
unfoldable pub response_map : Items → Action Fields
response_map no_items = fail invalid_fields_length
response_map (item v (item w rest)) = fail invalid_fields_length
response_map (item (dict m) no_items) = pure m
response_map (item _ no_items) = fail expected_map

-- The rendering of a column name that is no string by fmt.Sprintf("%v", col) is a parameter.
module _ (sprint : Value → List ℕ) where
  unfoldable pub column_name : Value → List ℕ
  column_name (string s) = s
  column_name null = []
  column_name v = sprint v

  unfoldable pub column_names : Items → List (List ℕ)
  unfolding column_name
  column_names no_items = []
  column_names (item v columns) = column_name v ∷ column_names columns

  unfoldable pub success_columns : Items → Action (List (List ℕ))
  unfolding response_map column_items column_names
  success_columns items = do
    fields ← response_map items
    columns ← column_items (get_field fields_key fields)
    pure (column_names columns)

  -- The checks on the response to RUN.
  unfoldable pub read_columns : Message → Action (List (List ℕ))
  unfolding success_columns
  read_columns response =
      let m = failure_metadata response in
      if signature response == 0x7f
      then fail (query_failed (failure_code m) (failure_message m))
      else if signature response == 0x70
      then success_columns (message_fields response)
      else fail (unexpected_response (signature response))

  -- Each response takes four bytes of the input at least, so its length is enough fuel.
  unfoldable pub pull_records : List (List ℕ) → Action Table
  pull_records columns = do
    response ← send_request (signature pull_all) (message_fields pull_all)
    λ conn. pull_loop (suc (length conn.incoming)) columns [] response conn

  unfoldable pub send_request_data : ℕ → Items → Action Table
  send_request_data sig fields = do
    response ← send_request sig fields
    columns ← read_columns response
    pull_records columns

-- ===== src/Messaging/Termination.antt =====
-- Whether the exchanges of src/bolt/messaging/request.go end.
use gopher_cypher.Messaging.Progress.{
  Leaves-read_chunked_message, Leaves-if, Leaves-mono, Leaves-send_request, Leaves-bind, Leaves,
  Leaves-ne-stuck,
}
use gopher_cypher.Messaging.Exchange.{
  fields_key, Row, pull_records, response_map, send_request_data, success_columns, read_columns,
  pull_loop, record_values, column_items,
}
use gopher_cypher.Messaging.Request.{read_chunked_message, send_request}
use gopher_cypher.Common.{none, ◌==◌, some, Option, ℕ, zero, suc, ◌<◌, ◌≢◌, arith, List, [], length}
use gopher_cypher.Packstream.Value.{get_field, dict, Value, Items, null, list, item, no_items}
use gopher_cypher.Messaging.Connection.{Conn, stuck}
use gopher_cypher.Messaging.Message.{message_fields, signature, Message}

Leaves-record_values :
    (fields : Items) (conn : Conn) → Leaves (suc (length conn.incoming)) (record_values fields conn)
unfolding record_values
Leaves-record_values no_items conn = tt
Leaves-record_values (item v (item w rest)) conn = tt
Leaves-record_values (item (list values) no_items) conn = omega arith
Leaves-record_values (item _ no_items) conn = tt

Leaves-pull_loop :
    (fuel : ℕ) (columns : List (List ℕ)) (rows : List Row) (response : Message) (conn : Conn)
    → length conn.incoming < fuel
    → Leaves (suc (length conn.incoming)) (pull_loop fuel columns rows response conn)
unfolding pull_loop
Leaves-pull_loop zero columns rows response conn h = absurd (omega arith)
Leaves-pull_loop (suc fuel) columns rows response conn h =
    let n = suc (length conn.incoming) in
    Leaves-if n (signature response == 0x7f) _ _ conn tt (
      Leaves-if n (signature response == 0x70) _ _ conn (omega arith) (
        Leaves-if n (signature response == 0x71) _ _ conn
          (Leaves-bind n n (record_values (message_fields response) conn) _
            (Leaves-record_values (message_fields response) conn)
            λ values conn₁ h₁.
              Leaves-bind (length conn₁.incoming) n (read_chunked_message conn₁) _
                (Leaves-read_chunked_message conn₁)
                λ next conn₂ h₂.
                  Leaves-mono _ (omega arith)
                    (Leaves-pull_loop fuel columns _ next conn₂ (omega arith)))
          tt))

Leaves-column_items :
    (v : Option Value) (conn : Conn) → Leaves (suc (length conn.incoming)) (column_items v conn)
unfolding column_items
Leaves-column_items none conn = tt
Leaves-column_items (some (list columns)) conn = omega arith
Leaves-column_items (some null) conn = omega arith
Leaves-column_items (some _) conn = tt

Leaves-response_map :
    (fields : Items) (conn : Conn) → Leaves (suc (length conn.incoming)) (response_map fields conn)
unfolding response_map
Leaves-response_map no_items conn = tt
Leaves-response_map (item v (item w rest)) conn = tt
Leaves-response_map (item (dict m) no_items) conn = omega arith
Leaves-response_map (item _ no_items) conn = tt

module _ (sprint : Value → List ℕ) where
  Leaves-success_columns :
      (fields : Items) (conn : Conn)
      → Leaves (suc (length conn.incoming)) (success_columns sprint fields conn)
  unfolding success_columns
  Leaves-success_columns fields conn =
      Leaves-bind (suc (length conn.incoming)) _ (response_map fields conn) _
        (Leaves-response_map fields conn)
        λ m conn₁ h₁.
          Leaves-bind (suc (length conn₁.incoming)) _ (column_items (get_field fields_key m) conn₁)
            _ (Leaves-column_items (get_field fields_key m) conn₁) λ c conn₂ h₂. omega arith

  Leaves-read_columns :
      (response : Message) (conn : Conn)
      → Leaves (suc (length conn.incoming)) (read_columns sprint response conn)
  unfolding read_columns
  Leaves-read_columns response conn =
      let n = suc (length conn.incoming) in
      Leaves-if n (signature response == 0x7f) _ _ conn tt (
        Leaves-if n (signature response == 0x70) _ _ conn
          (Leaves-success_columns (message_fields response) conn) tt)

  Leaves-pull_records :
      (columns : List (List ℕ)) (conn : Conn)
      → Leaves (suc (length conn.incoming)) (pull_records sprint columns conn)
  unfolding pull_records
  Leaves-pull_records columns conn =
      Leaves-bind (suc (length conn.incoming)) _ (send_request _ _ conn) _
        (Leaves-send_request _ _ conn)
        λ response conn₁ h₁.
          Leaves-mono _ (omega arith)
            (Leaves-pull_loop (suc (length conn₁.incoming)) columns [] response conn₁ (omega arith))

  Leaves-send_request_data :
      (sig : ℕ) (fields : Items) (conn : Conn)
      → Leaves (suc (length conn.incoming)) (send_request_data sprint sig fields conn)
  unfolding send_request_data
  Leaves-send_request_data sig fields conn =
      Leaves-bind (suc (length conn.incoming)) _ (send_request sig fields conn) _
        (Leaves-send_request sig fields conn)
        λ response conn₁ h₁.
          Leaves-bind (suc (length conn₁.incoming)) _ (read_columns sprint response conn₁) _
            (Leaves-read_columns response conn₁)
            λ columns conn₂ h₂. Leaves-mono _ (omega arith) (Leaves-pull_records columns conn₂)

  -- A query ends on every connection: it returns a table or one of the errors, and is never stuck
  -- for want of fuel.
  pub send_request_data_total :
      (sig : ℕ) (fields : Items) (conn : Conn) → send_request_data sprint sig fields conn ≢ stuck
  send_request_data_total sig fields conn =
      Leaves-ne-stuck _ (send_request_data sprint sig fields conn)
        (Leaves-send_request_data sig fields conn)

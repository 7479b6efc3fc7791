-- ===== src/Driver/Summary.antt =====
-- The statistics of a ResultSummary (src/driver/observability.go) and how streaming_connection.go
-- fills them from the metadata of the final SUCCESS.
use gopher_cypher.Common.Text.{codes}
use gopher_cypher.Common.{ℕ, List, [], Bool, Option, none, some, false}
use gopher_cypher.Common.Int.{ℤ, pos}
use gopher_cypher.Packstream.Value.{string, Value, integer, int64, bool, dict, get_field}

-- The fields that the streaming connection writes. The text of the query, its parameters and the
-- like are set when the query starts and never change.
pub record Summary : Type 0 where
  pub nodes_created : ℤ
  pub nodes_deleted : ℤ
  pub relationships_created : ℤ
  pub relationships_deleted : ℤ
  pub properties_set : ℤ
  pub labels_added : ℤ
  pub labels_removed : ℤ
  pub indexes_added : ℤ
  pub indexes_removed : ℤ
  pub constraints_added : ℤ
  pub constraints_removed : ℤ
  pub contains_updates : Bool
  pub contains_system_updates : Bool
  pub bookmark : List ℕ
  pub execution_time : ℕ

-- A summary before anything is known of the execution.
abbrev pub empty_summary : Summary
empty_summary = record {
  nodes_created = pos 0;
  nodes_deleted = pos 0;
  relationships_created = pos 0;
  relationships_deleted = pos 0;
  properties_set = pos 0;
  labels_added = pos 0;
  labels_removed = pos 0;
  indexes_added = pos 0;
  indexes_removed = pos 0;
  constraints_added = pos 0;
  constraints_removed = pos 0;
  contains_updates = false;
  contains_system_updates = false;
  bookmark = [];
  execution_time = 0;
}

-- `if count, ok := stats[key].(int64); ok`, else what was there.
pub int64_or : ℤ → Option Value → ℤ
int64_or old (some (integer int64 n)) = n
int64_or old _ = old

pub bool_or : Bool → Option Value → Bool
bool_or old (some (bool b)) = b
bool_or old _ = old

-- updateFromStats: each statistic that is there with the right type is taken.
unfoldable pub update_from_stats : Value → Summary → Summary
unfolding int64_or bool_or
update_from_stats (dict stats) rs = record rs {
  nodes_created = int64_or rs.nodes_created (get_field (codes "nodes-created") stats);
  nodes_deleted = int64_or rs.nodes_deleted (get_field (codes "nodes-deleted") stats);
  relationships_created =
      int64_or rs.relationships_created (get_field (codes "relationships-created") stats);
  relationships_deleted =
      int64_or rs.relationships_deleted (get_field (codes "relationships-deleted") stats);
  properties_set = int64_or rs.properties_set (get_field (codes "properties-set") stats);
  labels_added = int64_or rs.labels_added (get_field (codes "labels-added") stats);
  labels_removed = int64_or rs.labels_removed (get_field (codes "labels-removed") stats);
  indexes_added = int64_or rs.indexes_added (get_field (codes "indexes-added") stats);
  indexes_removed = int64_or rs.indexes_removed (get_field (codes "indexes-removed") stats);
  constraints_added = int64_or rs.constraints_added (get_field (codes "constraints-added") stats);
  constraints_removed =
      int64_or rs.constraints_removed (get_field (codes "constraints-removed") stats);
  contains_updates = bool_or rs.contains_updates (get_field (codes "contains-updates") stats);
  contains_system_updates =
      bool_or rs.contains_system_updates (get_field (codes "contains-system-updates") stats);
}
update_from_stats _ rs = rs

unfoldable pub with_stats : Option Value → Summary → Summary
unfolding update_from_stats
with_stats none rs = rs
with_stats (some stats) rs = update_from_stats stats rs

unfoldable pub with_bookmark : Option Value → Summary → Summary
with_bookmark (some (string b)) rs = record rs { bookmark = b }
with_bookmark _ rs = rs

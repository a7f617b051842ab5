-- ===== src/Mongo/Indexes.antt =====
-- `ensure_all_indexes` of middleware_python/db/mongodb.py. A database is the names of the indexes of each
-- collection; whether the server lists a collection's indexes, and whether it makes an index, are
-- arguments. Of the options of an index only its name is kept.
pub mod Settled
pub mod Again
use social_graph_engine.Base.{
  ℕ, zero, suc, Bool, true, false, List, [], ◌∷◌, ◌++◌, length, Text, codes, text_eq, ◌||◌,
  if◌then◌else◌,
}

abbrev pub Database : Type 0
Database = Text → List Text

-- `_ALL_INDEXES`: the collections with the names of their indexes.
unfoldable pub all_indexes : List (Text × List Text)
all_indexes =
    (
      codes "analysis_snapshots",
      codes "idx_snapshot_id"
          ∷ codes "idx_user_timeline"
          ∷ codes "idx_algorithm_time"
          ∷ codes "idx_user_algo_time"
          ∷ codes "idx_algo_exec_time"
          ∷ codes "idx_ttl_90d"
          ∷ codes "idx_slow_queries_partial"
          ∷ codes "idx_text_search"
          ∷ codes "idx_metadata_wildcard"
          ∷ codes "idx_request_id"
          ∷ [],
    )
    ∷ (
      codes "operation_logs",
      codes "idx_user_ops"
          ∷ codes "idx_action_time"
          ∷ codes "idx_status_time"
          ∷ codes "idx_resource_time"
          ∷ codes "idx_action_status_time"
          ∷ codes "idx_ttl_30d"
          ∷ codes "idx_request_id"
          ∷ codes "idx_correlation_id"
          ∷ codes "idx_failures_recent_partial"
          ∷ codes "idx_session_time"
          ∷ [],
    )
    ∷ (codes "operation_stats_hourly", codes "idx_hour_unique" ∷ codes "idx_ttl_90d" ∷ [])
    ∷ (
      codes "performance_metrics",
      codes "idx_metric_ts" ∷ codes "idx_metric_algo_ts" ∷ codes "idx_ttl_7d" ∷ [],
    )
    ∷ (codes "performance_metrics_hourly", codes "idx_metric_hour" ∷ codes "idx_ttl_90d" ∷ [])
    ∷ (
      codes "cache_registry",
      codes "idx_cache_key_unique"
          ∷ codes "idx_algo_status_time"
          ∷ codes "idx_data_hash"
          ∷ codes "idx_ttl_30d"
          ∷ codes "idx_active_expires_partial"
          ∷ [],
    )
    ∷ (
      codes "graph_snapshots",
      codes "idx_timestamp_desc"
          ∷ codes "idx_snapshot_trend_covering"
          ∷ codes "idx_filehash_time"
          ∷ [],
    )
    ∷ []

-- `idx_name in existing_names`
unfoldable pub is_member : Text → List Text → Bool
is_member name [] = false
is_member name (x ∷ xs) = text_eq x name || is_member name xs

unfoldable pub put : Text → List Text → Database → Database
put name indexes db other = if text_eq name other then indexes else db other

module _ (lists : Text → Bool) (makes : Text → Text → Bool) where
  -- The loop over the specifications of a collection: the indexes that it makes. `existing` is read
  -- before the loop.
  unfoldable pub create_missing : Text → List Text → List Text → List Text
  create_missing coll existing [] = []
  create_missing coll existing (name ∷ names) =
      let rest = create_missing coll existing names in
      if is_member name existing then rest else if makes coll name then name ∷ rest else rest

  -- One collection; one whose indexes cannot be listed is skipped.
  unfoldable pub ensure_collection : Text → List Text → Database → List (Text × ℕ) × Database
  unfolding create_missing put
  ensure_collection coll names db =
      let created = create_missing coll (db coll) names in
      if lists coll
      then ((coll, length created) ∷ [], put coll (db coll ++ created) db)
      else ([], db)

  -- The loop over `_ALL_INDEXES`; `results`, and the database.
  unfoldable pub ensure_all : List (Text × List Text) → Database → List (Text × ℕ) × Database
  unfolding ensure_collection
  ensure_all [] db = ([], db)
  ensure_all ((coll, names) ∷ table) db =
      let (first, db') = ensure_collection coll names db in
      let (rest, db'') = ensure_all table db' in (first ++ rest, db'')

  -- `ensure_all_indexes`, given whether there is a database.
  unfoldable pub ensure_all_indexes : Bool → Database → List (Text × ℕ) × Database
  unfolding ensure_all all_indexes
  ensure_all_indexes connected db = if connected then ensure_all all_indexes db else ([], db)

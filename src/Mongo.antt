-- ===== src/Mongo.antt =====
-- middleware_python/db/mongodb.py: the connection, the bulk write of logs, and in the children the
-- creation of indexes, the registry of cache entries and the latency probe. The server and its driver
-- are arguments.
pub mod Indexes
pub mod Latency
pub mod Registry
mod Tests
use social_graph_engine.Base.{
  ℕ, Bool, true, false, not, Option, none, some, List, [], ◌∷◌, length, Text, codes, text_eq, ◌||◌,
  if◌then◌else◌,
}

-- `_mongo_client`, `_mongo_db` and `_mongo_failed`: whether they are set.
pub record Connection : Type 0 where
  pub client : Bool
  pub db : Bool
  pub failed : Bool

unfoldable pub unconnected : Connection
unconnected = record { client = false; db = false; failed = false }

-- What a first contact comes to: the constructor raises, the ping raises, or both are good.
pub data Contact : Type 0 where
  no_client no_ping good : Contact

unfoldable pub contact : Contact → Connection → Bool × Connection
contact no_client c = (false, record c { db = false; failed = true })
contact no_ping c = (false, record { client = true; db = false; failed = true })
contact good c = (true, record c { client = true; db = true })

-- `get_mongo_db`: whether it answers a database.
unfoldable pub get_mongo_db : Contact → Connection → Bool × Connection
unfolding contact
get_mongo_db k c = if c.db then (true, c) else if c.failed then (false, c) else contact k c

-- `close_mongo`
unfoldable pub close_mongo : Connection → Connection
unfolding unconnected
close_mongo c = if c.client then unconnected else c

-- `_get_write_concern_for_collection`
unfoldable pub get_write_concern_for_collection : Text → ℕ
get_write_concern_for_collection name =
    if text_eq name (codes "operation_logs")
      || (text_eq name (codes "operation_stats_hourly")
          || (text_eq name (codes "performance_metrics")
              || text_eq name (codes "performance_metrics_hourly")))
    then 0
    else 1

-- What `insert_many` comes to: the ids that it inserted, a BulkWriteError with its `nInserted`,
-- another exception.
pub data Bulk : Type 0 where
  inserted partial : ℕ → Bulk
  broken : Bulk

-- The count that `bulk_write_logs` answers; `none` is -1.
unfoldable pub bulk_count : Bulk → Option ℕ
bulk_count (inserted n) = some n
bulk_count (partial n) = some n
bulk_count broken = none

unfoldable pub bulk_write_logs : {D : Type 0} → (db : Bool) → Bulk → List D → Option ℕ
unfolding bulk_count
bulk_write_logs db b [] = some 0
bulk_write_logs db b (d ∷ documents) = if db then bulk_count b else none

-- A call on the connection.
pub data Call : Type 0 where
  get : Contact → Call
  close : Call

unfoldable pub call : Call → Connection → Connection
unfolding get_mongo_db close_mongo
call (get k) c = (get_mongo_db k c).1
call close c = close_mongo c

unfoldable pub run : List Call → Connection → Connection
run [] c = c
run (x ∷ calls) c = run calls (call x c)

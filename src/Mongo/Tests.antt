-- ===== src/Mongo/Tests.antt =====
-- Runs of middleware_python/db/mongodb.py against a server that keeps the keys of its entries.
use social_graph_engine.Base.{
  ℕ, zero, suc, ◌/◌, ◌≤◌, ◌≡◌, refl, ap, subst, Bool, true, false, Option, none, some, List, [],
  ◌∷◌, length, Text, codes, text_eq, All, arith, if◌then◌else◌, inr, ◌||◌,
}
use native.Mathlib.Nat.{le-div_iff_mul-le, div-le_of_le-mul, mul_comm}
use social_graph_engine.Mongo.{
  unconnected, no_client, no_ping, good, contact, get, close, call, run,
}
use social_graph_engine.Mongo.Latency.{
  IsMean, IsSummary, ping_latency_ms, ping_latency_ms-IsSummary,
}
use social_graph_engine.Mongo.Indexes.{
  Database, all_indexes, is_member, put, create_missing, ensure_all_indexes,
}
use social_graph_engine.Mongo.Indexes.Again.{IsLarger, ensure_all_indexes-again}
use social_graph_engine.Mongo.Registry
use social_graph_engine.Mongo.Registry.{Collection, conflicts, register, invalidate_hash}
use social_graph_engine.Mongo.Registry.Empty.{IsMongo, IsVacant, run-IsVacant}

-- A failed ping leaves a client: after `close_mongo` the next call connects. Without a client it does
-- not.
reconnects :
    run (get no_ping ∷ close ∷ get good ∷ []) unconnected
    ≡ record { client = true; db = true; failed = false }
unfolding run call unconnected contact
reconnects = refl

stays_failed :
    run (get no_client ∷ close ∷ get good ∷ []) unconnected
    ≡ record { client = false; db = false; failed = true }
unfolding run call unconnected contact
stays_failed = refl

-- The mean, rounded down.
abbrev floor_mean : ℕ → ℕ → ℕ
floor_mean s zero = 0
floor_mean s (suc n) = s / suc n

floor_mean-IsMean : IsMean floor_mean
floor_mean-IsMean zero s m positive = absurd (omega arith)
floor_mean-IsMean (suc n) s m positive = (
  (λ h. (le-div_iff_mul-le positive).1 h),
  (λ h. div-le_of_le-mul (suc n) (subst (λ t. s ≤ t) (mul_comm m (suc n)) h)),
)

abbrev pings : List (Option ℕ)
pings = some 120 ∷ some 80 ∷ none ∷ []

ping_latency_ms-IsSummary_example :
    IsSummary floor_mean true pings (ping_latency_ms floor_mean true pings)
ping_latency_ms-IsSummary_example =
    ping_latency_ms-IsSummary floor_mean true pings floor_mean-IsMean

-- A server that makes every index but one.
abbrev makes_most : Text → Text → Bool
makes_most coll name = if text_eq name (codes "idx_text_search") then false else true

abbrev fresh_run : List (Text × ℕ) × Database
fresh_run = ensure_all_indexes (λ c. true) makes_most true (λ c. [])

ensure_all_indexes-again_example :
    IsLarger (λ c. true) makes_most (λ c. []) fresh_run.1
    × ((ensure_all_indexes (λ c. true) makes_most true fresh_run.1).1 ≡ fresh_run.1)
    × All (λ (r : Text × ℕ). r.1 ≡ 0) (ensure_all_indexes (λ c. true) makes_most true fresh_run.1).0
ensure_all_indexes-again_example = ensure_all_indexes-again (λ c. true) makes_most true (λ c. [])

fresh_run_counts :
    fresh_run.0
    ≡ (codes "analysis_snapshots", 9)
      ∷ (codes "operation_logs", 10)
      ∷ (codes "operation_stats_hourly", 2)
      ∷ (codes "performance_metrics", 3)
      ∷ (codes "performance_metrics_hourly", 2)
      ∷ (codes "cache_registry", 5)
      ∷ (codes "graph_snapshots", 3)
      ∷ []
unfolding ensure_all_indexes all_indexes is_member put create_missing text_eq
fresh_run_counts = refl

abbrev has : Text → List Text → Bool
has k [] = false
has k (j ∷ keys) = text_eq j k || has k keys

abbrev keys_server : Collection Text (List Text)
keys_server = record {
  update_one = λ k u upsert s.
      if conflicts u
      then (false, s)
      else if has k s
      then (true, s)
      else if upsert
      then (true, k ∷ s)
      else (true, s);
  find_one = λ k s. some (if has k s then some k else none);
  update_many = λ f s. (some (length s), s);
}

keys_server-IsMongo : IsMongo Text (List Text) keys_server (λ s. s ≡ [])
keys_server-IsMongo = record {
  refuses = λ k u upsert s h. rw h refl;
  update_empty = λ k u s e. ground arith;
  find_empty = λ k s e. inr (rw e refl);
  update_many_empty = λ f s e. inr (ap (λ (l : List Text). some (length l)) e);
  update_many_stays = λ f s e. e;
}

abbrev registry_calls : List (Bool × Registry.Call)
registry_calls = (true, register (codes "a")) ∷ (true, invalidate_hash (codes "h")) ∷ []

run-IsVacant_example :
    All IsVacant (Registry.run keys_server registry_calls []).0
    × ((Registry.run keys_server registry_calls []).1 ≡ [])
run-IsVacant_example =
    run-IsVacant keys_server (λ s. s ≡ []) keys_server-IsMongo registry_calls [] refl

-- ===== src/Mongo/Registry.antt =====
-- The registry of cache entries in middleware_python/db/mongodb.py: `register_cache_entry`,
-- `record_cache_access`, `get_cache_entry`, `invalidate_cache_by_data_hash` and
-- `invalidate_cache_by_algorithm`. The collection `cache_registry` is behind an interface with the
-- commands that the code sends; an update is known by the paths of its operators.
pub mod Empty
use social_graph_engine.Base.{
  ℕ, zero, suc, Bool, true, false, Option, none, some, List, [], ◌∷◌, Text, codes, text_eq, ◌||◌,
  if◌then◌else◌,
}

-- The paths under `$set`, `$setOnInsert` and `$inc`.
pub record Update : Type 0 where
  pub set : List Text
  pub set_on_insert : List Text
  pub inc : List Text

-- The filters of `update_many`.
pub data Filter : Type 0 where
  active_of_hash active_of_algorithm : Text → Filter

-- `update_one` with the filter on `cache_key`, `find_one` and `update_many`, whose answer is
-- `modified_count`; `none` and `false` are an exception. `D` is the document, `S` the collection.
pub record Collection (D S : Type 0) : Type 0 where
  pub update_one : Text → Update → (upsert : Bool) → S → Bool × S
  pub find_one : Text → S → Option (Option D)
  pub update_many : Filter → S → Option ℕ × S

unfoldable pub shares : Text → List Text → Bool
shares p [] = false
shares p (q ∷ qs) = text_eq p q || shares p qs

unfoldable pub overlap : List Text → List Text → Bool
unfolding shares
overlap [] qs = false
overlap (p ∷ ps) qs = shares p qs || overlap ps qs

-- The same path under two operators.
unfoldable pub conflicts : Update → Bool
unfolding overlap
conflicts u =
    overlap u.set u.set_on_insert || (overlap u.set u.inc || overlap u.set_on_insert u.inc)

-- The update of `register_cache_entry`: `{"$set": doc, "$setOnInsert": {"access_count": 0}}`
unfoldable pub registration : Update
registration = record {
  set =
      codes "cache_key"
      ∷ codes "algorithm"
      ∷ codes "parameters_hash"
      ∷ codes "graph_data_hash"
      ∷ codes "result_size_bytes"
      ∷ codes "ttl_seconds"
      ∷ codes "access_count"
      ∷ codes "last_accessed_at"
      ∷ codes "status"
      ∷ codes "created_at"
      ∷ codes "expires_at"
      ∷ [];
  set_on_insert = codes "access_count" ∷ [];
  inc = [];
}

-- The update of `record_cache_access`
unfoldable pub access : Update
access = record {
  set = codes "last_accessed_at" ∷ [];
  set_on_insert = [];
  inc = codes "access_count" ∷ [];
}

abbrev or_zero : Option ℕ → ℕ
or_zero none = 0
or_zero (some n) = n

abbrev or_none : {A : Type 0} → Option (Option A) → Option A
or_none none = none
or_none (some o) = o

-- A call, and its answer.
pub data Call : Type 0 where
  register record_access get invalidate_hash invalidate_algorithm : Text → Call

pub data Answer (D : Type 0) : Type 0 where
  done : Bool → Answer D
  entry : Option D → Answer D
  count : ℕ → Answer D

module _ {D S : Type 0} (R : Collection D S) where
  unfoldable pub register_cache_entry : (db : Bool) → Text → S → Bool × S
  unfolding registration
  register_cache_entry db cache_key s =
      if db then R.update_one cache_key registration true s else (false, s)

  unfoldable pub record_cache_access : (db : Bool) → Text → S → Bool × S
  unfolding access
  record_cache_access db cache_key s =
      if db then R.update_one cache_key access false s else (false, s)

  unfoldable pub get_cache_entry : (db : Bool) → Text → S → Option D
  get_cache_entry db cache_key s = if db then or_none (R.find_one cache_key s) else none

  -- `update_many` with its `try`
  unfoldable pub mark_stale : (db : Bool) → Filter → S → ℕ × S
  mark_stale db filter s =
      if db then (let (n, s') = R.update_many filter s in (or_zero n, s')) else (0, s)

  unfoldable pub invalidate_cache_by_data_hash : (db : Bool) → Text → S → ℕ × S
  unfolding mark_stale
  invalidate_cache_by_data_hash db hash s = mark_stale db (active_of_hash hash) s

  unfoldable pub invalidate_cache_by_algorithm : (db : Bool) → Text → S → ℕ × S
  unfolding mark_stale
  invalidate_cache_by_algorithm db algorithm s = mark_stale db (active_of_algorithm algorithm) s

  unfoldable pub call : (db : Bool) → Call → S → Answer D × S
  unfolding register_cache_entry record_cache_access get_cache_entry invalidate_cache_by_data_hash
      invalidate_cache_by_algorithm
  call db (register k) s = let (b, s') = register_cache_entry db k s in (done b, s')
  call db (record_access k) s = let (b, s') = record_cache_access db k s in (done b, s')
  call db (get k) s = (entry (get_cache_entry db k s), s)
  call db (invalidate_hash h) s =
      let (n, s') = invalidate_cache_by_data_hash db h s in (count n, s')
  call db (invalidate_algorithm a) s =
      let (n, s') = invalidate_cache_by_algorithm db a s in (count n, s')

  -- A sequence of calls, each with whether there is a database at its time, and their answers.
  unfoldable pub run : List (Bool × Call) → S → List (Call × Answer D) × S
  run [] s = ([], s)
  run ((db, c) ∷ calls) s =
      let (a, s') = call db c s in let (rest, s'') = run calls s' in ((c, a) ∷ rest, s'')

-- ===== src/Sync.antt =====
-- `sync_all_algorithm_results` and `batch_update_algorithm_results` of
-- middleware_python/services/neo4j_service.py: the results of five algorithms of the engine are
-- merged by node and written to the users in Neo4j. What the engine and the second query answer are
-- inputs; the query of the update is written out: a member that a map of `$updates` lacks is null, and
-- `SET` of null removes a property. The values are of any type `V`, as `float`, `int` and `str`
-- convert them.
pub mod Rows
pub mod Merged
pub mod Users
pub mod Synchronised
mod Tests
use social_graph_engine.Base.{
  ℕ, ◌+◌, Bool, true, false, Option, none, some, List, [], ◌∷◌, length, Text, text_eq,
  if◌then◌else◌,
}

-- An element of an algorithm's `data`, with the members that it has beside `node`.
pub record Item (V : Type 0) : Type 0 where
  pub node : Text
  pub score : Option V
  pub coreness : Option V
  pub coefficient : Option V
  pub community : Option V

-- What `gather` has for an algorithm: an exception or an answer that is no success, or its data.
pub data Run (V : Type 0) : Type 0 where
  failed : Run V
  success : List (Item V) → Run V

-- An entry of `results_by_node`; `none` where the dict has no such member.
pub record Row (V : Type 0) : Type 0 where
  pub id : Text
  pub pagerank : Option V
  pub betweenness : Option V
  pub kcore : Option V
  pub clustering_coeff : Option V
  pub community_id : Option V
  pub community : Option V

-- A node `User` with the properties of the query; `none` where it has no such property.
pub record User (V : Type 0) : Type 0 where
  pub id : Text
  pub pagerank : Option V
  pub betweenness : Option V
  pub kcore : Option V
  pub clustering_coeff : Option V
  pub community_id : Option V
  pub degree : Option V

-- The arguments `field` and `key` of `_collect`.
pub data Field : Type 0 where
  pagerank betweenness kcore clustering_coeff community : Field

pub data Key : Type 0 where
  score coreness coefficient : Key

-- The answer: `synced` and `communities_created`; or the KeyError of `_collect`.
pub data Answer : Type 0 where
  synced : ℕ → ℕ → Answer
  key_error : Answer

-- What `execute_cypher_write` makes of the update: it answers; the update is done, but its answer is
-- lost; or the update is not done, also for want of a driver. The last two log a warning and give no
-- records.
pub data Write : Type 0 where
  answers lost refused : Write

-- `_sync_community_nodes`: the count that its query answers, 0 with no records.
unfoldable pub sync_community_nodes : Option ℕ → ℕ
sync_community_nodes none = 0
sync_community_nodes (some created) = created

module _ {V : Type 0} where
  unfoldable pub new_row : Text → Row V
  new_row id = record {
    id = id;
    pagerank = none;
    betweenness = none;
    kcore = none;
    clustering_coeff = none;
    community_id = none;
    community = none;
  }

  -- `results_by_node[node_id][field] = ...`
  unfoldable pub set_field : Field → V → Row V → Row V
  set_field pagerank v r = record r { pagerank = some v }
  set_field betweenness v r = record r { betweenness = some v }
  set_field kcore v r = record r { kcore = some v }
  set_field clustering_coeff v r = record r { clustering_coeff = some v }
  set_field community v r = record r { community = some v }

  -- `item[key]` and what is done with it; `none` is a KeyError.
  unfoldable pub assign : Field → Option V → Option (Row V → Row V)
  assign field none = none
  assign field (some v) = some (set_field field v)

  unfoldable pub by_key : Field → Key → Item V → Option (Row V → Row V)
  unfolding assign
  by_key field score item = assign field item.score
  by_key field coreness item = assign kcore item.coreness
  by_key field coefficient item = assign clustering_coeff item.coefficient

  -- `if field == "community"` in front of it
  unfoldable pub with_community : Option V → Option (Row V → Row V) → Option (Row V → Row V)
  with_community none later = none
  with_community (some c) none = none
  with_community (some c) (some set) = some (λ r. set (record r { community_id = some c }))

  unfoldable pub entry : Field → Key → Item V → Option (Row V → Row V)
  unfolding by_key with_community
  entry pagerank key item = by_key pagerank key item
  entry betweenness key item = by_key betweenness key item
  entry kcore key item = by_key kcore key item
  entry clustering_coeff key item = by_key clustering_coeff key item
  entry community key item = with_community item.community (by_key community key item)

  -- The entry of a node, which is made where it is missing.
  unfoldable pub upsert : Text → (Row V → Row V) → List (Row V) → List (Row V)
  unfolding new_row
  upsert id set [] = set (new_row id) ∷ []
  upsert id set (r ∷ rows) = if text_eq r.id id then set r ∷ rows else r ∷ upsert id set rows

  -- One turn of the loop, with the turns behind it.
  unfoldable pub collect_item :
      Option (Row V → Row V)
      → Text
      → (List (Row V) → Option (List (Row V)))
      → List (Row V)
      → Option (List (Row V))
  collect_item none id later rows = none
  collect_item (some set) id later rows = later (upsert id set rows)

  -- `for item in result.get("data", [])`
  unfoldable pub collect_items : Field → Key → List (Item V) → List (Row V) → Option (List (Row V))
  collect_items field key [] rows = some rows
  collect_items field key (item ∷ items) rows =
      collect_item (entry field key item) item.node (collect_items field key items) rows

  -- `_collect`
  unfoldable pub collect : Field → Key → Run V → List (Row V) → Option (List (Row V))
  collect field key failed rows = some rows
  collect field key (success items) rows = collect_items field key items rows

  abbrev pub then_collect :
      Option (List (Row V)) → (List (Row V) → Option (List (Row V))) → Option (List (Row V))
  then_collect none later = none
  then_collect (some rows) later = later rows

  -- The five calls of `_collect`
  unfoldable pub collect_all : (pr bc kc cc comm : Run V) → Option (List (Row V))
  collect_all pr bc kc cc comm = then_collect (collect pagerank score pr []) (λ rows.
      then_collect (collect betweenness score bc rows) (λ rows.
        then_collect (collect kcore coreness kc rows) (λ rows.
          then_collect (collect clustering_coeff coefficient cc rows)
            (collect community score comm))))

  -- `SET` of the query of `batch_update_algorithm_results`; the rows have no member `degree`.
  unfoldable pub set_user : Row V → User V → User V
  set_user r u = record {
    id = u.id;
    pagerank = r.pagerank;
    betweenness = r.betweenness;
    kcore = r.kcore;
    clustering_coeff = r.clustering_coeff;
    community_id = r.community_id;
    degree = none;
  }

  -- `MATCH (u:User {id: update.id}) SET ...`: the users, and how many were matched.
  unfoldable pub match_users : Row V → List (User V) → List (User V) × ℕ
  unfolding set_user
  match_users r [] = ([], 0)
  match_users r (u ∷ users) =
      let (users', n) = match_users r users in
      if text_eq u.id r.id then (set_user r u ∷ users', n + 1) else (u ∷ users', n)

  -- `UNWIND $updates AS update`
  unfoldable pub unwind : List (Row V) → List (User V) → List (User V) × ℕ
  unwind [] users = (users, 0)
  unwind (r ∷ rows) users =
      let (users', n) = match_users r users in
      let (users'', m) = unwind rows users' in (users'', n + m)

  -- `batch_update_algorithm_results`: `updated_count`, 0 with no records, and the users.
  unfoldable pub batch_update_algorithm_results :
      Write → List (Row V) → List (User V) → ℕ × List (User V)
  batch_update_algorithm_results answers rows users =
      let (users', n) = unwind rows users in (n, users')
  batch_update_algorithm_results lost rows users = (0, (unwind rows users).0)
  batch_update_algorithm_results refused rows users = (0, users)

  -- Behind the calls of `_collect`: the update and the query for the communities.
  unfoldable pub write_back :
      Option (List (Row V))
      → (outcome : Write) → (communities : Option ℕ) → List (User V)
      → Answer × List (User V)
  unfolding batch_update_algorithm_results
  write_back none outcome communities users = (key_error, users)
  write_back (some rows) outcome communities users =
      let (n, users') = batch_update_algorithm_results outcome rows users in
      (synced n (sync_community_nodes communities), users')

  -- `sync_all_algorithm_results`
  unfoldable pub sync_all_algorithm_results :
      (pr bc kc cc comm : Run V) → Write → Option ℕ → List (User V) → Answer × List (User V)
  unfolding collect_all write_back
  sync_all_algorithm_results pr bc kc cc comm outcome communities users =
      write_back (collect_all pr bc kc cc comm) outcome communities users

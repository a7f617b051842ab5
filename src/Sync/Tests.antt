-- ===== src/Sync/Tests.antt =====
-- Synchronisations of three users with the results of the engine.
use social_graph_engine.Base.{ℕ, ◌≡◌, refl, none, some, List, [], ◌∷◌, map, text_eq}
use social_graph_engine.Sync.{
  Item, Run, answers, refused, batch_update_algorithm_results, sync_community_nodes, failed,
  success, User, synced, key_error, sync_all_algorithm_results, collect_all, collect, collect_items,
  collect_item, entry, by_key, assign, with_community, upsert, new_row, set_field, write_back,
  unwind, match_users, set_user,
}
use social_graph_engine.Sync.Synchronised.{
  synchronised, sync_all_algorithm_results-users, sync_all_algorithm_results-fails,
}

program : Unit {0}
unfolding sync_all_algorithm_results collect_all collect collect_items collect_item entry by_key
    assign with_community upsert new_row set_field write_back batch_update_algorithm_results
    sync_community_nodes unwind match_users set_user text_eq
program = tt

abbrev user : ℕ → User ℕ
user n = record {
  id = n ∷ [];
  pagerank = some 1;
  betweenness = some 2;
  kcore = some 3;
  clustering_coeff = some 4;
  community_id = some 5;
  degree = some 6;
}

abbrev users : List (User ℕ)
users = user 1 ∷ user 2 ∷ user 3 ∷ []

abbrev scored : ℕ → ℕ → Item ℕ
scored n v = record {
  node = n ∷ [];
  score = some v;
  coreness = none;
  coefficient = none;
  community = none;
}

abbrev scores : Run ℕ
scores = success (scored 1 70 ∷ scored 2 80 ∷ [])

abbrev placed : Item ℕ
placed = record {
  node = 1 ∷ [];
  score = none;
  coreness = none;
  coefficient = none;
  community = some 9;
}

abbrev updated : List (User ℕ)
updated = (sync_all_algorithm_results scores failed failed failed failed answers (some 0) users).1

sync_all_algorithm_results-users_example :
    updated ≡ map (synchronised scores failed failed failed) users
unfolding program
sync_all_algorithm_results-users_example =
    sync_all_algorithm_results-users scores failed failed failed failed answers (some 0) users
      updated 2 0 tt refl

-- With Neo4j gone the answer is a success of 0 users.
sync_all_algorithm_results_refused :
    sync_all_algorithm_results scores failed failed failed failed refused none users
    ≡ (synced 0 0, users)
unfolding program
sync_all_algorithm_results_refused = refl

sync_all_algorithm_results-fails_example :
    sync_all_algorithm_results scores failed failed failed
      (success (placed ∷ []))
      answers
      (some 0)
      users
    ≡ (key_error, users)
sync_all_algorithm_results-fails_example =
    sync_all_algorithm_results-fails scores failed failed failed (placed ∷ []) answers (some 0)
      users (λ e. cc) (refl, tt)

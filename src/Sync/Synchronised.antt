-- ===== src/Sync/Synchronised.antt =====
-- What `sync_all_algorithm_results` (middleware_python/services/neo4j_service.py) leaves of each user.
use social_graph_engine.Base.{
  ℕ, ◌≡◌, ◌≢◌, refl, sym, ◌∙◌, ap, subst, Option, none, some, List, [], ◌∷◌, map, All,
}
use social_graph_engine.Sync.{
  Item, Write, answers, lost, refused, batch_update_algorithm_results, Run, success, Row, User,
  pagerank, betweenness, kcore, clustering_coeff, community, score, coreness, coefficient, Answer,
  synced, key_error, new_row, set_field, collect_item, collect_items, collect, collect_all,
  then_collect, set_user, unwind, write_back, sync_all_algorithm_results,
}
use social_graph_engine.Sync.Merged.{latest_of, IsUnscored, unscored, write, collect_all-find_row}
use social_graph_engine.Sync.Users.{update_from, refreshed, collect_all-IsKeyed, unwind-refreshed}

abbrev count : Answer → ℕ
count (synced n c) = n
count key_error = 0

module _ {V : Type 0} where
  -- A user with new values from some algorithm: all properties are overwritten.
  abbrev pub overwritten : (pr bc kc cc : Option V) → User V → User V
  overwritten none none none none u = u
  overwritten pr bc kc cc u = record {
    id = u.id;
    pagerank = pr;
    betweenness = bc;
    kcore = kc;
    clustering_coeff = cc;
    community_id = none;
    degree = none;
  }

  update_from-overwritten :
      (a b c d : Option V) (u : User V)
      → update_from
          (write clustering_coeff u.id d
            (write kcore u.id c (write betweenness u.id b (write pagerank u.id a none))))
          u
        ≡ overwritten a b c d u
  unfolding set_user set_field new_row
  update_from-overwritten none none none none u = refl
  update_from-overwritten none none none (some d) u = refl
  update_from-overwritten none none (some c) none u = refl
  update_from-overwritten none none (some c) (some d) u = refl
  update_from-overwritten none (some b) none none u = refl
  update_from-overwritten none (some b) none (some d) u = refl
  update_from-overwritten none (some b) (some c) none u = refl
  update_from-overwritten none (some b) (some c) (some d) u = refl
  update_from-overwritten (some a) none none none u = refl
  update_from-overwritten (some a) none none (some d) u = refl
  update_from-overwritten (some a) none (some c) none u = refl
  update_from-overwritten (some a) none (some c) (some d) u = refl
  update_from-overwritten (some a) (some b) none none u = refl
  update_from-overwritten (some a) (some b) none (some d) u = refl
  update_from-overwritten (some a) (some b) (some c) none u = refl
  update_from-overwritten (some a) (some b) (some c) (some d) u = refl

  -- What a synchronisation makes of a user.
  abbrev pub synchronised : (pr bc kc cc : Run V) → User V → User V
  synchronised pr bc kc cc u =
      overwritten (latest_of (λ i. i.score) u.id pr) (latest_of (λ i. i.score) u.id bc)
        (latest_of (λ i. i.coreness) u.id kc) (latest_of (λ i. i.coefficient) u.id cc) u

  map-pointwise :
      (f g : User V → User V) (users : List (User V))
      → ((u : User V) → f u ≡ g u)
      → map f users ≡ map g users
  map-pointwise f g [] same = refl
  map-pointwise f g (u ∷ users) same =
      ap (◌∷◌ (f u)) (map-pointwise f g users same) ∙ ap (λ v. v ∷ map g users) (same u)

  -- What a write leaves that would make `after` of the users, and what it counts.
  abbrev pub IsLeft : Write → (before after users' : List (User V)) → ℕ → Type 0
  IsLeft answers before after users' n = users' ≡ after
  IsLeft lost before after users' n = (users' ≡ after) × (n ≡ 0)
  IsLeft refused before after users' n = (users' ≡ before) × (n ≡ 0)

  written :
      (o : Option (List (Row V))) (outcome : Write) (communities : Option ℕ)
      (users users' : List (User V)) (n c : ℕ)
      → write_back o outcome communities users ≡ (synced n c, users')
      → (rows : List (Row V)) × (o ≡ some rows)
        × IsLeft outcome users (unwind rows users).0 users' n
  unfolding write_back batch_update_algorithm_results
  written none outcome communities users users' n c e = absurd (cc)
  written (some rows) answers communities users users' n c e =
      (rows, refl, sym (ap (λ (r : Answer × List (User V)). r.1) e))
  written (some rows) lost communities users users' n c e = (
    rows,
    refl,
    (
      sym (ap (λ (r : Answer × List (User V)). r.1) e),
      sym (ap (λ (r : Answer × List (User V)). count r.0) e),
    ),
  )
  written (some rows) refused communities users users' n c e = (
    rows,
    refl,
    (
      sym (ap (λ (r : Answer × List (User V)). r.1) e),
      sym (ap (λ (r : Answer × List (User V)). count r.0) e),
    ),
  )

  -- A synchronisation that answers a success whose update Neo4j has done writes to each user that some
  -- algorithm names the last values that the algorithms have for it, and nothing to other users. Such a
  -- user keeps none of its six values: what an algorithm that failed would have given is removed, and so
  -- are its degree and its community. A success whose update was refused, or whose driver was missing,
  -- leaves all users as they were and counts 0; where the update is done and its answer lost, the count is
  -- 0 too. The items of the community run have no score, as the engine prints them.
  pub sync_all_algorithm_results-users :
      (pr bc kc cc comm : Run V) (outcome : Write) (communities : Option ℕ)
      (users users' : List (User V)) (n c : ℕ)
      → IsUnscored comm
      → sync_all_algorithm_results pr bc kc cc comm outcome communities users ≡ (synced n c, users')
      → IsLeft outcome users (map (synchronised pr bc kc cc) users) users' n
  unfolding sync_all_algorithm_results
  sync_all_algorithm_results-users pr bc kc cc comm outcome communities users users' n c bare e =
      let (rows, collected, left) =
        written (collect_all pr bc kc cc comm) outcome communities users users' n c e in
      subst (λ after. IsLeft outcome users after users' n)
        (unwind-refreshed rows users (collect_all-IsKeyed pr bc kc cc comm rows collected)
          ∙ map-pointwise (refreshed rows) (synchronised pr bc kc cc) users (λ u.
            ap (λ o. update_from o u)
              (collect_all-find_row pr bc kc cc comm rows u.id bare collected)
            ∙ update_from-overwritten (latest_of (λ i. i.score) u.id pr)
                (latest_of (λ i. i.score) u.id bc) (latest_of (λ i. i.coreness) u.id kc)
                (latest_of (λ i. i.coefficient) u.id cc) u))
        left

  then_collect-none :
      (o : Option (List (Row V))) (later : List (Row V) → Option (List (Row V)))
      → ((rows : List (Row V)) → later rows ≡ none)
      → then_collect o later ≡ none
  then_collect-none none later fails = refl
  then_collect-none (some rows) later fails = fails rows

  community_error :
      (items : List (Item V)) (rows : List (Row V))
      → items ≢ []
      → All (λ item. item.score ≡ none) items
      → collect community score (success items) rows ≡ none
  unfolding collect collect_items collect_item
  community_error [] rows there bare = absurd (there refl)
  community_error (item ∷ items) rows there bare = rw (unscored item bare.0) refl

  -- Whenever the community run succeeds with the data that the engine prints, at least one node and no
  -- scores, the synchronisation ends in a KeyError and writes nothing, whatever the other algorithms
  -- answer.
  pub sync_all_algorithm_results-fails :
      (pr bc kc cc : Run V) (items : List (Item V)) (outcome : Write) (communities : Option ℕ)
      (users : List (User V))
      → items ≢ []
      → IsUnscored (success items)
      → sync_all_algorithm_results pr bc kc cc (success items) outcome communities users
        ≡ (key_error, users)
  unfolding sync_all_algorithm_results write_back collect_all
  sync_all_algorithm_results-fails pr bc kc cc items outcome communities users there bare =
      ap (λ o. write_back o outcome communities users)
        (then_collect-none (collect pagerank score pr []) _ (λ r₁.
          then_collect-none (collect betweenness score bc r₁) _ (λ r₂.
            then_collect-none (collect kcore coreness kc r₂) _ (λ r₃.
              then_collect-none (collect clustering_coeff coefficient cc r₃) _
                (λ r₄. community_error items r₄ there bare)))))

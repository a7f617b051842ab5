-- ===== src/Sync/Merged.antt =====
-- What `sync_all_algorithm_results` (middleware_python/services/neo4j_service.py) makes of each user.
use social_graph_engine.Base.{
  ◌≡◌, refl, ◌∙◌, ap, Bool, true, false, Option, none, some, List, [], ◌∷◌, Text, text_eq,
  if◌then◌else◌, arith, Option-cases, inl, inr, All,
}
use social_graph_engine.Sync.{
  Item, Run, failed, success, Row, Field, pagerank, betweenness, kcore, clustering_coeff, community,
  Key, score, coreness, coefficient, set_field, assign, by_key, with_community, entry, collect_item,
  collect_items, collect, collect_all, then_collect,
}
use social_graph_engine.Sync.Rows.{find_row, or_new, apply_entry, trace, collect_items-find_row}

module _ {V : Type 0} where
  abbrev pub or_else : Option V → Option V → Option V
  or_else none acc = acc
  or_else (some v) acc = some v

  -- The value that the last item of node `j` has under `get`.
  abbrev pub latest : (Item V → Option V) → Text → List (Item V) → Option V → Option V
  latest get j [] acc = acc
  latest get j (item ∷ items) acc =
      latest get j items (if text_eq item.node j then or_else (get item) acc else acc)

  abbrev pub latest_of : (Item V → Option V) → Text → Run V → Option V
  latest_of get j failed = none
  latest_of get j (success items) = latest get j items none

  -- An entry with a field written, if there is a value.
  abbrev pub write : Field → Text → Option V → Option (Row V) → Option (Row V)
  write field j none o = o
  write field j (some v) o = some (set_field field v (or_new j o))

  set_field_twice :
      (field : Field) (v w : V) (r : Row V)
      → set_field field v (set_field field w r) ≡ set_field field v r
  unfolding set_field
  set_field_twice pagerank v w r = refl
  set_field_twice betweenness v w r = refl
  set_field_twice kcore v w r = refl
  set_field_twice clustering_coeff v w r = refl
  set_field_twice community v w r = refl

  write_again :
      (field : Field) (j : Text) (acc : Option V) (o : Option (Row V)) (found : Option V) (b : Bool)
      → apply_entry (assign field found) b j (write field j acc o)
        ≡ write field j (if b then or_else found acc else acc) o
  unfolding assign
  write_again field j acc o none true = refl
  write_again field j acc o none false = refl
  write_again field j none o (some v) true = refl
  write_again field j (some w) o (some v) true = ap some (set_field_twice field v w (or_new j o))
  write_again field j acc o (some v) false = refl

  -- An algorithm whose entries assign `get item` to `field`.
  trace-write :
      (field target : Field) (key : Key) (get : Item V → Option V) (j : Text)
      (items : List (Item V)) (acc : Option V) (o : Option (Row V))
      → ((item : Item V) → entry field key item ≡ assign target (get item))
      → trace field key j items (write target j acc o) ≡ write target j (latest get j items acc) o
  trace-write field target key get j [] acc o assigns = refl
  trace-write field target key get j (item ∷ items) acc o assigns =
      let b = text_eq item.node j in
      ap (λ e. trace field key j items (apply_entry e b j (write target j acc o))) (assigns item)
      ∙ ap (trace field key j items) (write_again target j acc o (get item) b)
      ∙ trace-write field target key get j items (if b then or_else (get item) acc else acc) o
          assigns

  collect-find_row :
      (field target : Field) (key : Key) (get : Item V → Option V) (run : Run V)
      (rows rows' : List (Row V)) (j : Text)
      → ((item : Item V) → entry field key item ≡ assign target (get item))
      → collect field key run rows ≡ some rows'
      → find_row j rows' ≡ write target j (latest_of get j run) (find_row j rows)
  unfolding collect
  collect-find_row field target key get failed rows rows' j assigns e = ap (find_row j) (cc)
  collect-find_row field target key get (success items) rows rows' j assigns e =
      collect_items-find_row field key items rows rows' j e
      ∙ trace-write field target key get j items none (find_row j rows) assigns

  -- No item of the community run has a score: the engine prints a node and its community.
  abbrev pub IsUnscored : Run V → Type 0
  IsUnscored failed = Unit
  IsUnscored (success items) = All (λ item. item.score ≡ none) items

  pub unscored : (item : Item V) → item.score ≡ none → entry community score item ≡ none
  unfolding entry by_key assign with_community
  unscored item e = elim (Option-cases item.community) [
    | inl bare ↦ ground arith
    | inr (c, there) ↦ ground arith
  ]

  collect_community :
      (run : Run V) (rows rows' : List (Row V))
      → IsUnscored run
      → collect community score run rows ≡ some rows'
      → rows' ≡ rows
  unfolding collect collect_items collect_item
  collect_community failed rows rows' bare e = cc
  collect_community (success []) rows rows' bare e = cc
  collect_community (success (item ∷ items)) rows rows' bare e = absurd (cc (unscored item bare.0))

  pub then_collect-some :
      (o : Option (List (Row V))) (later : List (Row V) → Option (List (Row V)))
      {rows : List (Row V)}
      → then_collect o later ≡ some rows
      → (before : List (Row V)) × (o ≡ some before) × (later before ≡ some rows)
  then_collect-some none later e = absurd (cc)
  then_collect-some (some before) later e = (before, refl, e)

  -- The entry of a node behind the five algorithms.
  abbrev pub entry_of : (pr bc kc cc : Run V) → Text → Option (Row V)
  entry_of pr bc kc cc j = write clustering_coeff j (latest_of (λ i. i.coefficient) j cc) (
      write kcore j (latest_of (λ i. i.coreness) j kc) (
        write betweenness j (latest_of (λ i. i.score) j bc)
          (write pagerank j (latest_of (λ i. i.score) j pr) none)))

  pub collect_all-find_row :
      (pr bc kc cc comm : Run V) (rows : List (Row V)) (j : Text)
      → IsUnscored comm
      → collect_all pr bc kc cc comm ≡ some rows
      → find_row j rows ≡ entry_of pr bc kc cc j
  unfolding collect_all entry by_key
  collect_all-find_row pr bc kc cc comm rows j bare e =
      let (r₁, e₁, f₁) = then_collect-some (collect pagerank score pr []) _ e in
      let (r₂, e₂, f₂) = then_collect-some (collect betweenness score bc r₁) _ f₁ in
      let (r₃, e₃, f₃) = then_collect-some (collect kcore coreness kc r₂) _ f₂ in
      let (r₄, e₄, f₄) = then_collect-some (collect clustering_coeff coefficient cc r₃) _ f₃ in
      ap (find_row j) (collect_community comm r₄ rows bare f₄)
      ∙ collect-find_row clustering_coeff clustering_coeff coefficient (λ i. i.coefficient) cc r₃ r₄
          j (λ i. refl) e₄
      ∙ ap (write clustering_coeff j (latest_of (λ i. i.coefficient) j cc)) (
          collect-find_row kcore kcore coreness (λ i. i.coreness) kc r₂ r₃ j (λ i. refl) e₃
          ∙ ap (write kcore j (latest_of (λ i. i.coreness) j kc)) (
              collect-find_row betweenness betweenness score (λ i. i.score) bc r₁ r₂ j (λ i. refl)
                e₂
              ∙ ap (write betweenness j (latest_of (λ i. i.score) j bc)) (
                  collect-find_row pagerank pagerank score (λ i. i.score) pr [] r₁ j (λ i. refl)
                    e₁)))

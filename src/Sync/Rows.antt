-- ===== src/Sync/Rows.antt =====
-- `results_by_node` of `sync_all_algorithm_results` (middleware_python/services/neo4j_service.py), looked
-- up by node.
use social_graph_engine.Base.{
  ◌≡◌, refl, ◌∙◌, ap, subst, Bool, true, false, Option, none, some, List, [], ◌∷◌, Text, text_eq,
  text_eq_sound, if◌then◌else◌, arith, Bool-cases, inl, inr,
}
use social_graph_engine.Sync.{
  Item, Row, Field, Key, new_row, entry, pagerank, betweenness, kcore, clustering_coeff, community,
  score, coreness, coefficient, assign, by_key, with_community, set_field, upsert, collect_item,
  collect_items,
}

differ_from : (a i j : Text) → text_eq a j ≡ true → text_eq a i ≡ false → text_eq i j ≡ false
differ_from a i j mine other = elim (Bool-cases (text_eq i j)) [
  | inl same ↦
      let agree : i ≡ j = text_eq_sound i j same in
      let clash : text_eq a i ≡ true = rw agree mine in absurd (ground arith)
  | inr differ ↦ differ
]

module _ {V : Type 0} where
  abbrev pub find_row : Text → List (Row V) → Option (Row V)
  find_row id [] = none
  find_row id (r ∷ rows) = if text_eq r.id id then some r else find_row id rows

  abbrev pub or_new : Text → Option (Row V) → Row V
  or_new id none = new_row id
  or_new id (some r) = r

  -- A setter that leaves the id as it is.
  abbrev pub KeepsId : (Row V → Row V) → Type 0
  KeepsId set = (r : Row V) → (set r).id ≡ r.id

  pub find_row-id :
      (id : Text) (rows : List (Row V)) {r : Row V} → find_row id rows ≡ some r → r.id ≡ id
  find_row-id id [] e = cc
  find_row-id id (r ∷ rows) e = elim (Bool-cases (text_eq r.id id)) [
    | inl same ↦ ground (arith, text_eq_sound r.id id same)
    | inr other ↦ find_row-id id rows (rw other at e)
  ]

  kept :
      (set : Row V → Row V) (r : Row V) (j : Text)
      → KeepsId set
      → text_eq (set r).id j ≡ text_eq r.id j
  kept set r j keeps = ap (λ i. text_eq i j) (keeps r)

  -- The entry of a node behind an update of it; other entries stay.
  pub find_row-upsert :
      (id j : Text) (set : Row V → Row V) (rows : List (Row V))
      → KeepsId set
      → find_row j (upsert id set rows)
        ≡ (if text_eq id j then some (set (or_new id (find_row j rows))) else find_row j rows)
  unfolding upsert new_row
  find_row-upsert id j set [] keeps = rw (kept set (new_row id) j keeps) refl
  find_row-upsert id j set (r ∷ rows) keeps = elim (Bool-cases (text_eq r.id id)) [
    | inl same ↦
        let agree : text_eq r.id j ≡ text_eq id j =
          ap (λ i. text_eq i j) (text_eq_sound r.id id same) in
        ground (arith, kept set r j keeps)
    | inr other ↦ elim (Bool-cases (text_eq r.id j)) [
      | inl mine ↦
          let differ : text_eq id j ≡ false = differ_from r.id id j mine other in ground arith
      | inr not_mine ↦ ground (arith, find_row-upsert id j set rows keeps)
    ]
  ]

  -- What the loop over an algorithm's items makes of the entry of node `j`: an update for each of
  -- its items, in order.
  abbrev pub apply_entry : Option (Row V → Row V) → Bool → Text → Option (Row V) → Option (Row V)
  apply_entry none mine j o = o
  apply_entry (some set) true j o = some (set (or_new j o))
  apply_entry (some set) false j o = o

  abbrev pub trace : Field → Key → Text → List (Item V) → Option (Row V) → Option (Row V)
  trace field key j [] o = o
  trace field key j (item ∷ items) o =
      trace field key j items (apply_entry (entry field key item) (text_eq item.node j) j o)

  set_field-id : (field : Field) (v : V) (r : Row V) → (set_field field v r).id ≡ r.id
  unfolding set_field
  set_field-id pagerank v r = refl
  set_field-id betweenness v r = refl
  set_field-id kcore v r = refl
  set_field-id clustering_coeff v r = refl
  set_field-id community v r = refl

  assign-KeepsId :
      (field : Field) (o : Option V) (set : Row V → Row V) → assign field o ≡ some set → KeepsId set
  unfolding assign
  assign-KeepsId field none set e r = absurd (cc)
  assign-KeepsId field (some v) set e r =
      let same : set_field field v ≡ set = cc in
      subst (λ (g : Row V → Row V). (g r).id ≡ r.id) same (set_field-id field v r)

  by_key-KeepsId :
      (field : Field) (key : Key) (item : Item V) (set : Row V → Row V)
      → by_key field key item ≡ some set
      → KeepsId set
  unfolding by_key
  by_key-KeepsId field score item set e = assign-KeepsId field item.score set e
  by_key-KeepsId field coreness item set e = assign-KeepsId kcore item.coreness set e
  by_key-KeepsId field coefficient item set e =
      assign-KeepsId clustering_coeff item.coefficient set e

  with_community-KeepsId :
      (o : Option V) (p : Option (Row V → Row V)) (set : Row V → Row V)
      → with_community o p ≡ some set
      → ((inner : Row V → Row V) → p ≡ some inner → KeepsId inner)
      → KeepsId set
  unfolding with_community
  with_community-KeepsId none p set e keeps r = absurd (cc)
  with_community-KeepsId (some c) none set e keeps r = absurd (cc)
  with_community-KeepsId (some c) (some inner) set e keeps r =
      let both : Row V → Row V = λ q. inner (record q { community_id = some c }) in
      let same : both ≡ set = cc in
      subst (λ (g : Row V → Row V). (g r).id ≡ r.id) same
        (keeps inner refl (record r { community_id = some c }))

  -- Every update of `_collect` leaves the id as it is.
  pub entry-KeepsId :
      (field : Field) (key : Key) (item : Item V) (set : Row V → Row V)
      → entry field key item ≡ some set
      → KeepsId set
  unfolding entry
  entry-KeepsId pagerank key item set e = by_key-KeepsId pagerank key item set e
  entry-KeepsId betweenness key item set e = by_key-KeepsId betweenness key item set e
  entry-KeepsId kcore key item set e = by_key-KeepsId kcore key item set e
  entry-KeepsId clustering_coeff key item set e = by_key-KeepsId clustering_coeff key item set e
  entry-KeepsId community key item set e =
      with_community-KeepsId item.community (by_key community key item) set e
        (by_key-KeepsId community key item)

  apply_entry-upsert :
      (id j : Text) (set : Row V → Row V) (rows : List (Row V))
      → KeepsId set
      → find_row j (upsert id set rows) ≡ apply_entry (some set) (text_eq id j) j (find_row j rows)
  apply_entry-upsert id j set rows keeps =
      find_row-upsert id j set rows keeps ∙ pick (text_eq id j) refl
    where
      pick :
          (b : Bool)
          → text_eq id j ≡ b
          → (if b then some (set (or_new id (find_row j rows))) else find_row j rows)
            ≡ apply_entry (some set) b j (find_row j rows)
      pick true same = ap (λ i. some (set (or_new i (find_row j rows)))) (text_eq_sound id j same)
      pick false other = refl

  pub collect_items-find_row :
      (field : Field) (key : Key) (items : List (Item V)) (rows rows' : List (Row V)) (j : Text)
      → collect_items field key items rows ≡ some rows'
      → find_row j rows' ≡ trace field key j items (find_row j rows)
  unfolding collect_items collect_item
  collect_items-find_row field key [] rows rows' j e = ap (find_row j) (cc)
  collect_items-find_row field key (item ∷ items) rows rows' j e =
      go (entry field key item) refl e (λ rows. collect_items-find_row field key items rows rows' j)
    where
      go :
          (o : Option (Row V → Row V))
          → entry field key item ≡ o
          → collect_item o item.node (collect_items field key items) rows ≡ some rows'
          → ((before : List (Row V))
              → collect_items field key items before ≡ some rows'
              → find_row j rows' ≡ trace field key j items (find_row j before))
          → find_row j rows'
            ≡ trace field key j items (apply_entry o (text_eq item.node j) j (find_row j rows))
      go none known e ih = absurd (cc)
      go (some set) known e ih =
          ih (upsert item.node set rows) e
          ∙ ap (trace field key j items)
              (apply_entry-upsert item.node j set rows (entry-KeepsId field key item set known))

-- ===== src/Sync/Users.antt =====
-- The query of `batch_update_algorithm_results` (middleware_python/services/neo4j_service.py): the rows
-- have different ids, and each user is written from the row of its id.
use social_graph_engine.Base.{
  ◌≡◌, refl, sym, ◌∙◌, ap, subst, true, false, Option, none, some, List, [], ◌∷◌, map, Text,
  text_eq, text_eq_sound, if◌then◌else◌, arith, Bool-cases, Option-cases, inl, inr,
}
use social_graph_engine.Sync.{
  Item, Run, failed, success, Row, User, Field, pagerank, betweenness, kcore, clustering_coeff,
  community, Key, score, coreness, coefficient, entry, upsert, collect_item, collect_items, collect,
  collect_all, set_user, match_users, unwind,
}
use social_graph_engine.Sync.Rows.{find_row, or_new, KeepsId, find_row-upsert, entry-KeepsId}
use social_graph_engine.Sync.Merged.{then_collect-some}

text_eq_sym : (s t : Text) → text_eq s t ≡ text_eq t s
text_eq_sym s t = elim (Bool-cases (text_eq s t)) [
  | inl same ↦ rw (text_eq_sound s t same) refl
  | inr other ↦ elim (Bool-cases (text_eq t s)) [
    | inl back ↦ rw (text_eq_sound t s back) refl
    | inr differ ↦ other ∙ sym differ
  ]
]

module _ {V : Type 0} where
  -- No id stands twice.
  abbrev pub IsKeyed : List (Row V) → Type 0
  IsKeyed [] = Unit
  IsKeyed (r ∷ rows) = (find_row r.id rows ≡ none) × IsKeyed rows

  upsert-IsKeyed :
      (id : Text) (set : Row V → Row V) (rows : List (Row V))
      → KeepsId set
      → IsKeyed rows
      → IsKeyed (upsert id set rows)
  unfolding upsert
  upsert-IsKeyed id set [] keeps k = (refl, tt)
  upsert-IsKeyed id set (r ∷ rows) keeps k = elim (Bool-cases (text_eq r.id id)) [
    | inl same ↦ rw same (ap (λ i. find_row i rows) (keeps r) ∙ k.0, k.1)
    | inr other ↦ rw other (
      find_row-upsert id r.id set rows keeps
          ∙ ap (λ b. if b then some (set (or_new id (find_row r.id rows))) else find_row r.id rows)
              (text_eq_sym id r.id ∙ other)
          ∙ k.0,
      upsert-IsKeyed id set rows keeps k.1,
    )
  ]

  collect_items-IsKeyed :
      (field : Field) (key : Key) (items : List (Item V)) (rows rows' : List (Row V))
      → IsKeyed rows
      → collect_items field key items rows ≡ some rows'
      → IsKeyed rows'
  unfolding collect_items collect_item
  collect_items-IsKeyed field key [] rows rows' k e = subst IsKeyed (cc) k
  collect_items-IsKeyed field key (item ∷ items) rows rows' k e =
      elim (Option-cases (entry field key item)) [
        | inl bad ↦ absurd (cc bad)
        | inr (set, good) ↦
            collect_items-IsKeyed field key items (upsert item.node set rows) rows'
              (upsert-IsKeyed item.node set rows (entry-KeepsId field key item set good) k)
              (cc good)
      ]

  collect-IsKeyed :
      (field : Field) (key : Key) (run : Run V) (rows rows' : List (Row V))
      → IsKeyed rows
      → collect field key run rows ≡ some rows'
      → IsKeyed rows'
  unfolding collect
  collect-IsKeyed field key failed rows rows' k e = subst IsKeyed (cc) k
  collect-IsKeyed field key (success items) rows rows' k e =
      collect_items-IsKeyed field key items rows rows' k e

  pub collect_all-IsKeyed :
      (pr bc kc cc comm : Run V) (rows : List (Row V))
      → collect_all pr bc kc cc comm ≡ some rows
      → IsKeyed rows
  unfolding collect_all
  collect_all-IsKeyed pr bc kc cc comm rows e =
      let (r₁, e₁, f₁) = then_collect-some (collect pagerank score pr []) _ e in
      let (r₂, e₂, f₂) = then_collect-some (collect betweenness score bc r₁) _ f₁ in
      let (r₃, e₃, f₃) = then_collect-some (collect kcore coreness kc r₂) _ f₂ in
      let (r₄, e₄, f₄) = then_collect-some (collect clustering_coeff coefficient cc r₃) _ f₃ in
      collect-IsKeyed community score comm r₄ rows
        (collect-IsKeyed clustering_coeff coefficient cc r₃ r₄
          (collect-IsKeyed kcore coreness kc r₂ r₃
            (collect-IsKeyed betweenness score bc r₁ r₂
              (collect-IsKeyed pagerank score pr [] r₁ tt e₁) e₂)
            e₃)
          e₄)
        f₄

  -- A user behind the update with the row of its id, if there is one.
  abbrev pub update_from : Option (Row V) → User V → User V
  update_from none u = u
  update_from (some r) u = set_user r u

  abbrev pub refreshed : List (Row V) → User V → User V
  refreshed rows u = update_from (find_row u.id rows) u

  abbrev matched : Row V → User V → User V
  matched r u = if text_eq u.id r.id then set_user r u else u

  match_users-map :
      (r : Row V) (users : List (User V)) → (match_users r users).0 ≡ map (matched r) users
  unfolding match_users
  match_users-map r [] = refl
  match_users-map r (u ∷ users) = ground (arith, match_users-map r users)

  refreshed-matched :
      (r : Row V) (rows : List (Row V)) (u : User V)
      → find_row r.id rows ≡ none
      → refreshed rows (matched r u) ≡ refreshed (r ∷ rows) u
  unfolding set_user
  refreshed-matched r rows u alone = elim (Bool-cases (text_eq u.id r.id)) [
    | inl same ↦
        let back : text_eq r.id u.id ≡ true = text_eq_sym r.id u.id ∙ same in
        let gone : find_row u.id rows ≡ none =
          subst (λ i. find_row i rows ≡ none) (sym (text_eq_sound u.id r.id same)) alone in
        ap (λ b. refreshed rows (if b then set_user r u else u)) same
        ∙ ap (λ o. update_from o (set_user r u)) gone
        ∙ ap (λ b. update_from (if b then some r else find_row u.id rows) u) (sym back)
    | inr other ↦
        let back : text_eq r.id u.id ≡ false = text_eq_sym r.id u.id ∙ other in
        ap (λ b. refreshed rows (if b then set_user r u else u)) other
        ∙ ap (λ b. update_from (if b then some r else find_row u.id rows) u) (sym back)
  ]

  pub unwind-refreshed :
      (rows : List (Row V)) (users : List (User V))
      → IsKeyed rows
      → (unwind rows users).0 ≡ map (refreshed rows) users
  unfolding unwind
  unwind-refreshed [] users k = same users
    where
      same : (users : List (User V)) → users ≡ map (refreshed []) users
      same [] = refl
      same (u ∷ users) = ap (◌∷◌ u) (same users)
  unwind-refreshed (r ∷ rows) users k =
      unwind-refreshed rows (match_users r users).0 k.1
      ∙ ap (map (refreshed rows)) (match_users-map r users)
      ∙ both users
    where
      both :
          (users : List (User V))
          → map (refreshed rows) (map (matched r) users) ≡ map (refreshed (r ∷ rows)) users
      both [] = refl
      both (u ∷ users) =
          ap (◌∷◌ (refreshed rows (matched r u))) (both users)
          ∙ ap (λ v. v ∷ map (refreshed (r ∷ rows)) users) (refreshed-matched r rows u k.0)

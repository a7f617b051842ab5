-- ===== src/Mongo/Indexes/Again.antt =====
-- `ensure_all_indexes` (middleware_python/db/mongodb.py) run twice.
use social_graph_engine.Base.{
  ℕ, ◌≡◌, refl, sym, ◌∙◌, ap, subst, Bool, true, false, List, [], ◌∷◌, ◌++◌, Text, text_eq,
  text_eq_sound, text_eq_refl, if◌then◌else◌, Bool-cases, inl, inr, All,
}
use mathlib.Core.Path.{fun_ext}
use mathlib.Core.List.{append-nil}
use social_graph_engine.Mongo.Indexes.{
  Database, all_indexes, is_member, put, create_missing, ensure_collection, ensure_all,
  ensure_all_indexes,
}
use social_graph_engine.Mongo.Indexes.Settled.{
  IsAmong, IsAmong-append, IsSettled, IsSettled-mono, create_missing-IsSettled,
}

module _ (lists : Text → Bool) (makes : Text → Text → Bool) where
  -- Nothing is left to make in the collections that can be listed.
  abbrev pub IsComplete : List (Text × List Text) → Database → Type 0
  IsComplete table db =
      All
        (λ (entry : Text × List Text).
          (lists entry.0 ≡ true) → IsSettled lists makes entry.0 entry.1 (db entry.0))
        table

  abbrev pub IsLarger : Database → Database → Type 0
  IsLarger db db' = (coll : Text) → IsAmong (db coll) (db' coll)

  ensure_collection-IsLarger :
      (coll : Text) (names : List Text) (db : Database)
      → IsLarger db (ensure_collection lists makes coll names db).1
  unfolding ensure_collection put
  ensure_collection-IsLarger coll names db other name h = elim (Bool-cases (lists coll)) [
    | inr unlisted ↦ rw unlisted h
    | inl listed ↦ elim (Bool-cases (text_eq coll other)) [
      | inr different ↦ rw (listed, different) h
      | inl same ↦
          let here : is_member name (db coll) ≡ true =
            subst (λ c. is_member name (db c) ≡ true) (sym (text_eq_sound coll other same)) h in
          rw (listed, same)
            (IsAmong-append (db coll) (create_missing lists makes coll (db coll) names) name here)
    ]
  ]

  IsComplete-mono :
      (table : List (Text × List Text)) (db db' : Database)
      → IsLarger db db'
      → IsComplete table db
      → IsComplete table db'
  IsComplete-mono [] db db' larger c = tt
  IsComplete-mono ((coll, names) ∷ table) db db' larger c = (
    λ listed. IsSettled-mono lists makes coll names (db coll) (db' coll) (larger coll) (c.0 listed),
    IsComplete-mono table db db' larger c.1,
  )

  put_self : (coll : Text) (names : List Text) (db : Database) → put coll names db coll ≡ names
  unfolding put
  put_self coll names db = rw (text_eq_refl coll) refl

  ensure_collection_self :
      (coll : Text) (names : List Text) (db : Database)
      → lists coll ≡ true
      → (ensure_collection lists makes coll names db).1 coll
        ≡ db coll ++ create_missing lists makes coll (db coll) names
  unfolding ensure_collection
  ensure_collection_self coll names db listed =
      rw listed (put_self coll (db coll ++ create_missing lists makes coll (db coll) names) db)

  ensure_collection-IsSettled :
      (coll : Text) (names : List Text) (db : Database)
      → lists coll ≡ true
      → IsSettled lists makes coll names ((ensure_collection lists makes coll names db).1 coll)
  ensure_collection-IsSettled coll names db listed =
      subst (IsSettled lists makes coll names) (sym (ensure_collection_self coll names db listed))
        (create_missing-IsSettled lists makes coll names (db coll))

  ensure_all-IsLarger :
      (table : List (Text × List Text)) (db : Database)
      → IsLarger db (ensure_all lists makes table db).1
  unfolding ensure_all
  ensure_all-IsLarger [] db coll name h = h
  ensure_all-IsLarger ((c, names) ∷ table) db coll name h =
      ensure_all-IsLarger table (ensure_collection lists makes c names db).1 coll name
        (ensure_collection-IsLarger c names db coll name h)

  pub ensure_all-IsComplete :
      (table : List (Text × List Text)) (db : Database)
      → IsComplete table (ensure_all lists makes table db).1
  unfolding ensure_all
  ensure_all-IsComplete [] db = tt
  ensure_all-IsComplete ((c, names) ∷ table) db =
      let db' = (ensure_collection lists makes c names db).1 in
      (
        λ listed.
            IsSettled-mono lists makes c names (db' c) ((ensure_all lists makes table db').1 c)
              (ensure_all-IsLarger table db' c) (ensure_collection-IsSettled c names db listed),
        ensure_all-IsComplete table db',
      )

  put-same : (coll : Text) (db : Database) → put coll (db coll ++ []) db ≡ db
  unfolding put
  put-same coll db = fun_ext λ other. go other (text_eq coll other) refl
    where
      go :
          (other : Text) (b : Bool)
          → text_eq coll other ≡ b
          → (if b then db coll ++ [] else db other) ≡ db other
      go other true same = append-nil (db coll) ∙ ap db (text_eq_sound coll other same)
      go other false different = refl

  ensure_collection-settled :
      (coll : Text) (names : List Text) (db : Database)
      → ((lists coll ≡ true) → IsSettled lists makes coll names (db coll))
      → ((ensure_collection lists makes coll names db).1 ≡ db)
        × All (λ (r : Text × ℕ). r.1 ≡ 0) (ensure_collection lists makes coll names db).0
  unfolding ensure_collection
  ensure_collection-settled coll names db settled = elim (Bool-cases (lists coll)) [
    | inr unlisted ↦ rw unlisted (refl, tt)
    | inl listed ↦ rw (listed, settled listed) (put-same coll db, (refl, tt))
  ]

  pub All-append :
      (rs ss : List (Text × ℕ))
      → All (λ (r : Text × ℕ). r.1 ≡ 0) rs
      → All (λ (r : Text × ℕ). r.1 ≡ 0) ss
      → All (λ (r : Text × ℕ). r.1 ≡ 0) (rs ++ ss)
  All-append [] ss a b = b
  All-append (r ∷ rs) ss a b = (a.0, All-append rs ss a.1 b)

  ensure_all_complete :
      (table : List (Text × List Text)) (db : Database)
      → IsComplete table db
      → ((ensure_all lists makes table db).1 ≡ db)
        × All (λ (r : Text × ℕ). r.1 ≡ 0) (ensure_all lists makes table db).0
  unfolding ensure_all
  ensure_all_complete [] db complete = (refl, tt)
  ensure_all_complete ((c, names) ∷ table) db complete =
      let (same, zero_first) = ensure_collection-settled c names db complete.0 in
      let db' = (ensure_collection lists makes c names db).1 in
      let first = (ensure_collection lists makes c names db).0 in
      let (same', zero_rest) =
        ensure_all_complete table db' (subst (IsComplete table) (sym same) complete.1) in
      (same' ∙ same, All-append first (ensure_all lists makes table db').0 zero_first zero_rest)

  -- The creation of indexes is idempotent: a run keeps every index of every collection, and a second run
  -- makes none and changes nothing, whatever collections the server lists and whatever indexes it
  -- refuses.
  pub ensure_all_indexes-again :
      (connected : Bool) (db : Database)
      → let run = ensure_all_indexes lists makes connected in
        let db' = (run db).1 in
        IsLarger db db' × ((run db').1 ≡ db') × All (λ (r : Text × ℕ). r.1 ≡ 0) (run db').0
  unfolding ensure_all_indexes
  ensure_all_indexes-again false db = ((λ coll name h. h), refl, tt)
  ensure_all_indexes-again true db =
      let (same, zero_all) =
        ensure_all_complete all_indexes (ensure_all lists makes all_indexes db).1
          (ensure_all-IsComplete all_indexes db) in
      (ensure_all-IsLarger all_indexes db, same, zero_all)

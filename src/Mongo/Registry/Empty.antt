-- ===== src/Mongo/Registry/Empty.antt =====
-- What the registry of cache entries (middleware_python/db/mongodb.py) ever holds.
use social_graph_engine.Base.{
  ◌≡◌, refl, sym, subst, Bool, true, false, none, some, List, [], ◌∷◌, Text, text_eq, All, arith,
  ◌⊎◌,
}
use social_graph_engine.Mongo.Registry.{
  Update, Filter, active_of_hash, active_of_algorithm, Collection, conflicts, shares, registration,
  access, Call, register, record_access, get, invalidate_hash, invalidate_algorithm, Answer, done,
  entry, count, call, run,
}

-- What the documentation of MongoDB says of the commands: an update that names a path under two
-- operators is refused and changes nothing; and in an empty collection nothing is found, updated or
-- made unless an upsert makes it.
pub record IsMongo (D S : Type 0) (R : Collection D S) (IsEmpty : S → Type 0) : Type 0 where
  pub refuses :
      (k : Text) (u : Update) (upsert : Bool) (s : S)
      → conflicts u ≡ true
      → R.update_one k u upsert s ≡ (false, s)
  pub update_empty :
      (k : Text) (u : Update) (s : S) → IsEmpty s → IsEmpty (R.update_one k u false s).1
  pub find_empty :
      (k : Text) (s : S) → IsEmpty s → (R.find_one k s ≡ none) ⊎ (R.find_one k s ≡ some none)
  pub update_many_empty :
      (f : Filter) (s : S)
      → IsEmpty s
      → ((R.update_many f s).0 ≡ none) ⊎ ((R.update_many f s).0 ≡ some 0)
  pub update_many_stays : (f : Filter) (s : S) → IsEmpty s → IsEmpty (R.update_many f s).1

-- The answer that an empty registry gives; only the answer of `record_cache_access` is open.
abbrev pub IsVacant : {D : Type 0} → Call × Answer D → Type 0
IsVacant (register k, a) = a ≡ done false
IsVacant (record_access k, a) = Unit
IsVacant (get k, a) = a ≡ entry none
IsVacant (invalidate_hash h, a) = a ≡ count 0
IsVacant (invalidate_algorithm n, a) = a ≡ count 0

registration-conflicts : conflicts registration ≡ true
unfolding conflicts registration shares text_eq
registration-conflicts = refl

module _ {D S : Type 0} (R : Collection D S) (IsEmpty : S → Type 0)
    (law : IsMongo D S R IsEmpty) where
  call-IsVacant :
      (db : Bool) (c : Call) (s : S)
      → IsEmpty s
      → IsVacant (c, (call R db c s).0) × IsEmpty (call R db c s).1
  unfolding call
  call-IsVacant false (register k) s e = (refl, e)
  call-IsVacant false (record_access k) s e = (tt, e)
  call-IsVacant false (get k) s e = (refl, e)
  call-IsVacant false (invalidate_hash h) s e = (refl, e)
  call-IsVacant false (invalidate_algorithm n) s e = (refl, e)
  call-IsVacant true (register k) s e =
      let refused = law.refuses k registration true s registration-conflicts in
      (ground arith, subst (λ (r : Bool × S). IsEmpty r.1) (sym refused) e)
  call-IsVacant true (record_access k) s e = (tt, law.update_empty k access s e)
  call-IsVacant true (get k) s e = (ground (arith, law.find_empty k s e), e)
  call-IsVacant true (invalidate_hash h) s e =
      let f = active_of_hash h in
      (ground (arith, law.update_many_empty f s e), law.update_many_stays f s e)
  call-IsVacant true (invalidate_algorithm n) s e =
      let f = active_of_algorithm n in
      (ground (arith, law.update_many_empty f s e), law.update_many_stays f s e)

  -- The registry of cache entries never has an entry: `$set` and `$setOnInsert` of the registration both
  -- name `access_count`, which the server refuses. However the functions are called on a registry that
  -- is empty, every registration answers False, every look-up None and every invalidation 0, and the
  -- registry stays empty.
  pub run-IsVacant :
      (calls : List (Bool × Call)) (s : S)
      → IsEmpty s
      → All IsVacant (run R calls s).0 × IsEmpty (run R calls s).1
  unfolding run
  run-IsVacant [] s e = (tt, e)
  run-IsVacant ((db, c) ∷ calls) s e =
      let (here, stays) = call-IsVacant db c s e in
      let (later, stays') = run-IsVacant calls (call R db c s).1 stays in ((here, later), stays')

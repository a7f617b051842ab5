-- ===== src/Mongo/Indexes/Settled.antt =====
-- The loop over the indexes of a collection in `ensure_all_indexes` (middleware_python/db/mongodb.py).
use social_graph_engine.Base.{
  ◌≡◌, refl, sym, subst, Bool, true, false, List, [], ◌∷◌, ◌++◌, Text, text_eq_refl, ◌||◌,
  if◌then◌else◌, arith, Bool-cases, inl, inr, ◌⊎◌,
}
use social_graph_engine.Mongo.Indexes.{is_member, create_missing}

is_member-append :
    (name : Text) (xs ys : List Text)
    → is_member name (xs ++ ys) ≡ (is_member name xs || is_member name ys)
unfolding is_member
is_member-append name [] ys = refl
is_member-append name (x ∷ xs) ys = ground (arith, is_member-append name xs ys)

-- The names of one list are among those of the other.
abbrev pub IsAmong : List Text → List Text → Type 0
IsAmong xs ys = (name : Text) → is_member name xs ≡ true → is_member name ys ≡ true

pub IsAmong-append : (xs ys : List Text) → IsAmong xs (xs ++ ys)
IsAmong-append xs ys name h = ground (arith, is_member-append name xs ys)

module _ (lists : Text → Bool) (makes : Text → Text → Bool) where
  -- Nothing is left to make in a collection: it has the indexes that the server makes.
  abbrev pub IsSettled : Text → List Text → List Text → Type 0
  IsSettled coll names existing = create_missing lists makes coll existing names ≡ []

  pub IsSettled-mono :
      (coll : Text) (names xs ys : List Text)
      → IsAmong xs ys
      → IsSettled coll names xs
      → IsSettled coll names ys
  unfolding create_missing
  IsSettled-mono coll [] xs ys among h = refl
  IsSettled-mono coll (name ∷ names) xs ys among h = elim (Bool-cases (is_member name xs)) [
    | inl there ↦
        let also = among name there in ground (arith, IsSettled-mono coll names xs ys among)
    | inr missing ↦ elim (Bool-cases (makes coll name)) [
      | inl made ↦ absurd (ground arith)
      | inr refused ↦ ground (arith, IsSettled-mono coll names xs ys among)
    ]
  ]

  IsSettled-cons :
      (coll name : Text) (names xs : List Text)
      → (is_member name xs ≡ true) ⊎ (makes coll name ≡ false)
      → IsSettled coll names xs
      → IsSettled coll (name ∷ names) xs
  unfolding create_missing
  IsSettled-cons coll name names xs (inl there) h = ground arith
  IsSettled-cons coll name names xs (inr refused) h = ground arith

  is_member-middle : (name : Text) (xs ys : List Text) → is_member name (xs ++ name ∷ ys) ≡ true
  unfolding is_member
  is_member-middle name [] ys = ground (arith, text_eq_refl name)
  is_member-middle name (x ∷ xs) ys = ground (arith, is_member-middle name xs ys)

  IsAmong-insert : (name : Text) (xs ys : List Text) → IsAmong (xs ++ ys) (xs ++ name ∷ ys)
  unfolding is_member
  IsAmong-insert name [] ys other h = ground arith
  IsAmong-insert name (x ∷ xs) ys other h = ground (arith, IsAmong-insert name xs ys other)

  IsSettled-nil : (coll : Text) (xs : List Text) → IsSettled coll [] xs
  unfolding create_missing
  IsSettled-nil coll xs = refl

  create_missing-cons :
      (coll name : Text) (names existing : List Text) (there made : Bool)
      → is_member name existing ≡ there
      → makes coll name ≡ made
      → let rest = create_missing lists makes coll existing names in
        create_missing lists makes coll existing (name ∷ names)
        ≡ (if there then rest else if made then name ∷ rest else rest)
  unfolding create_missing
  create_missing-cons coll name names existing there made e e' = rw (e, e') refl

  -- A collection is settled once its missing indexes are made.
  pub create_missing-IsSettled :
      (coll : Text) (names existing : List Text)
      → IsSettled coll names (existing ++ create_missing lists makes coll existing names)
  create_missing-IsSettled coll [] existing =
      IsSettled-nil coll (existing ++ create_missing lists makes coll existing [])
  create_missing-IsSettled coll (name ∷ names) existing =
      go (is_member name existing) (makes coll name) refl refl
        (create_missing-IsSettled coll names existing)
    where
      go :
          (there made : Bool)
          → is_member name existing ≡ there
          → makes coll name ≡ made
          → IsSettled coll names (existing ++ create_missing lists makes coll existing names)
          → IsSettled coll
              (name ∷ names)
              (existing ++ create_missing lists makes coll existing (name ∷ names))
      go true made e e' later =
          let rest = create_missing lists makes coll existing names in
          subst (λ c. IsSettled coll (name ∷ names) (existing ++ c))
            (sym (create_missing-cons coll name names existing true made e e'))
            (IsSettled-cons coll name names (existing ++ rest)
              (inl (IsAmong-append existing rest name e)) later)
      go false true e e' later =
          let rest = create_missing lists makes coll existing names in
          subst (λ c. IsSettled coll (name ∷ names) (existing ++ c))
            (sym (create_missing-cons coll name names existing false true e e'))
            (IsSettled-cons coll name names (existing ++ name ∷ rest)
              (inl (is_member-middle name existing rest))
              (IsSettled-mono coll names (existing ++ rest) (existing ++ name ∷ rest)
                (IsAmong-insert name existing rest) later))
      go false false e e' later =
          let rest = create_missing lists makes coll existing names in
          subst (λ c. IsSettled coll (name ∷ names) (existing ++ c))
            (sym (create_missing-cons coll name names existing false false e e'))
            (IsSettled-cons coll name names (existing ++ rest) (inr e') later)

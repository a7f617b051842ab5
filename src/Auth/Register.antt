-- ===== src/Auth/Register.antt =====
-- `register_user` of middleware_python/auth/service.py.
use social_graph_engine.Base.{
  ℕ, suc, ◌≡◌, refl, Bool, true, false, none, some, List, [], ◌∷◌, ◌++◌, ◌==◌, if◌then◌else◌, Text,
  codes, text_eq, text_eq_refl, arith,
}
use social_graph_engine.Errors.{conflict, database_unavailable}
use social_graph_engine.Auth.State.{
  User, Tables, World, Crypto, ok, raised, crashed, Action, raise, ◌>>=◌, ◌>>◌, raise_if, query,
  email_taken, registration_failed,
}
use social_graph_engine.Auth.Login.{find_user_by_email}
use social_graph_engine.Auth.Refresh.{is_some}

-- The UNIQUE key on `email` of database/mysql/001_init_schema.sql counts deleted users too; an INSERT
-- against it raises.
unfoldable pub has_email : Text → List User → Bool
has_email email [] = false
has_email email (u ∷ users) = if text_eq u.email email then true else has_email email users

unfoldable pub new_user : Crypto → Text → Text → Text → Text → User
new_user K user_id email password display_name = record {
  id = user_id;
  email = email;
  password_hash = K.hashpw password;
  display_name = display_name;
  role = codes "viewer";
  last_login_at = none;
  deleted = false;
}

find_user-absent :
    (email : Text) (users : List User)
    → has_email email users ≡ false
    → find_user_by_email email users ≡ none
unfolding has_email find_user_by_email
find_user-absent email [] e = refl
find_user-absent email (u ∷ users) e = ground (arith, find_user-absent email users)

find_user-appended :
    (users : List User) (u : User)
    → has_email u.email users ≡ false
    → u.deleted ≡ false
    → find_user_by_email u.email (users ++ u ∷ []) ≡ some u
unfolding has_email find_user_by_email
find_user-appended [] u e present = ground (arith, text_eq_refl u.email)
find_user-appended (x ∷ users) u e present = ground (arith, find_user-appended users u)

module _ {S : Type 0} (K : Crypto) where
  -- The INSERT and `if not rows`; `lastrowid` is what the cursor gives after it.
  unfoldable pub insert_user : ℕ → User → Action S User
  insert_user lastrowid u w = elim (w.mysql) [
    | none ↦ raise database_unavailable registration_failed w
    | some t ↦ if has_email u.email t.users then (crashed, w) else (
      if lastrowid == 0 then raised database_unavailable registration_failed else ok u,
      record w { mysql = some (record t { users = t.users ++ u ∷ [] }) },
    )
  ]

  -- `register_user`
  unfoldable pub register_user : ℕ → Text → Text → Text → Text → Action S User
  register_user lastrowid user_id email password display_name = do
    existing ← query (λ t. find_user_by_email email t.users)
    raise_if (is_some existing) conflict email_taken
    insert_user lastrowid (new_user K user_id email password display_name)

  -- Registering an address that no user has. Where the cursor's `lastrowid` is 0, as it is for a table
  -- without an AUTO_INCREMENT column, the call raises that the database is unavailable; with any other
  -- `lastrowid` it answers the user. Either way the user is in the table afterwards, so that a second
  -- attempt is refused as a conflict.
  pub register_user_lem :
      (n id' : ℕ) (user_id other email password password' display_name : Text) (t : Tables)
      (w : World S)
      → w.mysql ≡ some t
      → has_email email t.users ≡ false
      → let u = new_user K user_id email password display_name in
        let (refused, w') = register_user 0 user_id email password display_name w in
        let (answer, w'') = register_user (suc n) user_id email password display_name w in
        (refused ≡ raised database_unavailable registration_failed)
        × (answer ≡ ok u)
        × (w' ≡ w'')
        × (w'.mysql ≡ some (record t { users = t.users ++ u ∷ [] }))
        × (register_user id' other email password' display_name w'
            ≡ (raised conflict email_taken, w'))
  unfolding register_user insert_user new_user
  register_user_lem n id' user_id other email password password' display_name t w up absent =
      let u = new_user K user_id email password display_name in
      let gone = find_user-absent email t.users absent in
      let there = find_user-appended t.users u absent refl in
      (ground arith, ground arith, ground arith, ground arith, ground arith)

-- ===== src/Access/Revoked.antt =====
-- `revoke_api_key` (middleware_python/auth/service.py) and `create_user_api_key`, seen by
-- `_authenticate_api_key` (core/dependencies.py).
use social_graph_engine.Base.{
  ℕ, ◌≡◌, refl, ◌∙◌, ap, Bool, true, none, some, List, [], ◌∷◌, if◌then◌else◌, Text, arith,
  Bool-cases, Option-cases, inl, inr,
}
use social_graph_engine.Errors.{unauthorized}
use social_graph_engine.Redis.{Redis}
use social_graph_engine.Auth.State.{
  User, ApiKey, Tables, World, Crypto, ok, raised, >>=-ok, key_revoked,
}
use social_graph_engine.Auth.Refresh.{is_some}
use social_graph_engine.Auth.ApiKeys.{is_open_key, revoke_keys, any_key, revoke_api_key}
use social_graph_engine.Access.{
  find_owner, find_key, read_cached, check_key, admit_key, look_up_key, use_cached,
  authenticate_api_key,
}

find_key-revoke_keys :
    (test : ApiKey → Bool) (now : ℕ) (hash : Text) (users : List User) (keys : List ApiKey)
    {k : ApiKey} {u : User}
    → find_key hash users keys ≡ some (k, u)
    → find_key hash users (revoke_keys test now keys)
      ≡ some ((if test k then record k { revoked_at = some now } else k), u)
unfolding find_key revoke_keys
find_key-revoke_keys test now hash users [] e = absurd cc
find_key-revoke_keys test now hash users (x ∷ keys) {k} {u} e = elim (Bool-cases (test x)) [
  | inl met ↦ elim (Option-cases (find_owner x.user_id users)) [
    | inl gone ↦ ground (arith, find_key-revoke_keys test now hash users keys {k = k} {u = u})
    | inr (o, owned) ↦ ground (arith, find_key-revoke_keys test now hash users keys {k = k} {u = u})
  ]
  | inr unmet ↦ elim (Option-cases (find_owner x.user_id users)) [
    | inl gone ↦ ground (arith, find_key-revoke_keys test now hash users keys {k = k} {u = u})
    | inr (o, owned) ↦ ground (arith, find_key-revoke_keys test now hash users keys {k = k} {u = u})
  ]
]

any_key-find_key :
    (test : ApiKey → Bool) (hash : Text) (users : List User) (keys : List ApiKey) {k : ApiKey}
    {u : User}
    → find_key hash users keys ≡ some (k, u)
    → test k ≡ true
    → any_key test keys ≡ true
unfolding find_key any_key
any_key-find_key test hash users [] e met = absurd cc
any_key-find_key test hash users (x ∷ keys) {k} {u} e met =
    elim (Option-cases (find_owner x.user_id users)) [
      | inl gone ↦ ground (arith, any_key-find_key test hash users keys {k = k} {u = u})
      | inr (o, owned) ↦ ground (arith, any_key-find_key test hash users keys {k = k} {u = u})
    ]

module _ {S : Type 0} (R : Redis S) (K : Crypto) where
  refused_key :
      (t : ℕ) (hash : Text) (k : ApiKey) (u : User) (tables : Tables) (v : World S)
      → v.mysql ≡ some tables
      → find_key hash tables.users tables.api_keys ≡ some (k, u)
      → is_some k.revoked_at ≡ true
      → look_up_key R K t hash v ≡ (raised unauthorized key_revoked, v)
  unfolding look_up_key admit_key check_key
  refused_key t hash k u tables v up there revoked = ground arith

  -- An owner's `revoke_api_key` of a key that is not yet revoked answers true, and from then on the
  -- key is refused as revoked wherever its cache entry is gone, as long as the tables are those that
  -- the call left.
  pub revoke_api_key-refused :
      (now t : ℕ) (raw user_id key_id : Text) (tables : Tables) (k : ApiKey) (u : User)
      (w v : World S)
      → w.mysql ≡ some tables
      → find_key (K.sha256 raw) tables.users tables.api_keys ≡ some (k, u)
      → is_open_key key_id user_id k ≡ true
      → v.mysql ≡ (revoke_api_key now user_id key_id w).1.mysql
      → read_cached R K t (K.sha256 raw) v ≡ (ok none, v)
      → ((revoke_api_key now user_id key_id w).0 ≡ ok true)
        × (authenticate_api_key R K t raw v ≡ (raised unauthorized key_revoked, v))
  unfolding authenticate_api_key use_cached revoke_api_key
  revoke_api_key-refused now t raw user_id key_id tables k u w v up there unrevoked same missed =
      let hash = K.sha256 raw in
      let test = is_open_key key_id user_id in
      let counted =
        any_key-find_key test hash tables.users tables.api_keys {k = k} {u = u} there unrevoked in
      let after =
        find_key-revoke_keys test now hash tables.users tables.api_keys {k = k} {u = u} there in
      let revoked_tables : Tables = record tables {
        api_keys = revoke_keys test now tables.api_keys;
      } in
      let left : v.mysql ≡ some revoked_tables = ground arith in
      (
        ground arith,
        >>=-ok (read_cached R K t hash) (use_cached R K t hash) v missed
            ∙ refused_key t hash (record k { revoked_at = some now }) u revoked_tables v left
                (after
                  ∙ ap (λ b. some ((if b then record k { revoked_at = some now } else k), u))
                      unrevoked)
                refl,
      )

-- ===== src/Access/Created.antt =====
-- `create_user_api_key` (middleware_python/auth/service.py), seen by `_authenticate_api_key`
-- (core/dependencies.py).
use social_graph_engine.Base.{
  ℕ, ◌≡◌, refl, ◌∙◌, ap, subst, ◌≤◌, Bool, false, if◌then◌else◌, Option, none, some, List, [], ◌∷◌,
  ◌++◌, Text, text_eq_refl, arith, Option-cases, inl, inr, take,
}
use social_graph_engine.Redis.{Redis}
use social_graph_engine.Auth.State.{
  User, ApiKey, Tables, World, Crypto, Result, ok, crashed, >>=-ok,
}
use social_graph_engine.Auth.Refresh.{is_some}
use social_graph_engine.Auth.ApiKeys.{
  NewKey, CreatedKey, generate_api_key, key_expiry, create_user_api_key,
}
use social_graph_engine.Access.{
  find_owner, find_key, key_identity, read_cached, check_key, cache_key, admit_key, look_up_key,
  use_cached, authenticate_api_key,
}

find_key-snoc :
    (users : List User) (keys : List ApiKey) (k : ApiKey) {u : User}
    → find_key k.key_hash users keys ≡ none
    → find_owner k.user_id users ≡ some u
    → find_key k.key_hash users (keys ++ k ∷ []) ≡ some (k, u)
unfolding find_key
find_key-snoc users [] k absent owned = ground (arith, text_eq_refl k.key_hash)
find_key-snoc users (x ∷ keys) k {u} absent owned =
    elim (Option-cases (find_owner x.user_id users)) [
      | inl gone ↦ ground (arith, find_key-snoc users keys k {u = u})
      | inr (o, there) ↦ ground (arith, find_key-snoc users keys k {u = u})
    ]

-- The time has not passed.
abbrev pub IsAhead : ℕ → Option ℕ → Type 0
IsAhead now none = Unit
IsAhead now (some e) = now ≤ e

-- What a request gets whose row has this expiry: a value, unless the comparison raises.
abbrev pub if_comparable : {A : Type 0} → Bool → Option ℕ → A → Result A
if_comparable aware none a = ok a
if_comparable aware (some e) a = if aware then ok a else crashed

module _ {S : Type 0} (R : Redis S) (K : Crypto) where
  accepted_key :
      (now : ℕ) (hash : Text) (k : ApiKey) (u : User) (t : Tables) (v : World S)
      → v.mysql ≡ some t
      → v.redis ≡ none
      → find_key hash t.users t.api_keys ≡ some (k, u)
      → k.revoked_at ≡ none
      → IsAhead now k.expires_at
      → u.deleted ≡ false
      → (look_up_key R K now hash v).0
        ≡ if_comparable K.aware k.expires_at (key_identity k.user_id u.role)
  unfolding look_up_key admit_key check_key cache_key
  accepted_key now hash k u t v up down there live fresh present =
      let not_revoked : is_some k.revoked_at ≡ false = ap is_some live in
      elim (Option-cases k.expires_at) [
        | inl never ↦ ground arith
        | inr (e, some_time) ↦
            let ahead : now ≤ e = subst (IsAhead now) some_time fresh in ground arith
      ]

  -- The raw key that `create_user_api_key` answers authenticates its owner, with the owner's role, if it
  -- never expires, and until it expires if the driver's datetimes have a time zone; if they have none, as
  -- aiomysql gives them, a key with an expiry ends in the TypeError of the comparison with the clock. That
  -- is without Redis, for an owner that is there and not deleted, a hash that no key has, and the tables
  -- that the call left.
  pub create_user_api_key-authenticate :
      (now now' : ℕ) (prefix : Text) (n : NewKey) (user_id name : Text) (days : Option ℕ)
      (t : Tables) (u : User) (w v : World S)
      → w.mysql ≡ some t
      → find_owner user_id t.users ≡ some u
      → u.deleted ≡ false
      → find_key (K.sha256 (prefix ++ n.random_part)) t.users t.api_keys ≡ none
      → IsAhead now' (key_expiry now days)
      → v.mysql ≡ (create_user_api_key K now prefix n user_id name days w).1.mysql
      → v.redis ≡ none
      → (c : CreatedKey) × ((create_user_api_key K now prefix n user_id name days w).0 ≡ ok c)
        × ((authenticate_api_key R K now' c.api_key_raw v).0
            ≡ if_comparable K.aware (key_expiry now days) (key_identity user_id u.role))
  unfolding authenticate_api_key use_cached read_cached create_user_api_key generate_api_key
  create_user_api_key-authenticate now now' prefix n user_id name days t u w v up owned present
        absent fresh same down =
      let raw = prefix ++ n.random_part in
      let k : ApiKey = record {
        id = n.key_id;
        user_id = user_id;
        key_hash = K.sha256 raw;
        key_prefix = take 12 raw;
        name = name;
        permissions = n.permissions_json;
        expires_at = key_expiry now days;
        revoked_at = none;
        last_used_at = none;
      } in
      let left : v.mysql ≡ some (record t { api_keys = t.api_keys ++ k ∷ [] }) = ground arith in
      let there = find_key-snoc t.users t.api_keys k {u = u} absent owned in
      let missed : read_cached R K now' (K.sha256 raw) v ≡ (ok none, v) = ground arith in
      (
        _,
        refl,
        ap (λ r. r.0)
              (>>=-ok (read_cached R K now' (K.sha256 raw)) (use_cached R K now' (K.sha256 raw)) v
                missed)
            ∙ accepted_key now' (K.sha256 raw) k u (record t { api_keys = t.api_keys ++ k ∷ [] }) v
                left down there refl fresh present,
      )

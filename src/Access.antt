-- ===== src/Access.antt =====
-- Who makes a request: middleware_python/core/dependencies.py. The query and the write of
-- `_authenticate_api_key` go to the tables of Auth.State; the write of `last_used_at` that it
-- schedules is taken as done at once.
pub mod Created
pub mod Guards
pub mod Jwt
pub mod Keys
pub mod Revoked
mod Tests
use social_graph_engine.Base.{
  ℕ, zero, suc, ◌+◌, ◌*◌, ◌≡◌, ◌==◌, Bool, true, false, not, Option, none, some, List, [], ◌∷◌,
  ◌++◌, ◌&&◌, ◌||◌, if◌then◌else◌, ltb, Text, codes, text_eq, drop, take,
}
use social_graph_engine.Errors.{unauthorized, forbidden}
use social_graph_engine.Redis.{Redis, Reply, reply, failed}
use social_graph_engine.Auth.State.{
  User, ApiKey, Tables, World, Claims, Crypto, Settings, Result, ok, raised, crashed, Action, pure,
  raise, ◌>>=◌, ◌>>◌, raise_if, raise_if_expired, or_raise, query, update, bad_access_token,
  wrong_access_type, token_revoked, missing_credentials, missing_api_key, key_invalid, key_revoked,
  key_expired, account_deleted, admin_required, analyst_required,
}
use social_graph_engine.Auth.Tokens.{is_token_blacklisted}
use social_graph_engine.Auth.Refresh.{is_some}

pub data Method : Type 0 where
  jwt api_key dev_mode : Method

-- The dict that the dependencies answer.
pub record Identity : Type 0 where
  pub user_id : Text
  pub role : Text
  pub auth_method : Method
  pub jti : Option Text

-- `cached.split(":", 1)`, none where it does not give two parts; 58 is the colon.
unfoldable pub split_colon : Text → Option (Text × Text)
split_colon [] = none
split_colon (c ∷ cs) =
    if c == 58
    then some ([], cs)
    else elim (split_colon cs) [ none ↦ none | some (a, b) ↦ some (c ∷ a, b) ]

-- f"apikey:user:{key_hash}"
unfoldable pub api_key_key : Text → Text
api_key_key hash = codes "apikey:user:" ++ hash

-- The row of the JOIN of `api_keys` and `users`.
abbrev pub JoinedKey : Type 0
JoinedKey = ApiKey × User

-- The user that the JOIN finds; a deleted one too.
unfoldable pub find_owner : Text → List User → Option User
find_owner id [] = none
find_owner id (u ∷ users) = if text_eq u.id id then some u else find_owner id users

-- WHERE a.key_hash = %s
unfoldable pub find_key : Text → List User → List ApiKey → Option JoinedKey
find_key hash users [] = none
find_key hash users (k ∷ keys) =
    if text_eq k.key_hash hash
    then elim (find_owner k.user_id users) [
      | none ↦ find_key hash users keys
      | some u ↦ some (k, u)
    ]
    else find_key hash users keys

-- UPDATE api_keys SET last_used_at = %s WHERE id = %s
unfoldable pub touch_key : ℕ → Text → List ApiKey → List ApiKey
touch_key now id [] = []
touch_key now id (k ∷ keys) =
    (if text_eq k.id id then record k { last_used_at = some now } else k) ∷ touch_key now id keys

abbrev pub or_viewer : Option Text → Text
or_viewer none = codes "viewer"
or_viewer (some role) = role

abbrev pub key_identity : Text → Text → Identity
key_identity user_id role = record {
  user_id = user_id;
  role = role;
  auth_method = api_key;
  jti = none;
}

module _ {S : Type 0} (R : Redis S) (K : Crypto) where
  -- `if jti and await is_token_blacklisted(jti)`
  unfoldable pub check_blacklist : ℕ → Option Text → Action S (Unit {0})
  check_blacklist now none = pure tt
  check_blacklist now (some []) = pure tt
  check_blacklist now (some (c ∷ cs)) = do
    revoked ← is_token_blacklisted R now (some (c ∷ cs))
    raise_if revoked unauthorized token_revoked

  unfoldable pub read_access_token : ℕ → Text → Action S Claims
  read_access_token now token = do
    payload ← or_raise (K.decode now token) unauthorized bad_access_token
    raise_if (not (text_eq payload.kind (codes "access"))) unauthorized wrong_access_type
    pure payload

  unfoldable pub admit : ℕ → Claims → Action S Identity
  admit now payload =
      check_blacklist now payload.jti
      >> pure (record {
        user_id = payload.sub;
        role = or_viewer payload.role;
        auth_method = jwt;
        jti = payload.jti;
      })

  -- `_authenticate_jwt`
  unfoldable pub authenticate_jwt : ℕ → Text → Action S Identity
  authenticate_jwt now token = read_access_token now token >>= admit now

  -- The cache lookup: `none` where the code goes on to MySQL.
  unfoldable pub judge_cached : Reply (Option Text) → Action S (Option Identity)
  judge_cached failed w = (crashed, w)
  judge_cached (reply none) w = (ok none, w)
  judge_cached (reply (some [])) w = (ok none, w)
  judge_cached (reply (some (c ∷ cs))) w = elim (split_colon (c ∷ cs)) [
    | none ↦ (crashed, w)
    | some (user_id, role) ↦ (ok (some (key_identity user_id role)), w)
  ]

  unfoldable pub read_cached : ℕ → Text → Action S (Option Identity)
  read_cached now hash w = elim (w.redis) [
    | none ↦ (ok none, w)
    | some s ↦ judge_cached (R.get now (api_key_key hash) s) w
  ]

  -- The tests on the row.
  unfoldable pub check_key : ℕ → JoinedKey → Action S (Unit {0})
  check_key now (k, u) = do
    raise_if (is_some k.revoked_at) unauthorized key_revoked
    raise_if_expired K.aware now k.expires_at key_expired
    raise_if u.deleted unauthorized account_deleted

  -- The result of the SETEX does not matter, unless it raises.
  unfoldable pub stored_key : {A : Type 0} → Reply A × S → World S → Result (Unit {0}) × World S
  stored_key (failed, s) w = (crashed, record w { redis = some s })
  stored_key (reply _, s) w = (ok tt, record w { redis = some s })

  -- The five minutes in the cache.
  unfoldable pub cache_key : ℕ → Text → Text → Text → Action S (Unit {0})
  cache_key now hash user_id role w = elim (w.redis) [
    | none ↦ (ok tt, w)
    | some s ↦ stored_key (R.setex now (api_key_key hash) 300 (user_id ++ 58 ∷ role) s) w
  ]

  unfoldable pub admit_key : ℕ → Text → JoinedKey → Action S Identity
  admit_key now hash (k, u) = do
    check_key now (k, u)
    update (λ t. record t { api_keys = touch_key now k.id t.api_keys })
    cache_key now hash k.user_id u.role
    pure (key_identity k.user_id u.role)

  unfoldable pub look_up_key : ℕ → Text → Action S Identity
  look_up_key now hash = do
    found ← query (λ t. find_key hash t.users t.api_keys)
    row ← or_raise found unauthorized key_invalid
    admit_key now hash row

  unfoldable pub use_cached : ℕ → Text → Option Identity → Action S Identity
  use_cached now hash none = look_up_key now hash
  use_cached now hash (some identity) = pure identity

  -- `_authenticate_api_key`
  unfoldable pub authenticate_api_key : ℕ → Text → Action S Identity
  authenticate_api_key now api_key_raw =
      read_cached now (K.sha256 api_key_raw) >>= use_cached now (K.sha256 api_key_raw)

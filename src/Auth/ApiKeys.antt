-- ===== src/Auth/ApiKeys.antt =====
-- The API keys of middleware_python/auth/service.py, with `generate_api_key` of core/security.py.
use social_graph_engine.Base.{
  ℕ, zero, suc, ◌+◌, ◌*◌, Bool, true, false, not, Option, none, some, List, [], ◌∷◌, ◌++◌, ◌&&◌,
  if◌then◌else◌, Text, text_eq, take,
}
use social_graph_engine.Errors.{not_found}
use social_graph_engine.Auth.State.{
  ApiKey, Crypto, key_not_found, ok, Action, pure, raise, ◌>>◌, update,
}
use social_graph_engine.Auth.Refresh.{is_some}

-- What `uuid.uuid4()` and `secrets.token_hex(32)` give, and `json.dumps(permissions)`.
pub record NewKey : Type 0 where
  pub key_id : Text
  pub random_part : Text
  pub permissions_json : Text

pub record CreatedKey : Type 0 where
  pub api_key_raw : Text
  pub key_prefix : Text
  pub key_id : Text
  pub name : Text

-- `generate_api_key`: the raw key, the part to show, and the hash.
unfoldable pub generate_api_key : Crypto → Text → Text → Text × Text × Text
generate_api_key K api_key_prefix random_part =
    let raw = api_key_prefix ++ random_part in (raw, take 12 raw, K.sha256 raw)

-- `if expires_in_days`: no days and no number both mean no expiry.
unfoldable pub key_expiry : ℕ → Option ℕ → Option ℕ
key_expiry now none = none
key_expiry now (some zero) = none
key_expiry now (some (suc d)) = some (now + suc d * 86400)

-- WHERE id = %s AND user_id = %s AND revoked_at IS NULL
abbrev pub is_open_key : Text → Text → ApiKey → Bool
is_open_key key_id user_id k =
    text_eq k.id key_id && (text_eq k.user_id user_id && not (is_some k.revoked_at))

-- UPDATE api_keys SET revoked_at = %s WHERE ...
unfoldable pub revoke_keys : (ApiKey → Bool) → ℕ → List ApiKey → List ApiKey
revoke_keys test now [] = []
revoke_keys test now (k ∷ keys) =
    (if test k then record k { revoked_at = some now } else k) ∷ revoke_keys test now keys

-- The number of rows that the UPDATE counts, as far as the code asks: whether there is one.
unfoldable pub any_key : (ApiKey → Bool) → List ApiKey → Bool
any_key test [] = false
any_key test (k ∷ keys) = if test k then true else any_key test keys

module _ {S : Type 0} (K : Crypto) where
  -- `create_user_api_key`, given `api_key_prefix` of the settings
  unfoldable pub create_user_api_key :
      ℕ → Text → NewKey → Text → Text → Option ℕ → Action S CreatedKey
  create_user_api_key now api_key_prefix n user_id name expires_in_days =
      let (raw, prefix, hash) = generate_api_key K api_key_prefix n.random_part in
      update (λ t. record t {
        api_keys =
            t.api_keys
            ++ record {
              id = n.key_id;
              user_id = user_id;
              key_hash = hash;
              key_prefix = prefix;
              name = name;
              permissions = n.permissions_json;
              expires_at = key_expiry now expires_in_days;
              revoked_at = none;
              last_used_at = none;
            }
              ∷ [];
      })
      >> pure (record { api_key_raw = raw; key_prefix = prefix; key_id = n.key_id; name = name })

module _ {S : Type 0} where
  -- `revoke_api_key`; without MySQL no row is counted.
  unfoldable pub revoke_api_key : ℕ → Text → Text → Action S Bool
  revoke_api_key now user_id key_id w = elim (w.mysql) [
    | none ↦ raise not_found key_not_found w
    | some t ↦
        if any_key (is_open_key key_id user_id) t.api_keys
        then (
          ok true,
          record w {
            mysql =
                some
                  (record t { api_keys = revoke_keys (is_open_key key_id user_id) now t.api_keys });
          },
        )
        else raise not_found key_not_found w
  ]

-- ===== src/Access/Tests.antt =====
-- Requests at concrete times, with the tokens of a login and with an API key.
use social_graph_engine.Base.{◌≡◌, refl, true, none, some, [], ◌∷◌, codes, arith}
use social_graph_engine.Errors.{unauthorized}
use social_graph_engine.Redis.Memory.{Timeline, numerals, memory}
use social_graph_engine.Auth.State.{User, ApiKey, Tables, World, ok, raised, key_revoked}
use social_graph_engine.Auth.ApiKeys.{
  NewKey, CreatedKey, generate_api_key, key_expiry, create_user_api_key, revoke_keys, any_key,
  revoke_api_key,
}
use social_graph_engine.Auth.Sample.{
  program, home, pair, crypto, crypto-IsSigned, settings, user, fresh, tables, no_keys,
  without_redis,
}
use social_graph_engine.Access.{
  Identity, jwt, split_colon, api_key_key, find_owner, find_key, touch_key, check_blacklist,
  read_access_token, admit, authenticate_jwt, key_identity, judge_cached, read_cached, check_key,
  stored_key, cache_key, admit_key, look_up_key, use_cached, authenticate_api_key,
}
use social_graph_engine.Access.Guards.{
  or_anonymous, get_optional_user, is_admin, get_current_admin, use_credentials, given,
  get_current_user, admin_only,
}
use social_graph_engine.Access.Jwt.{login-authenticate}
use social_graph_engine.Access.Created.{if_comparable, create_user_api_key-authenticate}
use social_graph_engine.Access.Revoked.{revoke_api_key-refused}

requests : Unit {0}
unfolding program revoke_keys any_key revoke_api_key split_colon api_key_key find_owner find_key
    touch_key check_blacklist read_access_token admit authenticate_jwt judge_cached read_cached
    check_key stored_key cache_key admit_key look_up_key use_cached authenticate_api_key is_admin
    get_current_admin use_credentials get_current_user or_anonymous get_optional_user
requests = tt

-- The user behind the access token of the login at time 100.
abbrev viewer : Identity
viewer = record {
  user_id = user.id;
  role = user.role;
  auth_method = jwt;
  jti = some (fresh 1).access_jti;
}

login-authenticate_example :
    authenticate_jwt memory crypto 200 pair.access_token home ≡ (ok viewer, home)
unfolding requests
login-authenticate_example =
    login-authenticate memory crypto numerals settings 100 200 (fresh 1) user.email
      user.password_hash [] [] (without_redis tables) home home pair user crypto-IsSigned refl
      (omega arith) refl

-- An administrator with an API key.
abbrev admin : User
admin = record user { role = codes "admin" }

abbrev key : ApiKey
key = record {
  id = 20 ∷ [];
  user_id = user.id;
  key_hash = 21 ∷ [];
  key_prefix = [];
  name = [];
  permissions = [];
  expires_at = none;
  revoked_at = none;
  last_used_at = none;
}

abbrev key_tables : Tables
key_tables = record tables { users = admin ∷ []; api_keys = key ∷ [] }

abbrev key_world : World Timeline
key_world = record { mysql = some key_tables; redis = some no_keys }

-- The world after the key was accepted at time 100.
abbrev accepted_world : World Timeline
accepted_world = (authenticate_api_key memory crypto 100 (21 ∷ []) key_world).1

admin_only_example :
    (codes "admin" ≡ codes "admin")
    × (use_credentials memory crypto settings 100 (given none) (given (some (21 ∷ []))) key_world
        ≡ (ok (key_identity user.id (codes "admin")), accepted_world))
unfolding requests
admin_only_example =
    admin_only memory crypto settings 100 none (some (21 ∷ [])) key_world accepted_world
      (key_identity user.id (codes "admin")) refl refl

-- The same tables with no Redis.
abbrev uncached_world : World Timeline
uncached_world = record {
  mysql = (revoke_api_key 150 user.id (20 ∷ []) key_world).1.mysql;
  redis = none;
}

revoke_api_key-refused_example :
    ((revoke_api_key 150 user.id (20 ∷ []) key_world).0 ≡ ok true)
    × (authenticate_api_key memory crypto 200 (21 ∷ []) uncached_world
        ≡ (raised unauthorized key_revoked, uncached_world))
unfolding requests
revoke_api_key-refused_example =
    revoke_api_key-refused memory crypto 150 200 (21 ∷ []) user.id (20 ∷ []) key_tables key admin
      key_world uncached_world refl refl refl refl refl

abbrev new_key : NewKey
new_key = record { key_id = 60 ∷ []; random_part = 61 ∷ []; permissions_json = [] }

abbrev owner_world : World Timeline
owner_world = without_redis (record tables { users = admin ∷ [] })

create_user_api_key-authenticate_example :
    (c : CreatedKey) × ((create_user_api_key crypto 100
        (62 ∷ [])
        new_key
        user.id
        []
        (some 1)
        owner_world).0
      ≡ ok c)
    × ((authenticate_api_key memory crypto 200 c.api_key_raw
          (create_user_api_key crypto 100 (62 ∷ []) new_key user.id [] (some 1) owner_world).1).0
        ≡ if_comparable crypto.aware
            (key_expiry 100 (some 1))
            (key_identity user.id (codes "admin")))
unfolding requests generate_api_key key_expiry create_user_api_key
create_user_api_key-authenticate_example =
    create_user_api_key-authenticate memory crypto 100 200 (62 ∷ []) new_key user.id [] (some 1)
      (record tables { users = admin ∷ [] }) admin owner_world
      (create_user_api_key crypto 100 (62 ∷ []) new_key user.id [] (some 1) owner_world).1 refl refl
      refl refl (omega arith) refl refl

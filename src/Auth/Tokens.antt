-- ===== src/Auth/Tokens.antt =====
-- The token functions of middleware_python/core/security.py: the payloads of access and refresh
-- tokens, the blacklist, and the token family version. An error of Redis is not handled here: it
-- reaches the caller.
use social_graph_engine.Base.{
  ℕ, ◌+◌, ◌*◌, Bool, true, false, Option, none, some, [], ◌∷◌, ◌++◌, ltb, Text, codes,
}
use social_graph_engine.Redis.{Redis, Reply, reply, failed}
use social_graph_engine.Redis.Laws.{Numerals}
use social_graph_engine.Auth.State.{World, Claims, Settings, Result, ok, crashed, Action}

-- The payload of `create_access_token`; `jti` is the value of `secrets.token_hex`.
unfoldable pub access_claims : Settings → ℕ → Text → Text → Text → Claims
access_claims cfg now jti user_id role = record {
  sub = user_id;
  kind = codes "access";
  role = some role;
  session_id = none;
  jti = some jti;
  exp = now + cfg.access_token_expire_minutes * 60;
}

-- The payload of `create_refresh_token`
unfoldable pub refresh_claims : Settings → ℕ → Text → Text → Text → Claims
refresh_claims cfg now jti user_id session_id = record {
  sub = user_id;
  kind = codes "refresh";
  role = none;
  session_id = some session_id;
  jti = some jti;
  exp = now + cfg.refresh_token_expire_days * 86400;
}

-- The `jti` as an f-string writes it.
unfoldable pub jti_text : Option Text → Text
jti_text none = codes "None"
jti_text (some jti) = jti

-- f"blacklist:token:{jti}", f"token_family_version:{user_id}"
unfoldable pub blacklist_key : Option Text → Text
blacklist_key jti = codes "blacklist:token:" ++ jti_text jti

unfoldable pub family_key : Text → Text
family_key user_id = codes "token_family_version:" ++ user_id

module _ {S : Type 0} (R : Redis S) where
  unfoldable pub found : Reply ℕ → World S → Result Bool × World S
  found failed w = (crashed, w)
  found (reply n) w = (ok (ltb 0 n), w)

  -- `is_token_blacklisted`
  unfoldable pub is_token_blacklisted : ℕ → Option Text → Action S Bool
  is_token_blacklisted now jti w = elim (w.redis) [
    | none ↦ (ok false, w)
    | some s ↦ found (R.exists now (blacklist_key jti) s) w
  ]

  -- A command whose answer does not matter, unless it raises.
  unfoldable pub written : {A : Type 0} → Reply A × S → World S → Result Bool × World S
  written (failed, s) w = (crashed, record w { redis = some s })
  written (reply _, s) w = (ok true, record w { redis = some s })

  -- `blacklist_token`
  unfoldable pub blacklist_token : ℕ → Option Text → ℕ → Action S Bool
  blacklist_token now jti ttl w = elim (w.redis) [
    | none ↦ (ok false, w)
    | some s ↦ written (R.setex now (blacklist_key jti) ttl (codes "1") s) w
  ]

  -- `revoke_token_family`
  unfoldable pub revoke_token_family : ℕ → Text → Action S Bool
  revoke_token_family now user_id w = elim (w.redis) [
    | none ↦ (ok false, w)
    | some s ↦ written (R.incr now (family_key user_id) s) w
  ]

  -- `int(version) if version else 0`
  unfoldable pub version_of : Numerals → Reply (Option Text) → World S → Result ℕ × World S
  version_of N failed w = (crashed, w)
  version_of N (reply none) w = (ok 0, w)
  version_of N (reply (some [])) w = (ok 0, w)
  version_of N (reply (some (c ∷ cs))) w = elim (N.read (c ∷ cs)) [
    | none ↦ (crashed, w)
    | some n ↦ (ok n, w)
  ]

  -- `get_token_family_version`
  unfoldable pub get_token_family_version : Numerals → ℕ → Text → Action S ℕ
  get_token_family_version N now user_id w = elim (w.redis) [
    | none ↦ (ok 0, w)
    | some s ↦ version_of N (R.get now (family_key user_id) s) w
  ]

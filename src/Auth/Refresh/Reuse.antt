-- ===== src/Auth/Refresh/Reuse.antt =====
-- The reuse detection of `refresh_access_token` (middleware_python/auth/service.py).
use social_graph_engine.Base.{
  ℕ, ◌+◌, ◌≡◌, refl, sym, ◌∙◌, ap, true, Option, some, subst, Text, codes, text_eq, text_eq_refl,
  arith,
}
use social_graph_engine.Errors.{unauthorized}
use social_graph_engine.Redis.{Redis}
use social_graph_engine.Redis.Laws.{Numerals, IsReliable, stored}
use social_graph_engine.Auth.State.{
  Tables, World, Claims, Crypto, Settings, reuse_detected, ok, raised, >>=-ok, >>=-raised, ◌>>◌,
  raise,
}
use social_graph_engine.Auth.Tokens.{
  is_token_blacklisted, revoke_token_family, found, written, blacklist_key, family_key,
}
use social_graph_engine.Auth.Login.{Fresh}
use social_graph_engine.Auth.Refresh.{
  read_refresh_token, check_reuse, use_session, use_claims, refresh_access_token,
}

-- A decoded refresh token passes the first tests.
pub read_gives :
    {S : Type 0} (R : Redis S) (K : Crypto) (cfg : Settings) (now : ℕ) (token : Text) (c : Claims)
    (w : World S)
    → K.decode now token ≡ some c
    → c.kind ≡ codes "refresh"
    → read_refresh_token R K cfg now token w ≡ (ok c, w)
unfolding read_refresh_token
read_gives R K cfg now token c w good kind =
    let same : text_eq c.kind (codes "refresh") ≡ true =
      subst (λ k. text_eq k (codes "refresh") ≡ true) (sym kind) (text_eq_refl (codes "refresh")) in
    ground arith

-- A call that reads its token goes on with the claims.
pub refresh_claims_lem :
    {S : Type 0} (R : Redis S) (K : Crypto) (cfg : Settings) (now : ℕ) (f : Fresh) (token : Text)
    (c : Claims) (w : World S)
    → K.decode now token ≡ some c
    → c.kind ≡ codes "refresh"
    → refresh_access_token R K cfg now f token w ≡ use_claims R K cfg now f token c w
unfolding refresh_access_token
refresh_claims_lem R K cfg now f token c w good kind =
    >>=-ok (read_refresh_token R K cfg now token) (use_claims R K cfg now f token) w
      (read_gives R K cfg now token c w good kind)

module _ {S : Type 0} (N : Numerals) (R : Redis S) (value : ℕ → Text → S → Option Text)
    (laws : IsReliable N R value) (K : Crypto) (cfg : Settings) where
  listed_found :
      (now : ℕ) (c : Claims) (m : Option Tables) (s : S) (v : Text)
      → value now (blacklist_key c.jti) s ≡ some v
      → is_token_blacklisted R now c.jti (record { mysql = m; redis = some s })
        ≡ (ok true, record { mysql = m; redis = some s })
  unfolding is_token_blacklisted found
  listed_found now c m s v black = rw (laws.exists-value now (blacklist_key c.jti) s, black) refl

  family_bumped :
      (now : ℕ) (id : Text) (m : Option Tables) (s : S)
      → revoke_token_family R now id (record { mysql = m; redis = some s })
        ≡ (ok true, record { mysql = m; redis = some (R.incr now (family_key id) s).1 })
  unfolding revoke_token_family written
  family_bumped now id m s =
      let answered = laws.incr-reply now (family_key id) s in
      ap
        (λ a.
          written R (a, (R.incr now (family_key id) s).1) (record { mysql = m; redis = some s }))
        answered

  reused_claims :
      (now : ℕ) (f : Fresh) (token : Text) (c : Claims) (m : Option Tables) (s : S) (v : Text)
      → value now (blacklist_key c.jti) s ≡ some v
      → use_claims R K cfg now f token c (record { mysql = m; redis = some s }) ≡ (
        raised unauthorized reuse_detected,
        record { mysql = m; redis = some (R.incr now (family_key c.sub) s).1 },
      )
  unfolding use_claims check_reuse
  reused_claims now f token c m s v black =
      let w : World S = record { mysql = m; redis = some s } in
      >>=-ok (is_token_blacklisted R now c.jti)
        (λ b. check_reuse R K cfg now c b >> use_session R K cfg now f token c) w
        (listed_found now c m s v black)
      ∙ >>=-raised (check_reuse R K cfg now c true) (λ _. use_session R K cfg now f token c) w
          (>>=-ok (revoke_token_family R now c.sub) (λ _. raise unauthorized reuse_detected) w
            (family_bumped now c.sub m s))

  -- On a reliable Redis, a refresh token that decodes and whose `jti` is on the blacklist is
  -- refused as reused. The call changes nothing but the counter `token_family_version` of the
  -- token's user, which goes up by one: the sessions, the user's other ones included, are as
  -- before.
  pub refresh-reused :
      (now : ℕ) (f : Fresh) (token : Text) (c : Claims) (m : Option Tables) (s : S) (v : Text)
      → K.decode now token ≡ some c
      → c.kind ≡ codes "refresh"
      → value now (blacklist_key c.jti) s ≡ some v
      → (s' : S) × (refresh_access_token R K cfg now f token (record { mysql = m; redis = some s })
          ≡ (raised unauthorized reuse_detected, record { mysql = m; redis = some s' }))
        × (s' ≡ (R.incr now (family_key c.sub) s).1)
        × (value now (family_key c.sub) s'
            ≡ some (N.show (stored N (value now (family_key c.sub) s) + 1)))
  refresh-reused now f token c m s v good kind black = (
    (R.incr now (family_key c.sub) s).1,
    refresh_claims_lem R K cfg now f token c _ good kind ∙ reused_claims now f token c m s v black,
    refl,
    laws.incr-value now (family_key c.sub) s,
  )

-- ===== src/Auth/Refresh/Steps.antt =====
-- What a successful step of `refresh_access_token` (middleware_python/auth/service.py) says of the
-- token and of the session.
use social_graph_engine.Base.{
  ℕ, ◌≤◌, ◌≡◌, refl, ◌∙◌, Bool, true, false, Option, none, some, subst, ltb, Text, codes, text_eq,
  text_eq_sound, arith, Option-cases, inl, inr,
}
use social_graph_engine.Redis.{Redis}
use social_graph_engine.Auth.State.{
  Session, Tables, World, Claims, Crypto, Settings, ok, ◌>>◌, query, >>=-eq-ok,
}
use social_graph_engine.Auth.Tokens.{
  is_token_blacklisted, blacklist_token, revoke_token_family, found, written,
}
use social_graph_engine.Auth.Login.{Fresh, TokenPair}
use social_graph_engine.Auth.Refresh.{
  find_session, is_some, read_refresh_token, check_reuse, check_session, rotate, use_session,
  use_claims, refresh_access_token,
}

not_some : (o : Option ℕ) → is_some o ≡ false → o ≡ none
not_some none e = refl
not_some (some _) e = cc

module _ {S : Type 0} (R : Redis S) where
  -- The lookup of the blacklist leaves the world alone.
  pub blacklisted_same :
      (now : ℕ) (jti : Option Text) (w : World S) {b : Bool} {w' : World S}
      → is_token_blacklisted R now jti w ≡ (ok b, w')
      → w' ≡ w
  unfolding is_token_blacklisted found
  blacklisted_same now jti w h = ground arith

  -- Blacklisting changes nothing in MySQL.
  pub blacklist_mysql :
      (now : ℕ) (jti : Option Text) (ttl : ℕ) (w : World S) {b : Bool} {w' : World S}
      → blacklist_token R now jti ttl w ≡ (ok b, w')
      → w'.mysql ≡ w.mysql
  unfolding blacklist_token written
  blacklist_mysql now jti ttl w h = ground arith

module _ {S : Type 0} (R : Redis S) (K : Crypto) (cfg : Settings) where
  pub read_ok :
      (now : ℕ) (token : Text) (w : World S) {c : Claims} {w' : World S}
      → read_refresh_token R K cfg now token w ≡ (ok c, w')
      → (K.decode now token ≡ some c) × (text_eq c.kind (codes "refresh") ≡ true) × (w' ≡ w)
  unfolding read_refresh_token
  read_ok now token w h = elim (Option-cases (K.decode now token)) [
    | inl bad ↦ absurd (ground arith)
    | inr (c, good) ↦ (ground arith, ground arith, ground arith)
  ]

  pub check_session_ok :
      (now : ℕ) (token : Text) (o : Option Session) (w : World S) {x : Unit {0}} {w' : World S}
      → check_session R K cfg now token o w ≡ (ok x, w')
      → (s : Session) × (o ≡ some s)
        × (is_some s.revoked_at ≡ false)
        × (text_eq s.refresh_token_hash (K.sha256 token) ≡ true)
        × (ltb s.expires_at now ≡ false)
        × (w' ≡ w)
  unfolding check_session
  check_session_ok now token none w h = absurd (ground arith)
  check_session_ok now token (some s) w h =
      (s, refl, ground arith, ground arith, ground arith, ground arith)

  pub check_reuse_ok :
      (now : ℕ) (c : Claims) (b : Bool) (w : World S) {x : Unit {0}} {w' : World S}
      → check_reuse R K cfg now c b w ≡ (ok x, w')
      → w' ≡ w
  unfolding check_reuse revoke_token_family written
  check_reuse_ok now c false w h = ground arith
  check_reuse_ok now c true w h = absurd (ground arith)

  pub use_claims_ok :
      (now : ℕ) (f : Fresh) (token : Text) (c : Claims) (w : World S) {p : TokenPair} {w' : World S}
      → use_claims R K cfg now f token c w ≡ (ok p, w')
      → use_session R K cfg now f token c w ≡ (ok p, w')
  unfolding use_claims
  use_claims_ok now f token c w {p} {w'} h =
      let (b, w₁, e₁, h₁) =
        >>=-eq-ok (is_token_blacklisted R now c.jti)
          (λ b. check_reuse R K cfg now c b >> use_session R K cfg now f token c) w h in
      let (_, w₂, e₂, h₂) =
        >>=-eq-ok (check_reuse R K cfg now c b) (λ _. use_session R K cfg now f token c) w₁ h₁ in
      let same : w₂ ≡ w = check_reuse_ok now c b w₁ e₂ ∙ blacklisted_same R now c.jti w e₁ in
      subst (λ v. use_session R K cfg now f token c v ≡ (ok p, w')) same h₂

  pub refresh_ok :
      (now : ℕ) (f : Fresh) (token : Text) (w : World S) {p : TokenPair} {w' : World S}
      → refresh_access_token R K cfg now f token w ≡ (ok p, w')
      → (c : Claims) × (K.decode now token ≡ some c)
        × (text_eq c.kind (codes "refresh") ≡ true)
        × (use_session R K cfg now f token c w ≡ (ok p, w'))
  unfolding refresh_access_token
  refresh_ok now f token w {p} {w'} h =
      let (c, w₁, e₁, h₁) =
        >>=-eq-ok (read_refresh_token R K cfg now token) (use_claims R K cfg now f token) w h in
      let (good, kind, same) = read_ok now token w e₁ in
      (
        c,
        good,
        kind,
        subst (λ v. use_session R K cfg now f token c v ≡ (ok p, w')) same
            (use_claims_ok now f token c w₁ h₁),
      )

  -- A refresh that succeeds was asked for with a refresh token that decodes, for a session that is in
  -- the table, keeps the token's hash, is not revoked and has not expired.
  pub refresh_sound :
      (now : ℕ) (f : Fresh) (token : Text) (w : World S) (p : TokenPair)
      → (refresh_access_token R K cfg now f token w).0 ≡ ok p
      → (c : Claims) × (t : Tables) × (s : Session) × (K.decode now token ≡ some c)
        × (c.kind ≡ codes "refresh")
        × (w.mysql ≡ some t)
        × (find_session c.session_id t.sessions ≡ some s)
        × (s.refresh_token_hash ≡ K.sha256 token)
        × (s.revoked_at ≡ none)
        × (now ≤ s.expires_at)
  unfolding use_session
  refresh_sound now f token w p h =
      let (c, good, kind, used) =
        refresh_ok now f token w {p = p} {w' = (refresh_access_token R K cfg now f token w).1} cc in
      let (o, w₁, e₁, h₁) =
        >>=-eq-ok (query (λ t. find_session c.session_id t.sessions))
          (λ o. check_session R K cfg now token o >> rotate R K cfg now f c) w used in
      let (_, w₂, e₂, h₂) =
        >>=-eq-ok (check_session R K cfg now token o) (λ _. rotate R K cfg now f c) w₁ h₁ in
      let (s, found_it, live, hash, fresh, same) = check_session_ok now token o w₁ e₂ in
      elim (Option-cases (w.mysql)) [
        | inl down ↦ absurd (ground arith)
        | inr (t, up) ↦ (
          c,
          t,
          s,
          good,
          text_eq_sound c.kind (codes "refresh") kind,
          up,
          ground arith,
          text_eq_sound s.refresh_token_hash (K.sha256 token) hash,
          not_some s.revoked_at live,
          ground arith,
        )
      ]

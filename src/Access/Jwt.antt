-- ===== src/Access/Jwt.antt =====
-- `_authenticate_jwt` of middleware_python/core/dependencies.py, and the tokens of a login.
use social_graph_engine.Base.{
  ℕ, ◌+◌, ◌*◌, ◌≤◌, ◌≡◌, refl, sym, ◌∙◌, ◌≢◌, ap, subst, true, some, Text, codes, text_eq,
  text_eq_refl, text_eq_sound, arith, Option-cases, inl, inr,
}
use social_graph_engine.Redis.{Redis}
use social_graph_engine.Redis.Laws.{Numerals}
use social_graph_engine.Auth.State.{
  User, World, Claims, Crypto, Settings, ok, pure, >>=-eq-ok, >>=-ok,
}
use social_graph_engine.Auth.Tokens.{access_claims}
use social_graph_engine.Auth.Login.{Fresh, TokenPair, new_tokens, login_user}
use social_graph_engine.Auth.Login.Outcome.{login_sound}
use social_graph_engine.Auth.Refresh.{refresh_access_token}
use social_graph_engine.Auth.Refresh.Steps.{refresh_sound}
use social_graph_engine.Auth.Refresh.Rotation.{IsTimeless}
use social_graph_engine.Auth.RoundTrip.{IsSigned}
use social_graph_engine.Access.{
  Identity, jwt, check_blacklist, read_access_token, admit, authenticate_jwt, or_viewer,
}

module _ {S : Type 0} (R : Redis S) (K : Crypto) where
  read_access_ok :
      (now : ℕ) (token : Text) (w : World S) {c : Claims} {w' : World S}
      → read_access_token R K now token w ≡ (ok c, w')
      → (K.decode now token ≡ some c) × (text_eq c.kind (codes "access") ≡ true) × (w' ≡ w)
  unfolding read_access_token
  read_access_ok now token w h = elim (Option-cases (K.decode now token)) [
    | inl bad ↦ absurd (ground arith)
    | inr (c, good) ↦ (ground arith, ground arith, ground arith)
  ]

  read_access_gives :
      (now : ℕ) (token : Text) (c : Claims) (w : World S)
      → K.decode now token ≡ some c
      → c.kind ≡ codes "access"
      → read_access_token R K now token w ≡ (ok c, w)
  unfolding read_access_token
  read_access_gives now token c w good kind =
      let same : text_eq c.kind (codes "access") ≡ true =
        subst (λ k. text_eq k (codes "access") ≡ true) (sym kind) (text_eq_refl (codes "access")) in
      ground arith

  -- A request that a bearer token authenticates carries an access token that decodes, and its user and
  -- role are those of the token.
  pub authenticate_jwt_sound :
      (now : ℕ) (token : Text) (w w' : World S) (i : Identity)
      → authenticate_jwt R K now token w ≡ (ok i, w')
      → (c : Claims) × (K.decode now token ≡ some c)
        × (c.kind ≡ codes "access")
        × (i ≡ record { user_id = c.sub; role = or_viewer c.role; auth_method = jwt; jti = c.jti })
  unfolding authenticate_jwt admit
  authenticate_jwt_sound now token w w' i h =
      let (c, w₁, e₁, h₁) = >>=-eq-ok (read_access_token R K now token) (admit R K now) w h in
      let (good, kind, same) = read_access_ok now token w e₁ in
      let (_, w₂, e₂, h₂) =
        >>=-eq-ok (check_blacklist R K now c.jti)
          (λ _.
            pure
              (record { user_id = c.sub; role = or_viewer c.role; auth_method = jwt; jti = c.jti }))
          w₁ h₁ in
      (c, good, text_eq_sound c.kind (codes "access") kind, ground arith)

  -- No token serves both purposes: what `refresh_access_token` once exchanged never authenticates
  -- a request. What a token decodes to does not depend on the time, as far as it decodes.
  pub authenticate_jwt-refresh :
      (cfg : Settings) (now now' : ℕ) (f : Fresh) (token : Text) (w v : World S) (p : TokenPair)
      (i : Identity)
      → IsTimeless K
      → (refresh_access_token R K cfg now f token w).0 ≡ ok p
      → (authenticate_jwt R K now' token v).0 ≢ ok i
  unfolding text_eq
  authenticate_jwt-refresh cfg now now' f token w v p i timeless refreshed entered =
      let (c, t, s, good, kind, up, there, hash, live, fresh) =
        refresh_sound R K cfg now f token w p refreshed in
      let (c', good', kind', identity) =
        authenticate_jwt_sound now' token v (authenticate_jwt R K now' token v).1 i cc in
      let agree : c ≡ c' = timeless now now' token c c' good good' in
      let clash : codes "refresh" ≡ codes "access" = sym kind ∙ ap (λ c. c.kind) agree ∙ kind' in
      let differ : text_eq (codes "refresh") (codes "access") ≡ true =
        subst (λ k. text_eq (codes "refresh") k ≡ true) clash (text_eq_refl (codes "refresh")) in
      cc

  -- A login's access token authenticates its user, with the user's role, within
  -- `access_token_expire_minutes`, unless it is on the blacklist; signed tokens decode until they
  -- expire.
  pub login-authenticate :
      (N : Numerals) (cfg : Settings) (now now' : ℕ) (f : Fresh) (email password device ip : Text)
      (w w' v : World S) (p : TokenPair) (u : User)
      → IsSigned K
      → login_user N R K cfg now f email password device ip w ≡ (ok (p, u), w')
      → now' ≤ now + cfg.access_token_expire_minutes * 60
      → check_blacklist R K now' (some f.access_jti) v ≡ (ok tt, v)
      → authenticate_jwt R K now' p.access_token v ≡ (
        ok (record { user_id = u.id; role = u.role; auth_method = jwt; jti = some f.access_jti }),
        v,
      )
  unfolding authenticate_jwt admit new_tokens access_claims
  login-authenticate N cfg now now' f email password device ip w w' v p u signed login soon white =
      let (t, up, there, right, tokens, left) =
        login_sound N R K cfg now f email password device ip w w' p u login in
      let c = access_claims cfg now f.access_jti u.id u.role in
      let i : Identity = record {
        user_id = u.id;
        role = u.role;
        auth_method = jwt;
        jti = some f.access_jti;
      } in
      subst (λ q. authenticate_jwt R K now' q.access_token v ≡ (ok i, v)) (sym tokens)
        (>>=-ok (read_access_token R K now' (K.encode c)) (admit R K now') v
            (read_access_gives now' (K.encode c) c v (signed now' c soon) refl)
          ∙ >>=-ok (check_blacklist R K now' (some f.access_jti)) (λ _. pure i) v white)

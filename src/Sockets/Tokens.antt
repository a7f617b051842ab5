-- ===== src/Sockets/Tokens.antt =====
-- Who may open a WebSocket (middleware_python/websockets/), beside who may send a request
-- (`_authenticate_jwt` of core/dependencies.py).
use social_graph_engine.Base.{
  ℕ, ◌+◌, ◌*◌, ◌≤◌, ◌≡◌, ◌≢◌, refl, sym, ◌∙◌, ap, subst, some, ◌∷◌, Text, codes, text_eq,
  text_eq_refl, arith, true,
}
use social_graph_engine.Redis.{Redis}
use social_graph_engine.Redis.Laws.{Numerals}
use social_graph_engine.Auth.State.{User, World, Claims, Crypto, Settings, ok}
use social_graph_engine.Auth.Tokens.{access_claims, refresh_claims}
use social_graph_engine.Auth.Login.{Fresh, TokenPair, new_tokens, login_user}
use social_graph_engine.Auth.Login.Outcome.{login_sound}
use social_graph_engine.Auth.RoundTrip.{IsSigned}
use social_graph_engine.Access.{Identity, authenticate_jwt}
use social_graph_engine.Access.Jwt.{authenticate_jwt_sound}
use social_graph_engine.Sockets.{admission, accepted}

admission-decode :
    (K : Crypto) (now : ℕ) (c : ℕ) (cs token : Text) (payload : Claims)
    → token ≡ c ∷ cs
    → K.decode now token ≡ some payload
    → admission K now (some token) ≡ accepted payload.sub
unfolding admission
admission-decode K now c cs token payload shape good = ground arith

module _ {S : Type 0} (R : Redis S) (K : Crypto) where
  -- A refresh token authenticates no request.
  refresh_unauthenticated :
      (now : ℕ) (token : Text) (payload : Claims) (v : World S) (i : Identity)
      → K.decode now token ≡ some payload
      → payload.kind ≡ codes "refresh"
      → (authenticate_jwt R K now token v).0 ≢ ok i
  unfolding text_eq
  refresh_unauthenticated now token payload v i good refresh entered =
      let (c, good', kind, identity) =
        authenticate_jwt_sound R K now token v (authenticate_jwt R K now token v).1 i cc in
      let same : c ≡ payload = cc in
      let clash : codes "refresh" ≡ codes "access" =
        sym refresh ∙ ap (λ c. c.kind) (sym same) ∙ kind in
      let differ : text_eq (codes "refresh") (codes "access") ≡ true =
        subst (λ k. text_eq (codes "refresh") k ≡ true) clash (text_eq_refl (codes "refresh")) in
      cc

  -- Both tokens of a login open a WebSocket for its user until they expire, whatever has been put on
  -- the blacklist since: the handlers do not read it, nor the type of the token. So the refresh token
  -- opens a WebSocket while no request is authenticated by it.
  pub login-admission :
      (N : Numerals) (cfg : Settings) (now t t' : ℕ) (f : Fresh) (email password device ip : Text)
      (w w' v : World S) (p : TokenPair) (u : User) (i : Identity) (a r : ℕ) (s s' : Text)
      → IsSigned K
      → login_user N R K cfg now f email password device ip w ≡ (ok (p, u), w')
      → p.access_token ≡ a ∷ s
      → p.refresh_token ≡ r ∷ s'
      → t ≤ now + cfg.access_token_expire_minutes * 60
      → t' ≤ now + cfg.refresh_token_expire_days * 86400
      → (admission K t (some p.access_token) ≡ accepted u.id)
        × (admission K t' (some p.refresh_token) ≡ accepted u.id)
        × ((authenticate_jwt R K t' p.refresh_token v).0 ≢ ok i)
  unfolding new_tokens access_claims refresh_claims
  login-admission N cfg now t t' f email password device ip w w' v p u i a r s s' signed login is_a
        is_r soon soon' =
      let (tables, up, there, right, tokens, left) =
        login_sound N R K cfg now f email password device ip w w' p u login in
      let access = access_claims cfg now f.access_jti u.id u.role in
      let refresh = refresh_claims cfg now f.refresh_jti u.id f.session_id in
      let good : K.decode t p.access_token ≡ some access =
        subst (λ q. K.decode t q.access_token ≡ some access) (sym tokens) (signed t access soon) in
      let good' : K.decode t' p.refresh_token ≡ some refresh =
        subst (λ q. K.decode t' q.refresh_token ≡ some refresh) (sym tokens)
          (signed t' refresh soon') in
      (
        admission-decode K t a s p.access_token access is_a good,
        admission-decode K t' r s' p.refresh_token refresh is_r good',
        refresh_unauthenticated t' p.refresh_token refresh v i good' refl,
      )

-- ===== src/Auth/RoundTrip.antt =====
-- `login_user` followed by `refresh_access_token` (middleware_python/auth/service.py).
use social_graph_engine.Base.{
  ℕ, ◌+◌, ◌*◌, ◌≤◌, ◌≡◌, refl, sym, ◌∙◌, subst, none, some, Text, arith, false, Bool, if◌then◌else◌,
}
use social_graph_engine.Redis.{Redis}
use social_graph_engine.Redis.Laws.{Numerals}
use social_graph_engine.Auth.State.{User, Tables, World, Claims, Crypto, Settings, ok, crashed}
use social_graph_engine.Auth.Tokens.{is_token_blacklisted, blacklist_token, refresh_claims}
use social_graph_engine.Auth.Login.{
  clip_device, Fresh, TokenPair, new_session, new_tokens, login_user,
}
use social_graph_engine.Auth.Login.Outcome.{login_sound, logged_in}
use social_graph_engine.Auth.Refresh.{find_session, refresh_access_token}
use social_graph_engine.Auth.Refresh.Accepts.{find_session-snoc, find_user-touch, refresh-accepts}

-- A token that was signed decodes until it expires.
abbrev pub IsSigned : Crypto → Type 0
IsSigned K = (now : ℕ) (c : Claims) → now ≤ c.exp → K.decode now (K.encode c) ≡ some c

module _ {S : Type 0} (N : Numerals) (R : Redis S) (K : Crypto) (cfg : Settings) where
  -- The refresh token that a login answered is exchanged for a new pair of tokens if the driver's
  -- datetimes have a time zone; if they have none, as aiomysql gives them, the exchange ends in the
  -- TypeError of the comparison with the clock. Either way it is asked for within
  -- `refresh_token_expire_days`, signed tokens decode until they expire, the login's session id was
  -- not in use, the tables are those that the login left, and the token is not on the blacklist and
  -- can be put there.
  pub login-refresh :
      (now now' : ℕ) (f f' : Fresh) (email password device ip : Text) (t : Tables)
      (w w' v v' : World S) (p : TokenPair) (u : User) (b : Bool)
      → IsSigned K
      → w.mysql ≡ some t
      → find_session (some f.session_id) t.sessions ≡ none
      → login_user N R K cfg now f email password device ip w ≡ (ok (p, u), w')
      → v.mysql ≡ w'.mysql
      → now' ≤ now + cfg.refresh_token_expire_days * 86400
      → is_token_blacklisted R now' (some f.refresh_jti) v ≡ (ok false, v)
      → blacklist_token R now' (some f.refresh_jti) 86400 v ≡ (ok b, v')
      → (p' : TokenPair) × ((refresh_access_token R K cfg now' f' p.refresh_token v).0
          ≡ (if K.aware then ok p' else crashed))
  unfolding new_tokens new_session refresh_claims
  login-refresh now now' f f' email password device ip t w w' v v' p u b signed up fresh login same
        soon white listed =
      let (t', up', there, right, tokens, left) =
        login_sound N R K cfg now f email password device ip w w' p u login in
      let tables : t' ≡ t = ground arith in
      let (u', known) = find_user-touch now u.id email t'.users {u = u} there in
      let s = new_session K cfg now f u.id (clip_device device) (some ip) in
      let c = refresh_claims cfg now f.refresh_jti u.id f.session_id in
      let placed =
        find_session-snoc t'.sessions s
          (subst (λ x. find_session (some f.session_id) x.sessions ≡ none) (sym tables) fresh) in
      let accepted =
        refresh-accepts R K cfg now' f' (K.encode c) c (logged_in N R K cfg now f device ip u t') s
          u' v v' b (signed now' c soon) refl white listed (same ∙ left) placed refl refl soon
          known in
      (
        new_tokens K cfg now' f' u.id u'.role,
        subst
            (λ q.
              (refresh_access_token R K cfg now' f' q.refresh_token v).0
              ≡ (if K.aware then ok (new_tokens K cfg now' f' u.id u'.role) else crashed))
            (sym tokens) accepted,
      )

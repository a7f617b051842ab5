-- ===== src/Auth/Logout/Revoked.antt =====
-- What `logout_user` (middleware_python/auth/service.py) takes away: the sessions it names serve no
-- refresh any more.
use social_graph_engine.Base.{
  ℕ, ◌≡◌, refl, ◌∙◌, ◌≢◌, Bool, true, false, Option, none, some, List, [], ◌∷◌, if◌then◌else◌, Text,
  text_eq, text_eq_refl, arith, Bool-cases, inl, inr,
}
use social_graph_engine.Redis.{Redis}
use social_graph_engine.Auth.State.{Session, Tables, World, Claims, Crypto, Settings, ok}
use social_graph_engine.Auth.Tokens.{blacklist_token, revoke_token_family, written}
use social_graph_engine.Auth.Login.{Fresh, TokenPair}
use social_graph_engine.Auth.Refresh.{find_session, refresh_access_token}
use social_graph_engine.Auth.Refresh.Steps.{refresh_sound}
use social_graph_engine.Auth.Logout.{
  revoke_where, of_user, of_token, blacklist_payload, logout_token, logout_user,
}

-- A session that is found after an UPDATE was found before, and the UPDATE made it what it is.
find_session-revoke_where :
    (test : Session → Bool) (now : ℕ) (sid : Option Text) (sessions : List Session) {s' : Session}
    → find_session sid (revoke_where test now sessions) ≡ some s'
    → (s : Session) × (find_session sid sessions ≡ some s)
      × (s' ≡ (if test s then record s { revoked_at = some now } else s))
unfolding find_session revoke_where
find_session-revoke_where test now none sessions e = absurd cc
find_session-revoke_where test now (some id) [] e = absurd cc
find_session-revoke_where test now (some id) (u ∷ sessions) {s'} e =
    elim (Bool-cases (text_eq u.id id)) [
      | inl hit ↦ (u, ground arith, ground arith)
      | inr miss ↦
          let (s, f, r) =
            find_session-revoke_where test now (some id) sessions {s' = s'} (ground arith) in
          (s, ground arith, r)
    ]

-- What is live after an UPDATE did not meet its test.
live_untested :
    (test : Session → Bool) (now : ℕ) (s s' : Session)
    → s' ≡ (if test s then record s { revoked_at = some now } else s)
    → s'.revoked_at ≡ none
    → (test s ≡ false) × (s' ≡ s)
live_untested test now s s' e live = elim (Bool-cases (test s)) [
  | inl met ↦ absurd (ground arith)
  | inr unmet ↦ (unmet, ground arith)
]

module _ {S : Type 0} (R : Redis S) (K : Crypto) (cfg : Settings) where
  -- A refresh that succeeds after an UPDATE of the sessions uses one that the UPDATE left alone.
  refresh_untested :
      (test : Session → Bool) (now now' : ℕ) (f : Fresh) (token : Text) (t : Tables) (v : World S)
      (p : TokenPair)
      → v.mysql ≡ some (record t { sessions = revoke_where test now t.sessions })
      → (refresh_access_token R K cfg now' f token v).0 ≡ ok p
      → (c : Claims) × (s : Session) × (K.decode now' token ≡ some c)
        × (find_session c.session_id t.sessions ≡ some s)
        × (test s ≡ false)
        × (s.refresh_token_hash ≡ K.sha256 token)
        × (s.revoked_at ≡ none)
  refresh_untested test now now' f token t v p after h =
      let (c, t', s', good, kind, up, there, hash, live, fresh) =
        refresh_sound R K cfg now' f token v p h in
      let (s, before, made) =
        find_session-revoke_where test now c.session_id t.sessions {s' = s'} (ground arith) in
      let (unmet, same) = live_untested test now s s' made live in
      (c, s, good, before, unmet, ground arith, ground arith)

  blacklist_payload_mysql :
      (now : ℕ) (o : Option Claims) (w : World S)
      → (blacklist_payload R K now o w).1.mysql ≡ w.mysql
  unfolding blacklist_payload blacklist_token written
  blacklist_payload_mysql now none w = refl
  blacklist_payload_mysql now (some c) w = ground arith

  logout_token_mysql :
      (now : ℕ) (user_id : Text) (c : ℕ) (cs : Text) (t : Tables) (w : World S)
      → w.mysql ≡ some t
      → (logout_token R K now user_id (c ∷ cs) w).1.mysql
        ≡ some (record t {
          sessions = revoke_where (of_token (K.sha256 (c ∷ cs)) user_id) now t.sessions;
        })
  unfolding logout_token
  logout_token_mysql now user_id c cs t w up =
      blacklist_payload_mysql now (K.decode now (c ∷ cs)) _ ∙ ground arith

  logout_all_mysql :
      (now : ℕ) (user_id token : Text) (t : Tables) (w : World S)
      → w.mysql ≡ some t
      → (logout_user R K now user_id token true w).1.mysql
        ≡ some (record t { sessions = revoke_where (of_user user_id) now t.sessions })
  unfolding logout_user revoke_token_family written
  logout_all_mysql now user_id token t w up = ground arith

  -- After the user has logged out with a refresh token, no call of the refresh exchanges that token
  -- any more, at whatever time and with whatever is in Redis, provided that the session that keeps the
  -- token's hash is the user's own and that the tables are those that the logout left.
  pub logout-token :
      (now now' : ℕ) (f : Fresh) (user_id : Text) (c : ℕ) (cs : Text) (t : Tables) (w v : World S)
      (p : TokenPair)
      → w.mysql ≡ some t
      → ((sid : Option Text) (s : Session)
          → find_session sid t.sessions ≡ some s
          → s.refresh_token_hash ≡ K.sha256 (c ∷ cs)
          → s.user_id ≡ user_id)
      → v.mysql ≡ (logout_user R K now user_id (c ∷ cs) false w).1.mysql
      → (refresh_access_token R K cfg now' f (c ∷ cs) v).0 ≢ ok p
  unfolding logout_user
  logout-token now now' f user_id c cs t w v p up own after h =
      let (d, s, good, there, unmet, hash, live) =
        refresh_untested (of_token (K.sha256 (c ∷ cs)) user_id) now now' f (c ∷ cs) t v p
          (after ∙ logout_token_mysql now user_id c cs t w up) h in
      let mine = own d.session_id s there hash in
      ground (arith, text_eq_refl (K.sha256 (c ∷ cs)), text_eq_refl user_id)

  -- After the user has logged out everywhere, no token of a session of the user's is exchanged any
  -- more, at whatever time and with whatever is in Redis, as long as the tables are those that the
  -- logout left.
  pub logout-all :
      (now now' : ℕ) (f : Fresh) (user_id given token : Text) (t : Tables) (w v : World S)
      (c : Claims) (s : Session) (p : TokenPair)
      → w.mysql ≡ some t
      → K.decode now' token ≡ some c
      → find_session c.session_id t.sessions ≡ some s
      → s.user_id ≡ user_id
      → v.mysql ≡ (logout_user R K now user_id given true w).1.mysql
      → (refresh_access_token R K cfg now' f token v).0 ≢ ok p
  logout-all now now' f user_id given token t w v c s p up good there own after h =
      let (c', s', good', there', unmet, hash, live) =
        refresh_untested (of_user user_id) now now' f token t v p
          (after ∙ logout_all_mysql now user_id given t w up) h in
      let same : s' ≡ s = ground arith in ground (arith, text_eq_refl user_id)

-- ===== src/Auth/Refresh/Accepts.antt =====
-- When `refresh_access_token` (middleware_python/auth/service.py) succeeds, and that it does for the
-- token of a login.
use social_graph_engine.Base.{
  ℕ, ◌≤◌, ◌≡◌, refl, sym, ◌∙◌, ap, subst, Bool, true, false, not, none, some, List, [], ◌∷◌, ◌++◌,
  ◌&&◌, if◌then◌else◌, Text, codes, text_eq, text_eq_refl, arith, Bool-cases, inl, inr,
}
use social_graph_engine.Redis.{Redis}
use social_graph_engine.Auth.State.{
  User, Session, Tables, World, Claims, Crypto, Settings, ok, crashed, ◌>>◌, query, >>=-ok,
  >>=-crashed,
}
use social_graph_engine.Auth.Tokens.{is_token_blacklisted, blacklist_token}
use social_graph_engine.Auth.Login.{find_user_by_email, touch_login, Fresh, new_tokens}
use social_graph_engine.Auth.Refresh.{
  find_session, find_user_by_id, is_some, check_reuse, check_session, reissue, rotate, use_session,
  use_claims, refresh_access_token,
}
use social_graph_engine.Auth.Refresh.Reuse.{refresh_claims_lem}
use social_graph_engine.Auth.Refresh.Steps.{blacklist_mysql}

-- A session that was not there is found where it was appended.
pub find_session-snoc :
    (sessions : List Session) (s : Session)
    → find_session (some s.id) sessions ≡ none
    → find_session (some s.id) (sessions ++ s ∷ []) ≡ some s
unfolding find_session
find_session-snoc [] s e = rw (text_eq_refl s.id) refl
find_session-snoc (u ∷ sessions) s e = ground (arith, find_session-snoc sessions s)

-- A user found by the address is found by the id, after the login too.
pub find_user-touch :
    (now : ℕ) (id email : Text) (users : List User) {u : User}
    → find_user_by_email email users ≡ some u
    → (u' : User) × (find_user_by_id u.id (touch_login now id users) ≡ some u')
unfolding find_user_by_email find_user_by_id touch_login
find_user-touch now id email [] e = absurd cc
find_user-touch now id email (x ∷ users) {u} e =
    let x' : User = if text_eq x.id id then record x { last_login_at = some now } else x in
    let same_id : x'.id ≡ x.id = ground arith in
    let same_deleted : x'.deleted ≡ x.deleted = ground arith in
    elim (Bool-cases (text_eq x'.id u.id && not x'.deleted)) [
      | inl hit ↦ (x', rw hit refl)
      | inr miss ↦
          let (u', f) =
            find_user-touch now id email users {u = u} (ground (arith, text_eq_refl x.id)) in
          (u', rw miss f)
    ]

module _ {S : Type 0} (R : Redis S) (K : Crypto) (cfg : Settings) where
  check_session_gives :
      (now : ℕ) (token : Text) (s : Session) (w : World S)
      → s.revoked_at ≡ none
      → s.refresh_token_hash ≡ K.sha256 token
      → now ≤ s.expires_at
      → check_session R K cfg now token (some s) w ≡ (if K.aware then ok tt else crashed, w)
  unfolding check_session
  check_session_gives now token s w live hash fresh =
      let same : text_eq s.refresh_token_hash (K.sha256 token) ≡ true =
        subst (λ h. text_eq h (K.sha256 token) ≡ true) (sym hash) (text_eq_refl (K.sha256 token)) in
      let not_revoked : is_some s.revoked_at ≡ false = ap is_some live in ground arith

  reissue_gives :
      (now : ℕ) (f : Fresh) (c : Claims) (t : Tables) (u : User) (w : World S)
      → w.mysql ≡ some t
      → find_user_by_id c.sub t.users ≡ some u
      → (reissue R K cfg now f c w).0 ≡ ok (new_tokens K cfg now f c.sub u.role)
  unfolding reissue
  reissue_gives now f c t u w up there = ground arith

  rotate_gives :
      (now : ℕ) (f : Fresh) (c : Claims) (t : Tables) (u : User) (w : World S) {b : Bool}
      {w' : World S}
      → w.mysql ≡ some t
      → find_user_by_id c.sub t.users ≡ some u
      → blacklist_token R now c.jti 86400 w ≡ (ok b, w')
      → (rotate R K cfg now f c w).0 ≡ ok (new_tokens K cfg now f c.sub u.role)
  unfolding rotate
  rotate_gives now f c t u w {w' = w'} up there listed =
      ap (λ r. r.0)
        (>>=-ok (blacklist_token R now c.jti 86400) (λ _. reissue R K cfg now f c) w listed)
      ∙ reissue_gives now f c t u w' (blacklist_mysql R now c.jti 86400 w listed ∙ up) there

  -- A refresh answers a new pair of tokens where the driver's datetimes have a time zone, and ends in a
  -- TypeError where they have none, whenever the token decodes as a refresh token
  -- that is not on the blacklist and can be put there, its session is in the table, not revoked and not
  -- expired, and keeps the token's hash, and its user is there and not deleted.
  pub refresh-accepts :
      (now : ℕ) (f : Fresh) (token : Text) (c : Claims) (t : Tables) (s : Session) (u : User)
      (w w' : World S) (b : Bool)
      → K.decode now token ≡ some c
      → c.kind ≡ codes "refresh"
      → is_token_blacklisted R now c.jti w ≡ (ok false, w)
      → blacklist_token R now c.jti 86400 w ≡ (ok b, w')
      → w.mysql ≡ some t
      → find_session c.session_id t.sessions ≡ some s
      → s.revoked_at ≡ none
      → s.refresh_token_hash ≡ K.sha256 token
      → now ≤ s.expires_at
      → find_user_by_id c.sub t.users ≡ some u
      → (refresh_access_token R K cfg now f token w).0
        ≡ (if K.aware then ok (new_tokens K cfg now f c.sub u.role) else crashed)
  unfolding use_claims use_session check_reuse
  refresh-accepts now f token c t s u w w' b good kind white listed up there live hash fresh known =
      let found : query {S = S} (λ t. find_session c.session_id t.sessions) w ≡ (ok (some s), w) =
        ground arith in
      ap (λ r. r.0)
        (refresh_claims_lem R K cfg now f token c w good kind
          ∙ >>=-ok (is_token_blacklisted R now c.jti)
              (λ b. check_reuse R K cfg now c b >> use_session R K cfg now f token c) w white
          ∙ >>=-ok (query (λ t. find_session c.session_id t.sessions))
              (λ o. check_session R K cfg now token o >> rotate R K cfg now f c) w found)
      ∙ checked K.aware refl
    where
      checked :
          (b : Bool)
          → K.aware ≡ b
          → ((check_session R K cfg now token (some s) >> rotate R K cfg now f c) w).0
            ≡ (if b then ok (new_tokens K cfg now f c.sub u.role) else crashed)
      checked true e =
          ap (λ r. r.0)
            (>>=-ok (check_session R K cfg now token (some s)) (λ _. rotate R K cfg now f c) w
              (check_session_gives now token s w live hash fresh
                ∙ ap (λ a. (if a then ok tt else crashed, w)) e))
          ∙ rotate_gives now f c t u w up known listed
      checked false e =
          ap (λ r. r.0)
            (>>=-crashed (check_session R K cfg now token (some s)) (λ _. rotate R K cfg now f c) w
              (check_session_gives now token s w live hash fresh
                ∙ ap (λ a. (if a then ok tt else crashed, w)) e))

-- ===== src/Auth/Refresh.antt =====
-- `refresh_access_token` of middleware_python/auth/service.py.
pub mod Accepts
pub mod Reuse
pub mod Steps
pub mod Rotation
use social_graph_engine.Base.{
  ℕ, ◌+◌, ◌-◌, ◌*◌, ◌/◌, ◌≡◌, Bool, true, false, not, Option, none, some, List, [], ◌∷◌, ◌++◌, ltb,
  ◌&&◌, if◌then◌else◌, Text, codes, text_eq,
}
use social_graph_engine.Errors.{unauthorized}
use social_graph_engine.Redis.{Redis}
use social_graph_engine.Auth.State.{
  User, Session, Tables, World, Claims, Crypto, Settings, Reason, invalid_refresh_token,
  wrong_token_type, reuse_detected, session_invalid, token_mismatch, token_expired, no_such_user,
  Result, ok, raised, crashed, Action, pure, raise, ◌>>=◌, ◌>>◌, raise_if, raise_if_expired,
  or_raise, query, update,
}
use social_graph_engine.Auth.Tokens.{is_token_blacklisted, blacklist_token, revoke_token_family}
use social_graph_engine.Auth.Login.{Fresh, TokenPair, new_session, new_tokens}

-- SELECT ... FROM sessions WHERE id = %s; no row has a NULL id.
unfoldable pub find_session : Option Text → List Session → Option Session
find_session none sessions = none
find_session (some id) [] = none
find_session (some id) (s ∷ sessions) =
    if text_eq s.id id then some s else find_session (some id) sessions

-- SELECT role FROM users WHERE id = %s AND deleted_at IS NULL
unfoldable pub find_user_by_id : Text → List User → Option User
find_user_by_id id [] = none
find_user_by_id id (u ∷ users) =
    if text_eq u.id id && not u.deleted then some u else find_user_by_id id users

-- UPDATE sessions SET revoked_at = %s WHERE id = %s
unfoldable pub revoke_session : ℕ → Option Text → List Session → List Session
revoke_session now none sessions = sessions
revoke_session now (some id) [] = []
revoke_session now (some id) (s ∷ sessions) =
    (if text_eq s.id id then record s { revoked_at = some now } else s)
    ∷ revoke_session now (some id) sessions

abbrev pub is_some : {A : Type 0} → Option A → Bool
is_some none = false
is_some (some _) = true

module _ {S : Type 0} (R : Redis S) (K : Crypto) (cfg : Settings) where
  -- `decode_token` under `try`, and the test of the type.
  unfoldable pub read_refresh_token : ℕ → Text → Action S Claims
  read_refresh_token now token = do
    payload ← or_raise (K.decode now token) unauthorized invalid_refresh_token
    raise_if (not (text_eq payload.kind (codes "refresh"))) unauthorized wrong_token_type
    pure payload

  -- The reuse detection: a blacklisted token bumps the family version of its user.
  unfoldable pub check_reuse : ℕ → Claims → Bool → Action S (Unit {0})
  check_reuse now payload false = pure tt
  check_reuse now payload true = do
    revoke_token_family R now payload.sub
    raise unauthorized reuse_detected

  -- The three tests on the session's row.
  unfoldable pub check_session : ℕ → Text → Option Session → Action S (Unit {0})
  check_session now token none = raise unauthorized session_invalid
  check_session now token (some s) = do
    raise_if (is_some s.revoked_at) unauthorized session_invalid
    raise_if (not (text_eq s.refresh_token_hash (K.sha256 token))) unauthorized token_mismatch
    raise_if_expired K.aware now (some s.expires_at) token_expired

  -- Steps 2 to 4: issue the new pair, revoke the old session and insert the new one. The SELECT of the
  -- session fetches neither `device_info` nor `ip_address`, so both are NULL.
  unfoldable pub reissue : ℕ → Fresh → Claims → Action S TokenPair
  reissue now f payload = do
    found ← query (λ t. find_user_by_id payload.sub t.users)
    user ← or_raise found unauthorized no_such_user
    update (λ t. record t { sessions = revoke_session now payload.session_id t.sessions })
    update (λ t. record t {
      sessions = t.sessions ++ new_session K cfg now f payload.sub none none ∷ [];
    })
    pure (new_tokens K cfg now f payload.sub user.role)

  -- The rotation: the old token goes to the blacklist first.
  unfoldable pub rotate : ℕ → Fresh → Claims → Action S TokenPair
  rotate now f payload = blacklist_token R now payload.jti 86400 >> reissue now f payload

  unfoldable pub use_session : ℕ → Fresh → Text → Claims → Action S TokenPair
  use_session now f token payload = do
    session ← query (λ t. find_session payload.session_id t.sessions)
    check_session now token session
    rotate now f payload

  unfoldable pub use_claims : ℕ → Fresh → Text → Claims → Action S TokenPair
  use_claims now f token payload = do
    reused ← is_token_blacklisted R now payload.jti
    check_reuse now payload reused
    use_session now f token payload

  -- `refresh_access_token`
  unfoldable pub refresh_access_token : ℕ → Fresh → Text → Action S TokenPair
  refresh_access_token now f token = read_refresh_token now token >>= use_claims now f token

-- ===== src/Auth/Login.antt =====
-- `login_user` of middleware_python/auth/service.py.
pub mod Locked
pub mod Outcome
use social_graph_engine.Base.{
  ℕ, ◌+◌, ◌-◌, ◌*◌, ◌/◌, ◌≡◌, Bool, true, false, not, Option, none, some, List, [], ◌∷◌, ◌++◌, ltb,
  ◌&&◌, if◌then◌else◌, Text, codes, text_eq, take,
}
use social_graph_engine.Errors.{unauthorized}
use social_graph_engine.Redis.{Redis}
use social_graph_engine.Redis.Laws.{Numerals}
use social_graph_engine.Auth.State.{
  User, Session, Tables, World, Crypto, Settings, Reason, account_locked, too_many_logins,
  wrong_credentials, Result, ok, raised, crashed, Action, pure, raise, ◌>>=◌, ◌>>◌, raise_if, query,
  update, on_redis,
}
use social_graph_engine.Auth.Lockout.{
  get_account_lock, check_login_ip_rate_limit, record_login_failure, clear_login_failures,
}
use social_graph_engine.Auth.Tokens.{access_claims, refresh_claims}

-- SELECT ... FROM users WHERE email = %s AND deleted_at IS NULL
unfoldable pub find_user_by_email : Text → List User → Option User
find_user_by_email email [] = none
find_user_by_email email (u ∷ users) =
    if text_eq u.email email && not u.deleted then some u else find_user_by_email email users

-- UPDATE users SET last_login_at = %s WHERE id = %s
unfoldable pub touch_login : ℕ → Text → List User → List User
touch_login now id [] = []
touch_login now id (u ∷ users) =
    (if text_eq u.id id then record u { last_login_at = some now } else u)
    ∷ touch_login now id users

-- `device_info[:500] if device_info else None`
unfoldable pub clip_device : Text → Option Text
clip_device [] = none
clip_device (c ∷ cs) = some (take 500 (c ∷ cs))

-- What `uuid.uuid4()` and the two `secrets.token_hex(16)` of a login or a refresh give.
pub record Fresh : Type 0 where
  pub session_id : Text
  pub access_jti : Text
  pub refresh_jti : Text

pub record TokenPair : Type 0 where
  pub access_token : Text
  pub refresh_token : Text
  pub expires_in : ℕ

-- The row that a login or a refresh puts into `sessions`.
unfoldable pub new_session :
    Crypto → Settings → ℕ → Fresh → Text → Option Text → Option Text → Session
new_session K cfg now f user_id device ip = record {
  id = f.session_id;
  user_id = user_id;
  refresh_token_hash =
      K.sha256 (K.encode (refresh_claims cfg now f.refresh_jti user_id f.session_id));
  device_info = device;
  ip_address = ip;
  expires_at = now + cfg.refresh_token_expire_days * 86400;
  revoked_at = none;
}

unfoldable pub new_tokens : Crypto → Settings → ℕ → Fresh → Text → Text → TokenPair
new_tokens K cfg now f user_id role = record {
  access_token = K.encode (access_claims cfg now f.access_jti user_id role);
  refresh_token = K.encode (refresh_claims cfg now f.refresh_jti user_id f.session_id);
  expires_in = cfg.access_token_expire_minutes * 60;
}

module _ {S : Type 0} (N : Numerals) (R : Redis S) (K : Crypto) (cfg : Settings) where
  -- Step 0: `remaining > 0`, in whole seconds.
  unfoldable pub check_lock : ℕ → Option ℕ → Action S (Unit {0})
  check_lock now none = pure tt
  check_lock now (some until) =
      raise_if (ltb now until) unauthorized (account_locked ((until - now) / 60 + 1))

  -- A failed login is recorded before the exception.
  unfoldable pub reject : {A : Type 0} → ℕ → Text → Action S A
  reject now email = do
    on_redis (λ r. (tt, record_login_failure N R cfg now email r))
    raise unauthorized wrong_credentials

  -- The lines from "3." on: the credentials are right.
  unfoldable pub open_session : ℕ → Fresh → Text → Text → Text → User → Action S (TokenPair × User)
  open_session now f email device ip u = do
    on_redis (λ r. (tt, clear_login_failures N R cfg now email r))
    update (λ t. record t {
      sessions = t.sessions ++ new_session K cfg now f u.id (clip_device device) (some ip) ∷ [];
    })
    update (λ t. record t { users = touch_login now u.id t.users })
    pure (new_tokens K cfg now f u.id u.role, u)

  -- Steps 1 and 2.
  unfoldable pub check_credentials :
      ℕ → Fresh → Text → Text → Text → Text → Option User → Action S (TokenPair × User)
  check_credentials now f email password device ip none = reject now email
  check_credentials now f email password device ip (some u) =
      if K.checkpw password u.password_hash
      then open_session now f email device ip u
      else reject now email

  -- The account's lock and the limit of its address.
  unfoldable pub check_account : ℕ → Text → Action S (Unit {0})
  check_account now email =
      on_redis (λ r. (get_account_lock N R cfg now email r, r)) >>= check_lock now

  unfoldable pub check_ip : ℕ → Text → Action S (Unit {0})
  check_ip now ip = do
    allowed ← on_redis (check_login_ip_rate_limit N R cfg now ip)
    raise_if (not allowed) unauthorized too_many_logins

  -- `login_user`; the user of the answer is the row that it shows without the hash.
  unfoldable pub login_user : ℕ → Fresh → Text → Text → Text → Text → Action S (TokenPair × User)
  login_user now f email password device ip = do
    check_account now email
    check_ip now ip
    user ← query (λ t. find_user_by_email email t.users)
    check_credentials now f email password device ip user

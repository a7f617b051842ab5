-- ===== src/Auth/State.antt =====
-- What the handlers of middleware_python/auth/service.py read and change: the MySQL tables of
-- database/mysql/001_init_schema.sql, as far as the statements name their columns, and Redis. MySQL is
-- `none` where `get_mysql_pool` gives None, Redis where `get_redis_async` does. Times are whole seconds;
-- one request reads the clock once.
use social_graph_engine.Base.{
  ℕ, ◌≡◌, refl, arith, Bool, Option, none, some, List, Text, if◌then◌else◌, ltb,
}
use social_graph_engine.Errors.{ErrorClass, unauthorized}

-- A row of `users`; `deleted` says that `deleted_at` is not NULL.
pub record User : Type 0 where
  pub id : Text
  pub email : Text
  pub password_hash : Text
  pub display_name : Text
  pub role : Text
  pub last_login_at : Option ℕ
  pub deleted : Bool

-- A row of `sessions`.
pub record Session : Type 0 where
  pub id : Text
  pub user_id : Text
  pub refresh_token_hash : Text
  pub device_info : Option Text
  pub ip_address : Option Text
  pub expires_at : ℕ
  pub revoked_at : Option ℕ

-- A row of `api_keys`; `permissions` is the JSON text.
pub record ApiKey : Type 0 where
  pub id : Text
  pub user_id : Text
  pub key_hash : Text
  pub key_prefix : Text
  pub name : Text
  pub permissions : Text
  pub expires_at : Option ℕ
  pub revoked_at : Option ℕ
  pub last_used_at : Option ℕ

pub record Tables : Type 0 where
  pub users : List User
  pub sessions : List Session
  pub api_keys : List ApiKey

pub record World (S : Type 0) : Type 0 where
  pub mysql : Option Tables
  pub redis : Option S

-- The payload of a token of core/security.py; `iat` is left out, since nothing reads it.
pub record Claims : Type 0 where
  pub sub : Text
  pub kind : Text
  pub role : Option Text
  pub session_id : Option Text
  pub jti : Option Text
  pub exp : ℕ

-- hashlib, bcrypt, jose and the driver of MySQL: not part of the repository. `decode` is given the
-- time. `aware` says that a converter gives the driver's datetimes a time zone. aiomysql's own gives
-- them none, and `<` of such a datetime and `datetime.now(timezone.utc)` is a TypeError.
pub record Crypto : Type 0 where
  pub sha256 : Text → Text
  pub hashpw : Text → Text
  pub checkpw : Text → Text → Bool
  pub encode : Claims → Text
  pub decode : ℕ → Text → Option Claims
  pub aware : Bool

-- The fields of `Settings` (core/config.py) that the handlers read.
pub record Settings : Type 0 where
  pub login_max_attempts : ℕ
  pub login_lockout_minutes : ℕ
  pub access_token_expire_minutes : ℕ
  pub refresh_token_expire_days : ℕ
  pub environment : Text

-- The messages that the handlers raise.
pub data Reason : Type 0 where
  account_locked : ℕ → Reason
  too_many_logins wrong_credentials invalid_refresh_token wrong_token_type : Reason
  reuse_detected session_invalid token_mismatch token_expired no_such_user : Reason
  email_taken registration_failed missing_refresh_token key_not_found : Reason
  bad_access_token wrong_access_type token_revoked missing_credentials missing_api_key : Reason
  key_invalid key_revoked key_expired account_deleted admin_required analyst_required : Reason
  bad_authorization empty_token : Reason

-- `raised` is an exception of core/exceptions.py, `crashed` any other one (a Redis command that
-- raised, the TypeError of a comparison).
pub data Result (A : Type 0) : Type 0 where
  ok : A → Result A
  raised : ErrorClass → Reason → Result A
  crashed : Result A

abbrev pub Action : Type 0 → Type 0 → Type 0
Action S A = World S → Result A × World S

module _ {S : Type 0} where
  abbrev pub pure : {A : Type 0} → A → Action S A
  pure a w = (ok a, w)

  abbrev pub raise : {A : Type 0} → ErrorClass → Reason → Action S A
  raise e r w = (raised e r, w)

  infixl 5 ◌>>=◌ ◌>>◌
  abbrev pub ◌>>=◌ : {A B : Type 0} → Action S A → (A → Action S B) → Action S B
  ◌>>=◌ m f w =
      let (r, w') = m w in
      elim r [ ok a ↦ f a w' | raised e m' ↦ (raised e m', w') | crashed ↦ (crashed, w') ]

  abbrev pub ◌>>◌ : {A B : Type 0} → Action S A → Action S B → Action S B
  m >> k = m >>= λ _. k

  abbrev pub raise_if : Bool → ErrorClass → Reason → Action S (Unit {0})
  raise_if c e r w = (if c then raised e r else ok tt, w)

  -- `if e and e < datetime.now(timezone.utc): raise` on a column; a naive datetime cannot be compared.
  abbrev pub raise_if_expired : Bool → ℕ → Option ℕ → Reason → Action S (Unit {0})
  raise_if_expired aware now none r w = (ok tt, w)
  raise_if_expired aware now (some e) r w =
      (if aware then (if ltb e now then raised unauthorized r else ok tt) else crashed, w)

  -- A value that an `if not x: raise` wants.
  abbrev pub or_raise : {A : Type 0} → Option A → ErrorClass → Reason → Action S A
  or_raise none e r = raise e r
  or_raise (some a) e r = pure a

  -- A statement: a query reads the tables, an update changes them; with no pool they do nothing.
  abbrev pub query : {A : Type 0} → (Tables → Option A) → Action S (Option A)
  query f w = (ok (elim (w.mysql) [ none ↦ none | some t ↦ f t ]), w)

  abbrev pub update : (Tables → Tables) → Action S (Unit {0})
  update f w = (ok tt, record w { mysql = elim (w.mysql) [ none ↦ none | some t ↦ some (f t) ] })

  -- A function of Redis that handles its own errors.
  abbrev pub on_redis : {A : Type 0} → (Option S → A × Option S) → Action S A
  on_redis f w = let (a, r) = f w.redis in (ok a, record w { redis = r })

  -- Inversion of a bind that succeeds.
  pub >>=-eq-ok :
      {A B : Type 0} (m : Action S A) (f : A → Action S B) (w : World S) {b : B} {w'' : World S}
      → (m >>= f) w ≡ (ok b, w'')
      → (a : A) × (w' : World S) × (m w ≡ (ok a, w')) × (f a w' ≡ (ok b, w''))
  >>=-eq-ok {A} {B} m f w {b} {w''} h = go (m w) refl h
    where
      go :
          (r : Result A × World S)
          → m w ≡ r
          → (elim (r.0) [
            | ok a ↦ f a r.1
            | raised e m' ↦ (raised e m', r.1)
            | crashed ↦ (crashed, r.1)
          ])
            ≡ (ok b, w'')
          → (a : A) × (w' : World S) × (m w ≡ (ok a, w')) × (f a w' ≡ (ok b, w''))
      go (ok a, w') e k = (a, w', e, k)
      go (raised x y, w') e k = absurd (ground arith)
      go (crashed, w') e k = absurd (ground arith)

  -- A bind after an action that succeeds, and after one that raises.
  pub >>=-ok :
      {A B : Type 0} (m : Action S A) (f : A → Action S B) (w : World S) {a : A} {w' : World S}
      → m w ≡ (ok a, w')
      → (m >>= f) w ≡ f a w'
  >>=-ok m f w e = ground arith

  pub >>=-raised :
      {A B : Type 0} (m : Action S A) (f : A → Action S B) (w : World S) {x : ErrorClass}
      {r : Reason} {w' : World S}
      → m w ≡ (raised x r, w')
      → (m >>= f) w ≡ (raised x r, w')
  >>=-raised m f w e = ground arith

  pub >>=-crashed :
      {A B : Type 0} (m : Action S A) (f : A → Action S B) (w : World S) {w' : World S}
      → m w ≡ (crashed, w')
      → (m >>= f) w ≡ (crashed, w')
  >>=-crashed m f w e = ground arith

-- ===== src/Auth/Sample.antt =====
-- Concrete data for the tests of the accounts: a `Crypto` without secrets, whose tokens are their six
-- fields in a row, settings, users and a few worlds.
use social_graph_engine.Base.{
  true, ℕ, zero, suc, ◌≤◌, ◌≡◌, refl, sym, ◌∙◌, ap, false, Option, none, some, [], ◌∷◌, Text, codes,
  text_eq, leb, if◌then◌else◌, arith,
}
use social_graph_engine.Redis.Memory.{Timeline, numerals, memory}
use social_graph_engine.Auth.State.{User, Session, Tables, World, Claims, Crypto, Settings}
use social_graph_engine.Auth.Login.{Fresh}
use social_graph_engine.Auth.Lockout.{
  fail_key, lock_key, ip_key, lock_of, lockout_seconds, judge_ip, check_login_ip_rate_limit,
  get_account_lock, lock_account, count_failure, record_login_failure, clear_login_failures,
}
use social_graph_engine.Auth.Tokens.{
  access_claims, refresh_claims, jti_text, blacklist_key, family_key, found, is_token_blacklisted,
  written, blacklist_token, revoke_token_family,
}
use social_graph_engine.Auth.Login.{
  find_user_by_email, touch_login, clip_device, TokenPair, new_session, new_tokens, check_lock,
  reject, open_session, check_credentials, check_account, check_ip, login_user,
}
use social_graph_engine.Auth.Login.Outcome.{logged_in}
use social_graph_engine.Auth.Refresh.{
  find_session, find_user_by_id, revoke_session, read_refresh_token, check_reuse, check_session,
  reissue, rotate, use_session, use_claims, refresh_access_token,
}
use social_graph_engine.Auth.Logout.{revoke_where, blacklist_payload, logout_token, logout_user}
use social_graph_engine.Auth.Refresh.Rotation.{IsTimeless}
use social_graph_engine.Auth.RoundTrip.{IsSigned}

-- A field with its end marked by 0.
abbrev put : Text → Text → Text
put [] rest = 0 ∷ rest
put (c ∷ cs) rest = suc c ∷ put cs rest

abbrev take_field : Text → Text × Text
take_field [] = ([], [])
take_field (zero ∷ rest) = ([], rest)
take_field (suc c ∷ rest) = let (field, after) = take_field rest in (c ∷ field, after)

take_field-put : (t rest : Text) → take_field (put t rest) ≡ (t, rest)
take_field-put [] rest = refl
take_field-put (c ∷ cs) rest = rw (take_field-put cs rest) refl

abbrev to_field : Option Text → Text
to_field none = []
to_field (some t) = 0 ∷ t

abbrev of_field : Text → Option Text
of_field [] = none
of_field (_ ∷ t) = some t

of_field-to_field : (o : Option Text) → of_field (to_field o) ≡ o
of_field-to_field none = refl
of_field-to_field (some t) = refl

abbrev first_of : Text → ℕ
first_of [] = 0
first_of (n ∷ _) = n

abbrev encode : Claims → Text
encode c = put c.sub (
    put c.kind (
      put (to_field c.role)
        (put (to_field c.session_id) (put (to_field c.jti) (put (c.exp ∷ []) [])))))

abbrev read_claims : Text → Claims
read_claims t₀ =
    let (a₁, t₁) = take_field t₀ in
    let (a₂, t₂) = take_field t₁ in
    let (a₃, t₃) = take_field t₂ in
    let (a₄, t₄) = take_field t₃ in
    let (a₅, t₅) = take_field t₄ in
    let (a₆, t₆) = take_field t₅ in
    record {
      sub = a₁;
      kind = a₂;
      role = of_field a₃;
      session_id = of_field a₄;
      jti = of_field a₅;
      exp = first_of a₆;
    }

read_claims-encode : (c : Claims) → read_claims (encode c) ≡ c
read_claims-encode c = simp (take_field-put, of_field-to_field)

abbrev until_expiry : ℕ → Claims → Option Claims
until_expiry now c = if leb now c.exp then some c else none

abbrev pub crypto : Crypto
crypto = record {
  sha256 = λ t. t;
  hashpw = λ t. t;
  checkpw = text_eq;
  encode = encode;
  decode = λ now t. until_expiry now (read_claims t);
  aware = true;
}

until_expiry-some : (t : ℕ) (d : Claims) {c : Claims} → until_expiry t d ≡ some c → d ≡ c
until_expiry-some t d e = ground arith

until_expiry_in : (now : ℕ) (c : Claims) → now ≤ c.exp → until_expiry now c ≡ some c
until_expiry_in now c soon = ground arith

pub crypto-IsTimeless : IsTimeless crypto
crypto-IsTimeless t t' token c c' e e' =
    sym (until_expiry-some t (read_claims token) e) ∙ until_expiry-some t' (read_claims token) e'

pub crypto-IsSigned : IsSigned crypto
crypto-IsSigned now c soon =
    ap (until_expiry now) (read_claims-encode c) ∙ until_expiry_in now c soon

abbrev pub settings : Settings
settings = record {
  login_max_attempts = 2;
  login_lockout_minutes = 1;
  access_token_expire_minutes = 15;
  refresh_token_expire_days = 7;
  environment = codes "production";
}

abbrev pub user : User
user = record {
  id = 7 ∷ [];
  email = 8 ∷ [];
  password_hash = 9 ∷ [];
  display_name = 10 ∷ [];
  role = codes "viewer";
  last_login_at = none;
  deleted = false;
}

abbrev pub fresh : ℕ → Fresh
fresh n = record { session_id = n ∷ 1 ∷ []; access_jti = n ∷ 2 ∷ []; refresh_jti = n ∷ 3 ∷ [] }

abbrev pub tables : Tables
tables = record { users = user ∷ []; sessions = []; api_keys = [] }

-- A Redis server with no keys, and the worlds with and without it.
abbrev pub no_keys : Timeline
no_keys t k = none

abbrev pub world : World Timeline
world = record { mysql = some tables; redis = some no_keys }

abbrev pub without_redis : Tables → World Timeline
without_redis t = record { mysql = some t; redis = none }

-- What the tests may compute.
unfoldable pub program : Unit {0}
unfolding text_eq fail_key lock_key ip_key lock_of lockout_seconds judge_ip
    check_login_ip_rate_limit get_account_lock lock_account count_failure record_login_failure
    clear_login_failures access_claims refresh_claims jti_text blacklist_key family_key found
    is_token_blacklisted written blacklist_token revoke_token_family find_user_by_email touch_login
    clip_device new_session new_tokens check_lock reject open_session check_credentials
    check_account check_ip login_user find_session find_user_by_id revoke_session read_refresh_token
    check_reuse check_session reissue rotate use_session use_claims refresh_access_token
    revoke_where blacklist_payload logout_token logout_user
program = tt

-- The world that a login at time 100 leaves, the tokens it answers, and their claims.
abbrev pub home : World Timeline
home =
    (login_user numerals memory crypto settings 100 (fresh 1) user.email user.password_hash [] []
      (without_redis tables)).1

abbrev pub pair : TokenPair
pair = new_tokens crypto settings 100 (fresh 1) user.id user.role

abbrev pub claims : Claims
claims = refresh_claims settings 100 (fresh 1).refresh_jti user.id (fresh 1).session_id

abbrev pub session : Session
session = new_session crypto settings 100 (fresh 1) user.id none (some [])

abbrev pub home_tables : Tables
home_tables = logged_in numerals memory crypto settings 100 (fresh 1) [] [] user tables

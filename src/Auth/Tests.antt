-- ===== src/Auth/Tests.antt =====
-- Logins, refreshes and logouts of one user at concrete times.
use social_graph_engine.Base.{
  ◌+◌, if◌then◌else◌, false, ◌≡◌, ◌↔◌, ◌++◌, refl, ◌≢◌, true, false, Option, none, some, [], ◌∷◌,
  Text, codes, arith, text_eq, ◌≤◌,
}
use social_graph_engine.Errors.{unauthorized}
use social_graph_engine.Redis.Laws.{stored}
use social_graph_engine.Redis.Memory.{Timeline, numerals, value, memory, memory-IsReliable}
use social_graph_engine.Auth.State.{
  Session, Tables, World, Claims, ok, raised, crashed, reuse_detected, account_locked,
  wrong_credentials,
}
use social_graph_engine.Auth.Lockouts.{fail_times}
use social_graph_engine.Auth.Tokens.{blacklist_key, family_key}
use social_graph_engine.Auth.Login.{find_user_by_email, TokenPair, new_tokens, login_user}
use social_graph_engine.Auth.Login.Locked.{login-locked}
use social_graph_engine.Auth.Login.Outcome.{login_sound, logged_in}
use social_graph_engine.Auth.Refresh.{find_session, refresh_access_token}
use social_graph_engine.Auth.Refresh.Steps.{refresh_sound}
use social_graph_engine.Auth.Refresh.Reuse.{refresh-reused}
use social_graph_engine.Auth.Refresh.Rotation.{refresh-replay}
use social_graph_engine.Auth.RoundTrip.{login-refresh}
use social_graph_engine.Auth.Logout.{logout_user}
use social_graph_engine.Auth.Logout.Revoked.{logout-token, logout-all}
use social_graph_engine.Auth.Fields.{
  any_char, partition_at, validate_parts, validate_email, IsAddress, validate_email_iff,
}
use social_graph_engine.Auth.Sample.{
  program, home, pair, claims, session, home_tables, crypto, crypto-IsTimeless, crypto-IsSigned,
  settings, user, fresh, tables, no_keys, world, without_redis,
}

wrong_password :
    (login_user numerals memory crypto settings 100 (fresh 1) user.email [] [] [] world).0
    ≡ raised unauthorized wrong_credentials
unfolding program
wrong_password = refl

login_sound_example :
    (t : Tables) × (some tables ≡ some t)
    × (find_user_by_email user.email t.users ≡ some user)
    × (text_eq user.password_hash user.password_hash ≡ true)
    × (pair ≡ new_tokens crypto settings 100 (fresh 1) user.id user.role)
    × (home.mysql ≡ some (logged_in numerals memory crypto settings 100 (fresh 1) [] [] user t))
unfolding program
login_sound_example =
    login_sound numerals memory crypto settings 100 (fresh 1) user.email user.password_hash [] []
      (without_redis tables) home pair user refl

login-refresh_example :
    (p' : TokenPair) × ((refresh_access_token memory crypto settings 200
        (fresh 2)
        pair.refresh_token
        home).0
      ≡ (if crypto.aware then ok p' else crashed))
unfolding program
login-refresh_example =
    login-refresh numerals memory crypto settings 100 200 (fresh 1) (fresh 2) user.email
      user.password_hash [] [] tables (without_redis tables) home home home pair user false
      crypto-IsSigned refl refl refl refl (omega arith) refl refl

-- With the datetimes that aiomysql gives, the refresh of a live session is an internal error.
refresh_naive :
    (refresh_access_token memory
      (record crypto { aware = false })
      settings
      200
      (fresh 2)
      pair.refresh_token
      home).0
    ≡ crashed
unfolding program
refresh_naive = refl

-- What the refresh at time 200 leaves, and the tokens it answers.
abbrev rotated_world : World Timeline
rotated_world =
    (refresh_access_token memory crypto settings 200 (fresh 2) pair.refresh_token home).1

abbrev second_pair : TokenPair
second_pair = new_tokens crypto settings 200 (fresh 2) user.id user.role

refresh_sound_example :
    (c : Claims) × (t : Tables) × (s : Session) × (crypto.decode 200 pair.refresh_token ≡ some c)
    × (c.kind ≡ codes "refresh")
    × (home.mysql ≡ some t)
    × (find_session c.session_id t.sessions ≡ some s)
    × (s.refresh_token_hash ≡ crypto.sha256 pair.refresh_token)
    × (s.revoked_at ≡ none)
    × (200 ≤ s.expires_at)
unfolding program
refresh_sound_example =
    refresh_sound memory crypto settings 200 (fresh 2) pair.refresh_token home second_pair refl

refresh-replay_example :
    (refresh_access_token memory crypto settings 300 (fresh 3) pair.refresh_token rotated_world).0
    ≢ ok pair
unfolding program
refresh-replay_example =
    refresh-replay memory crypto settings 200 300 (fresh 2) (fresh 3) pair.refresh_token home
      rotated_world second_pair pair {w' = rotated_world} crypto-IsTimeless refl refl

-- A Redis server that has the first refresh token on its blacklist.
abbrev listed_keys : Timeline
listed_keys = (memory.setex 200 (blacklist_key claims.jti) 86400 (codes "1") no_keys).1

refresh-reused_example :
    (s' : Timeline) × (refresh_access_token memory crypto settings 300
        (fresh 3)
        pair.refresh_token
        (record { mysql = some home_tables; redis = some listed_keys })
      ≡ (raised unauthorized reuse_detected, record { mysql = some home_tables; redis = some s' }))
    × (s' ≡ (memory.incr 300 (family_key user.id) listed_keys).1)
    × (value 300 (family_key user.id) s'
        ≡ some (numerals.show (stored numerals (value 300 (family_key user.id) listed_keys) + 1)))
unfolding program
refresh-reused_example =
    refresh-reused numerals memory value memory-IsReliable crypto settings 300 (fresh 3)
      pair.refresh_token claims (some home_tables) listed_keys (codes "1") refl refl refl

-- The world after two failed logins at time 100.
abbrev locked_world : World Timeline
locked_world = record {
  mysql = some tables;
  redis =
      fail_times numerals memory value memory-IsReliable settings (omega arith) 100 user.email 2
        no_keys;
}

login-locked_example :
    login_user numerals memory crypto settings 130
      (fresh 1)
      user.email
      user.password_hash
      []
      []
      locked_world
    ≡ (raised unauthorized (account_locked 1), locked_world)
login-locked_example =
    login-locked numerals memory value memory-IsReliable crypto settings (omega arith) 100 130 1
      no_keys (fresh 1) user.email user.password_hash [] [] locked_world refl (ground arith)
      (omega arith) (omega arith)

-- Every session of the table is the user's.
owned :
    (sid : Option Text) (s : Session)
    → find_session sid home_tables.sessions ≡ some s
    → s.refresh_token_hash ≡ crypto.sha256 pair.refresh_token
    → s.user_id ≡ user.id
unfolding program
owned none s e h = absurd cc
owned (some id) s e h = ground arith

logout-all_example :
    (refresh_access_token memory crypto settings 300
      (fresh 3)
      pair.refresh_token
      (logout_user memory crypto 200 user.id [] true home).1).0
    ≢ ok pair
unfolding program
logout-all_example =
    logout-all memory crypto settings 200 300 (fresh 3) user.id [] pair.refresh_token home_tables
      home (logout_user memory crypto 200 user.id [] true home).1 claims session pair refl refl refl
      refl refl

abbrev tail_of : Text → Text
tail_of [] = []
tail_of (_ ∷ t) = t

logout-token_example :
    (refresh_access_token memory crypto settings 300
      (fresh 3)
      pair.refresh_token
      (logout_user memory crypto 200 user.id pair.refresh_token false home).1).0
    ≢ ok pair
unfolding program
logout-token_example =
    logout-token memory crypto settings 200 300 (fresh 3) user.id 8 (tail_of pair.refresh_token)
      home_tables home (logout_user memory crypto 200 user.id pair.refresh_token false home).1 pair
      refl owned refl

-- A domain of one dot, behind two "@".
validate_email_odd : validate_email (codes "a@@.") ≡ true
unfolding validate_email any_char validate_parts partition_at
validate_email_odd = refl

validate_email_iff_example : (validate_email (codes "a@@.") ≡ true) ↔ (
    (local : Text) × (domain : Text) × (codes "a@@." ≡ local ++ b'@' ∷ domain)
    × IsAddress local domain)
validate_email_iff_example = validate_email_iff (codes "a@@.")

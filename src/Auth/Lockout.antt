-- ===== src/Auth/Lockout.antt =====
-- The login safety functions of middleware_python/auth/service.py: `_check_login_ip_rate_limit`,
-- `_get_account_lock`, `_record_login_failure`, `_clear_login_failures`. Every error of Redis ends
-- them quietly, as their `except` lines do.
use social_graph_engine.Base.{
  ℕ, ◌+◌, ◌*◌, Bool, true, Option, none, some, [], ◌∷◌, ◌++◌, leb, ◌==◌, if◌then◌else◌, Text, codes,
}
use social_graph_engine.Redis.{Redis, Reply, reply, failed}
use social_graph_engine.Redis.Laws.{Numerals}
use social_graph_engine.Auth.State.{Settings}

-- f"login_fail:{email}", f"login_lock:{email}", f"login_ip:{ip_address}:60s"
unfoldable pub fail_key : Text → Text
fail_key email = codes "login_fail:" ++ email

unfoldable pub lock_key : Text → Text
lock_key email = codes "login_lock:" ++ email

unfoldable pub ip_key : Text → Text
ip_key ip = codes "login_ip:" ++ (ip ++ codes ":60s")

-- `if val: return datetime.fromtimestamp(float(val))`, `None` where the text is no number.
unfoldable pub lock_of : Numerals → Reply (Option Text) → Option ℕ
lock_of N failed = none
lock_of N (reply none) = none
lock_of N (reply (some [])) = none
lock_of N (reply (some (c ∷ cs))) = N.read (c ∷ cs)

unfoldable pub lockout_seconds : Settings → ℕ
lockout_seconds cfg = cfg.login_lockout_minutes * 60

module _ {S : Type 0} (N : Numerals) (R : Redis S) (cfg : Settings) where
  -- The lines behind the INCR of `_check_login_ip_rate_limit`.
  unfoldable pub judge_ip : ℕ → Text → Reply ℕ → S → Bool × S
  judge_ip now key failed s = (true, s)
  judge_ip now key (reply count) s =
      if count == 1
      then (let (r, s') = R.expire now key 60 s in
          elim r [ failed ↦ (true, s') | reply _ ↦ (leb count cfg.login_max_attempts, s') ])
      else (leb count cfg.login_max_attempts, s)

  -- `_check_login_ip_rate_limit`: whether the login may go on.
  unfoldable pub check_login_ip_rate_limit : ℕ → Text → Option S → Bool × Option S
  check_login_ip_rate_limit now [] redis = (true, redis)
  check_login_ip_rate_limit now (c ∷ cs) none = (true, none)
  check_login_ip_rate_limit now (c ∷ cs) (some s) =
      let (r, s') = R.incr now (ip_key (c ∷ cs)) s in
      let (allowed, s'') = judge_ip now (ip_key (c ∷ cs)) r s' in (allowed, some s'')

  -- `_get_account_lock`
  unfoldable pub get_account_lock : ℕ → Text → Option S → Option ℕ
  get_account_lock now email none = none
  get_account_lock now email (some s) = lock_of N (R.get now (lock_key email) s)

  -- `_record_login_failure` behind its INCR and EXPIRE.
  unfoldable pub lock_account : ℕ → Text → ℕ → S → S
  lock_account now email current s =
      if leb cfg.login_max_attempts current
      then (R.setex now (lock_key email) (lockout_seconds cfg) (N.show (now + lockout_seconds cfg))
          s).1
      else s

  unfoldable pub count_failure : ℕ → Text → Reply ℕ → S → S
  count_failure now email failed s = s
  count_failure now email (reply current) s =
      let (r, s') = R.expire now (fail_key email) (lockout_seconds cfg * 2) s in
      elim r [ failed ↦ s' | reply _ ↦ lock_account now email current s' ]

  -- `_record_login_failure`
  unfoldable pub record_login_failure : ℕ → Text → Option S → Option S
  record_login_failure now email none = none
  record_login_failure now email (some s) =
      let (r, s') = R.incr now (fail_key email) s in some (count_failure now email r s')

  -- `_clear_login_failures`
  unfoldable pub clear_login_failures : ℕ → Text → Option S → Option S
  clear_login_failures now email none = none
  clear_login_failures now email (some s) =
      some (R.delete now (fail_key email ∷ lock_key email ∷ []) s).1

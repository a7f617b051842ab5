-- ===== src/Auth/Lockouts.antt =====
-- What the login safety functions of auth/service.py achieve on a Redis server that answers: failures
-- are counted per account, and enough of them lock it.
use social_graph_engine.Base.{
  ℕ, zero, suc, ◌+◌, ◌*◌, ◌≤◌, ◌<◌, ◌≡◌, refl, false, Option, none, some, [], ◌∷◌, if◌then◌else◌,
  Text, text_eq, text_eq_refl, arith,
}
use social_graph_engine.Redis.{Redis, reply}
use social_graph_engine.Redis.Laws.{Numerals, IsReliable, stored, listed}
use social_graph_engine.Auth.State.{Settings}
use social_graph_engine.Auth.Lockout.{
  fail_key, lock_key, get_account_lock, lock_of, lockout_seconds, record_login_failure,
  count_failure, lock_account, clear_login_failures,
}

pub fail_key-ne-lock_key : (e e' : Text) → text_eq (fail_key e) (lock_key e') ≡ false
unfolding fail_key lock_key text_eq
fail_key-ne-lock_key e e' = refl

pub lock_key-ne-fail_key : (e e' : Text) → text_eq (lock_key e) (fail_key e') ≡ false
unfolding fail_key lock_key text_eq
lock_key-ne-fail_key e e' = refl

module _ {S : Type 0} (N : Numerals) (R : Redis S) (value : ℕ → Text → S → Option Text)
    (laws : IsReliable N R value) (cfg : Settings) (minutes : 0 < cfg.login_lockout_minutes)
    (now : ℕ) (email : Text) where
  -- The failures that the account's counter shows.
  abbrev pub failures : S → ℕ
  failures s = stored N (value now (fail_key email) s)

  lock_of-show : (n : ℕ) → lock_of N (reply (some (N.show n))) ≡ some n
  unfolding lock_of
  lock_of-show n = ground (arith, N.read-show n, N.show-ne-nil n)

  module _ (t : ℕ) (later : now ≤ t) where
    lock_account-value :
        (current : ℕ) (s : S)
        → t < now + lockout_seconds cfg
        → cfg.login_max_attempts ≤ current
        → value t (lock_key email) (lock_account N R cfg now email current s)
          ≡ some (N.show (now + lockout_seconds cfg))
    unfolding lock_account lockout_seconds
    lock_account-value current s lt enough = ground (
      arith,
      laws.setex-value now t (lock_key email) (lock_key email) (lockout_seconds cfg)
          (N.show (now + lockout_seconds cfg)) s,
      text_eq_refl (lock_key email),
    )

  lock_account-failures :
      (current : ℕ) (s : S)
      → value now (fail_key email) (lock_account N R cfg now email current s)
        ≡ value now (fail_key email) s
  unfolding lock_account lockout_seconds
  lock_account-failures current s = ground (
    arith,
    laws.setex-value now now (lock_key email) (fail_key email) (lockout_seconds cfg)
        (N.show (now + lockout_seconds cfg)) s,
    lock_key-ne-fail_key email email,
  )

  -- The state behind the INCR and the EXPIRE of a failure.
  abbrev counted : S → S
  counted s =
      (R.expire now (fail_key email) (lockout_seconds cfg * 2) (R.incr now (fail_key email) s).1).1

  counted-value : (s : S) → value now (fail_key email) (counted s) ≡ some (N.show (failures s + 1))
  unfolding lockout_seconds
  counted-value s = ground (
    arith,
    laws.expire-value now now (fail_key email) (fail_key email) (lockout_seconds cfg * 2)
        (R.incr now (fail_key email) s).1,
    laws.incr-value now (fail_key email) s,
    text_eq_refl (fail_key email),
  )

  record-some :
      (s : S)
      → record_login_failure N R cfg now email (some s)
        ≡ some (lock_account N R cfg now email (failures s + 1) (counted s))
  unfolding record_login_failure count_failure
  record-some s = ground (
    arith,
    laws.incr-reply now (fail_key email) s,
    laws.expire-reply now (fail_key email) (lockout_seconds cfg * 2)
        (R.incr now (fail_key email) s).1,
  )

  -- `n` failed logins in a row.
  abbrev pub fail_times : ℕ → S → Option S
  fail_times zero s = some s
  fail_times (suc n) s = record_login_failure N R cfg now email (fail_times n s)

  failures-fail_times :
      (n : ℕ) (s : S) → (s' : S) × (fail_times n s ≡ some s') × (failures s' ≡ failures s + n)
  failures-fail_times zero s = (s, refl, omega arith)
  failures-fail_times (suc n) s =
      let (s', run, count) = failures-fail_times n s in
      (
        lock_account N R cfg now email (failures s' + 1) (counted s'),
        rw run (record-some s'),
        ground (
          arith,
          count,
          lock_account-failures (failures s' + 1) (counted s'),
          counted-value s',
          N.read-show (failures s' + 1),
        ),
      )

  -- On a reliable Redis and with a lockout of at least a minute: however many failures the counter
  -- showed before, as many failed logins as bring it to `login_max_attempts` lock the account.
  -- Until `login_lockout_minutes` have passed, the lock reads as the time at which it ends.
  pub get_account_lock-fail_times :
      (n : ℕ) (s : S) (t : ℕ)
      → cfg.login_max_attempts ≤ failures s + suc n
      → now ≤ t
      → t < now + cfg.login_lockout_minutes * 60
      → get_account_lock N R cfg t email (fail_times (suc n) s)
        ≡ some (now + cfg.login_lockout_minutes * 60)
  unfolding get_account_lock lockout_seconds
  get_account_lock-fail_times n s t enough later lt =
      let (s', run, count) = failures-fail_times n s in
      let locked = lock_account N R cfg now email (failures s' + 1) (counted s') in
      rw (run, record-some s', laws.get-value t (lock_key email) locked)
        (rw (lock_account-value t later (failures s' + 1) (counted s') lt (omega arith))
          (lock_of-show (now + lockout_seconds cfg)))

  -- On a reliable Redis, `_clear_login_failures` clears the counter and the lock of the account,
  -- at whatever time they are read.
  pub clear_login_failures_lem :
      (s : S) (t : ℕ)
      → (s' : S) × (clear_login_failures N R cfg now email (some s) ≡ some s')
        × (value t (fail_key email) s' ≡ none)
        × (get_account_lock N R cfg t email (some s') ≡ none)
  unfolding clear_login_failures get_account_lock lock_of
  clear_login_failures_lem s t = (
    (R.delete now (fail_key email ∷ lock_key email ∷ []) s).1,
    refl,
    ground (arith, gone (fail_key email), text_eq_refl (fail_key email)),
    ground (
      arith,
      gone (lock_key email),
      text_eq_refl (lock_key email),
      laws.get-value t (lock_key email) cleared,
    ),
  )
    where
      cleared : S
      cleared = (R.delete now (fail_key email ∷ lock_key email ∷ []) s).1

      gone :
          (k : Text)
          → value t k cleared
            ≡ (if listed k (fail_key email ∷ lock_key email ∷ []) then none else value t k s)
      gone k = laws.delete-value now t (fail_key email ∷ lock_key email ∷ []) k s

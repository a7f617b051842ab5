-- ===== src/Auth/Login/Locked.antt =====
-- The account lock of middleware_python/auth/service.py from the caller's side.
use social_graph_engine.Base.{
  ℕ, suc, ◌+◌, ◌-◌, ◌*◌, ◌/◌, ◌≤◌, ◌<◌, ◌≡◌, ◌∙◌, ap, Option, some, lt→ltb, Text, arith,
}
use social_graph_engine.Errors.{unauthorized}
use social_graph_engine.Redis.{Redis}
use social_graph_engine.Redis.Laws.{Numerals, IsReliable}
use social_graph_engine.Auth.State.{
  World, Crypto, Settings, account_locked, raised, ◌>>=◌, ◌>>◌, query, >>=-raised,
}
use social_graph_engine.Auth.Lockout.{get_account_lock}
use social_graph_engine.Auth.Lockouts.{fail_times, failures, get_account_lock-fail_times}
use social_graph_engine.Auth.Login.{
  find_user_by_email, Fresh, check_lock, check_credentials, check_account, check_ip, login_user,
}

module _ {S : Type 0} (N : Numerals) (R : Redis S) (K : Crypto) (cfg : Settings) where
  locked_account :
      (t until : ℕ) (email : Text) (w : World S)
      → get_account_lock N R cfg t email w.redis ≡ some until
      → t < until
      → check_account N R K cfg t email w
        ≡ (raised unauthorized (account_locked ((until - t) / 60 + 1)), w)
  unfolding check_account check_lock
  locked_account t until email w locked lt = ground (arith, lt→ltb t until lt)

-- Once as many failed logins as bring the counter to `login_max_attempts` have been recorded at
-- one time on a reliable Redis, every login of that account, with the right password too, is
-- refused until `login_lockout_minutes`, at least one, have passed, and changes nothing.
pub login-locked :
    {S : Type 0} (N : Numerals) (R : Redis S) (value : ℕ → Text → S → Option Text)
    (laws : IsReliable N R value) (K : Crypto) (cfg : Settings)
    (minutes : 0 < cfg.login_lockout_minutes) (now t : ℕ) (n : ℕ) (s : S) (f : Fresh)
    (email password device ip : Text) (w : World S)
    → w.redis ≡ fail_times N R value laws cfg minutes now email (suc n) s
    → cfg.login_max_attempts ≤ failures N R value laws cfg minutes now email s + suc n
    → now ≤ t
    → t < now + cfg.login_lockout_minutes * 60
    → login_user N R K cfg t f email password device ip w ≡ (
      raised unauthorized (account_locked ((now + cfg.login_lockout_minutes * 60 - t) / 60 + 1)),
      w,
    )
unfolding login_user
login-locked N R value laws K cfg minutes now t n s f email password device ip w failed enough later
      lt =
    >>=-raised (check_account N R K cfg t email)
      (λ _.
        check_ip N R K cfg t ip
        >> (query (λ t. find_user_by_email email t.users)
            >>= check_credentials N R K cfg t f email password device ip))
      w
      (locked_account N R K cfg t (now + cfg.login_lockout_minutes * 60) email w
        (ap (get_account_lock N R cfg t email) failed
          ∙ get_account_lock-fail_times N R value laws cfg minutes now email n s t enough later lt)
        lt)

-- ===== src/Auth/Login/Outcome.antt =====
-- What `login_user` (middleware_python/auth/service.py) answers: when it succeeds and what it leaves,
-- and that a locked account gets nowhere.
use social_graph_engine.Base.{
  ℕ, ◌≡◌, refl, sym, ◌≢◌, ap, subst, Bool, true, Option, none, some, [], ◌∷◌, ◌++◌, if◌then◌else◌,
  Text, arith, Bool-cases, Option-cases, inl, inr,
}
use social_graph_engine.Redis.{Redis}
use social_graph_engine.Redis.Laws.{Numerals}
use social_graph_engine.Auth.State.{
  User, Tables, World, Crypto, Settings, ok, Action, ◌>>=◌, ◌>>◌, query, >>=-eq-ok,
}
use social_graph_engine.Auth.Lockout.{get_account_lock}
use social_graph_engine.Auth.Login.{
  find_user_by_email, touch_login, clip_device, Fresh, TokenPair, new_session, new_tokens,
  check_lock, reject, open_session, check_credentials, check_account, check_ip, login_user,
}

module _ {S : Type 0} (N : Numerals) (R : Redis S) (K : Crypto) (cfg : Settings) where
  check_lock_ok :
      (now : ℕ) (o : Option ℕ) (w : World S) {x : Unit {0}} {w' : World S}
      → check_lock N R K cfg now o w ≡ (ok x, w')
      → w' ≡ w
  unfolding check_lock
  check_lock_ok now none w h = ground arith
  check_lock_ok now (some until) w h = ground arith

  -- What a login that succeeds leaves in the tables.
  abbrev pub logged_in : ℕ → Fresh → Text → Text → User → Tables → Tables
  logged_in now f device ip u t = record t {
    users = touch_login now u.id t.users;
    sessions = t.sessions ++ new_session K cfg now f u.id (clip_device device) (some ip) ∷ [];
  }

  -- The last part of a login, of which only the Redis of the world is not determined.
  open_session_ok :
      (now : ℕ) (f : Fresh) (email device ip : Text) (u : User) (w : World S) {p : TokenPair}
      {u' : User} {w' : World S}
      → open_session N R K cfg now f email device ip u w ≡ (ok (p, u'), w')
      → (p ≡ new_tokens K cfg now f u.id u.role)
        × (u' ≡ u)
        × (w'.mysql
            ≡ (elim (w.mysql) [ none ↦ none | some t ↦ some (logged_in now f device ip u t) ]))
  unfolding open_session
  open_session_ok now f email device ip u w h = elim (Option-cases (w.mysql)) [
    | inl down ↦ (ground arith, ground arith, ground arith)
    | inr (t, up) ↦ (ground arith, ground arith, ground arith)
  ]

  reject_no :
      (now : ℕ) (email : Text) (w : World S) {x : TokenPair × User} {w' : World S}
      → reject N R K cfg now email w ≢ (ok x, w')
  unfolding reject
  reject_no now email w h = ground arith

  check_credentials_ok :
      (now : ℕ) (f : Fresh) (email password device ip : Text) (o : Option User) (w : World S)
      {p : TokenPair} {u : User} {w' : World S}
      → check_credentials N R K cfg now f email password device ip o w ≡ (ok (p, u), w')
      → (o ≡ some u)
        × (K.checkpw password u.password_hash ≡ true)
        × (p ≡ new_tokens K cfg now f u.id u.role)
        × (w'.mysql
            ≡ (elim (w.mysql) [ none ↦ none | some t ↦ some (logged_in now f device ip u t) ]))
  unfolding check_credentials
  check_credentials_ok now f email password device ip none w h = absurd (reject_no now email w h)
  check_credentials_ok now f email password device ip (some s) w {p} {u} {w'} h =
      elim (Bool-cases (K.checkpw password s.password_hash)) [
        | inr wrong ↦ absurd (reject_no now email w (subst after wrong h))
        | inl right ↦
            let (pe, ue, left) = open_session_ok now f email device ip s w (subst after right h) in
            subst
              (λ x.
                (some s ≡ some x)
                × (K.checkpw password x.password_hash ≡ true)
                × (p ≡ new_tokens K cfg now f x.id x.role)
                × (w'.mysql ≡ (elim (w.mysql) [
                  | none ↦ none
                  | some t ↦ some (logged_in now f device ip x t)
                ])))
              (sym ue) (refl, right, pe, left)
      ]
    where
      after : Bool → Type 0
      after b =
          (if b then open_session N R K cfg now f email device ip s else reject N R K cfg now email)
            w
          ≡ (ok (p, u), w')

  check_account_mysql :
      (now : ℕ) (email : Text) (w : World S) {x : Unit {0}} {w' : World S}
      → check_account N R K cfg now email w ≡ (ok x, w')
      → w'.mysql ≡ w.mysql
  unfolding check_account
  check_account_mysql now email w h =
      ap (λ v. v.mysql) (check_lock_ok now (get_account_lock N R cfg now email w.redis) w h)

  check_ip_mysql :
      (now : ℕ) (ip : Text) (w : World S) {x : Unit {0}} {w' : World S}
      → check_ip N R K cfg now ip w ≡ (ok x, w')
      → w'.mysql ≡ w.mysql
  unfolding check_ip
  check_ip_mysql now ip w h = ground arith

  -- A login that succeeds was one with the password of an account that is there and not deleted. It
  -- answers the two tokens for a new session of that account, puts exactly that session into the
  -- table, and writes the time of the login to the account; with no MySQL there is no such login.
  pub login_sound :
      (now : ℕ) (f : Fresh) (email password device ip : Text) (w w' : World S) (p : TokenPair)
      (u : User)
      → login_user N R K cfg now f email password device ip w ≡ (ok (p, u), w')
      → (t : Tables) × (w.mysql ≡ some t)
        × (find_user_by_email email t.users ≡ some u)
        × (K.checkpw password u.password_hash ≡ true)
        × (p ≡ new_tokens K cfg now f u.id u.role)
        × (w'.mysql ≡ some (logged_in now f device ip u t))
  unfolding login_user
  login_sound now f email password device ip w w' p u h =
      let found : Action S (TokenPair × User) =
        query (λ t. find_user_by_email email t.users)
        >>= check_credentials N R K cfg now f email password device ip in
      let (_, w₁, e₁, h₁) =
        >>=-eq-ok (check_account N R K cfg now email) (λ _. check_ip N R K cfg now ip >> found) w
          h in
      let (_, w₂, e₂, h₂) = >>=-eq-ok (check_ip N R K cfg now ip) (λ _. found) w₁ h₁ in
      let (o, w₃, e₃, h₃) =
        >>=-eq-ok (query (λ t. find_user_by_email email t.users))
          (check_credentials N R K cfg now f email password device ip) w₂ h₂ in
      let (there, right, tokens, left) =
        check_credentials_ok now f email password device ip o w₃ {p = p} {u = u} {w' = w'} h₃ in
      let kept₁ = check_account_mysql now email w e₁ in
      let kept₂ = check_ip_mysql now ip w₁ e₂ in
      elim (Option-cases (w.mysql)) [
        | inl down ↦ absurd (ground arith)
        | inr (t, up) ↦ (t, up, ground arith, right, tokens, ground arith)
      ]

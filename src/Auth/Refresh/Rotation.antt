-- ===== src/Auth/Refresh/Rotation.antt =====
-- What a successful refresh of auth/service.py leaves behind, and what happens to the old token.
use social_graph_engine.Base.{
  ℕ, ◌≡◌, refl, sym, ◌∙◌, ◌≢◌, true, false, Option, none, some, List, [], ◌∷◌, ◌++◌, subst, Text,
  text_eq, arith, Bool-cases, Option-cases, inl, inr,
}
use social_graph_engine.Redis.{Redis}
use social_graph_engine.Auth.State.{
  Session, Tables, World, Claims, Crypto, Settings, ok, ◌>>◌, query, >>=-eq-ok,
}
use social_graph_engine.Auth.Tokens.{blacklist_token}
use social_graph_engine.Auth.Login.{Fresh, TokenPair, new_session}
use social_graph_engine.Auth.Refresh.{
  find_session, find_user_by_id, revoke_session, is_some, check_session, reissue, rotate,
  use_session, refresh_access_token,
}
use social_graph_engine.Auth.Refresh.Steps.{blacklist_mysql, check_session_ok, refresh_ok}

-- The time decides whether a token is still accepted, never what it says.
abbrev pub IsTimeless : Crypto → Type 0
IsTimeless K =
    (t t' : ℕ) (token : Text) (c c' : Claims)
    → K.decode t token ≡ some c
    → K.decode t' token ≡ some c'
    → c ≡ c'

-- The session with this id is in the table, and revoked.
abbrev pub IsRevoked : Option Text → Option Tables → Type 0
IsRevoked sid none = ⊥
IsRevoked sid (some t) =
    (s : Session) × (find_session sid t.sessions ≡ some s) × (is_some s.revoked_at ≡ true)

-- A query that finds a live session finds none that is revoked.
live_found :
    (sid : Option Text) (m : Option Tables) {s : Session}
    → IsRevoked sid m
    → (elim m [ none ↦ none | some t ↦ find_session sid t.sessions ]) ≡ some s
    → is_some s.revoked_at ≢ false
live_found sid none dead e live = dead
live_found sid (some t) (s', there, revoked) e live = cc

find_session-revoke :
    (now : ℕ) (sid : Option Text) (sessions more : List Session) {s : Session}
    → find_session sid sessions ≡ some s
    → (s' : Session) × (find_session sid (revoke_session now sid sessions ++ more) ≡ some s')
      × (is_some s'.revoked_at ≡ true)
unfolding find_session revoke_session
find_session-revoke now none sessions more e = cc
find_session-revoke now (some id) [] more e = cc
find_session-revoke now (some id) (u ∷ sessions) more {s} e = elim (Bool-cases (text_eq u.id id)) [
  | inl hit ↦ (record u { revoked_at = some now }, ground arith, refl)
  | inr miss ↦
      let (s', f, r) = find_session-revoke now (some id) sessions more {s = s} (ground arith) in
      (s', ground arith, r)
]

module _ {S : Type 0} (R : Redis S) (K : Crypto) (cfg : Settings) where
  -- What a rotation does to the tables.
  abbrev rotated : ℕ → Fresh → Claims → Tables → Tables
  rotated now f c t = record t {
    sessions =
        revoke_session now c.session_id t.sessions ++ new_session K cfg now f c.sub none none ∷ [];
  }

  reissue_ok :
      (now : ℕ) (f : Fresh) (c : Claims) (w : World S) {p : TokenPair} {w' : World S}
      → reissue R K cfg now f c w ≡ (ok p, w')
      → (t : Tables) × (w.mysql ≡ some t) × (w'.mysql ≡ some (rotated now f c t))
  unfolding reissue
  reissue_ok now f c w h = elim (Option-cases (w.mysql)) [
    | inl down ↦ absurd (ground arith)
    | inr (t, up) ↦ elim (Option-cases (find_user_by_id c.sub t.users)) [
      | inl gone ↦ absurd (ground arith)
      | inr (u, there) ↦ (t, up, ground arith)
    ]
  ]

  rotate_ok :
      (now : ℕ) (f : Fresh) (c : Claims) (w : World S) {p : TokenPair} {w' : World S}
      → rotate R K cfg now f c w ≡ (ok p, w')
      → (t : Tables) × (w.mysql ≡ some t) × (w'.mysql ≡ some (rotated now f c t))
  unfolding rotate
  rotate_ok now f c w h =
      let (b, w₁, e₁, h₁) =
        >>=-eq-ok (blacklist_token R now c.jti 86400) (λ _. reissue R K cfg now f c) w h in
      let (t, up, after) = reissue_ok now f c w₁ h₁ in
      (t, sym (blacklist_mysql R now c.jti 86400 w e₁) ∙ up, after)

  -- A session that a rotation used is found, and it is revoked in the tables that are left.
  use_session_ok :
      (now : ℕ) (f : Fresh) (token : Text) (c : Claims) (w : World S) {p : TokenPair} {w' : World S}
      → use_session R K cfg now f token c w ≡ (ok p, w')
      → IsRevoked c.session_id w'.mysql
  unfolding use_session
  use_session_ok now f token c w h =
      let (o, w₁, e₁, h₁) =
        >>=-eq-ok (query (λ t. find_session c.session_id t.sessions))
          (λ o. check_session R K cfg now token o >> rotate R K cfg now f c) w h in
      let (_, w₂, e₂, h₂) =
        >>=-eq-ok (check_session R K cfg now token o) (λ _. rotate R K cfg now f c) w₁ h₁ in
      let (s, found_it, live, hash, fresh, same) = check_session_ok R K cfg now token o w₁ e₂ in
      let (t, up, after) = rotate_ok now f c w₂ h₂ in
      let here : find_session c.session_id t.sessions ≡ some s = ground arith in
      rw after (
        find_session-revoke now c.session_id t.sessions
          (new_session K cfg now f c.sub none none ∷ []) here)

  -- A revoked session serves nobody.
  revoked_unusable :
      (now : ℕ) (f : Fresh) (token : Text) (c : Claims) (w : World S) (p : TokenPair) {w' : World S}
      → IsRevoked c.session_id w.mysql
      → use_session R K cfg now f token c w ≢ (ok p, w')
  unfolding use_session
  revoked_unusable now f token c w p dead h =
      let (o, w₁, e₁, h₁) =
        >>=-eq-ok (query (λ t. find_session c.session_id t.sessions))
          (λ o. check_session R K cfg now token o >> rotate R K cfg now f c) w h in
      let (_, w₂, e₂, h₂) =
        >>=-eq-ok (check_session R K cfg now token o) (λ _. rotate R K cfg now f c) w₁ h₁ in
      let (s, found_it, live, hash, fresh, same) = check_session_ok R K cfg now token o w₁ e₂ in
      live_found c.session_id w.mysql {s = s} dead (ground arith) live

  -- A refresh token is spent by its use: once it has been exchanged, no later call exchanges it
  -- again, at whatever time and with whatever state Redis is in, as long as the tables are those
  -- that the first exchange left. What a token decodes to does not depend on the time, as far as
  -- it decodes.
  pub refresh-replay :
      (now now' : ℕ) (f f' : Fresh) (token : Text) (w v : World S) (p p' : TokenPair) {w' : World S}
      → IsTimeless K
      → refresh_access_token R K cfg now f token w ≡ (ok p, w')
      → v.mysql ≡ w'.mysql
      → (refresh_access_token R K cfg now' f' token v).0 ≢ ok p'
  refresh-replay now now' f f' token w v p p' {w'} timeless first same again =
      let (c, good, kind, used) = refresh_ok R K cfg now f token w first in
      let (c', good', kind', used') =
        refresh_ok R K cfg now' f' token v {p = p'}
          {w' = (refresh_access_token R K cfg now' f' token v).1} cc in
      let agree : c ≡ c' = timeless now now' token c c' good good' in
      revoked_unusable now' f' token c' v p'
        (subst (λ m. IsRevoked c'.session_id m) (sym same)
          (subst (λ d. IsRevoked d.session_id w'.mysql) agree
            (use_session_ok now f token c w used)))
        used'

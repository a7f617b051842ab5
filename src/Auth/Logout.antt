-- ===== src/Auth/Logout.antt =====
-- `logout_user` of middleware_python/auth/service.py.
pub mod Revoked
use social_graph_engine.Base.{
  ℕ, ◌≡◌, Bool, true, false, not, Option, none, some, List, [], ◌∷◌, ◌&&◌, if◌then◌else◌, Text,
  text_eq,
}
use social_graph_engine.Errors.{bad_request}
use social_graph_engine.Redis.{Redis}
use social_graph_engine.Auth.State.{
  Session, Tables, World, Claims, Crypto, missing_refresh_token, Result, ok, raised, crashed,
  Action, pure, raise, ◌>>=◌, ◌>>◌, update,
}
use social_graph_engine.Auth.Tokens.{blacklist_token, revoke_token_family}
use social_graph_engine.Auth.Refresh.{is_some}

-- UPDATE sessions SET revoked_at = %s WHERE ...
unfoldable pub revoke_where : (Session → Bool) → ℕ → List Session → List Session
revoke_where test now [] = []
revoke_where test now (s ∷ sessions) =
    (if test s then record s { revoked_at = some now } else s) ∷ revoke_where test now sessions

-- user_id = %s AND revoked_at IS NULL
abbrev pub of_user : Text → Session → Bool
of_user user_id s = text_eq s.user_id user_id && not (is_some s.revoked_at)

-- refresh_token_hash = %s AND user_id = %s
abbrev pub of_token : Text → Text → Session → Bool
of_token hash user_id s = text_eq s.refresh_token_hash hash && text_eq s.user_id user_id

-- `except Exception: pass`, around a call whose answer does not matter.
abbrev pub quietly : {A : Type 0} → {S : Type 0} → Action S A → Action S (Unit {0})
quietly m w = (ok tt, (m w).1)

module _ {S : Type 0} (R : Redis S) (K : Crypto) where
  -- The `try` of the second branch: `payload["jti"]` raises where the payload has none.
  unfoldable pub blacklist_payload : ℕ → Option Claims → Action S Bool
  blacklist_payload now none w = (crashed, w)
  blacklist_payload now (some c) w = elim (c.jti) [
    | none ↦ (crashed, w)
    | some jti ↦ blacklist_token R now (some jti) 86400 w
  ]

  -- The branch for one device; an empty token counts as none.
  unfoldable pub logout_token : ℕ → Text → Text → Action S (Unit {0})
  logout_token now user_id [] = raise bad_request missing_refresh_token
  logout_token now user_id (c ∷ cs) = do
    update (λ t. record t {
      sessions = revoke_where (of_token (K.sha256 (c ∷ cs)) user_id) now t.sessions;
    })
    quietly (blacklist_payload now (K.decode now (c ∷ cs)))

  -- `logout_user`; no token is the empty token.
  unfoldable pub logout_user : ℕ → Text → Text → Bool → Action S (Unit {0})
  logout_user now user_id token true = do
    update (λ t. record t { sessions = revoke_where (of_user user_id) now t.sessions })
    revoke_token_family R now user_id
    pure tt
  logout_user now user_id token false = logout_token now user_id token

-- ===== src/Access/Guards.antt =====
-- The dependencies of core/dependencies.py that routes name: `get_token`, `get_current_user`,
-- `get_optional_user`, `get_api_key_user` and the two that want a role.
use social_graph_engine.Base.{
  ◌≢◌, refl, ℕ, ◌≡◌, Bool, true, false, not, Option, none, some, [], ◌∷◌, ◌&&◌, ◌||◌, if◌then◌else◌,
  Text, codes, text_eq, text_eq_sound, drop, take, arith, Bool-cases, inl, inr,
}
use social_graph_engine.Errors.{unauthorized, forbidden}
use social_graph_engine.Redis.{Redis}
use social_graph_engine.Auth.State.{
  Reason, World, Crypto, Settings, Result, ok, raised, crashed, Action, pure, raise, ◌>>=◌, ◌>>◌,
  raise_if, >>=-eq-ok, missing_credentials, missing_api_key, admin_required, analyst_required,
  bad_authorization, empty_token,
}
use social_graph_engine.Access.{Identity, dev_mode, authenticate_jwt, authenticate_api_key}

-- An empty or missing header value counts as none.
abbrev pub given : Option Text → Option Text
given none = none
given (some []) = none
given (some (c ∷ cs)) = some (c ∷ cs)

-- `s.strip()` is empty.
abbrev pub blank : (ℕ → Bool) → Text → Bool
blank is_space [] = true
blank is_space (c ∷ cs) = is_space c && blank is_space cs

-- The user that development mode injects.
abbrev pub demo_user : Identity
demo_user = record {
  user_id = codes "demo-user";
  role = codes "admin";
  auth_method = dev_mode;
  jti = none;
}

-- The role tests.
unfoldable pub is_admin : Identity → Bool
is_admin user = text_eq user.role (codes "admin")

unfoldable pub is_analyst_or_admin : Identity → Bool
is_analyst_or_admin user = text_eq user.role (codes "admin") || text_eq user.role (codes "analyst")

module _ {S : Type 0} where
  -- `get_token`; `is_space` is `str.isspace` of one character.
  unfoldable pub get_token : (ℕ → Bool) → Text → Action S Text
  get_token is_space authorization = do
    raise_if (not (text_eq (take 7 authorization) (codes "Bearer "))) unauthorized bad_authorization
    raise_if (blank is_space (drop 7 authorization)) unauthorized empty_token
    pure (drop 7 authorization)

  -- `get_current_admin` and `get_current_analyst_or_admin`, behind `get_current_user`
  unfoldable pub get_current_admin : Identity → Action S Identity
  get_current_admin user = raise_if (not (is_admin user)) forbidden admin_required >> pure user

  unfoldable pub get_current_analyst_or_admin : Identity → Action S Identity
  get_current_analyst_or_admin user =
      raise_if (not (is_analyst_or_admin user)) forbidden analyst_required >> pure user

  get_current_admin_ok :
      (u : Identity) (w : World S) {user : Identity} {w' : World S}
      → get_current_admin u w ≡ (ok user, w')
      → (is_admin u ≡ true) × (u ≡ user) × (w ≡ w')
  unfolding get_current_admin
  get_current_admin_ok u w h = elim (Bool-cases (is_admin u)) [
    | inl admin ↦ (admin, ground arith, ground arith)
    | inr other ↦ absurd (ground arith)
  ]

module _ {S : Type 0} (R : Redis S) (K : Crypto) (cfg : Settings) where
  -- The two ways in, outside development mode.
  unfoldable pub use_credentials : ℕ → Option Text → Option Text → Action S Identity
  use_credentials now (some token) x_api_key = authenticate_jwt R K now token
  use_credentials now none (some key) = authenticate_api_key R K now key
  use_credentials now none none = raise unauthorized missing_credentials

  -- `get_current_user`
  unfoldable pub get_current_user : ℕ → Option Text → Option Text → Action S Identity
  get_current_user now credentials x_api_key w =
      if text_eq cfg.environment (codes "development")
      then (ok demo_user, w)
      else use_credentials now (given credentials) (given x_api_key) w

  -- The `except UnauthorizedError` of `get_optional_user`.
  unfoldable pub or_anonymous : Result Identity × World S → Result (Option Identity) × World S
  or_anonymous (ok user, w) = (ok (some user), w)
  or_anonymous (raised unauthorized r, w) = (ok none, w)
  or_anonymous (raised e r, w) = (raised e r, w)
  or_anonymous (crashed, w) = (crashed, w)

  -- `get_optional_user`
  unfoldable pub get_optional_user : ℕ → Option Text → Option Text → Action S (Option Identity)
  get_optional_user now credentials x_api_key w =
      or_anonymous (get_current_user now credentials x_api_key w)

  -- `get_api_key_user`
  unfoldable pub get_api_key_user : (ℕ → Bool) → ℕ → Text → Action S Identity
  get_api_key_user is_space now x_api_key =
      raise_if (blank is_space x_api_key) unauthorized missing_api_key
      >> authenticate_api_key R K now x_api_key

  -- A route that wants an administrator runs only for one: outside development mode the user is the
  -- one that the bearer token or the API key authenticates, and has the role "admin".
  pub admin_only :
      (now : ℕ) (credentials x_api_key : Option Text) (w w' : World S) (user : Identity)
      → text_eq cfg.environment (codes "development") ≡ false
      → (get_current_user now credentials x_api_key >>= get_current_admin) w ≡ (ok user, w')
      → (user.role ≡ codes "admin")
        × (use_credentials now (given credentials) (given x_api_key) w ≡ (ok user, w'))
  unfolding get_current_user is_admin
  admin_only now credentials x_api_key w w' user production h =
      let (u, w₁, e₁, h₁) =
        >>=-eq-ok (get_current_user now credentials x_api_key) get_current_admin w h in
      let (admin, same, still) = get_current_admin_ok u w₁ h₁ in
      let mine : text_eq user.role (codes "admin") ≡ true = ground arith in
      (text_eq_sound user.role (codes "admin") mine, ground arith)

  or_anonymous_lem :
      (m : Result Identity × World S) (r : Reason)
      → ((or_anonymous m).0 ≢ raised unauthorized r) × ((or_anonymous m).1 ≡ m.1)
  unfolding or_anonymous
  or_anonymous_lem (ok user, w) r = ((λ e. absurd (ground arith)), refl)
  or_anonymous_lem (raised e s, w) r = (ground arith, ground arith)
  or_anonymous_lem (crashed, w) r = ((λ e. absurd (ground arith)), refl)

  -- A route with optional authentication never answers "unauthorized", and has the effects of
  -- `get_current_user`; outside development mode a request with no credentials is anonymous there and
  -- changes nothing.
  pub get_optional_user_lem :
      (now : ℕ) (credentials x_api_key : Option Text) (w : World S) (r : Reason)
      → text_eq cfg.environment (codes "development") ≡ false
      → ((get_optional_user now credentials x_api_key w).0 ≢ raised unauthorized r)
        × ((get_optional_user now credentials x_api_key w).1
            ≡ (get_current_user now credentials x_api_key w).1)
        × (get_optional_user now none none w ≡ (ok none, w))
  unfolding get_optional_user get_current_user use_credentials or_anonymous
  get_optional_user_lem now credentials x_api_key w r production =
      let (never, same) = or_anonymous_lem (get_current_user now credentials x_api_key w) r in
      (never, same, ground arith)

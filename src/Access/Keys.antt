-- ===== src/Access/Keys.antt =====
-- `_authenticate_api_key` of middleware_python/core/dependencies.py: what its cache keeps alive, and
-- what a revocation achieves.
use social_graph_engine.Base.{
  ℕ, ◌+◌, ◌≤◌, ◌<◌, ◌≡◌, ◌==◌, refl, sym, ◌∙◌, ap, subst, false, Option, none, some, [], ◌∷◌, ◌++◌,
  Text, text_eq_refl, arith, All, Option-cases, inl, inr,
}
use social_graph_engine.Errors.{unauthorized}
use social_graph_engine.Redis.{Redis, reply}
use social_graph_engine.Redis.Laws.{Numerals, IsReliable}
use social_graph_engine.Auth.State.{
  User, ApiKey, Tables, World, Crypto, ok, Action, pure, ◌>>=◌, ◌>>◌, >>=-eq-ok, >>=-ok, query,
  update, or_raise, key_invalid,
}
use social_graph_engine.Auth.Refresh.{is_some}
use social_graph_engine.Access.{
  Identity, JoinedKey, split_colon, api_key_key, find_key, touch_key, key_identity, judge_cached,
  read_cached, check_key, stored_key, cache_key, admit_key, look_up_key, use_cached,
  authenticate_api_key,
}

-- A text without a colon, as ids are.
abbrev pub IsPlain : Text → Type 0
IsPlain t = All (λ c. (c == 58) ≡ false) t

split_colon-append : (a b : Text) → IsPlain a → split_colon (a ++ 58 ∷ b) ≡ some (a, b)
unfolding split_colon
split_colon-append [] b plain = refl
split_colon-append (c ∷ cs) b plain = ground (arith, split_colon-append cs b plain.1)

module _ {S : Type 0} (R : Redis S) (K : Crypto) where
  judge_cached_gives :
      (a b : Text) (w : World S)
      → IsPlain a
      → judge_cached R K (reply (some (a ++ 58 ∷ b))) w ≡ (ok (some (key_identity a b)), w)
  unfolding judge_cached
  judge_cached_gives [] b w plain = rw (split_colon-append [] b plain, judge_cached) refl
  judge_cached_gives (c ∷ cs) b w plain =
      rw (split_colon-append (c ∷ cs) b plain, judge_cached) refl

  check_key_ok :
      (now : ℕ) (k : ApiKey) (u : User) (w : World S) {x : Unit {0}} {w' : World S}
      → check_key R K now (k, u) w ≡ (ok x, w')
      → (is_some k.revoked_at ≡ false) × (u.deleted ≡ false) × (w' ≡ w)
  unfolding check_key
  check_key_ok now k u w h = elim (Option-cases k.expires_at) [
    | inl never ↦ (ground arith, ground arith, ground arith)
    | inr (e, some_time) ↦ (ground arith, ground arith, ground arith)
  ]

  cache_key_ok :
      (now : ℕ) (hash a b : Text) (s : S) (w : World S) {x : Unit {0}} {w' : World S}
      → cache_key R K now hash a b w ≡ (ok x, w')
      → w.redis ≡ some s
      → w'.redis ≡ some (R.setex now (api_key_key hash) 300 (a ++ 58 ∷ b) s).1
  unfolding cache_key stored_key
  cache_key_ok now hash a b s w h e = ground arith

  admit_key_ok :
      (now : ℕ) (hash : Text) (k : ApiKey) (u : User) (s : S) (w : World S) {i : Identity}
      {w' : World S}
      → admit_key R K now hash (k, u) w ≡ (ok i, w')
      → w.redis ≡ some s
      → (i ≡ key_identity k.user_id u.role)
        × (w'.redis ≡ some (R.setex now (api_key_key hash) 300 (k.user_id ++ 58 ∷ u.role) s).1)
  unfolding admit_key
  admit_key_ok now hash k u s w h e =
      let rest : Action S Identity =
        cache_key R K now hash k.user_id u.role >> pure (key_identity k.user_id u.role) in
      let touch : Tables → Tables = λ t. record t { api_keys = touch_key now k.id t.api_keys } in
      let (_, w₁, e₁, h₁) = >>=-eq-ok (check_key R K now (k, u)) (λ _. update touch >> rest) w h in
      let (_, w₂, e₂, h₂) = >>=-eq-ok (update touch) (λ _. rest) w₁ h₁ in
      let (_, w₃, e₃, h₃) =
        >>=-eq-ok (cache_key R K now hash k.user_id u.role)
          (λ _. pure (key_identity k.user_id u.role)) w₂ h₂ in
      let (live, present, same) = check_key_ok now k u w e₁ in
      let kept : w₂.redis ≡ some s = ground arith in
      let stored = cache_key_ok now hash k.user_id u.role s w₂ e₃ kept in
      (ground arith, ground arith)

  look_up_key_ok :
      (now : ℕ) (hash : Text) (s : S) (w : World S) {i : Identity} {w' : World S}
      → look_up_key R K now hash w ≡ (ok i, w')
      → w.redis ≡ some s
      → (k : ApiKey) × (u : User) × (i ≡ key_identity k.user_id u.role)
        × (w'.redis ≡ some (R.setex now (api_key_key hash) 300 (k.user_id ++ 58 ∷ u.role) s).1)
  unfolding look_up_key
  look_up_key_ok now hash s w {i} {w'} h e =
      let find : Tables → Option JoinedKey = λ t. find_key hash t.users t.api_keys in
      let judge : Option JoinedKey → Action S Identity =
        λ o. or_raise o unauthorized key_invalid >>= admit_key R K now hash in
      let (o, w₁, e₁, h₁) = >>=-eq-ok (query find) judge w h in
      let ((k, u), w₂, e₂, h₂) =
        >>=-eq-ok (or_raise o unauthorized key_invalid) (admit_key R K now hash) w₁ h₁ in
      let same : w₂ ≡ w = unchanged o w₁ e₂ ∙ ground arith in
      let (identity, stored) = admit_key_ok now hash k u s w₂ h₂ (ap (λ v. v.redis) same ∙ e) in
      (k, u, identity, stored)
    where
      unchanged :
          (o : Option JoinedKey) (v : World S) {r : JoinedKey} {v' : World S}
          → or_raise {S = S} o unauthorized key_invalid v ≡ (ok r, v')
          → v' ≡ v
      unchanged none v e = absurd (ground arith)
      unchanged (some r) v e = ground arith

module _ {S : Type 0} (N : Numerals) (R : Redis S) (value : ℕ → Text → S → Option Text)
    (laws : IsReliable N R value) (K : Crypto) where
  read_cached_gives :
      (t : ℕ) (hash a b : Text) (s : S) (v : World S)
      → v.redis ≡ some s
      → value t (api_key_key hash) s ≡ some (a ++ 58 ∷ b)
      → IsPlain a
      → read_cached R K t hash v ≡ (ok (some (key_identity a b)), v)
  unfolding read_cached
  read_cached_gives t hash a b s v up cached plain =
      ground (arith, laws.get-value t (api_key_key hash) s, judge_cached_gives R K a b v plain)

  read_cached_misses :
      (now : ℕ) (hash : Text) (s : S) (v : World S)
      → v.redis ≡ some s
      → value now (api_key_key hash) s ≡ none
      → read_cached R K now hash v ≡ (ok none, v)
  unfolding read_cached judge_cached
  read_cached_misses now hash s v up absent =
      ground (arith, laws.get-value now (api_key_key hash) s)

  -- On a reliable Redis, once an API key that was not in the cache has been accepted, for a user
  -- whose id has no colon, it is accepted with the same user and role for the next 300 seconds,
  -- whatever has become of the tables: its revocation, its expiry and the deletion of its user
  -- included.
  pub api_key-cached :
      (now t : ℕ) (raw : Text) (m : Option Tables) (s : S) (w' v : World S) (i : Identity)
      → value now (api_key_key (K.sha256 raw)) s ≡ none
      → authenticate_api_key R K now raw (record { mysql = m; redis = some s }) ≡ (ok i, w')
      → IsPlain i.user_id
      → v.redis ≡ w'.redis
      → now ≤ t
      → t < now + 300
      → authenticate_api_key R K t raw v ≡ (ok i, v)
  unfolding authenticate_api_key use_cached
  api_key-cached now t raw m s w' v i absent accepted plain same later soon =
      let hash = K.sha256 raw in
      let w : World S = record { mysql = m; redis = some s } in
      let missed =
        >>=-ok (read_cached R K now hash) (use_cached R K now hash) w
          (read_cached_misses now hash s w refl absent) in
      let (k, u, identity, stored) = look_up_key_ok R K now hash s w (sym missed ∙ accepted) refl in
      let s' = (R.setex now (api_key_key hash) 300 (k.user_id ++ 58 ∷ u.role) s).1 in
      let kept : value t (api_key_key hash) s' ≡ some (k.user_id ++ 58 ∷ u.role) = ground (
        arith,
        laws.setex-value now t (api_key_key hash) (api_key_key hash) 300 (k.user_id ++ 58 ∷ u.role)
            s,
        text_eq_refl (api_key_key hash),
      ) in
      let hit =
        read_cached_gives t hash k.user_id u.role s' v (same ∙ stored) kept
          (subst (λ j. IsPlain j.user_id) identity plain) in
      >>=-ok (read_cached R K t hash) (use_cached R K t hash) v hit
      ∙ ap (λ j. (ok j, v)) (sym identity)

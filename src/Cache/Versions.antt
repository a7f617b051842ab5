-- ===== src/Cache/Versions.antt =====
-- The version of the data: `get_data_version`, `bump_data_version` and `invalidate_by_version_bump` of
-- middleware_python/services/cache.py. `publish` is what `publish_cache_invalid` does to Redis.
use social_graph_engine.Base.{
  ℕ, ◌+◌, ◌≡◌, ◌≢◌, ◌⊎◌, inl, inr, refl, sym, ap, subst, ◌∙◌, Option, none, some, Text, codes, ◌++◌,
  [], ◌∷◌, Bool, true, false, append_cancel, arith,
}
use social_graph_engine.Redis.{Reply, reply, failed}
use social_graph_engine.Redis.Laws.{Numerals}
use social_graph_engine.Cache.{Bytes, Server, Codec}
use social_graph_engine.Cache.Keys.{redis_key}

unfoldable pub version_key : Text → Text
version_key domain = redis_key (codes "meta" ∷ codes "data_version" ∷ domain ∷ [])

-- `int(version)`, and 1 where that or the decoding raises.
unfoldable pub int_or_one : Option ℕ → ℕ
int_or_one none = 1
int_or_one (some n) = n

unfoldable pub read_version : Numerals → Option Text → ℕ
read_version N none = 1
read_version N (some t) = int_or_one (N.read t)

module _ {S : Type 0} (C : Codec) (N : Numerals) (R : Server S) where
  unfoldable pub answer_version : Text → Reply (Option Bytes) → S → ℕ × S
  answer_version key failed s = (1, s)
  answer_version key (reply none) s = (1, (R.set key (C.encode (codes "1")) s).1)
  answer_version key (reply (some b)) s = (read_version N (C.decode b), s)

  -- `get_data_version`; `available` tells whether there is a client.
  unfoldable pub get_data_version : Bool → Text → S → ℕ × S
  get_data_version false domain s = (1, s)
  get_data_version true domain s =
      answer_version (version_key domain) (R.get (version_key domain) s) s

module _ {S : Type 0} (R : Server S) (publish : Text → S → S) where
  unfoldable pub announce : Text → Reply ℕ × S → ℕ × S
  announce domain (failed, s) = (1, s)
  announce domain (reply new_ver, s) = (new_ver, publish domain s)

  -- `bump_data_version`
  unfoldable pub bump_data_version : Bool → Text → S → ℕ × S
  bump_data_version false domain s = (1, s)
  bump_data_version true domain s = announce domain (R.incr (version_key domain) s)

-- `invalidate_by_version_bump`: the old version, the new one and the state.
unfoldable pub invalidate_by_version_bump :
    {S : Type 0} → Codec → Numerals → Server S → (Text → S → S) → Bool → Text → S → (ℕ × ℕ) × S
invalidate_by_version_bump C N R publish available domain s =
    let (old_ver, s₁) = get_data_version C N R available domain s in
    let (new_ver, s₂) = bump_data_version R publish available domain s₁ in ((old_ver, new_ver), s₂)

-- A server that answers, on keys that hold numbers.
pub record IsCounting {S : Type 0} (C : Codec) (N : Numerals) (R : Server S)
    (value : Text → S → Option Bytes) : Type 0 where
  pub get-reply : (k : Text) (s : S) → R.get k s ≡ reply (value k s)
  pub set-value : (k : Text) (v : Bytes) (s : S) → value k (R.set k v s).1 ≡ some v
  pub incr-reply :
      (k : Text) (n : ℕ) (s : S)
      → value k s ≡ some (C.encode (N.show n))
      → (R.incr k s).0 ≡ reply (n + 1)
  pub incr-value :
      (k : Text) (n : ℕ) (s : S)
      → value k s ≡ some (C.encode (N.show n))
      → value k (R.incr k s).1 ≡ some (C.encode (N.show (n + 1)))

module _ {S : Type 0} (C : Codec) (N : Numerals) (R : Server S)
    (value : Text → S → Option Bytes) where
  -- The version of a domain is `v`; no version counts as 1.
  abbrev pub IsVersion : Text → ℕ → S → Type 0
  IsVersion domain v s =
      ((value (version_key domain) s ≡ none) × (v ≡ 1))
      ⊎ (value (version_key domain) s ≡ some (C.encode (N.show v)))

  -- The first read writes the version that it answers.
  get_data_version_lem :
      (domain : Text) (v : ℕ) (s : S)
      → IsCounting C N R value
      → ((t : Text) → C.decode (C.encode t) ≡ some t)
      → N.show 1 ≡ codes "1"
      → IsVersion domain v s
      → ((get_data_version C N R true domain s).0 ≡ v)
        × (value (version_key domain) (get_data_version C N R true domain s).1
            ≡ some (C.encode (N.show v)))
  unfolding get_data_version answer_version read_version int_or_one
  get_data_version_lem domain v s law codec one (inl (missing, first)) =
      let answer = law.get-reply (version_key domain) s ∙ ap reply missing in
      rw answer (
        sym first,
        law.set-value _ _ s
            ∙ ap (λ (t : Text). some (C.encode t)) (sym one)
            ∙ ap (λ (n : ℕ). some (C.encode (N.show n))) (sym first),
      )
  get_data_version_lem domain v s law codec one (inr there) =
      let answer = law.get-reply (version_key domain) s ∙ ap reply there in
      rw (answer, codec (N.show v), N.read-show v) (refl, there)

  bump_data_version_lem :
      (publish : Text → S → S) (domain : Text) (v : ℕ) (s : S)
      → IsCounting C N R value
      → ((t : S) → value (version_key domain) (publish domain t) ≡ value (version_key domain) t)
      → value (version_key domain) s ≡ some (C.encode (N.show v))
      → ((bump_data_version R publish true domain s).0 ≡ v + 1)
        × (value (version_key domain) (bump_data_version R publish true domain s).1
            ≡ some (C.encode (N.show (v + 1))))
  unfolding bump_data_version announce
  bump_data_version_lem publish domain v s law quiet there =
      subst
        (λ a.
          ((announce R publish domain (a, (R.incr (version_key domain) s).1)).0 ≡ v + 1)
          × (value (version_key domain)
                (announce R publish domain (a, (R.incr (version_key domain) s).1)).1
              ≡ some (C.encode (N.show (v + 1)))))
        (sym (law.incr-reply (version_key domain) v s there))
        (refl, quiet _ ∙ law.incr-value (version_key domain) v s there)

  -- On a Redis that answers, where 1 is written as "1" and publishing leaves the version alone: a
  -- bump answers the version that held and its successor, also for a domain that has none yet; the
  -- next read answers the successor, and no key that ends in the new version is one that ends in
  -- the old.
  pub invalidate_by_version_bump_lem :
      (publish : Text → S → S) (domain prefix : Text) (v : ℕ) (s : S)
      → IsCounting C N R value
      → ((t : Text) → C.decode (C.encode t) ≡ some t)
      → N.show 1 ≡ codes "1"
      → ((t : S) → value (version_key domain) (publish domain t) ≡ value (version_key domain) t)
      → IsVersion domain v s
      → ((invalidate_by_version_bump C N R publish true domain s).0 ≡ (v, v + 1))
        × ((get_data_version C N R true domain
              (invalidate_by_version_bump C N R publish true domain s).1).0
            ≡ v + 1)
        × (prefix ++ N.show (v + 1) ≢ prefix ++ N.show v)
  unfolding invalidate_by_version_bump
  invalidate_by_version_bump_lem publish domain prefix v s law codec one quiet version =
      let read = get_data_version_lem domain v s law codec one version in
      let bump =
        bump_data_version_lem publish domain v (get_data_version C N R true domain s).1 law quiet
          read.1 in
      let next =
        get_data_version_lem domain (v + 1)
          (invalidate_by_version_bump C N R publish true domain s).1 law codec one (inr bump.1) in
      (
        rw (read.0, bump.0) refl,
        next.0,
        λ e.
            let same : some (v + 1) ≡ some v =
              sym (N.read-show (v + 1))
              ∙ ap N.read (append_cancel prefix (N.show (v + 1)) (N.show v) e)
              ∙ N.read-show v in
            ground arith,
      )

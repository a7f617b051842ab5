-- ===== src/Cache/Keys.antt =====
-- The names of keys: `redis_key` of middleware_python/db/redis.py, and `_resolve_cache_key`,
-- `_auto_detect_legacy_keys` and `_safe_lock_name` of services/cache.py.
use social_graph_engine.Base.{
  ℕ, ◌≡◌, refl, ap, subst, ◌∙◌, Bool, true, false, ◌==◌, ◌&&◌, ltb, Option, none, some, List, [],
  ◌∷◌, ◌++◌, length, take, drop, Text, codes, if◌then◌else◌, Bool-cases, inl, inr,
}

-- `":".join(parts)`
unfoldable pub join : List Text → Text
join [] = []
join (p ∷ []) = p
join (p ∷ q ∷ ps) = p ++ (codes ":" ++ join (q ∷ ps))

-- `redis_key` in the namespace "sgp"
unfoldable pub redis_key : List Text → Text
redis_key parts = codes "sgp:" ++ join parts

unfoldable pub starts_with : Text → Text → Bool
starts_with t [] = true
starts_with [] (_ ∷ _) = false
starts_with (c ∷ t) (p ∷ ps) = (c == p) && starts_with t ps

-- `_LEGACY_PATTERNS`
unfoldable pub legacy_patterns : List (Text × Text)
legacy_patterns =
    (codes "social_graph:", codes "sgp:graph:")
    ∷ (codes "socialgraph:", codes "sgp:graph:")
    ∷ (codes "blacklist:token:", codes "sgp:auth:blacklist:")
    ∷ (codes "blacklist:", codes "sgp:auth:blacklist:")
    ∷ (codes "rate_limit:", codes "sgp:rate:")
    ∷ (codes "lock:compute:", codes "sgp:lock:compute:")
    ∷ []

-- `cache_key.replace(old, new, 1)` of a key that starts with `old`
unfoldable pub replace_prefix : Text → Text → Text → Text
replace_prefix key old new = new ++ drop (length old) key

unfoldable pub detect : List (Text × Text) → Text → Option Text
detect [] key = none
detect ((old, new) ∷ patterns) key =
    let rest = detect patterns key in
    if starts_with key old then some (replace_prefix key old new) else rest

-- `_auto_detect_legacy_keys`
unfoldable pub auto_detect_legacy_keys : Text → Option Text
auto_detect_legacy_keys key = detect legacy_patterns key

unfoldable pub keys_of : Text → Option Text → List Text
keys_of key none = key ∷ []
keys_of key (some new_key) = new_key ∷ key ∷ []

-- `_resolve_cache_key`, whose loop is that of `_auto_detect_legacy_keys`
unfoldable pub resolve_cache_key : Text → List Text
resolve_cache_key key = keys_of key (detect legacy_patterns key)

-- `str.replace` of one character
unfoldable pub replace_char : ℕ → Text → Text → Text
replace_char c new [] = []
replace_char c new (d ∷ t) =
    let rest = replace_char c new t in if d == c then new ++ rest else d ∷ rest

-- `_safe_lock_name`, given MD5 in hexadecimal; ":" is 58, "*" 42 and "?" 63.
unfoldable pub safe_lock_name : (Text → Text) → Text → Text
safe_lock_name md5 key =
    let safe =
      replace_char 63 (codes "q")
        (replace_char 42 (codes "star") (replace_char 58 (codes "_") key)) in
    if ltb 80 (length safe) then take 40 safe ++ (codes "_" ++ take 8 (md5 safe)) else safe

-- The lock of a key.
unfoldable pub lock_key : (Text → Text) → Text → Text
lock_key md5 key = redis_key (codes "lock" ∷ codes "compute" ∷ safe_lock_name md5 key ∷ [])

-- A new key is read under itself alone.
detect_new : (t : Text) → detect legacy_patterns (codes "sgp:" ++ t) ≡ none
unfolding detect legacy_patterns starts_with
detect_new t = refl

-- Every pattern leads to a key that starts with "sgp:".
abbrev IsNew : Option Text → Type 0
IsNew none = Unit
IsNew (some key) = (t : Text) × (key ≡ codes "sgp:" ++ t)

abbrev AreNew : List (Text × Text) → Type 0
AreNew [] = Unit
AreNew ((old, new) ∷ patterns) = IsNew (some new) × AreNew patterns

legacy_patterns-AreNew : AreNew legacy_patterns
unfolding legacy_patterns
legacy_patterns-AreNew =
    ((_, refl), ((_, refl), ((_, refl), ((_, refl), ((_, refl), ((_, refl), tt))))))

detect-IsNew :
    (patterns : List (Text × Text)) (key : Text) → AreNew patterns → IsNew (detect patterns key)
unfolding detect replace_prefix
detect-IsNew [] key new = tt
detect-IsNew ((old, new) ∷ patterns) key ((t, e), others) =
    elim (Bool-cases (starts_with key old)) [
      | inl found ↦
          rw found (t ++ drop (length old) key, ap (λ (n : Text). n ++ drop (length old) key) e)
      | inr missed ↦ rw missed (detect-IsNew patterns key others)
    ]

-- A key with an old prefix is read under the new key first and then under itself; the new key is
-- read under itself alone.
pub resolve_cache_key-new :
    (key new_key : Text)
    → auto_detect_legacy_keys key ≡ some new_key
    → (resolve_cache_key key ≡ new_key ∷ key ∷ []) × (resolve_cache_key new_key ≡ new_key ∷ [])
unfolding auto_detect_legacy_keys resolve_cache_key keys_of
resolve_cache_key-new key new_key found =
    let (t, e) : IsNew (some new_key) =
      subst IsNew found (detect-IsNew legacy_patterns key legacy_patterns-AreNew) in
    (ap (keys_of key) found, ap (keys_of new_key) (ap (detect legacy_patterns) e ∙ detect_new t))

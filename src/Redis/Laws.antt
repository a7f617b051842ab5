-- ===== src/Redis/Laws.antt =====
-- What the documentation of Redis says of the commands, of a server that answers all of them.
use social_graph_engine.Base.{
  ℕ, ◌+◌, ◌≤◌, ◌<◌, ◌≡◌, ◌≢◌, Bool, false, Option, none, some, List, [], ◌∷◌, ◌||◌, Text, text_eq,
  ltb, if◌then◌else◌,
}
use social_graph_engine.Redis.{Redis, reply}

-- Numbers as Redis and Python write them.
pub record Numerals : Type 0 where
  pub show : ℕ → Text
  pub read : Text → Option ℕ
  pub read-show : (n : ℕ) → read (show n) ≡ some n
  pub show-ne-nil : (n : ℕ) → show n ≢ []

abbrev pub or_zero : Option ℕ → ℕ
or_zero none = 0
or_zero (some n) = n

-- The number that INCR finds: a missing key counts as 0.
abbrev pub stored : Numerals → Option Text → ℕ
stored N none = 0
stored N (some t) = or_zero (N.read t)

abbrev pub listed : Text → List Text → Bool
listed k [] = false
listed k (j ∷ ks) = text_eq j k || listed k ks

-- `value t k s` is the text under key `k` at time `t`, if no command comes in between.
pub record IsReliable {S : Type 0} (N : Numerals) (R : Redis S) (value : ℕ → Text → S → Option Text)
    : Type 0 where
  pub get-value : (now : ℕ) (k : Text) (s : S) → R.get now k s ≡ reply (value now k s)
  pub exists-value :
      (now : ℕ) (k : Text) (s : S)
      → R.exists now k s ≡ reply (elim (value now k s) [ none ↦ 0 | some _ ↦ 1 ])
  pub setex-reply :
      (now : ℕ) (k : Text) (ttl : ℕ) (v : Text) (s : S)
      → 0 < ttl
      → (R.setex now k ttl v s).0 ≡ reply tt
  pub setex-value :
      (now t : ℕ) (k j : Text) (ttl : ℕ) (v : Text) (s : S)
      → 0 < ttl
      → now ≤ t
      → value t j (R.setex now k ttl v s).1
        ≡ (if text_eq k j then (if ltb t (now + ttl) then some v else none) else value t j s)
  pub incr-reply :
      (now : ℕ) (k : Text) (s : S) → (R.incr now k s).0 ≡ reply (stored N (value now k s) + 1)
  pub incr-value :
      (now : ℕ) (k : Text) (s : S)
      → value now k (R.incr now k s).1 ≡ some (N.show (stored N (value now k s) + 1))
  pub incr-other :
      (now t : ℕ) (k j : Text) (s : S)
      → text_eq k j ≡ false
      → value t j (R.incr now k s).1 ≡ value t j s
  pub expire-reply : (now : ℕ) (k : Text) (ttl : ℕ) (s : S) → (R.expire now k ttl s).0 ≡ reply tt
  pub expire-value :
      (now t : ℕ) (k j : Text) (ttl : ℕ) (s : S)
      → now ≤ t
      → value t j (R.expire now k ttl s).1
        ≡ (if text_eq k j then (if ltb t (now + ttl) then value now j s else none) else value t j s)
  pub delete-reply :
      (now : ℕ) (ks : List Text) (s : S) → (n : ℕ) × ((R.delete now ks s).0 ≡ reply n)
  pub delete-value :
      (now t : ℕ) (ks : List Text) (j : Text) (s : S)
      → value t j (R.delete now ks s).1 ≡ (if listed j ks then none else value t j s)

-- ===== src/Cache/Compute.antt =====
-- The cache-aside read: `cache_get_or_compute` of middleware_python/services/cache.py, with the tags it
-- registers and the counters of db/redis.py. `compute_fn` gives `result`, `none` where it raises;
-- `during` is what other clients and the clock do to Redis while it runs, `others i` what they do in the
-- `i`-th wait of 0.1 seconds. The client's other failures, not of a command, are left out.
use social_graph_engine.Base.{
  ℕ, zero, suc, ◌+◌, ◌*◌, Bool, true, false, Option, none, some, List, [], ◌∷◌, Text, codes,
  if◌then◌else◌, ◌&&◌,
}
use social_graph_engine.Redis.{Reply, reply, failed}
use social_graph_engine.Cache.{Server, Codec, Json}
use social_graph_engine.Cache.Keys.{redis_key, resolve_cache_key, lock_key}
use social_graph_engine.Cache.Stored.{get_compressed, set_compressed, is_reply}

-- The fields of `Settings` that are read, and the arguments `use_lock`, `lock_timeout`, `tags` and
-- `entity_type`.
pub record Options : Type 0 where
  pub stats_enabled : Bool
  pub compression_threshold : ℕ
  pub use_lock : Bool
  pub lock_timeout : ℕ
  pub tags : List Text
  pub entity_type : Text

-- The result, the exception of `compute_fn`, or that of a Redis command.
pub data Outcome (D : Type 0) : Type 0 where
  returned : D → Outcome D
  compute_raised redis_raised : Outcome D

-- `computed` tells whether `compute_fn` was called.
pub record Run (D S : Type 0) : Type 0 where
  pub outcome : Outcome D
  pub computed : Bool
  pub state : S

-- `_apply_ttl_jitter`, given the offset that `random.randint` draws.
unfoldable pub apply_ttl_jitter : ℕ → ℕ → ℕ
apply_ttl_jitter base_ttl offset = base_ttl + offset

module _ {S : Type 0} (R : Server S) where
  -- `track_cache_hit` and `track_cache_miss`, for `kind` "hits" and "misses"
  unfoldable pub track_cache : Text → Text → S → S
  track_cache kind domain s =
      (R.incr (redis_key (codes "metrics" ∷ codes "cache" ∷ kind ∷ domain ∷ [])) s).1

  unfoldable pub track_if : Bool → Text → Text → S → S
  track_if false kind domain s = s
  track_if true kind domain s = track_cache kind domain s

  unfoldable pub tag_key : Text → Text
  tag_key tag = redis_key (codes "tag" ∷ tag ∷ [])

  -- SADD and, once that is answered, EXPIRE for a week
  unfoldable pub then_expire : Text → Reply (Unit {0}) × S → Bool × S
  then_expire key (failed, s) = (false, s)
  then_expire key (reply _, s) = let (answer, s') = R.expire key 604800 s in (is_reply answer, s')

  -- `cache_tag_dependency`
  unfoldable pub cache_tag_dependency : Text → Text → S → Bool × S
  cache_tag_dependency tag key s = then_expire (tag_key tag) (R.sadd (tag_key tag) (key ∷ []) s)

  -- `cache_tag_dependencies`: both commands are sent at once.
  unfoldable pub cache_tag_dependencies : Text → List Text → S → Bool × S
  cache_tag_dependencies tag [] s = (true, s)
  cache_tag_dependencies tag (key ∷ keys) s =
      let (added, s₁) = R.sadd (tag_key tag) (key ∷ keys) s in
      let (set, s₂) = R.expire (tag_key tag) 604800 s₁ in (is_reply added && is_reply set, s₂)

  unfoldable pub tag_all : List Text → Text → S → S
  tag_all [] key s = s
  tag_all (tag ∷ tags) key s = tag_all tags key (cache_tag_dependency tag key s).1

  unfoldable pub register_tags : List Text → Text → S → S
  register_tags [] key s = s
  register_tags (tag ∷ tags) key s = tag_all tags key (cache_tag_dependencies tag (key ∷ []) s).1

-- `if cached:`, which an empty text fails
unfoldable pub truthy : Option Text → Option Text
truthy none = none
truthy (some []) = none
truthy (some (c ∷ t)) = some (c ∷ t)

module _ {D : Type 0} where
  unfoldable pub parse : Json D → Option Text → Option D
  parse J none = none
  parse J (some t) = J.loads t

  unfoldable pub or_next : Option D → Option D → Option D
  or_next none d = d
  or_next (some d) _ = some d

-- What a loop over the keys does once one key is read.
unfoldable pub else_read : {S D : Type 0} → Option D → S → Option D × S → Option D × S
else_read none s others = others
else_read (some d) s others = (some d, s)

-- The first loop counts a value as a hit before it is parsed.
unfoldable pub count_hit : {S : Type 0} → Server S → Bool → Text → Option Text → S → S
count_hit R stats domain none s = s
count_hit R stats domain (some _) s = track_if R stats (codes "hits") domain s

module _ {S D : Type 0} (C : Codec) (J : Json D) (R : Server S) where
  -- One key of the loops, `none` with no value, and where its text is no JSON.
  unfoldable pub peek_one : Text → S → Option D
  peek_one key s = parse J (truthy (get_compressed C R key s))

  -- The loop of a wait.
  unfoldable pub peek : List Text → S → Option D
  peek [] s = none
  peek (key ∷ keys) s = or_next (peek_one key s) (peek keys s)

  unfoldable pub read_keys : Options → List Text → S → Option D × S
  read_keys o [] s = (none, s)
  read_keys o (key ∷ keys) s =
      let cached = truthy (get_compressed C R key s) in
      let s' = count_hit R o.stats_enabled o.entity_type cached s in
      else_read (parse J cached) s' (read_keys o keys s')

  -- The waits for the result of another request: the result, or that none came.
  unfoldable pub await_result : (ℕ → S → S) → List Text → ℕ → ℕ → S → Option D × S
  await_result others keys zero i s = (none, s)
  await_result others keys (suc left) i s =
      let s' = others i s in else_read (peek keys s') s' (await_result others keys left (suc i) s')

-- `keys_to_try[0]`
unfoldable pub primary : List Text → Text
primary [] = []
primary (key ∷ keys) = key

unfoldable pub finish : {D S : Type 0} → Outcome D → Reply ℕ × S → Run D S
finish outcome (reply n, s) = record { outcome = outcome; computed = true; state = s }
finish outcome (failed, s) = record { outcome = redis_raised; computed = true; state = s }

-- Releasing the lock, at the end and where `compute_fn` raises.
unfoldable pub unlock : {D S : Type 0} → Server S → Bool → Text → Outcome D → S → Run D S
unlock R use_lock lock outcome s =
    if use_lock
    then finish outcome (R.delete (lock ∷ []) s)
    else record { outcome = outcome; computed = true; state = s }

-- Writing the cache: no exception leaves it.
unfoldable pub store :
    {D S : Type 0} → Codec → Json D → Server S → Options → List Text → ℕ → D → S → S
store C J R o keys ttl d s =
    if J.is_success d
    then register_tags R o.tags (primary keys)
        (set_compressed C R o.compression_threshold (primary keys) (J.dumps d) ttl s).1
    else s

module _ {S D : Type 0} (C : Codec) (J : Json D) (R : Server S) (o : Options) (lock : Text)
    (keys : List Text) where
  unfoldable pub compute : Option D → (S → S) → ℕ → S → Run D S
  compute none during ttl s = unlock R o.use_lock lock compute_raised (during s)
  compute (some d) during ttl s =
      unlock R o.use_lock lock (returned d) (store C J R o keys ttl d (during s))

  unfoldable pub or_compute : Option D → (S → S) → ℕ → Option D × S → Run D S
  or_compute result during ttl (some d, s) = record {
    outcome = returned d;
    computed = false;
    state = s;
  }
  or_compute result during ttl (none, s) = compute result during ttl s

  -- `int(lock_timeout * 10)` waits of 0.1 seconds, if another request has the lock.
  unfoldable pub locked : Option D → (S → S) → (ℕ → S → S) → ℕ → Reply Bool × S → Run D S
  locked result during others ttl (failed, s) = record {
    outcome = redis_raised;
    computed = false;
    state = s;
  }
  locked result during others ttl (reply true, s) = compute result during ttl s
  locked result during others ttl (reply false, s) =
      or_compute result during ttl (await_result C J R others keys (o.lock_timeout * 10) 0 s)

  unfoldable pub miss : Option D → (S → S) → (ℕ → S → S) → ℕ → S → Run D S
  miss result during others ttl s =
      if o.use_lock
      then locked result during others ttl (R.set_nx lock o.lock_timeout s)
      else compute result during ttl s

  unfoldable pub or_miss : Option D → (S → S) → (ℕ → S → S) → ℕ → Option D × S → Run D S
  or_miss result during others ttl (some d, s) = record {
    outcome = returned d;
    computed = false;
    state = s;
  }
  or_miss result during others ttl (none, s) =
      miss result during others ttl (track_if R o.stats_enabled (codes "misses") o.entity_type s)

unfoldable pub alone : {D S : Type 0} → Option D → S → Run D S
alone none s = record { outcome = compute_raised; computed = true; state = s }
alone (some d) s = record { outcome = returned d; computed = true; state = s }

module _ {S D : Type 0} (md5 : Text → Text) (C : Codec) (J : Json D) (R : Server S) where
  -- `cache_get_or_compute`; `available` tells whether `get_redis_async` gives a client, and without one
  -- Redis is left alone.
  unfoldable pub cache_get_or_compute :
      Options → Text → ℕ → Option D → (S → S) → (ℕ → S → S) → Bool → S → Run D S
  cache_get_or_compute o key actual_ttl result during others false s = alone result (during s)
  cache_get_or_compute o key actual_ttl result during others true s =
      or_miss C J R o (lock_key md5 key) (resolve_cache_key key) result during others actual_ttl
        (read_keys C J R o (resolve_cache_key key) s)

-- ===== src/Cache/Transparent.antt =====
-- The cache is transparent: `cache_get_or_compute` gives what `compute_fn` gives.
use social_graph_engine.Base.{
  ℕ, ◌*◌, ◌≡◌, refl, sym, ap, subst, Bool, true, false, ltb, Option, none, some, List, [], ◌∷◌,
  ◌||◌, Text, codes, if◌then◌else◌, length, Bool-cases, inl, inr,
}
use social_graph_engine.Redis.{Reply, reply, failed}
use social_graph_engine.Cache.{Bytes, Server, Codec, Json}
use social_graph_engine.Cache.Laws.{IsServer, IsJson}
use social_graph_engine.Cache.Keys.{resolve_cache_key, lock_key}
use social_graph_engine.Cache.Stored.{IsCodec, pack, unpack-pack, set_compressed}
use social_graph_engine.Cache.Compute.{
  Options, Outcome, returned, Run, truthy, parse, primary, store, finish, unlock, compute,
  or_compute, locked, miss, or_miss, alone, cache_get_or_compute,
}
use social_graph_engine.Cache.Frame.{
  IsApart, AreApart, IsRight, IsRightOutcome, Fits, IsSound, IsGood, IsGoodRun, frame,
  await_result-IsGood, track_if-IsSound, read_keys-IsGood, register_tags-IsSound,
}

module _ {S D : Type 0} (C : Codec) (J : Json D) (R : Server S) (value : Text → S → Option Bytes)
    (c : D) where
  unparsed : IsRight c (parse J (truthy none))
  unfolding parse truthy
  unparsed = tt

  text-IsRight : (t : Text) → J.loads t ≡ some c → IsRight c (parse J (truthy (some t)))
  unfolding parse truthy
  text-IsRight [] e = tt
  text-IsRight (x ∷ t) e = subst (IsRight c) (sym e) refl

  packed-Fits :
      (threshold : ℕ)
      → IsCodec C
      → IsJson J
      → Fits C J R value c (some (pack C threshold (J.dumps c)))
  packed-Fits threshold codec json =
      subst (λ t. IsRight c (parse J (truthy t))) (sym (unpack-pack C threshold (J.dumps c) codec))
        (either (ltb threshold (length (C.encode (J.dumps c)))))
    where
      either : (b : Bool) → IsRight c (parse J (truthy (if b then none else some (J.dumps c))))
      either true = unparsed
      either false = text-IsRight (J.dumps c) (json c)

  set_ex-IsSound :
      (keys : List Text) (key : Text) (ttl : ℕ) (v : Bytes) (s : S)
      → IsServer R value
      → Fits C J R value c (some v)
      → IsSound C J R value c keys s
      → IsSound C J R value c keys (R.set_ex key ttl v s).1
  set_ex-IsSound [] key ttl v s law fits sound = tt
  set_ex-IsSound (k ∷ keys) key ttl v s law fits sound = (
    elim (law.set_ex-value key k ttl v s) [
      | inl e ↦ subst (Fits C J R value c) (sym e) sound.0
      | inr (_, e) ↦ subst (Fits C J R value c) (sym e) fits
    ],
    set_ex-IsSound keys key ttl v s law fits sound.1,
  )

  module _ (law : IsServer R value) (codec : IsCodec C) (json : IsJson J) (o : Options)
      (lock : Text) (keys : List Text) where
    store-IsSound :
        (ttl : ℕ) (s : S)
        → AreApart o lock keys
        → IsSound C J R value c keys s
        → IsSound C J R value c keys (store C J R o keys ttl c s)
    unfolding store set_compressed
    store-IsSound ttl s apart sound = elim (Bool-cases (J.is_success c)) [
      | inr e ↦ rw e sound
      | inl e ↦ rw e (
          register_tags-IsSound C J R value c law keys o.tags (primary keys) _ apart.3 (
            set_ex-IsSound keys (primary keys) ttl (pack C o.compression_threshold (J.dumps c)) s
              law (packed-Fits o.compression_threshold codec json) sound))
    ]

    finish-IsGood :
        (outcome : Outcome D) (answer : Reply ℕ) (s : S)
        → IsRightOutcome c outcome
        → IsSound C J R value c keys s
        → IsGoodRun C J R value c keys (finish outcome (answer, s))
    unfolding finish
    finish-IsGood outcome failed s right sound = (tt, sound)
    finish-IsGood outcome (reply n) s right sound = (right, sound)

    unlock-IsGood :
        (outcome : Outcome D) (s : S)
        → IsApart keys lock
        → IsRightOutcome c outcome
        → IsSound C J R value c keys s
        → IsGoodRun C J R value c keys (unlock R o.use_lock lock outcome s)
    unfolding unlock
    unlock-IsGood outcome s apart right sound = elim (Bool-cases o.use_lock) [
      | inr e ↦ rw e (right, sound)
      | inl e ↦ rw e (
          finish-IsGood outcome _ _ right (
            frame C J R value c keys lock (λ t. (R.delete (lock ∷ []) t).1) s
              (λ j ne. law.delete-other (lock ∷ []) j s (ap (λ b. b || false) ne)) apart sound))
    ]

    module _ (during : S → S) (others : ℕ → S → S) (ttl : ℕ) (apart : AreApart o lock keys)
        (keep : (s : S) → IsSound C J R value c keys s → IsSound C J R value c keys (during s))
        (keep_all : (i : ℕ) (s : S)
          → IsSound C J R value c keys s
          → IsSound C J R value c keys (others i s)) where
      if-IsGood :
          (b : Bool) (x y : Run D S)
          → IsGoodRun C J R value c keys x
          → IsGoodRun C J R value c keys y
          → IsGoodRun C J R value c keys (if b then x else y)
      if-IsGood true x y gx gy = gx
      if-IsGood false x y gx gy = gy

      compute-IsGood :
          (s : S)
          → IsSound C J R value c keys s
          → IsGoodRun C J R value c keys (compute C J R o lock keys (some c) during ttl s)
      unfolding compute
      compute-IsGood s sound =
          unlock-IsGood (returned c) _ apart.2 refl
            (store-IsSound ttl (during s) apart (keep s sound))

      or_compute-IsGood :
          (r : Option D × S)
          → IsGood C J R value c keys r
          → IsGoodRun C J R value c keys (or_compute C J R o lock keys (some c) during ttl r)
      unfolding or_compute
      or_compute-IsGood (none, s) good = compute-IsGood s good.1
      or_compute-IsGood (some d, s) good = good

      locked-IsGood :
          (answer : Reply Bool) (s : S)
          → IsSound C J R value c keys s
          → IsGoodRun C J R value c keys
              (locked C J R o lock keys (some c) during others ttl (answer, s))
      unfolding locked
      locked-IsGood failed s sound = (tt, sound)
      locked-IsGood (reply true) s sound = compute-IsGood s sound
      locked-IsGood (reply false) s sound = or_compute-IsGood _ (
          await_result-IsGood C J R value c law others keys (o.lock_timeout * 10) 0 s keep_all
            sound)

      miss-IsGood :
          (s : S)
          → IsSound C J R value c keys s
          → IsGoodRun C J R value c keys (miss C J R o lock keys (some c) during others ttl s)
      unfolding miss
      miss-IsGood s sound =
          if-IsGood o.use_lock _ _
            (locked-IsGood (R.set_nx lock o.lock_timeout s).0 (R.set_nx lock o.lock_timeout s).1 (
              frame C J R value c keys lock (λ t. (R.set_nx lock o.lock_timeout t).1) s
                (λ j ne. law.set_nx-other lock o.lock_timeout j s ne) apart.2 sound))
            (compute-IsGood s sound)

      pub or_miss-IsGood :
          (r : Option D × S)
          → IsGood C J R value c keys r
          → IsGoodRun C J R value c keys (or_miss C J R o lock keys (some c) during others ttl r)
      unfolding or_miss
      or_miss-IsGood (none, s) good = miss-IsGood _ (
          track_if-IsSound C J R value c law keys o.stats_enabled (codes "misses") o.entity_type s
            apart.1 good.1)
      or_miss-IsGood (some d, s) good = good

-- The cache is transparent, whatever commands of Redis fail, whichever lock is held by whom and
-- however a wait ends. If Redis holds no other result under the keys of the call, what other
-- clients do keeps it so, and the counters, the lock and the tags have other names than the keys,
-- then a call whose function computes `c` returns `c`, or raises because a command on the lock did;
-- and Redis still holds no other result afterwards.
pub cache_get_or_compute_sound :
    {S D : Type 0}
    → (md5 : Text → Text) (C : Codec) (J : Json D) (R : Server S) (value : Text → S → Option Bytes)
      (c : D) (o : Options) (key : Text) (actual_ttl : ℕ) (during : S → S) (others : ℕ → S → S)
      (available : Bool) (s : S)
    → IsServer R value
    → IsCodec C
    → IsJson J
    → AreApart o (lock_key md5 key) (resolve_cache_key key)
    → ((s : S)
        → IsSound C J R value c (resolve_cache_key key) s
        → IsSound C J R value c (resolve_cache_key key) (during s))
    → ((i : ℕ) (s : S)
        → IsSound C J R value c (resolve_cache_key key) s
        → IsSound C J R value c (resolve_cache_key key) (others i s))
    → IsSound C J R value c (resolve_cache_key key) s
    → IsGoodRun C J R value c
        (resolve_cache_key key)
        (cache_get_or_compute md5 C J R o key actual_ttl (some c) during others available s)
unfolding cache_get_or_compute alone
cache_get_or_compute_sound md5 C J R value c o key ttl during others false s law codec json apart
      keep keep_all sound =
    (refl, keep s sound)
cache_get_or_compute_sound md5 C J R value c o key ttl during others true s law codec json apart
      keep keep_all sound =
    or_miss-IsGood C J R value c law codec json o (lock_key md5 key) (resolve_cache_key key) during
      others ttl apart keep keep_all _
      (read_keys-IsGood C J R value c law o (resolve_cache_key key) (resolve_cache_key key) s
        apart.0 apart.0 sound sound)

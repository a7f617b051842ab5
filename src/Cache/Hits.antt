-- ===== src/Cache/Hits.antt =====
-- When `cache_get_or_compute` is answered by what it once stored.
use social_graph_engine.Base.{
  ℕ, ◌≡◌, refl, ap, ◌∙◌, Bool, true, false, ltb, Option, none, some, List, [], ◌∷◌, Text, codes,
  if◌then◌else◌, length,
}
use social_graph_engine.Redis.{Reply, reply, failed}
use social_graph_engine.Cache.{Bytes, Server, Codec, Json}
use social_graph_engine.Cache.Laws.{IsAnswering, IsJson}
use social_graph_engine.Cache.Keys.{resolve_cache_key, lock_key}
use social_graph_engine.Cache.Stored.{IsCodec, unpack, pack, unpack-pack, get_compressed}
use social_graph_engine.Cache.Compute.{
  Options, Outcome, returned, track_if, truthy, parse, count_hit, else_read, read_keys, finish,
  unlock, compute, locked, miss, or_miss, cache_get_or_compute,
}

module _ {S D : Type 0} (C : Codec) (J : Json D) (R : Server S) (o : Options) (lock : Text)
    (keys : List Text) where
  finish-computed : (outcome : Outcome D) (r : Reply ℕ × S) → (finish outcome r).computed ≡ true
  unfolding finish
  finish-computed outcome (reply n, s) = refl
  finish-computed outcome (failed, s) = refl

  unlock-computed :
      (outcome : Outcome D) (s : S) → (unlock R o.use_lock lock outcome s).computed ≡ true
  unfolding unlock
  unlock-computed outcome s = pick o.use_lock
    where
      pick :
          (b : Bool)
          → (if b
              then finish outcome (R.delete (lock ∷ []) s)
              else record { outcome = outcome; computed = true; state = s }).computed
            ≡ true
      pick true = finish-computed outcome (R.delete (lock ∷ []) s)
      pick false = refl

  compute-computed :
      (result : Option D) (during : S → S) (ttl : ℕ) (s : S)
      → (compute C J R o lock keys result during ttl s).computed ≡ true
  unfolding compute
  compute-computed none during ttl s = unlock-computed _ _
  compute-computed (some d) during ttl s = unlock-computed _ _

  locked-computed :
      (result : Option D) (during : S → S) (others : ℕ → S → S) (ttl : ℕ) (answer : Reply Bool)
      (s : S)
      → answer ≡ reply true
      → (locked C J R o lock keys result during others ttl (answer, s)).computed ≡ true
  unfolding locked
  locked-computed result during others ttl (reply true) s got = compute-computed result during ttl s
  locked-computed result during others ttl (reply false) s got = cc
  locked-computed result during others ttl failed s got = cc

  miss-computed :
      (result : Option D) (during : S → S) (others : ℕ → S → S) (ttl : ℕ) (s : S)
      → (R.set_nx lock o.lock_timeout s).0 ≡ reply true
      → (miss C J R o lock keys result during others ttl s).computed ≡ true
  unfolding miss
  miss-computed result during others ttl s free = pick o.use_lock
    where
      pick :
          (b : Bool)
          → (if b
              then locked C J R o lock keys result during others ttl
                  (R.set_nx lock o.lock_timeout s)
              else compute C J R o lock keys result during ttl s).computed
            ≡ true
      pick true =
          locked-computed result during others ttl (R.set_nx lock o.lock_timeout s).0
            (R.set_nx lock o.lock_timeout s).1 free
      pick false = compute-computed result during ttl s

module _ {S D : Type 0} (C : Codec) (J : Json D) (R : Server S)
    (value : Text → S → Option Bytes) where
  -- What a read makes of a stored value.
  got :
      (threshold : ℕ) (key t : Text) (s : S)
      → IsAnswering R value
      → IsCodec C
      → value key s ≡ some (pack C threshold t)
      → get_compressed C R key s ≡ (if ltb threshold (length (C.encode t)) then none else some t)
  unfolding get_compressed
  got threshold key t s law codec stored =
      ap (unpack C) (law.get-reply key s)
      ∙ ap (λ v. unpack C (reply v)) stored
      ∙ unpack-pack C threshold t codec

  read_hit :
      (o : Options) (key t : Text) (d : D) (s : S)
      → truthy (get_compressed C R key s) ≡ some t
      → J.loads t ≡ some d
      → read_keys C J R o (key ∷ []) s
        ≡ (some d, track_if R o.stats_enabled (codes "hits") o.entity_type s)
  unfolding read_keys else_read count_hit parse
  read_hit o key t d s text_there loads = rw (text_there, loads) refl

  read_miss :
      (o : Options) (key : Text) (s : S)
      → truthy (get_compressed C R key s) ≡ none
      → read_keys C J R o (key ∷ []) s ≡ (none, s)
  unfolding read_keys else_read count_hit parse
  read_miss o key s missing = rw missing refl

  -- For a key that is read under itself alone, on a Redis that answers: while a result `d` of at
  -- most `compression_threshold` bytes is stored, whose JSON is not empty, a call returns it and
  -- does not run its function; it changes nothing but the counter of hits.
  pub cache_get_or_compute-hit :
      (md5 : Text → Text) (o : Options) (key : Text) (actual_ttl : ℕ) (result : Option D)
      (during : S → S) (others : ℕ → S → S) (d : D) (s : S)
      → IsAnswering R value
      → IsCodec C
      → IsJson J
      → resolve_cache_key key ≡ key ∷ []
      → truthy (some (J.dumps d)) ≡ some (J.dumps d)
      → value key s ≡ some (pack C o.compression_threshold (J.dumps d))
      → ltb o.compression_threshold (length (C.encode (J.dumps d))) ≡ false
      → cache_get_or_compute md5 C J R o key actual_ttl result during others true s ≡ record {
        outcome = returned d;
        computed = false;
        state = track_if R o.stats_enabled (codes "hits") o.entity_type s;
      }
  unfolding cache_get_or_compute or_miss
  cache_get_or_compute-hit md5 o key ttl result during others d s law codec json keys whole stored
        short =
      let text_there : truthy (get_compressed C R key s) ≡ some (J.dumps d) =
        ap truthy (got o.compression_threshold key (J.dumps d) s law codec stored)
        ∙ ap (λ (b : Bool). truthy (if b then none else some (J.dumps d))) short
        ∙ whole in
      rw (keys, read_hit o key (J.dumps d) d s text_there (json d)) refl

  -- For a key that is read under itself alone, on a Redis that answers: a stored result of more
  -- than `compression_threshold` bytes is of no use, a call that finds the lock free runs its
  -- function again.
  pub cache_get_or_compute-long :
      (md5 : Text → Text) (o : Options) (key : Text) (actual_ttl : ℕ) (result : Option D)
      (during : S → S) (others : ℕ → S → S) (d : D) (s : S)
      → IsAnswering R value
      → IsCodec C
      → resolve_cache_key key ≡ key ∷ []
      → value key s ≡ some (pack C o.compression_threshold (J.dumps d))
      → ltb o.compression_threshold (length (C.encode (J.dumps d))) ≡ true
      → (R.set_nx
          (lock_key md5 key)
          o.lock_timeout
          (track_if R o.stats_enabled (codes "misses") o.entity_type s)).0
        ≡ reply true
      → (cache_get_or_compute md5 C J R o key actual_ttl result during others true s).computed
        ≡ true
  unfolding cache_get_or_compute or_miss truthy
  cache_get_or_compute-long md5 o key ttl result during others d s law codec keys stored long free =
      let missing : truthy (get_compressed C R key s) ≡ none =
        ap truthy (got o.compression_threshold key (J.dumps d) s law codec stored)
        ∙ ap (λ (b : Bool). truthy (if b then none else some (J.dumps d))) long in
      rw (keys, read_miss o key s missing)
        (miss-computed C J R o (lock_key md5 key) (key ∷ []) result during others ttl _ free)

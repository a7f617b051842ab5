-- ===== src/Cache/Tests.antt =====
-- A call on an empty cache, on a filled one and on one whose value is too long.
use social_graph_engine.Base.{
  arith, ℕ, ◌≡◌, refl, true, none, some, [], ◌∷◌, Text, text_eq, codes, if◌then◌else◌,
}
use social_graph_engine.Cache.Values.{codec, codec-IsCodec, json, json-IsJson}
use social_graph_engine.Cache.Memory.{Store, value, server, server-IsServer, server-IsAnswering}
use social_graph_engine.Cache.Clock
use social_graph_engine.Cache.Clock.{Clock, left, passes, server-HasLocks}
use social_graph_engine.Cache.Keys.{
  join, redis_key, starts_with, legacy_patterns, replace_prefix, detect, auto_detect_legacy_keys,
  keys_of, resolve_cache_key, replace_char, safe_lock_name, lock_key,
}
use social_graph_engine.Cache.Stored.{
  decode_responses, compress_prefix, decoded, receive, inflate, text_of, unpack, pack, is_reply,
  get_compressed, set_compressed,
}
use social_graph_engine.Cache.Compute.{
  Options, track_cache, track_if, tag_key, then_expire, cache_tag_dependency,
  cache_tag_dependencies, tag_all, register_tags, truthy, parse, or_next, peek_one, peek, count_hit,
  else_read, read_keys, await_result, primary, store, finish, unlock, compute, or_compute, locked,
  miss, or_miss, alone, cache_get_or_compute,
}
use social_graph_engine.Cache.Frame.{IsGoodRun}
use social_graph_engine.Cache.Atomic.{
  compute as told_compute, wait, found, after_set, get_or_lock, atomic_get_or_lock, calls,
  atomic_get_or_lock-first,
}
use social_graph_engine.Cache.Transparent.{cache_get_or_compute_sound}
use social_graph_engine.Cache.Locks.{cache_get_or_compute-released}

keys_program : Unit {0}
unfolding join redis_key starts_with legacy_patterns replace_prefix detect auto_detect_legacy_keys
    keys_of resolve_cache_key replace_char safe_lock_name lock_key
keys_program = tt

stored_program : Unit {0}
unfolding keys_program decode_responses compress_prefix decoded receive inflate text_of unpack pack
    is_reply get_compressed set_compressed
stored_program = tt

program : Unit {0}
unfolding text_eq stored_program track_cache track_if tag_key then_expire cache_tag_dependency
    cache_tag_dependencies tag_all register_tags truthy parse or_next peek_one peek count_hit
    else_read read_keys await_result primary store finish unlock compute or_compute locked miss
    or_miss alone cache_get_or_compute
program = tt

abbrev a_key : Text
a_key = codes "sgp:graph:a"

abbrev b_key : Text
b_key = codes "sgp:graph:b"

abbrev md5 : Text → Text
md5 t = t

abbrev options : ℕ → Options
options threshold = record {
  stats_enabled = true;
  compression_threshold = threshold;
  use_lock = true;
  lock_timeout = 1;
  tags = codes "a" ∷ [];
  entity_type = codes "topology";
}

abbrev empty : Store
empty = record { strings = λ k. none; sets = λ k. [] }

abbrev filled : ℕ → Store
filled threshold = record {
  strings = λ k. if text_eq a_key k then some (pack codec threshold (codes "7")) else none;
  sets = λ k. [];
}

abbrev idle : Store → Store
idle s = s

abbrev idle_all : ℕ → Store → Store
idle_all i s = s

old_key : resolve_cache_key (codes "social_graph:a") ≡ a_key ∷ codes "social_graph:a" ∷ []
unfolding keys_program
old_key = refl

a_lock : lock_key md5 a_key ≡ codes "sgp:lock:compute:sgp_graph_a"
unfolding keys_program
a_lock = refl

computed_once :
    (cache_get_or_compute md5 codec json server
      (options 10)
      a_key
      60
      (some 7)
      idle
      idle_all
      true
      empty).computed
    ≡ true
unfolding program
computed_once = refl

cache_get_or_compute_sound_example : IsGoodRun codec json server value 7 (resolve_cache_key a_key) (
    cache_get_or_compute md5 codec json server
      (options 10)
      a_key
      60
      (some 7)
      idle
      idle_all
      true
      empty)
unfolding program
cache_get_or_compute_sound_example =
    cache_get_or_compute_sound md5 codec json server value 7 (options 10) a_key 60 idle idle_all
      true empty server-IsServer codec-IsCodec json-IsJson
      ((refl, tt), (refl, tt), (refl, tt), ((refl, tt), tt)) (λ s sound. sound) (λ i s sound. sound)
      (tt, tt)

cache_get_or_compute-released_example :
    value
      (lock_key md5 a_key)
      (cache_get_or_compute md5 codec json server
        (options 10)
        a_key
        60
        (some 7)
        idle
        idle_all
        true
        empty).state
    ≡ none
unfolding program
cache_get_or_compute-released_example =
    cache_get_or_compute-released md5 codec json server value (options 10) a_key 60 (some 7) idle
      idle_all empty server-IsAnswering refl refl

atomic_program : Unit {0}
unfolding keys_program text_eq found after_set get_or_lock atomic_get_or_lock calls
atomic_program = tt

abbrev unlocked : Clock
unlocked = record { now = 100; entries = λ k. none }

-- The lock of 30 seconds is gone at the fourth call.
atomic_get_or_lock-first_example :
    calls codec Clock.server passes md5 a_key 30 (0 ∷ 10 ∷ 15 ∷ 5 ∷ []) unlocked
    ≡ told_compute ∷ wait ∷ wait ∷ told_compute ∷ []
unfolding atomic_program
atomic_get_or_lock-first_example =
    atomic_get_or_lock-first codec Clock.server Clock.value left passes server-HasLocks md5 a_key 30
      refl (10 ∷ 15 ∷ []) 5 unlocked refl refl (omega arith) (omega arith)

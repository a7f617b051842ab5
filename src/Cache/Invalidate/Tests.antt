-- ===== src/Cache/Invalidate/Tests.antt =====
-- Versions, tags and SCAN on a server in memory.
use social_graph_engine.Base.{
  ℕ, zero, suc, Bool, List, ◌<◌, ◌⊎◌, ◌≡◌, ◌≢◌, inl, inr, refl, true, false, none, some, [], ◌∷◌,
  ◌++◌, Text, text_eq, codes, if◌then◌else◌, length, arith,
}
use social_graph_engine.Redis.{reply}
use social_graph_engine.Redis.Laws.{listed}
use social_graph_engine.Cache.Values.{codec, codec-IsCodec, numerals}
use social_graph_engine.Cache.Memory.{
  Store, two_keys, value, members, server, server-IsAnswering, server-IsCounting, server-HasSets,
}
use social_graph_engine.Cache.Keys.{join, redis_key}
use social_graph_engine.Cache.Stored.{pack, is_reply}
use social_graph_engine.Cache.Compute.{tag_key, then_expire, cache_tag_dependency}
use social_graph_engine.Cache.Versions.{
  version_key, int_or_one, read_version, answer_version, get_data_version, announce,
  bump_data_version, invalidate_by_version_bump, invalidate_by_version_bump_lem,
}
use social_graph_engine.Cache.Invalidate.{
  has_char, confirm_safe, is_refused, expand, acknowledged, delete_batch, turn_on, turn, sweep,
  invalidate_cache, or_zero, delete_set, delete_tag, use_members, invalidate_by_tag,
}
use social_graph_engine.Cache.Sweep.{HasScan, invalidate_cache-gone}
use social_graph_engine.Cache.Tags.{cache_tag_dependency-invalidate}

abbrev a_key : Text
a_key = codes "sgp:graph:a"

abbrev b_key : Text
b_key = codes "sgp:graph:b"

abbrev empty : Store
empty = record { strings = λ k. none; sets = λ k. [] }

abbrev filled : ℕ → Store
filled threshold = record {
  strings = λ k. if text_eq a_key k then some (pack codec threshold (codes "7")) else none;
  sets = λ k. [];
}

versions_program : Unit {0}
unfolding text_eq join redis_key version_key int_or_one read_version answer_version get_data_version
    announce bump_data_version invalidate_by_version_bump
versions_program = tt

invalidate_by_version_bump_lem_example :
    ((invalidate_by_version_bump codec numerals server (λ d s. s) true (codes "graph") empty).0
      ≡ (1, 2))
    × ((get_data_version codec numerals server true
          (codes "graph")
          (invalidate_by_version_bump codec numerals server
            (λ d s. s)
            true
            (codes "graph")
            empty).1).0
        ≡ 2)
    × (codes "sgp:graph:stats:v" ++ numerals.show 2 ≢ codes "sgp:graph:stats:v" ++ numerals.show 1)
invalidate_by_version_bump_lem_example =
    invalidate_by_version_bump_lem codec numerals server value (λ d s. s) (codes "graph")
      (codes "sgp:graph:stats:v") 1 empty server-IsCounting codec-IsCodec.decode-encode refl
      (λ t. refl) (inl (refl, refl))

sweep_program : Unit {0}
unfolding text_eq has_char confirm_safe is_refused expand acknowledged delete_batch turn_on turn
    sweep invalidate_cache
sweep_program = tt

-- The guard does not see that a pattern with two stars matches every key.
two_stars : is_refused (codes "production") (codes "**") ≡ false
unfolding sweep_program
two_stars = refl

abbrev pattern : Text
pattern = codes "sgp:graph:*"

-- The two keys that match; the second batch is still to come behind cursor 0 alone.
abbrev matches : Text → Bool
matches k = listed k (a_key ∷ b_key ∷ [])

abbrev rank : ℕ → Store → ℕ
rank zero s = 1
rank (suc c) s = 0

abbrev pending : ℕ → Text → Store → Bool
pending zero k s = matches k
pending (suc c) k s = listed k (b_key ∷ [])

scans : HasScan server value pattern matches rank pending
unfolding text_eq
scans = record {
  scan-reply = λ c s. (_, _, refl);
  rank-next = rank_next;
  pending-start = λ k s fits. inr fits;
  pending-next = pending_next;
  pending-last = pending_last;
}
  where
    rank_next :
        (c c' : ℕ) (keys : List Text) (s : Store)
        → reply (two_keys c) ≡ reply (suc c', keys)
        → rank (suc c') (delete_batch server keys s).1 < rank c s
    rank_next zero c' keys s given = omega arith
    rank_next (suc c) c' keys s given = absurd (ground arith)

    pending_next :
        (c c' : ℕ) (keys : List Text) (k : Text) (s : Store)
        → reply (two_keys c) ≡ reply (suc c', keys)
        → pending c k s ≡ true
        → (listed k keys ≡ true) ⊎ (pending (suc c') k (delete_batch server keys s).1 ≡ true)
    pending_next zero c' keys k s given due = ground arith
    pending_next (suc c) c' keys k s given due = absurd (ground arith)

    pending_last :
        (c : ℕ) (keys : List Text) (k : Text) (s : Store)
        → reply (two_keys c) ≡ reply (0, keys)
        → pending c k s ≡ true
        → listed k keys ≡ true
    pending_last zero keys k s given due = absurd (ground arith)
    pending_last (suc c) keys k s given due = ground arith

invalidate_cache-gone_example :
    (n : ℕ) × (end : Store) × (invalidate_cache server 2
        (codes "production")
        true
        (codes "graph")
        (codes "sgp")
        (filled 10)
      ≡ (some n, end))
    × ((k : Text) → matches k ≡ true → value k end ≡ none)
unfolding sweep_program
invalidate_cache-gone_example =
    invalidate_cache-gone server value matches rank pending (codes "production") (codes "graph")
      (codes "sgp") 2 (filled 10) server-IsAnswering scans refl (omega arith)

tags_program : Unit {0}
unfolding text_eq is_reply tag_key then_expire cache_tag_dependency or_zero delete_set delete_tag
    use_members invalidate_by_tag
tags_program = tt

cache_tag_dependency-invalidate_example :
    (value a_key
        (invalidate_by_tag server true
          (codes "a")
          (cache_tag_dependency server (codes "a") a_key (filled 10)).1).1
      ≡ none)
    × ((invalidate_by_tag server true
          (codes "a")
          (cache_tag_dependency server (codes "a") a_key (filled 10)).1).0
        ≡ length (
            members
              (tag_key server (codes "a"))
              (cache_tag_dependency server (codes "a") a_key (filled 10)).1))
unfolding tags_program
cache_tag_dependency-invalidate_example =
    cache_tag_dependency-invalidate server value server-IsAnswering a_key members (codes "a")
      (filled 10) server-HasSets refl

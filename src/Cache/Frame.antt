-- ===== src/Cache/Frame.antt =====
-- A cache that holds nothing but the result stays so under the reads, the counters, the waits and the
-- tags of `cache_get_or_compute`, and what a read gives is the result.
use social_graph_engine.Base.{
  ℕ, zero, suc, ◌≡◌, sym, subst, Bool, true, false, Option, none, some, List, [], ◌∷◌, Text,
  text_eq, codes, inl, inr, All,
}
use social_graph_engine.Redis.{Reply, reply, failed}
use social_graph_engine.Cache.{Bytes, Server, Codec, Json}
use social_graph_engine.Cache.Laws.{IsServer}
use social_graph_engine.Cache.Keys.{redis_key}
use social_graph_engine.Cache.Stored.{unpack, get_compressed, text_of, receive}
use social_graph_engine.Cache.Compute.{
  Options, Outcome, returned, compute_raised, redis_raised, Run, track_cache, track_if, tag_key,
  then_expire, cache_tag_dependency, cache_tag_dependencies, tag_all, register_tags, truthy, parse,
  or_next, peek_one, peek, count_hit, else_read, read_keys, await_result,
}

abbrev pub IsApart : List Text → Text → Type 0
IsApart keys other = All (λ k. text_eq other k ≡ false) keys

-- The keys that a call writes besides the cached one: its two counters, its lock and its tags.
abbrev pub AreApart : Options → Text → List Text → Type 0
AreApart o lock keys =
    IsApart keys (redis_key (codes "metrics" ∷ codes "cache" ∷ codes "hits" ∷ o.entity_type ∷ []))
    × IsApart keys
        (redis_key (codes "metrics" ∷ codes "cache" ∷ codes "misses" ∷ o.entity_type ∷ []))
    × IsApart keys lock
    × All (λ tag. IsApart keys (redis_key (codes "tag" ∷ tag ∷ []))) o.tags

module _ {D : Type 0} (c : D) where
  abbrev pub IsRight : Option D → Type 0
  IsRight none = Unit
  IsRight (some d) = d ≡ c

  -- The result, or the exception of a Redis command.
  abbrev pub IsRightOutcome : Outcome D → Type 0
  IsRightOutcome (returned d) = d ≡ c
  IsRightOutcome compute_raised = ⊥
  IsRightOutcome redis_raised = Unit

module _ {S D : Type 0} (C : Codec) (J : Json D) (R : Server S) (value : Text → S → Option Bytes)
    (c : D) where
  -- The value under a key is none that a read could take for another result.
  abbrev pub Fits : Option Bytes → Type 0
  Fits v = IsRight c (parse J (truthy (unpack C (reply v))))

  abbrev pub IsSound : List Text → S → Type 0
  IsSound keys s = All (λ k. Fits (value k s)) keys

  -- An answer of a read: right, with a sound cache behind it.
  abbrev pub IsGood : List Text → Option D × S → Type 0
  IsGood keys r = IsRight c r.0 × IsSound keys r.1

  abbrev pub IsGoodRun : List Text → Run D S → Type 0
  IsGoodRun keys r = IsRightOutcome c r.outcome × IsSound keys r.state

  -- A command that leaves the keys alone leaves a sound cache.
  pub frame :
      (keys : List Text) (other : Text) (f : S → S) (s : S)
      → ((j : Text) → text_eq other j ≡ false → value j (f s) ≡ value j s)
      → IsApart keys other
      → IsSound keys s
      → IsSound keys (f s)
  frame [] other f s h apart sound = tt
  frame (k ∷ keys) other f s h apart sound =
      (subst Fits (sym (h k apart.0)) sound.0, frame keys other f s h apart.1 sound.1)

  unread : IsRight c (parse J (truthy (unpack C failed)))
  unfolding parse truthy unpack text_of receive
  unread = tt

  module _ (law : IsServer R value) where
    peek_one-Fits :
        (key : Text) (s : S)
        → Fits (value key s)
        → IsRight c (parse J (truthy (get_compressed C R key s)))
    unfolding get_compressed
    peek_one-Fits key s fits = elim (law.get-value key s) [
      | inl e ↦ subst (λ a. IsRight c (parse J (truthy (unpack C a)))) (sym e) unread
      | inr e ↦ subst (λ a. IsRight c (parse J (truthy (unpack C a)))) (sym e) fits
    ]

    or_next-IsRight : (a b : Option D) → IsRight c a → IsRight c b → IsRight c (or_next a b)
    unfolding or_next
    or_next-IsRight none b ra rb = rb
    or_next-IsRight (some d) b ra rb = ra

    peek-IsRight : (keys : List Text) (s : S) → IsSound keys s → IsRight c (peek C J R keys s)
    unfolding peek peek_one
    peek-IsRight [] s sound = tt
    peek-IsRight (k ∷ keys) s sound =
        or_next-IsRight (parse J (truthy (get_compressed C R k s))) (peek C J R keys s)
          (peek_one-Fits k s sound.0) (peek-IsRight keys s sound.1)

    pub else_read-IsGood :
        (keys : List Text) (d : Option D) (s : S) (others : Option D × S)
        → IsRight c d
        → IsSound keys s
        → IsGood keys others
        → IsGood keys (else_read d s others)
    unfolding else_read
    else_read-IsGood keys none s others right sound good = good
    else_read-IsGood keys (some d) s others right sound good = (right, sound)

    pub await_result-IsGood :
        (others : ℕ → S → S) (keys : List Text) (left i : ℕ) (s : S)
        → ((i : ℕ) (s : S) → IsSound keys s → IsSound keys (others i s))
        → IsSound keys s
        → IsGood keys (await_result C J R others keys left i s)
    unfolding await_result
    await_result-IsGood others keys zero i s keep sound = (tt, sound)
    await_result-IsGood others keys (suc left) i s keep sound =
        let sound' = keep i s sound in
        else_read-IsGood keys (peek C J R keys (others i s)) (others i s) _
          (peek-IsRight keys (others i s) sound') sound'
          (await_result-IsGood others keys left (suc i) (others i s) keep sound')

    pub track_if-IsSound :
        (keys : List Text) (stats : Bool) (kind domain : Text) (s : S)
        → IsApart keys (redis_key (codes "metrics" ∷ codes "cache" ∷ kind ∷ domain ∷ []))
        → IsSound keys s
        → IsSound keys (track_if R stats kind domain s)
    unfolding track_if track_cache
    track_if-IsSound keys false kind domain s apart sound = sound
    track_if-IsSound keys true kind domain s apart sound =
        let k = redis_key (codes "metrics" ∷ codes "cache" ∷ kind ∷ domain ∷ []) in
        frame keys k (λ t. (R.incr k t).1) s (λ j ne. law.incr-other k j s ne) apart sound

    count_hit-IsSound :
        (keys : List Text) (stats : Bool) (domain : Text) (v : Option Text) (s : S)
        → IsApart keys (redis_key (codes "metrics" ∷ codes "cache" ∷ codes "hits" ∷ domain ∷ []))
        → IsSound keys s
        → IsSound keys (count_hit R stats domain v s)
    unfolding count_hit
    count_hit-IsSound keys stats domain none s apart sound = sound
    count_hit-IsSound keys stats domain (some t) s apart sound =
        track_if-IsSound keys stats (codes "hits") domain s apart sound

    pub read_keys-IsGood :
        (o : Options) (keys tried : List Text) (s : S)
        → IsApart keys
            (redis_key (codes "metrics" ∷ codes "cache" ∷ codes "hits" ∷ o.entity_type ∷ []))
        → IsApart tried
            (redis_key (codes "metrics" ∷ codes "cache" ∷ codes "hits" ∷ o.entity_type ∷ []))
        → IsSound keys s
        → IsSound tried s
        → IsGood keys (read_keys C J R o tried s)
    unfolding read_keys
    read_keys-IsGood o keys [] s apart apart' sound sound' = (tt, sound)
    read_keys-IsGood o keys (k ∷ tried) s apart apart' sound sound' =
        let v = truthy (get_compressed C R k s) in
        let s' = count_hit R o.stats_enabled o.entity_type v s in
        let next = count_hit-IsSound keys o.stats_enabled o.entity_type v s apart sound in
        let next' = count_hit-IsSound tried o.stats_enabled o.entity_type v s apart'.1 sound'.1 in
        else_read-IsGood keys (parse J v) s' _ (peek_one-Fits k s sound'.0) next
          (read_keys-IsGood o keys tried s' apart apart'.1 next next')

    then_expire-IsSound :
        (keys : List Text) (tag : Text) (added : Reply (Unit {0})) (s : S)
        → IsApart keys tag
        → IsSound keys s
        → IsSound keys (then_expire R tag (added, s)).1
    unfolding then_expire
    then_expire-IsSound keys tag failed s apart sound = sound
    then_expire-IsSound keys tag (reply _) s apart sound =
        frame keys tag (λ t. (R.expire tag 604800 t).1) s
          (λ j ne. law.expire-other tag 604800 j s ne) apart sound

    sadd-IsSound :
        (keys : List Text) (tag : Text) (members : List Text) (s : S)
        → IsApart keys tag
        → IsSound keys s
        → IsSound keys (R.sadd tag members s).1
    sadd-IsSound keys tag members s apart sound =
        frame keys tag (λ t. (R.sadd tag members t).1) s (λ j ne. law.sadd-other tag members j s ne)
          apart sound

    tag_all-IsSound :
        (keys tags : List Text) (key : Text) (s : S)
        → All (λ tag. IsApart keys (redis_key (codes "tag" ∷ tag ∷ []))) tags
        → IsSound keys s
        → IsSound keys (tag_all R tags key s)
    unfolding tag_all cache_tag_dependency tag_key
    tag_all-IsSound keys [] key s apart sound = sound
    tag_all-IsSound keys (tag ∷ tags) key s apart sound =
        let k = redis_key (codes "tag" ∷ tag ∷ []) in
        tag_all-IsSound keys tags key _ apart.1 (
          then_expire-IsSound keys k (R.sadd k (key ∷ []) s).0 (R.sadd k (key ∷ []) s).1 apart.0
            (sadd-IsSound keys k (key ∷ []) s apart.0 sound))

    pub register_tags-IsSound :
        (keys tags : List Text) (key : Text) (s : S)
        → All (λ tag. IsApart keys (redis_key (codes "tag" ∷ tag ∷ []))) tags
        → IsSound keys s
        → IsSound keys (register_tags R tags key s)
    unfolding register_tags cache_tag_dependencies tag_key
    register_tags-IsSound keys [] key s apart sound = sound
    register_tags-IsSound keys (tag ∷ tags) key s apart sound =
        let k = redis_key (codes "tag" ∷ tag ∷ []) in
        let s' = (R.sadd k (key ∷ []) s).1 in
        tag_all-IsSound keys tags key _ apart.1 (
          frame keys k (λ t. (R.expire k 604800 t).1) s' (λ j ne. law.expire-other k 604800 j s' ne)
            apart.0 (sadd-IsSound keys k (key ∷ []) s apart.0 sound))

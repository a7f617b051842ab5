-- ===== src/Cache/Locks.antt =====
-- The lock of `cache_get_or_compute`: who computes releases it.
use social_graph_engine.Base.{
  ℕ, ◌*◌, ◌≡◌, sym, ap, subst, Bool, true, false, Option, none, some, List, [], ◌∷◌, ◌||◌, Text,
  text_eq, text_eq_refl, codes, if◌then◌else◌,
}
use social_graph_engine.Redis.{Reply, reply, failed}
use social_graph_engine.Cache.{Bytes, Server, Codec, Json}
use social_graph_engine.Cache.Laws.{IsAnswering}
use social_graph_engine.Cache.Keys.{resolve_cache_key, lock_key}
use social_graph_engine.Cache.Compute.{
  Options, Outcome, returned, compute_raised, Run, track_if, read_keys, await_result, finish,
  unlock, compute, or_compute, locked, miss, or_miss, cache_get_or_compute,
}

module _ {S D : Type 0} (C : Codec) (J : Json D) (R : Server S) (value : Text → S → Option Bytes)
    (lock : Text) where
  -- A run that called the function leaves the lock free.
  abbrev pub IsReleased : Run D S → Type 0
  IsReleased r = r.computed ≡ true → value lock r.state ≡ none

  finish-IsReleased :
      (outcome : Outcome D) (answer : Reply ℕ) (s : S)
      → value lock s ≡ none
      → IsReleased (finish outcome (answer, s))
  unfolding finish
  finish-IsReleased outcome failed s free = λ computed. free
  finish-IsReleased outcome (reply n) s free = λ computed. free

  module _ (law : IsAnswering R value) (o : Options) (keys : List Text)
      (locks : o.use_lock ≡ true) where
    unlock-IsReleased :
        (outcome : Outcome D) (s : S) → IsReleased (unlock R o.use_lock lock outcome s)
    unfolding unlock
    unlock-IsReleased outcome s =
        let there : (text_eq lock lock || false) ≡ true =
          ap (λ b. b || false) (text_eq_refl lock) in
        subst
          (λ b. IsReleased (
            if b
            then finish outcome (R.delete (lock ∷ []) s)
            else record { outcome = outcome; computed = true; state = s }))
          (sym locks) (finish-IsReleased outcome _ _ (law.delete-value (lock ∷ []) lock s there))

    compute-IsReleased :
        (result : Option D) (during : S → S) (ttl : ℕ) (s : S)
        → IsReleased (compute C J R o lock keys result during ttl s)
    unfolding compute
    compute-IsReleased none during ttl s = unlock-IsReleased compute_raised (during s)
    compute-IsReleased (some d) during ttl s = unlock-IsReleased (returned d) _

    or_compute-IsReleased :
        (result : Option D) (during : S → S) (ttl : ℕ) (r : Option D × S)
        → IsReleased (or_compute C J R o lock keys result during ttl r)
    unfolding or_compute
    or_compute-IsReleased result during ttl (none, s) = compute-IsReleased result during ttl s
    or_compute-IsReleased result during ttl (some d, s) = λ computed. cc

    locked-IsReleased :
        (result : Option D) (during : S → S) (others : ℕ → S → S) (ttl : ℕ) (answer : Reply Bool)
        (s : S)
        → IsReleased (locked C J R o lock keys result during others ttl (answer, s))
    unfolding locked
    locked-IsReleased result during others ttl failed s = λ computed. cc
    locked-IsReleased result during others ttl (reply true) s =
        compute-IsReleased result during ttl s
    locked-IsReleased result during others ttl (reply false) s =
        or_compute-IsReleased result during ttl
          (await_result C J R others keys (o.lock_timeout * 10) 0 s)

    or_miss-IsReleased :
        (result : Option D) (during : S → S) (others : ℕ → S → S) (ttl : ℕ) (r : Option D × S)
        → IsReleased (or_miss C J R o lock keys result during others ttl r)
    unfolding or_miss miss
    or_miss-IsReleased result during others ttl (some d, s) = λ computed. cc
    or_miss-IsReleased result during others ttl (none, s) =
        let s' = track_if R o.stats_enabled (codes "misses") o.entity_type s in
        subst
          (λ b. IsReleased (
            if b
            then locked C J R o lock keys result during others ttl (R.set_nx lock o.lock_timeout s')
            else compute C J R o lock keys result during ttl s'))
          (sym locks)
          (locked-IsReleased result during others ttl (R.set_nx lock o.lock_timeout s').0
            (R.set_nx lock o.lock_timeout s').1)

-- If Redis answers: a call with `use_lock=True` that runs its function leaves the lock of its key free,
-- also where the function raises. It does so too where the lock is not its own: a call that has waited in
-- vain computes without the lock and then deletes the lock of the request that still computes.
pub cache_get_or_compute-released :
    {S D : Type 0}
    → (md5 : Text → Text) (C : Codec) (J : Json D) (R : Server S) (value : Text → S → Option Bytes)
      (o : Options) (key : Text) (actual_ttl : ℕ) (result : Option D) (during : S → S)
      (others : ℕ → S → S) (s : S)
    → IsAnswering R value
    → o.use_lock ≡ true
    → (cache_get_or_compute md5 C J R o key actual_ttl result during others true s).computed ≡ true
    → value
        (lock_key md5 key)
        (cache_get_or_compute md5 C J R o key actual_ttl result during others true s).state
      ≡ none
unfolding cache_get_or_compute
cache_get_or_compute-released md5 C J R value o key ttl result during others s law locks computed =
    or_miss-IsReleased C J R value (lock_key md5 key) law o (resolve_cache_key key) locks result
      during others ttl (read_keys C J R o (resolve_cache_key key) s) computed

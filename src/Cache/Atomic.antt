-- ===== src/Cache/Atomic.antt =====
-- The atomic lookup: the Lua script and `atomic_get_or_lock` of middleware_python/services/cache.py,
-- with `cache_set_null` and `cache_is_null`. Redis runs a script to its end before the next command.
use social_graph_engine.Base.{
  ℕ, zero, suc, ◌+◌, ◌-◌, ◌<◌, ◌≤◌, ◌++◌, length, arith, ◌≡◌, refl, ap, ◌∙◌, Bool, true, false,
  Option, none, some, List, [], ◌∷◌, Text, text_eq, codes,
}
use social_graph_engine.Redis.{Reply, reply, failed}
use social_graph_engine.Cache.{Bytes, Server, Codec}
use social_graph_engine.Cache.Keys.{lock_key}
use social_graph_engine.Cache.Stored.{is_reply}

-- The first element of the answer, with the value that is found.
pub data Action : Type 0 where
  hit : Text → Action
  compute wait : Action

-- The client decodes the value of a hit; where that raises the caller is told to compute.
unfoldable pub found : Option Text → Action
found none = compute
found (some t) = hit t

unfoldable pub after_set : {S : Type 0} → Reply Bool × S → Action × S
after_set (failed, s) = (compute, s)
after_set (reply true, s) = (compute, s)
after_set (reply false, s) = (wait, s)

module _ {S : Type 0} (C : Codec) (R : Server S) where
  -- `_LUA_GET_OR_LOCK`; a script that raises is answered by `("COMPUTE", None)`.
  unfoldable pub get_or_lock : Text → ℕ → Reply (Option Bytes) → S → Action × S
  get_or_lock lock timeout failed s = (compute, s)
  get_or_lock lock timeout (reply (some v)) s = (found (C.decode v), s)
  get_or_lock lock timeout (reply none) s = after_set (R.set_nx lock timeout s)

  -- `atomic_get_or_lock`
  unfoldable pub atomic_get_or_lock : (Text → Text) → Bool → Text → ℕ → S → Action × S
  atomic_get_or_lock md5 false key timeout s = (compute, s)
  atomic_get_or_lock md5 true key timeout s = get_or_lock (lock_key md5 key) timeout (R.get key s) s

  -- The answers to calls for one key, one after the other; before each some seconds have passed.
  unfoldable pub calls : (passes : ℕ → S → S) → (Text → Text) → Text → ℕ → List ℕ → S → List Action
  calls passes md5 key timeout [] s = []
  calls passes md5 key timeout (d ∷ ds) s =
      let (action, s') = atomic_get_or_lock md5 true key timeout (passes d s) in
      action ∷ calls passes md5 key timeout ds s'

  -- `cache_set_null`, for 60 seconds
  unfoldable pub cache_set_null : Bool → Text → S → Bool × S
  cache_set_null false key s = (false, s)
  cache_set_null true key s =
      let (answer, s') = R.set_ex key 60 (C.encode (codes "__CACHE_NULL__")) s in
      (is_reply answer, s')

-- `cache_is_null`
unfoldable pub cache_is_null : Option Text → Bool
cache_is_null none = false
cache_is_null (some t) = text_eq t (codes "__CACHE_NULL__")

-- SET with NX and EX: a missing key is set, for as many seconds as EX says, which are not 0; one that is
-- there is left, and no other key changes. `passes d` lets `d` seconds pass, and `left` is the TTL of a
-- key that has one: it goes down, and with it at 0 the key is gone.
pub record HasLocks {S : Type 0} (R : Server S) (value : Text → S → Option Bytes)
    (left : Text → S → Option ℕ) (passes : ℕ → S → S) : Type 0 where
  pub get-reply : (k : Text) (s : S) → R.get k s ≡ reply (value k s)
  pub set_nx-missing :
      (k : Text) (ttl : ℕ) (s : S)
      → 0 < ttl
      → value k s ≡ none
      → ((R.set_nx k ttl s).0 ≡ reply true)
        × (value k (R.set_nx k ttl s).1 ≡ some (codes "1"))
        × (left k (R.set_nx k ttl s).1 ≡ some ttl)
  pub set_nx-there :
      (k : Text) (ttl : ℕ) (v : Bytes) (s : S)
      → value k s ≡ some v
      → ((R.set_nx k ttl s).0 ≡ reply false)
        × (value k (R.set_nx k ttl s).1 ≡ some v)
        × (left k (R.set_nx k ttl s).1 ≡ left k s)
  pub set_nx-other :
      (k : Text) (ttl : ℕ) (j : Text) (s : S)
      → text_eq k j ≡ false
      → value j (R.set_nx k ttl s).1 ≡ value j s
  pub passes-missing : (k : Text) (d : ℕ) (s : S) → value k s ≡ none → value k (passes d s) ≡ none
  pub passes-held :
      (k : Text) (d n : ℕ) (v : Bytes) (s : S)
      → value k s ≡ some v
      → left k s ≡ some n
      → d < n
      → (value k (passes d s) ≡ some v) × (left k (passes d s) ≡ some (n - d))
  pub passes-expired :
      (k : Text) (d n : ℕ) (s : S) → left k s ≡ some n → n ≤ d → value k (passes d s) ≡ none

abbrev pub waits : ℕ → List Action
waits zero = []
waits (suc n) = wait ∷ waits n

abbrev pub total : List ℕ → ℕ
total [] = 0
total (d ∷ ds) = d + total ds

module _ {S : Type 0} (C : Codec) (R : Server S) (value : Text → S → Option Bytes)
    (left : Text → S → Option ℕ) (passes : ℕ → S → S) (law : HasLocks R value left passes)
    (md5 : Text → Text) (key : Text) (timeout : ℕ)
    (apart : text_eq (lock_key md5 key) key ≡ false) where
  -- With no value the call is the SET of the lock.
  locks :
      (s : S)
      → value key s ≡ none
      → atomic_get_or_lock C R md5 true key timeout s
        ≡ after_set (R.set_nx (lock_key md5 key) timeout s)
  unfolding atomic_get_or_lock get_or_lock
  locks s missing = rw (law.get-reply key s ∙ ap reply missing) refl

  -- A call that finds neither a value nor a lock, once `d` seconds have passed.
  computing :
      (d : ℕ) (ds : List ℕ) (s : S)
      → 0 < timeout
      → value key (passes d s) ≡ none
      → value (lock_key md5 key) (passes d s) ≡ none
      → calls C R passes md5 key timeout (d ∷ ds) s
        ≡ compute
          ∷ calls C R passes md5 key timeout ds (R.set_nx (lock_key md5 key) timeout (passes d s)).1
  unfolding calls after_set
  computing d ds s pos missing free =
      let (answer, held, kept) =
        law.set_nx-missing (lock_key md5 key) timeout (passes d s) pos free in
      rw (locks (passes d s) missing, answer) refl

  -- While the lock has `n` seconds left the calls wait, and the first one behind them computes.
  waiting :
      (ds : List ℕ) (d n : ℕ) (v : Bytes) (s : S)
      → 0 < timeout
      → value key s ≡ none
      → value (lock_key md5 key) s ≡ some v
      → left (lock_key md5 key) s ≡ some n
      → total ds < n
      → n ≤ total ds + d
      → calls C R passes md5 key timeout (ds ++ d ∷ []) s ≡ waits (length ds) ++ compute ∷ []
  unfolding calls after_set
  waiting [] d n v s pos missing held kept below above =
      computing d [] s pos (law.passes-missing key d s missing)
        (law.passes-expired (lock_key md5 key) d n s kept (omega arith))
  waiting (e ∷ ds) d n v s pos missing held kept below above =
      let lock = lock_key md5 key in
      let later = passes e s in
      let (still, less) = law.passes-held lock e n v s held kept (omega arith) in
      let none_yet = law.passes-missing key e s missing in
      let (answer, there, same) = law.set_nx-there lock timeout v later still in
      let rest =
        waiting ds d (n - e) v (R.set_nx lock timeout later).1 pos
          (law.set_nx-other lock timeout key later apart ∙ none_yet) there (same ∙ less)
          (omega arith) (omega arith) in
      rw (locks later none_yet, answer) (ap (λ (l : List Action). wait ∷ l) rest)

  -- On a Redis that answers, for a key other than its lock's that has no value and no lock: of the calls
  -- for it the first is told to compute, those less than `lock_timeout` seconds behind it to wait, and the
  -- first one that is not, to compute again, as long as nobody stores a value or releases the lock.
  pub atomic_get_or_lock-first :
      (ds : List ℕ) (d : ℕ) (s : S)
      → value key s ≡ none
      → value (lock_key md5 key) s ≡ none
      → total ds < timeout
      → timeout ≤ total ds + d
      → calls C R passes md5 key timeout (0 ∷ ds ++ d ∷ []) s
        ≡ compute ∷ waits (length ds) ++ compute ∷ []
  atomic_get_or_lock-first ds d s missing free below above =
      let lock = lock_key md5 key in
      let now = passes 0 s in
      let none_yet = law.passes-missing key 0 s missing in
      let unlocked = law.passes-missing lock 0 s free in
      let (answer, held, kept) = law.set_nx-missing lock timeout now (omega arith) unlocked in
      let rest =
        waiting ds d timeout (codes "1") (R.set_nx lock timeout now).1 (omega arith)
          (law.set_nx-other lock timeout key now apart ∙ none_yet) held kept below above in
      computing 0 (ds ++ d ∷ []) s (omega arith) none_yet unlocked
      ∙ ap (λ (l : List Action). compute ∷ l) rest

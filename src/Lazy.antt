-- ===== src/Lazy.antt =====
-- The lazy connectors: `get_redis_async`, `get_redis_sync`, `reset_redis_connection`, `close_redis`
-- of middleware_python/db/redis.py, `get_mysql_pool`, `close_mysql` of db/mysql.py, and
-- `get_neo4j_driver`, `close_neo4j` of db/neo4j.py. They share one shape: a global client, a global
-- failure flag, and a connection attempt whose outcome is an argument here (`none` where it raised).
mod Tests
use social_graph_engine.Base.{
  ℕ, ◌≡◌, refl, Bool, true, false, Option, none, some, List, [], ◌∷◌, arith, All, if◌then◌else◌,
}

pub record Lazy (C : Type 0) : Type 0 where
  pub client : Option C
  pub failed : Bool

-- The globals before the first call.
abbrev pub untried : {C : Type 0} → Lazy C
untried = record { client = none; failed = false }

module _ {C : Type 0} where
  unfoldable pub connect : Option C → Lazy C → Option C × Lazy C
  connect none l = (none, record { client = none; failed = true })
  connect (some c) l = (some c, record l { client = some c })

  -- `get_redis_async`, `get_redis_sync`, `get_mysql_pool`, `get_neo4j_driver`
  unfoldable pub get_client : Option C → Lazy C → Option C × Lazy C
  get_client attempt l = elim (l.client) [
    | some c ↦ (some c, l)
    | none ↦ if l.failed then (none, l) else connect attempt l
  ]

  -- `close_redis`, `close_mysql`, `close_neo4j`
  unfoldable pub close : Lazy C → Lazy C
  close l = elim (l.client) [ none ↦ l | some _ ↦ record { client = none; failed = false } ]

  -- `reset_redis_connection`
  unfoldable pub reset : Lazy C → Lazy C
  reset l = record { client = none; failed = false }

  -- The answers to a sequence of calls with the outcomes of the attempts that they may make.
  unfoldable pub answers : List (Option C) → Lazy C → List (Option C)
  answers [] l = []
  answers (attempt ∷ attempts) l = let (a, l') = get_client attempt l in a ∷ answers attempts l'

  get_failed :
      (a : Option C) (l : Lazy C) → l.client ≡ none → l.failed ≡ true → get_client a l ≡ (none, l)
  unfolding get_client
  get_failed a l e f = ground arith

  get_connected :
      (a : Option C) (l : Lazy C) (c : C) → l.client ≡ some c → get_client a l ≡ (some c, l)
  unfolding get_client
  get_connected a l c e = ground arith

  failed-answers :
      (attempts : List (Option C)) (l : Lazy C)
      → l.client ≡ none
      → l.failed ≡ true
      → All (λ a. a ≡ none) (answers attempts l)
  unfolding answers
  failed-answers [] l e f = tt
  failed-answers (a ∷ attempts) l e f =
      rw (get_failed a l e f) (refl, failed-answers attempts l e f)

  connected-answers :
      (attempts : List (Option C)) (l : Lazy C) (c : C)
      → l.client ≡ some c
      → All (λ a. a ≡ some c) (answers attempts l)
  unfolding answers
  connected-answers [] l c e = tt
  connected-answers (a ∷ attempts) l c e =
      rw (get_connected a l c e) (refl, connected-answers attempts l c e)

  -- The first contact decides: if it succeeds, every call of the process answers the one client it
  -- made, and no later attempt is made; if it fails, every call answers None, however often the
  -- server could be reached afterwards.
  pub answers_lem :
      (c : C) (attempts : List (Option C))
      → All (λ a. a ≡ some c) (answers (some c ∷ attempts) untried)
        × All (λ a. a ≡ none) (answers (none ∷ attempts) untried)
  unfolding answers get_client connect
  answers_lem c attempts = (
    (refl, connected-answers attempts (record { client = some c; failed = false }) c refl),
    (refl, failed-answers attempts (record { client = none; failed = true }) refl refl),
  )

  -- `close_redis` and its likes do not clear the failure of a first contact: only
  -- `reset_redis_connection` lets the next call make an attempt again.
  pub close-failed :
      (attempt : Option C) (l : Lazy C)
      → l.client ≡ none
      → l.failed ≡ true
      → ((get_client attempt (close l)).0 ≡ none) × ((get_client attempt (reset l)).0 ≡ attempt)
  unfolding get_client close reset connect
  close-failed attempt l e f = ground arith

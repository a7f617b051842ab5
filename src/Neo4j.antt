-- ===== src/Neo4j.antt =====
-- The retry loop of middleware_python/db/neo4j.py, `_retry_with_backoff`, and the query function
-- `execute_cypher` around it. What the driver does at the k-th attempt is an argument, `fn k`, and so
-- is the list of exceptions that count as transient. Delays are in the unit of `base_delay`.
pub mod Attempts
mod Tests
use social_graph_engine.Base.{
  ℕ, zero, suc, ◌+◌, ◌-◌, ◌*◌, ◌^◌, Bool, true, false, not, Option, none, some, List, [], ◌∷◌, ltb,
  if◌then◌else◌,
}

-- How one call ends.
pub data Outcome (E A : Type 0) : Type 0 where
  returned : A → Outcome E A
  thrown : E → Outcome E A

-- How the loop ends; `unassigned` is the failing `assert last_exception is not None`.
pub data Result (E A : Type 0) : Type 0 where
  ok : A → Result E A
  raised : E → Result E A
  unassigned : Result E A

-- The end of a loop, the calls it made and the delays it slept.
pub record Run (E A : Type 0) : Type 0 where
  pub result : Result E A
  pub calls : ℕ
  pub slept : List ℕ

module _ {E A : Type 0} where
  -- A call more in front, and a sleep.
  abbrev pub called : Run E A → Run E A
  called r = record r { calls = suc r.calls }

  abbrev pub paused : ℕ → Run E A → Run E A
  paused delay r = record { result = r.result; calls = suc r.calls; slept = delay ∷ r.slept }

  abbrev pub at_once : Result E A → Run E A
  at_once r = record { result = r; calls = 1; slept = [] }

  -- `raise last_exception`
  abbrev pub exhausted : Option E → Run E A
  exhausted none = record { result = unassigned; calls = 0; slept = [] }
  exhausted (some e) = record { result = raised e; calls = 0; slept = [] }

  module _ (is_retryable : E → Bool) (base_delay max_attempts : ℕ) (fn : ℕ → Outcome E A) where
    -- The `except` block of attempt `k`, before the attempts that follow.
    unfoldable pub recover : ℕ → E → Run E A → Run E A
    recover k e rest =
        if not (is_retryable e)
        then at_once (raised e)
        else (if ltb k max_attempts then paused (base_delay * 2 ^ (k - 1)) rest else called rest)

    -- `for attempt in range(k, max_attempts + 1)`, with `left` attempts to come.
    unfoldable pub attempts : ℕ → ℕ → Option E → Run E A
    attempts zero k last_exception = exhausted last_exception
    attempts (suc left) k last_exception = elim (fn k) [
      | returned a ↦ at_once (ok a)
      | thrown e ↦ recover k e (attempts left (suc k) (some e))
    ]

    -- `_retry_with_backoff`
    unfoldable pub retry_with_backoff : Run E A
    retry_with_backoff = attempts max_attempts 1 none

-- The `try` of `execute_cypher`: every exception is answered by no records.
unfoldable pub records_of : {E R : Type 0} → Result E (List R) → List R
records_of (ok records) = records
records_of (raised e) = []
records_of unassigned = []

abbrev pub result_of : {E A : Type 0} → Outcome E A → Result E A
result_of (returned a) = ok a
result_of (thrown e) = raised e

-- `execute_cypher`; without a driver `_do_query` returns no records, so `fn` does.
unfoldable pub execute_cypher :
    {E R : Type 0} → (E → Bool) → ℕ → ℕ → (ℕ → Outcome E (List R)) → Bool → List R
execute_cypher is_retryable base_delay max_attempts fn retry =
    if retry
    then records_of (retry_with_backoff is_retryable base_delay max_attempts fn).result
    else records_of (result_of (fn 1))

-- ===== src/RateLimit/Dispatch.antt =====
-- `RateLimitMiddleware.dispatch` of middleware_python/middleware/rate_limiter.py.
use social_graph_engine.Base.{ℕ, suc, ◌+◌, ◌-◌, ◌≡◌, Option, List, leb, if◌then◌else◌, Text, arith}
use social_graph_engine.Redis.Laws.{Numerals, listed}
use social_graph_engine.RateLimit.{
  Pipeline, Request, Limits, max_requests_of, identify_client, check_rate_limit, Verdict,
}

-- Integers, as Python subtracts them.
pub data ℤ : Type 0 where
  pos negsuc : ℕ → ℤ

unfoldable pub minus : ℕ → ℕ → ℤ
minus a b = if leb b a then pos (a - b) else negsuc (b - a - 1)

-- What the middleware does with a request: pass it on as it is, raise `RateLimitError` with its
-- detail, or pass it on and set the three headers.
pub data Outcome : Type 0 where
  exempt : Outcome
  limited : ℕ → ℕ → ℕ → Outcome
  answered : ℕ → ℤ → ℕ → Outcome

-- The lines behind `_check_rate_limit`; X-RateLimit-Remaining is `max_requests - current - 1`.
unfoldable pub conclude : ℕ → Verdict → Outcome
conclude max_requests v =
    if v.allowed
    then answered max_requests (minus max_requests (v.current + 1)) v.reset_seconds
    else limited max_requests v.current v.reset_seconds

module _ {S : Type 0} (N : Numerals) (P : Pipeline S) (sha256 subject : Text → Text)
    (limits : Limits) where
  -- `dispatch`
  unfoldable pub dispatch : List Text → ℕ → Request → Option S → Outcome × Option S
  dispatch exempt_paths now_ms r s =
      if listed r.path exempt_paths
      then (exempt, s)
      else (let (kind, id) = identify_client sha256 subject r in
          let max_requests = max_requests_of limits kind in
          let (verdict, s') = check_rate_limit N P kind id max_requests now_ms s in
          (conclude max_requests verdict, s'))

-- The verdict on a call that Redis has counted as the `current`-th of the window.
abbrev pub counted : ℕ → ℕ → Verdict
counted max_requests current = record {
  allowed = leb current max_requests;
  current = current;
  reset_seconds = 60;
}

-- A counted call is refused when it is above the limit. With `left + 1` calls still to come within
-- the limit X-RateLimit-Remaining says `left`; for the last call that the limit allows it says −1.
pub conclude_lem :
    (max_requests current left : ℕ)
    → (conclude max_requests (counted max_requests (max_requests + suc left))
        ≡ limited max_requests (max_requests + suc left) 60)
      × (conclude (current + suc left) (counted (current + suc left) current)
          ≡ answered (current + suc left) (pos left) 60)
      × (conclude max_requests (counted max_requests max_requests)
          ≡ answered max_requests (negsuc 0) 60)
unfolding conclude minus
conclude_lem max_requests current left = (ground arith, ground arith, ground arith)

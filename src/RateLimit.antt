-- ===== src/RateLimit.antt =====
-- middleware_python/middleware/rate_limiter.py. The pipeline of four Redis commands that it sends is a
-- parameter; `Entry` is a member of a sorted set with its score.
pub mod Dispatch
pub mod Sorted
pub mod Window
mod Tests
use social_graph_engine.Base.{
  ℕ, ◌+◌, ◌-◌, ◌*◌, ◌≤◌, ◌<◌, ◌≡◌, Bool, true, false, not, Option, none, some, List, [], ◌∷◌, ◌++◌,
  ltb, leb, if◌then◌else◌, length, take, drop, Text, codes, text_eq,
}
use social_graph_engine.Redis.{Reply, reply, failed}
use social_graph_engine.Redis.Laws.{Numerals}

pub record Entry : Type 0 where
  pub member : Text
  pub score : ℕ

-- ZREMRANGEBYSCORE key 0 high, ZADD key member score, ZCARD key and EXPIRE key ttl in one transaction;
-- `high` is none where it is negative. The answer is that of ZCARD.
pub record Pipeline (S : Type 0) : Type 0 where
  pub execute : Text → Option ℕ → Text → ℕ → ℕ → S → Reply ℕ × S

pub data ClientType : Type 0 where
  anonymous authenticated api_key : ClientType

-- The client types as the code writes them.
unfoldable pub type_text : ClientType → Text
type_text anonymous = codes "anonymous"
type_text authenticated = codes "authenticated"
type_text api_key = codes "api_key"

-- The headers and the peer of a request.
pub record Request : Type 0 where
  pub path : Text
  pub authorization : Text
  pub x_api_key : Text
  pub x_request_id : Text
  pub host : Option Text

-- The anonymous branch: `headers.get("X-Request-ID") or (...)`
unfoldable pub anonymous_id : Text → Option Text → Text
anonymous_id [] none = codes "unknown"
anonymous_id [] (some host) = host
anonymous_id (c ∷ cs) host = c ∷ cs

-- The branches behind the token: an empty header counts as none.
unfoldable pub identify_untokened : (Text → Text) → Request → ClientType × Text
identify_untokened sha256 r = elim (r.x_api_key) [
  | [] ↦ (anonymous, anonymous_id r.x_request_id r.host)
  | c ∷ cs ↦ (api_key, take 16 (sha256 r.x_api_key))
]

-- `payload and payload.get("sub")`, where `subject` gives the subject of a token, "" for none.
unfoldable pub identify_subject : (Text → Text) → Request → Text → ClientType × Text
identify_subject sha256 r [] = identify_untokened sha256 r
identify_subject sha256 r (c ∷ cs) = (authenticated, c ∷ cs)

-- `_identify_client`; `subject` is `decode_token_no_verify`, which checks no signature.
unfoldable pub identify_client : (Text → Text) → (Text → Text) → Request → ClientType × Text
identify_client sha256 subject r =
    if text_eq (take 7 r.authorization) (codes "Bearer ")
    then identify_subject sha256 r (subject (drop 7 r.authorization))
    else identify_untokened sha256 r

-- f"rate_limit:{client_type}:{client_id}:{window}s" with the window of 60 seconds
unfoldable pub rate_key : ClientType → Text → Text
rate_key client_type client_id =
    codes "rate_limit:" ++ (type_text client_type ++ (codes ":" ++ (client_id ++ codes ":60s")))

abbrev pub window_ms : ℕ
window_ms = 60 * 1000

-- `now_ms - window * 1000`
unfoldable pub window_start : ℕ → Option ℕ
window_start now_ms = if leb window_ms now_ms then some (now_ms - window_ms) else none

-- The tuple (allowed, current, reset_seconds).
pub record Verdict : Type 0 where
  pub allowed : Bool
  pub current : ℕ
  pub reset_seconds : ℕ

unfoldable pub judge : ℕ → Reply ℕ → Verdict
judge max_requests failed = record { allowed = true; current = 0; reset_seconds = 0 }
judge max_requests (reply count) = record {
  allowed = leb count max_requests;
  current = count;
  reset_seconds = 60;
}

-- The limits per minute of `Settings`.
pub record Limits : Type 0 where
  pub rate_limit_anonymous_per_minute : ℕ
  pub rate_limit_authenticated_per_minute : ℕ
  pub rate_limit_api_key_per_minute : ℕ

unfoldable pub max_requests_of : Limits → ClientType → ℕ
max_requests_of l anonymous = l.rate_limit_anonymous_per_minute
max_requests_of l authenticated = l.rate_limit_authenticated_per_minute
max_requests_of l api_key = l.rate_limit_api_key_per_minute

module _ {S : Type 0} (N : Numerals) (P : Pipeline S) where
  -- `_check_rate_limit`
  unfoldable pub check_rate_limit : ClientType → Text → ℕ → ℕ → Option S → Verdict × Option S
  check_rate_limit client_type client_id max_requests now_ms none =
      (record { allowed = true; current = 0; reset_seconds = 0 }, none)
  check_rate_limit client_type client_id max_requests now_ms (some s) =
      let (r, s') =
        P.execute (rate_key client_type client_id) (window_start now_ms) (N.show now_ms) now_ms 70
          s in
      (judge max_requests r, some s')

  -- The calls of one client at these times, the last one first.
  unfoldable pub calls : ClientType → Text → ℕ → List ℕ → Option S → Option S
  calls client_type client_id max_requests [] s = s
  calls client_type client_id max_requests (t ∷ ts) s =
      (check_rate_limit client_type client_id max_requests t
        (calls client_type client_id max_requests ts s)).1

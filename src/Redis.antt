-- ===== src/Redis.antt =====
-- The Redis server as the middleware uses it, through the commands of redis-py's asyncio client that
-- middleware_python/auth/service.py, core/security.py and middleware/rate_limiter.py call. The server
-- is not part of the repository: its state `S` and its commands are a parameter. A command is given
-- the time in seconds, and answers, or raises in the client.
pub mod Laws
pub mod Memory
use social_graph_engine.Base.{ℕ, Bool, true, false, Option, none, some, List, Text}

pub data Reply (A : Type 0) : Type 0 where
  reply : A → Reply A
  failed : Reply A

pub record Redis (S : Type 0) : Type 0 where
  pub get : ℕ → Text → S → Reply (Option Text)
  pub exists : ℕ → Text → S → Reply ℕ
  pub setex : ℕ → Text → ℕ → Text → S → Reply (Unit {0}) × S
  pub incr : ℕ → Text → S → Reply ℕ × S
  pub expire : ℕ → Text → ℕ → S → Reply (Unit {0}) × S
  pub delete : ℕ → List Text → S → Reply ℕ × S

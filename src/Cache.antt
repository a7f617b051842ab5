-- ===== src/Cache.antt =====
-- The result cache: middleware_python/services/cache.py over the part of db/redis.py that it calls.
-- Redis, Python's codecs and JSON are not part of the repository: the server's state `S` and its
-- commands, as far as these files call them, are a parameter. The state holds the server's clock, so
-- that time passes only where the model says so. A command answers, or raises in the client.
pub mod Keys
pub mod Stored
pub mod Laws
pub mod Compute
pub mod Frame
pub mod Transparent
pub mod Locks
pub mod Hits
pub mod Versions
pub mod Invalidate
pub mod Sweep
pub mod Tags
pub mod Atomic
pub mod Clock
pub mod Scan
pub mod Values
pub mod Memory
mod Tests
use social_graph_engine.Base.{ℕ, Bool, Option, List, Text, ◌≡◌, some}
use social_graph_engine.Redis.{Reply}

abbrev pub Bytes : Type 0
Bytes = List ℕ

-- GET, SET with EX, SET, SET with NX and EX of the text "1", DEL, INCR, SADD, EXPIRE, SMEMBERS and SCAN.
pub record Server (S : Type 0) : Type 0 where
  pub get : Text → S → Reply (Option Bytes)
  pub set_ex : Text → ℕ → Bytes → S → Reply (Unit {0}) × S
  pub set : Text → Bytes → S → Reply (Unit {0}) × S
  pub set_nx : Text → ℕ → S → Reply Bool × S
  pub delete : List Text → S → Reply ℕ × S
  pub incr : Text → S → Reply ℕ × S
  pub sadd : Text → List Text → S → Reply (Unit {0}) × S
  pub expire : Text → ℕ → S → Reply (Unit {0}) × S
  pub smembers : Text → S → Reply (List Text)
  pub scan : ℕ → Text → S → Reply (ℕ × List Text)

-- `str.encode("utf-8")`, `bytes.decode("utf-8")` and zlib at level 6; `none` where they raise.
pub record Codec : Type 0 where
  pub encode : Text → Bytes
  pub decode : Bytes → Option Text
  pub compress : Bytes → Bytes
  pub decompress : Bytes → Option Bytes

-- `json` on the results `D`, and whether a result has the status "success".
pub record Json (D : Type 0) : Type 0 where
  pub dumps : D → Text
  pub loads : Text → Option D
  pub is_success : D → Bool

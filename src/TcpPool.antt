-- ===== src/TcpPool.antt =====
-- The connection pool of middleware_python/services/cpp_tcp_client.py.
-- `Conn` is one `_TcpConnection` (an object is named by `id`), `Pool` the list `_pool`. What the
-- network decides is an argument: `at_eof` tells which streams have ended, `connected` is the
-- outcome of `connect()` (the new object, or none where it raised), `Reply` the outcome of
-- `readline`.
pub mod Bounds
pub mod Sharing
pub mod Run
mod Tests
use social_graph_engine.Base.{
  ℕ, ◌+◌, ◌≡◌, Bool, true, false, not, ◌&&◌, Option, none, some, List, [], ◌∷◌, ◌++◌, ltb, ◌==◌,
  if◌then◌else◌, length, Text, codes,
}

pub record Conn : Type 0 where
  pub id : ℕ
  pub in_use : Bool
  pub last_used : ℕ

abbrev pub Pool : Type 0
Pool = List Conn

-- `_MAX_POOL_SIZE`
abbrev pub max_pool_size : ℕ
max_pool_size = 4

-- `is_healthy` of a connection whose `connect()` has returned: its reader is set.
abbrev pub is_healthy : (ℕ → Bool) → Conn → Bool
is_healthy at_eof c = not (at_eof c.id)

abbrev pub idle : (ℕ → Bool) → Conn → Bool
idle at_eof c = not c.in_use && is_healthy at_eof c

-- A `for conn in _pool` loop that marks the first connection passing the test and returns it.
unfoldable pub claim_first : (Conn → Bool) → Pool → Option (Conn × Pool)
claim_first test [] = none
claim_first test (c ∷ pool) =
    if test c
    then some (record c { in_use = true }, record c { in_use = true } ∷ pool)
    else elim (claim_first test pool) [ none ↦ none | some (found, rest) ↦ some (found, c ∷ rest) ]

-- The last loop of `_get_connection`, over a pool that is full: any healthy connection.
unfoldable pub claim_healthy : (ℕ → Bool) → Pool → Option Conn × Pool
claim_healthy at_eof pool = elim (claim_first (is_healthy at_eof) pool) [
  | none ↦ (none, pool)
  | some (c, pool') ↦ (some c, pool')
]

-- The middle block: a new connection while there is room.
unfoldable pub open_new : Option Conn → Pool → Option Conn × Pool
open_new none pool = (none, pool)
open_new (some c) pool =
    (some (record c { in_use = true }), pool ++ record c { in_use = true } ∷ [])

-- `_get_connection`
unfoldable pub get_connection : (ℕ → Bool) → Option Conn → Pool → Option Conn × Pool
get_connection at_eof connected pool = elim (claim_first (idle at_eof) pool) [
  | some (c, pool') ↦ (some c, pool')
  | none ↦
      if ltb (length pool) max_pool_size then open_new connected pool else claim_healthy at_eof pool
]

-- `_release_connection`: the object is changed wherever the pool holds it.
unfoldable pub release_connection : ℕ → ℕ → Pool → Pool
release_connection now i [] = []
release_connection now i (c ∷ pool) =
    (if c.id == i then record c { in_use = false; last_used = now } else c)
    ∷ release_connection now i pool

-- `if conn in _pool: _pool.remove(conn)`
unfoldable pub remove : ℕ → Pool → Pool
remove i [] = []
remove i (c ∷ pool) = if c.id == i then pool else c ∷ remove i pool

-- How `readline` under `wait_for` ends: a line that parses, a line that does not, the end of the
-- stream, a timeout, or any other exception of the streams (`write` and `drain` included).
pub data Reply (A : Type 0) : Type 0 where
  json : A → Reply A
  garbled : Reply A
  closed : Reply A
  timed_out : Reply A
  broken : Reply A

pub data Error : Type 0 where
  compute_timeout cpp_engine_error stream_error : Error

-- The dict that the engine answers with, or the one that stands for a line that does not parse.
pub data Response (A : Type 0) : Type 0 where
  answer : A → Response A
  parse_failure : Response A

pub data Result (A : Type 0) : Type 0 where
  ok : A → Result A
  raised : Error → Result A

-- `send_command`
unfoldable pub send_command : {A : Type 0} → Reply A → Result (Response A)
send_command (json a) = ok (answer a)
send_command garbled = ok parse_failure
send_command closed = raised cpp_engine_error
send_command timed_out = raised compute_timeout
send_command broken = raised stream_error

-- Where the value of `execute_command_tcp` comes from: the TCP reply, or `execute_command` of
-- services/cpp_engine.py.
pub data Route (A : Type 0) : Type 0 where
  tcp : Response A → Route A
  subprocess : Route A

-- The part of `execute_command_tcp` behind `send_command`: the pool it leaves, `finally` included.
unfoldable pub finish : {A : Type 0} → ℕ → ℕ → Result (Response A) → Pool → Route A × Pool
finish now i (ok r) pool = (tcp r, release_connection now i pool)
finish now i (raised e) pool = (subprocess, release_connection now i (remove i pool))

-- `execute_command_tcp`, with no other task between its awaits.
unfoldable pub execute_command_tcp :
    {A : Type 0} → (ℕ → Bool) → Option Conn → ℕ → Reply A → Pool → Route A × Pool
execute_command_tcp at_eof connected now reply pool =
    let (conn, pool') = get_connection at_eof connected pool in
    elim conn [ none ↦ (subprocess, pool') | some c ↦ finish now c.id (send_command reply) pool' ]

-- `shutdown_tcp_pool`
unfoldable pub shutdown_tcp_pool : Pool → Pool
shutdown_tcp_pool _ = []

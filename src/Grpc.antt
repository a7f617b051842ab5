-- ===== src/Grpc.antt =====
-- The gRPC client of middleware_python/services/cpp_grpc_client.py: `connect`, `close` and
-- `_call_with_retry` of `CppGrpcClient`, and the global client. What the network
-- does at attempt `i` is an argument: `ping i` tells whether the connection's Ping is answered,
-- `call_fn i` how the call ends. Delays are in the unit of `retry_delay`.
pub mod Calls
pub mod Command
pub mod Fallback
mod Tests
use social_graph_engine.Base.{
  ℕ, zero, suc, ◌+◌, ◌-◌, ◌*◌, ◌^◌, Bool, true, false, not, Option, none, some, List, [], ◌∷◌, ltb,
  if◌then◌else◌,
}

-- The codes of an `AioRpcError` that the client tells apart.
pub data Code : Type 0 where
  unavailable deadline_exceeded unimplemented other_code : Code

-- How a call of the stub ends: a response, an `AioRpcError`, an `asyncio.TimeoutError`, a
-- `ConnectionError`, or another exception.
pub data Reply (A : Type 0) : Type 0 where
  response : A → Reply A
  rpc_error : Code → Reply A
  timed_out connection_lost other_exception : Reply A

-- What `_call_with_retry` raises.
pub data Error : Type 0 where
  timeout_error not_implemented connection_error runtime_error : Error
  rpc : Code → Error
  unexpected : Error

pub data Result (A : Type 0) : Type 0 where
  ok : A → Result A
  raised : Error → Result A

-- The end of the loop, `_connected`, the calls of the stub and the delays slept.
pub record Run (A : Type 0) : Type 0 where
  pub result : Result A
  pub connected : Bool
  pub calls : ℕ
  pub slept : List ℕ

abbrev pub ends : {A : Type 0} → Result A → Bool → ℕ → Run A
ends r connected calls = record { result = r; connected = connected; calls = calls; slept = [] }

-- A call and a sleep in front of the attempts that follow.
abbrev pub retried : {A : Type 0} → ℕ → Run A → Run A
retried delay r = record r { calls = suc r.calls; slept = delay ∷ r.slept }

-- `connect`: nothing is done on an open connection.
unfoldable pub connect : Bool → Bool → Bool
connect answered true = true
connect answered false = answered

-- `raise last_error or RuntimeError(...)`
unfoldable pub last_or_runtime : Option Error → Error
last_or_runtime none = runtime_error
last_or_runtime (some e) = e

module _ {A : Type 0} (retry_delay max_retries : ℕ) where
  -- The outcome of the call at attempt `i`, before the attempts that follow: `lost` are those with
  -- `_connected` cleared, `kept` those with it set.
  unfoldable pub handle : ℕ → Reply A → Run A → Run A → Run A
  handle i (response a) lost kept = ends (ok a) true 1
  handle i (rpc_error unavailable) lost kept =
      if ltb i (max_retries - 1)
      then retried (retry_delay * 2 ^ i) lost
      else ends (raised (rpc unavailable)) false 1
  handle i (rpc_error deadline_exceeded) lost kept = ends (raised timeout_error) true 1
  handle i (rpc_error unimplemented) lost kept = ends (raised not_implemented) true 1
  handle i (rpc_error other_code) lost kept = ends (raised (rpc other_code)) true 1
  handle i timed_out lost kept = ends (raised timeout_error) true 1
  handle i connection_lost lost kept = ends (raised connection_error) true 1
  handle i other_exception lost kept =
      if ltb i (max_retries - 1)
      then retried (retry_delay * 2 ^ i) kept
      else ends (raised unexpected) true 1

module _ {A : Type 0} (retry_delay max_retries : ℕ) (ping : ℕ → Bool) (call_fn : ℕ → Reply A) where
  -- `for attempt in range(i, max_retries)`, with `left` attempts to come. The error of an attempt that
  -- goes on is the last one only if no attempt follows, and one does.
  unfoldable pub attempts : ℕ → ℕ → Bool → Run A
  attempts zero i connected = ends (raised (last_or_runtime none)) connected 0
  attempts (suc left) i connected =
      if connect (ping i) connected
      then handle retry_delay max_retries i (call_fn i) (attempts left (suc i) false)
          (attempts left (suc i) true)
      else ends (raised connection_error) false 0

  -- `_call_with_retry`
  unfoldable pub call_with_retry : Bool → Run A
  call_with_retry connected = attempts max_retries 0 connected

-- The global client: none, or one with its `_connected`.
abbrev pub Global : Type 0
Global = Option Bool

-- `get_grpc_client`, given whether a new client connects, `none` where creating it raises: the client's
-- answer and the global.
unfoldable pub get_grpc_client : Option Bool → Global → Bool × Global
get_grpc_client created (some true) = (true, some true)
get_grpc_client (some true) global = (true, some true)
get_grpc_client created global = (false, global)

-- `close_grpc_client`
unfoldable pub close_grpc_client : Global → Global
close_grpc_client global = none

-- ===== src/Grpc/Tests.antt =====
-- A service that is down for two attempts, and one that stays down.
use social_graph_engine.Base.{ℕ, ◌≡◌, refl, Bool, true, false, [], ◌∷◌, ltb, if◌then◌else◌, arith}
use social_graph_engine.Grpc.{
  unavailable, Reply, response, rpc_error, ok, raised, connection_error, connect, handle, attempts,
  call_with_retry, last_or_runtime,
}
use social_graph_engine.Grpc.Command.{
  Call, compute_kcore, Answer, answer, error, not_connected, route, execute_via_grpc,
}
use social_graph_engine.Grpc.Fallback.{on_network, execute_via_grpc-unreachable}
use social_graph_engine.Base.{List, Text, text_eq, codes}
use social_graph_engine.Grpc.Calls.{call_with_retry-recovers}

program : Unit {0}
unfolding connect last_or_runtime handle attempts call_with_retry
program = tt

abbrev third_time : ℕ → Reply ℕ
third_time i = if ltb i 2 then rpc_error unavailable else response 7

abbrev answered : ℕ → Bool
answered i = true

abbrev lost : ℕ → Bool
lost i = false

recovered :
    call_with_retry 10 3 answered third_time true
    ≡ record { result = ok 7; connected = true; calls = 3; slept = 10 ∷ 20 ∷ [] }
unfolding program
recovered = refl

never_connected :
    call_with_retry 10 3 lost third_time false
    ≡ record { result = raised connection_error; connected = false; calls = 0; slept = [] }
unfolding program
never_connected = refl

call_with_retry-recovers_example :
    call_with_retry 10 3 answered third_time true
    ≡ record { result = ok 7; connected = true; calls = 3; slept = 10 ∷ 20 ∷ [] }
call_with_retry-recovers_example =
    call_with_retry-recovers 10 3 answered third_time 2 7 (omega arith)
      (refl, refl, (refl, refl, tt)) refl

abbrev down : Call → ℕ → Reply ℕ
down c i = rpc_error unavailable

abbrev as_written : Text → Text
as_written t = t

abbrev subprocess : Text → List Text → Answer ℕ
subprocess command args = answer 7

no_client :
    execute_via_grpc as_written (on_network 10 3 lost down) subprocess false (codes "kcore") []
    ≡ answer 7
unfolding execute_via_grpc
no_client = refl

execute_via_grpc-unreachable_example :
    execute_via_grpc as_written (on_network 10 3 lost down) subprocess true (codes "kcore") []
    ≡ error not_connected
unfolding text_eq route
execute_via_grpc-unreachable_example =
    execute_via_grpc-unreachable 10 3 lost down as_written subprocess (codes "kcore") []
      compute_kcore (omega arith) refl refl refl

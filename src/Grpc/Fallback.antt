-- ===== src/Grpc/Fallback.antt =====
-- The commands of `execute_via_grpc` on the retry loop of the client.
use social_graph_engine.Base.{ℕ, ◌≤◌, ◌≡◌, ap, ◌∙◌, Bool, true, false, List, Text}
use social_graph_engine.Grpc.{unavailable, Reply, rpc_error, call_with_retry, Result}
use social_graph_engine.Grpc.Calls.{call_with_retry-unreachable}
use social_graph_engine.Grpc.Command.{
  Call, Answer, error, not_connected, call, route, caught, follow, execute_via_grpc,
}

-- The client's call: `call_fn c i` is how attempt `i` of call `c` ends.
abbrev pub on_network : {D : Type 0} → ℕ → ℕ → (ℕ → Bool) → (Call → ℕ → Reply D) → Call → Result D
on_network retry_delay max_retries ping call_fn c =
    (call_with_retry retry_delay max_retries ping (call_fn c) true).result

-- An engine that becomes unreachable while the client holds an open connection, with two attempts or
-- more: a command that is a call of the client ends with the answer that there is no connection. The
-- subprocess, which the engine's absence is to be made up by, is not asked, whatever it would answer.
pub execute_via_grpc-unreachable :
    {D : Type 0}
    → (retry_delay max_retries : ℕ) (ping : ℕ → Bool) (call_fn : Call → ℕ → Reply D)
      (lower : Text → Text) (fallback : Text → List Text → Answer D) (command : Text)
      (args : List Text) (c : Call)
    → 2 ≤ max_retries
    → route command (lower command) args ≡ call c
    → call_fn c 0 ≡ rpc_error unavailable
    → ping 1 ≡ false
    → execute_via_grpc lower
        (on_network retry_delay max_retries ping call_fn)
        fallback
        true
        command
        args
      ≡ error not_connected
unfolding execute_via_grpc follow caught
execute_via_grpc-unreachable retry_delay max_retries ping call_fn lower fallback command args c two
      known down lost =
    ap (follow (on_network retry_delay max_retries ping call_fn) command) known
    ∙ ap (λ r. caught command r.result)
        (call_with_retry-unreachable retry_delay max_retries ping (call_fn c) two down lost)

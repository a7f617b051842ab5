-- ===== src/TcpPool/Tests.antt =====
-- Runs of the connection pool at concrete inputs.
use social_graph_engine.Base.{ℕ, ◌≡◌, refl, Bool, true, false, none, some, [], ◌∷◌, arith}
use social_graph_engine.TcpPool.{
  Conn, Pool, claim_first, claim_healthy, open_new, get_connection, release_connection, remove,
  send_command, finish, answer, closed, subprocess, execute_command_tcp, ok,
}
use social_graph_engine.TcpPool.Run.{
  System, Reach, begin, done, here, next, IsSound, Reach-IsSound, end_lease,
}

program : Unit {0}
unfolding claim_first claim_healthy open_new get_connection release_connection remove send_command
    finish execute_command_tcp end_lease
program = tt

abbrev held : ℕ → Conn
held i = record { id = i; in_use = true; last_used = 0 }

abbrev free : ℕ → Conn
free i = record { id = i; in_use = false; last_used = 0 }

abbrev busy_pool : Pool
busy_pool = held 1 ∷ held 2 ∷ held 3 ∷ held 4 ∷ []

abbrev alive : ℕ → Bool
alive _ = false

abbrev dead : ℕ → Bool
dead _ = true

-- The third command reuses an idle connection; a failing one leaves the pool without its own.
reuse : get_connection alive none (held 1 ∷ free 2 ∷ []) ≡ (some (held 2), held 1 ∷ held 2 ∷ [])
unfolding program
reuse = refl

failing :
    execute_command_tcp {A = ℕ} alive none 7 closed (free 1 ∷ free 2 ∷ [])
    ≡ (subprocess, free 2 ∷ [])
unfolding program
failing = refl

abbrev start : System
start = record { pool = []; leases = [] }

-- One command opens connection 1 and gets its answer.
abbrev after : System
after = record { pool = record (free 1) { last_used = 5 } ∷ []; leases = [] }

start-IsSound : IsSound start
start-IsSound = record { valid = record { bounded = omega arith; distinct = tt }; accounted = tt }

one_command : Reach ℕ start after
unfolding program
one_command =
    next (next here (begin start alive (some (free 1)) tt))
      (done (record { pool = held 1 ∷ []; leases = 1 ∷ [] }) 5 1 (ok (answer 3)) refl)

Reach-IsSound_example : IsSound after
Reach-IsSound_example = Reach-IsSound start-IsSound one_command

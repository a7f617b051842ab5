-- ===== src/TcpPool/Sharing.antt =====
-- Who holds a connection that `_get_connection` of services/cpp_tcp_client.py returns.
use social_graph_engine.Base.{
  ℕ, ◌<◌, ◌≡◌, refl, Bool, true, false, Option, none, some, [], ◌∷◌, arith, length, All,
  Option-cases, Bool-cases, inl, inr, lt→ltb, ◌⊎◌,
}
use social_graph_engine.TcpPool.{
  Conn, Pool, max_pool_size, claim_first, claim_healthy, open_new, get_connection, Reply,
  subprocess, execute_command_tcp, idle, is_healthy,
}

-- The pool has the connection, and it passes the test.
abbrev pub Any : (Conn → Type 0) → Pool → Type 0
Any P [] = ⊥
Any P (c ∷ pool) = P c ⊎ Any P pool

-- A connection of this number that nobody holds.
abbrev pub IsFree : ℕ → Conn → Type 0
IsFree i c = (c.id ≡ i) × (c.in_use ≡ false)

claim_first-idle :
    (at_eof : ℕ → Bool) (pool : Pool) {c : Conn} {pool' : Pool}
    → claim_first (idle at_eof) pool ≡ some (c, pool')
    → Any (IsFree c.id) pool × (at_eof c.id ≡ false) × (c.in_use ≡ true)
unfolding claim_first
claim_first-idle at_eof [] h = cc
claim_first-idle at_eof (d ∷ pool) h = elim (Option-cases (claim_first (idle at_eof) pool)) [
  | inl miss ↦ ground arith
  | inr (found, hit) ↦ ground (arith, claim_first-idle at_eof pool hit)
]

open_new-some :
    (connected : Option Conn) (pool : Pool) {c : Conn} {pool' : Pool}
    → open_new connected pool ≡ (some c, pool')
    → (d : Conn) × (connected ≡ some d) × (c ≡ record d { in_use = true })
unfolding open_new
open_new-some none pool h = absurd (ground arith)
open_new-some (some d) pool h = (d, refl, ground arith)

-- While the pool has room, the connection handed out is a healthy one of the pool that nobody
-- holds, or the one that `connect()` has just made.
pub get_connection-exclusive :
    (at_eof : ℕ → Bool) (connected : Option Conn) (pool : Pool) {c : Conn} {pool' : Pool}
    → length pool < max_pool_size
    → get_connection at_eof connected pool ≡ (some c, pool')
    → (Any (IsFree c.id) pool × (at_eof c.id ≡ false))
      ⊎ ((d : Conn) × (connected ≡ some d) × (c ≡ record d { in_use = true }))
unfolding get_connection
get_connection-exclusive at_eof connected pool {c} room h =
    elim (Option-cases (claim_first (idle at_eof) pool)) [
      | inl miss ↦
          inr (open_new-some connected pool (rw (miss, get_connection, lt→ltb _ _ room) at h))
      | inr (found, hit) ↦ inl (ground (arith, claim_first-idle at_eof pool hit))
    ]

-- Nobody-holds-it claims fail over a pool whose connections are all held.
claim_idle-busy :
    (at_eof : ℕ → Bool) (pool : Pool)
    → All (λ c. c.in_use ≡ true) pool
    → claim_first (idle at_eof) pool ≡ none
unfolding claim_first
claim_idle-busy at_eof [] busy = refl
claim_idle-busy at_eof (c ∷ pool) busy = ground (arith, claim_idle-busy at_eof pool busy.1)

-- A healthy connection is found also where it is held, and marking it changes nothing.
claim_healthy-busy :
    (at_eof : ℕ → Bool) (pool : Pool)
    → All (λ c. c.in_use ≡ true) pool
    → Any (λ c. at_eof c.id ≡ false) pool
    → (c : Conn) × (claim_first (is_healthy at_eof) pool ≡ some (c, pool))
      × Any (λ d. (d ≡ c) × (d.in_use ≡ true)) pool
unfolding claim_first
claim_healthy-busy at_eof [] busy healthy = absurd healthy
claim_healthy-busy at_eof (c ∷ pool) busy healthy = elim (Bool-cases (at_eof c.id)) [
  | inl dead ↦
      let (d, found, here) = claim_healthy-busy at_eof pool busy.1 (ground arith) in
      (d, ground arith, inr here)
  | inr live ↦ (c, ground arith, inl (refl, busy.0))
]

-- When all four connections are held, the pool does not make the caller wait: it returns the first
-- healthy connection, which another command still holds.
pub get_connection-shared :
    (at_eof : ℕ → Bool) (connected : Option Conn) (pool : Pool)
    → length pool ≡ max_pool_size
    → All (λ c. c.in_use ≡ true) pool
    → Any (λ c. at_eof c.id ≡ false) pool
    → (c : Conn) × (get_connection at_eof connected pool ≡ (some c, pool))
      × Any (λ d. (d ≡ c) × (d.in_use ≡ true)) pool
unfolding get_connection claim_healthy
get_connection-shared at_eof connected pool full busy healthy =
    let (c, found, held) = claim_healthy-busy at_eof pool busy healthy in
    (c, ground (arith, claim_idle-busy at_eof pool busy), held)

claim_first-dead :
    (test : Conn → Bool) (pool : Pool)
    → All (λ c. test c ≡ false) pool
    → claim_first test pool ≡ none
unfolding claim_first
claim_first-dead test [] h = refl
claim_first-dead test (c ∷ pool) h = ground (arith, claim_first-dead test pool h.1)

dead-idle :
    (at_eof : ℕ → Bool) (pool : Pool)
    → All (λ c. at_eof c.id ≡ true) pool
    → All (λ c. idle at_eof c ≡ false) pool × All (λ c. is_healthy at_eof c ≡ false) pool
dead-idle at_eof [] h = (tt, tt)
dead-idle at_eof (c ∷ pool) h =
    let rest = dead-idle at_eof pool h.1 in ((ground arith, rest.0), (ground arith, rest.1))

-- A full pool whose streams have all ended never recovers: no command opens a connection any more,
-- each one goes to the subprocess, and the pool stays as it is.
pub execute_command_tcp-dead_pool :
    {A : Type 0} (at_eof : ℕ → Bool) (connected : Option Conn) (now : ℕ) (reply : Reply A)
    (pool : Pool)
    → length pool ≡ max_pool_size
    → All (λ c. at_eof c.id ≡ true) pool
    → execute_command_tcp at_eof connected now reply pool ≡ (subprocess, pool)
unfolding execute_command_tcp get_connection claim_healthy
execute_command_tcp-dead_pool at_eof connected now reply pool full dead =
    let (no_idle, no_healthy) = dead-idle at_eof pool dead in
    ground (arith, claim_first-dead _ pool no_idle, claim_first-dead _ pool no_healthy)

-- ===== src/TcpPool/Run.antt =====
-- Commands of services/cpp_tcp_client.py that overlap: each takes a connection, waits for its
-- answer while others run, and finishes. The state is the pool and the numbers of the connections
-- that running commands hold, one entry for a command.
use social_graph_engine.Base.{
  ℕ, ◌≡◌, Bool, true, false, Option, none, some, List, [], ◌∷◌, ◌++◌, arith, length, All,
  Option-cases, Bool-cases, inl, inr, ltb, ◌==◌, ◌⊎◌, ◌||◌, if◌then◌else◌,
}
use social_graph_engine.TcpPool.{
  Conn, Pool, max_pool_size, claim_first, claim_healthy, open_new, get_connection,
  release_connection, remove, finish, Result, Response, ok, raised, idle, is_healthy,
}
use social_graph_engine.TcpPool.Bounds.{IsValid, IsFresh, get_connection-IsValid, finish-IsValid}

pub record System : Type 0 where
  pub pool : Pool
  pub leases : List ℕ

abbrev pub member : ℕ → List ℕ → Bool
member i [] = false
member i (j ∷ is) = i == j || member i is

-- One command fewer holds the connection.
unfoldable pub end_lease : ℕ → List ℕ → List ℕ
end_lease i [] = []
end_lease i (j ∷ is) = if i == j then is else j ∷ end_lease i is

abbrev pub hold : Option Conn → List ℕ → List ℕ
hold none leases = leases
hold (some c) leases = c.id ∷ leases

-- `begin`: a command runs up to `send_command`; where it gets no connection it goes to the
-- subprocess and holds nothing. `done`: a command that holds connection `i` gets its outcome.
pub data Step (A : Type 0) : System → System → Type 0 where
  begin :
      (s : System) (at_eof : ℕ → Bool) (connected : Option Conn)
      → IsFresh connected s.pool
      → Step A s (record {
        pool = (get_connection at_eof connected s.pool).1;
        leases = hold (get_connection at_eof connected s.pool).0 s.leases;
      })
  done :
      (s : System) (now i : ℕ) (r : Result (Response A))
      → member i s.leases ≡ true
      → Step A s (record { pool = (finish now i r s.pool).1; leases = end_lease i s.leases })

pub data Reach (A : Type 0) (s : System) : System → Type 0 where
  here : Reach A s s
  next : {t u : System} → Reach A s t → Step A t u → Reach A s u

-- A connection that is marked in use is held by a running command.
abbrev pub IsAccounted : List ℕ → Conn → Type 0
IsAccounted leases c = (c.in_use ≡ false) ⊎ (member c.id leases ≡ true)

pub record IsSound (s : System) : Type 0 where
  pub valid : IsValid s.pool
  pub accounted : All (IsAccounted s.leases) s.pool

IsAccounted-more :
    (i : ℕ) (leases : List ℕ) (pool : Pool)
    → All (IsAccounted leases) pool
    → All (IsAccounted (i ∷ leases)) pool
IsAccounted-more i leases [] h = tt
IsAccounted-more i leases (c ∷ pool) h = (ground arith, IsAccounted-more i leases pool h.1)

-- What a claim leaves, if it finds a connection.
abbrev Claimed : List ℕ → Option (Conn × Pool) → Type 0
Claimed leases none = Unit
Claimed leases (some (c, pool)) = All (IsAccounted (c.id ∷ leases)) pool

Claimed-cons :
    (leases : List ℕ) (d : Conn) (r : Option (Conn × Pool))
    → IsAccounted leases d
    → Claimed leases r
    → Claimed leases (elim r [ none ↦ none | some (found, rest) ↦ some (found, d ∷ rest) ])
Claimed-cons leases d none a h = tt
Claimed-cons leases d (some (c, pool)) a h = (ground arith, h)

claim_first-accounted :
    (test : Conn → Bool) (leases : List ℕ) (pool : Pool)
    → All (IsAccounted leases) pool
    → Claimed leases (claim_first test pool)
unfolding claim_first
claim_first-accounted test leases [] h = tt
claim_first-accounted test leases (d ∷ pool) h = elim (Bool-cases (test d)) [
  | inl hit ↦ rw hit (ground arith, IsAccounted-more d.id leases pool h.1)
  | inr miss ↦ rw miss (
      Claimed-cons leases d (claim_first test pool) h.0
        (claim_first-accounted test leases pool h.1))
]

append-IsAccounted :
    (leases : List ℕ) (pool : Pool) (c : Conn)
    → All (IsAccounted leases) pool
    → IsAccounted leases c
    → All (IsAccounted leases) (pool ++ c ∷ [])
append-IsAccounted leases [] c h a = (a, tt)
append-IsAccounted leases (d ∷ pool) c h a = (h.0, append-IsAccounted leases pool c h.1 a)

open_new-IsAccounted :
    (leases : List ℕ) (connected : Option Conn) (pool : Pool)
    → All (IsAccounted leases) pool
    → All (IsAccounted (hold (open_new connected pool).0 leases)) (open_new connected pool).1
unfolding open_new
open_new-IsAccounted leases none pool h = h
open_new-IsAccounted leases (some c) pool h =
    append-IsAccounted (c.id ∷ leases) pool (record c { in_use = true })
      (IsAccounted-more c.id leases pool h) (ground arith)

get_connection-IsAccounted :
    (leases : List ℕ) (at_eof : ℕ → Bool) (connected : Option Conn) (pool : Pool)
    → All (IsAccounted leases) pool
    → All
        (IsAccounted (hold (get_connection at_eof connected pool).0 leases))
        (get_connection at_eof connected pool).1
unfolding get_connection claim_healthy
get_connection-IsAccounted leases at_eof connected pool h =
    elim (Option-cases (claim_first (idle at_eof) pool)) [
      | inr (found, hit) ↦
          rw (hit, get_connection) (rw hit at (claim_first-accounted (idle at_eof) leases pool h))
      | inl miss ↦
          rw (miss, get_connection)
            (elim (Bool-cases (ltb (length pool) max_pool_size)) [
              | inl room ↦ rw room (open_new-IsAccounted leases connected pool h)
              | inr full ↦ rw full (elim (Option-cases (claim_first (is_healthy at_eof) pool)) [
                | inl none_healthy ↦ rw (none_healthy, claim_healthy) h
                | inr (found, hit) ↦
                    rw (hit, claim_healthy)
                      (rw hit at (claim_first-accounted (is_healthy at_eof) leases pool h))
              ])
            ])
    ]

member-end_lease_ne :
    (i j : ℕ) (leases : List ℕ)
    → (i == j) ≡ false
    → member j leases ≡ true
    → member j (end_lease i leases) ≡ true
unfolding end_lease
member-end_lease_ne i j [] ne h = h
member-end_lease_ne i j (k ∷ leases) ne h = ground (arith, member-end_lease_ne i j leases ne)

release_connection-IsAccounted :
    (now i : ℕ) (leases : List ℕ) (pool : Pool)
    → All (IsAccounted leases) pool
    → All (IsAccounted (end_lease i leases)) (release_connection now i pool)
unfolding release_connection
release_connection-IsAccounted now i leases [] h = tt
release_connection-IsAccounted now i leases (c ∷ pool) h = (
  ground (arith, member-end_lease_ne i c.id leases),
  release_connection-IsAccounted now i leases pool h.1,
)

remove-IsAccounted :
    (i : ℕ) (leases : List ℕ) (pool : Pool)
    → All (IsAccounted leases) pool
    → All (IsAccounted leases) (remove i pool)
unfolding remove
remove-IsAccounted i leases [] h = tt
remove-IsAccounted i leases (c ∷ pool) h = elim (Bool-cases (c.id == i)) [
  | inl e ↦ rw e h.1
  | inr e ↦ rw e (h.0, remove-IsAccounted i leases pool h.1)
]

finish-IsAccounted :
    {A : Type 0} (now i : ℕ) (r : Result (Response A)) (leases : List ℕ) (pool : Pool)
    → All (IsAccounted leases) pool
    → All (IsAccounted (end_lease i leases)) (finish now i r pool).1
unfolding finish
finish-IsAccounted now i (ok r) leases pool h = release_connection-IsAccounted now i leases pool h
finish-IsAccounted now i (raised e) leases pool h =
    release_connection-IsAccounted now i leases (remove i pool) (remove-IsAccounted i leases pool h)

Step-IsSound : {A : Type 0} {s t : System} → Step A s t → IsSound s → IsSound t
Step-IsSound (begin s at_eof connected new) v = record {
  valid = get_connection-IsValid at_eof connected s.pool new v.valid;
  accounted = get_connection-IsAccounted s.leases at_eof connected s.pool v.accounted;
}
Step-IsSound (done s now i r held) v = record {
  valid = finish-IsValid now i r s.pool v.valid;
  accounted = finish-IsAccounted now i r s.leases s.pool v.accounted;
}

-- In every interleaving of commands that starts from a sound state, the pool never exceeds four
-- connections, never holds one twice, and marks a connection in use only while a running command
-- holds it.
pub Reach-IsSound : {A : Type 0} {s t : System} → IsSound s → Reach A s t → IsSound t
Reach-IsSound v here = v
Reach-IsSound v (next r st) = Step-IsSound st (Reach-IsSound v r)

All-idle : (pool : Pool) → All (IsAccounted []) pool → All (λ c. c.in_use ≡ false) pool
All-idle [] h = tt
All-idle (c ∷ pool) h = (ground arith, All-idle pool h.1)

-- Once every command of an interleaving has finished, no connection is left marked in use.
pub Reach-quiescent :
    {A : Type 0} {s t : System}
    → IsSound s
    → Reach A s t
    → t.leases ≡ []
    → All (λ c. c.in_use ≡ false) t.pool
Reach-quiescent {t = t} v r e = All-idle t.pool (rw e at ((Reach-IsSound v r).accounted))

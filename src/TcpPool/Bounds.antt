-- ===== src/TcpPool/Bounds.antt =====
-- How large the pool of services/cpp_tcp_client.py can get, and that its connections stay distinct.
use social_graph_engine.Base.{
  ℕ, ◌≤◌, ◌<◌, ◌≡◌, refl, ◌≢◌, Bool, true, Option, none, some, List, [], ◌∷◌, ◌++◌, arith, length,
  All, length-append, Option-cases, Bool-cases, inl, inr, ltb, ◌==◌, ap,
}
use social_graph_engine.TcpPool.{
  Conn, Pool, max_pool_size, claim_first, claim_healthy, open_new, get_connection,
  release_connection, remove, finish, Result, Response, ok, raised, idle, is_healthy,
}

abbrev pub ids : Pool → List ℕ
ids [] = []
ids (c ∷ pool) = c.id ∷ ids pool

-- No object is in the pool twice.
abbrev pub IsDistinct : List ℕ → Type 0
IsDistinct [] = Unit
IsDistinct (i ∷ is) = All (λ j. i ≢ j) is × IsDistinct is

pub record IsValid (pool : Pool) : Type 0 where
  pub bounded : length pool ≤ max_pool_size
  pub distinct : IsDistinct (ids pool)

-- A claim changes the mark of one connection, and no identity.
pub claim_first-ids :
    (test : Conn → Bool) (pool : Pool) {c : Conn} {pool' : Pool}
    → claim_first test pool ≡ some (c, pool')
    → (ids pool' ≡ ids pool) × (length pool' ≡ length pool)
unfolding claim_first
claim_first-ids test [] h = cc
claim_first-ids test (d ∷ pool) h = elim (Option-cases (claim_first test pool)) [
  | inl miss ↦ ground arith
  | inr (found, hit) ↦ ground (arith, claim_first-ids test pool hit)
]

All-append {ℓ} : (P : ℕ → Type ℓ) (is : List ℕ) (j : ℕ) → All P is → P j → All P (is ++ j ∷ [])
All-append P [] j h p = (p, tt)
All-append P (i ∷ is) j h p = (h.0, All-append P is j h.1 p)

IsDistinct-append :
    (is : List ℕ) (j : ℕ) → IsDistinct is → All (λ i. i ≢ j) is → IsDistinct (is ++ j ∷ [])
IsDistinct-append [] j d new = (tt, tt)
IsDistinct-append (i ∷ is) j d new = (All-append _ is j d.0 new.0, IsDistinct-append is j d.1 new.1)

ids-append : (pool : Pool) (c : Conn) → ids (pool ++ c ∷ []) ≡ ids pool ++ c.id ∷ []
ids-append [] c = refl
ids-append (d ∷ pool) c = ap (◌∷◌ d.id) (ids-append pool c)

-- The object that `connect()` makes is a new one.
abbrev pub IsFresh : Option Conn → Pool → Type 0
IsFresh none pool = Unit
IsFresh (some c) pool = All (λ i. i ≢ c.id) (ids pool)

open_new-IsValid :
    (connected : Option Conn) (pool : Pool)
    → IsFresh connected pool
    → IsValid pool
    → length pool < max_pool_size
    → IsValid (open_new connected pool).1
unfolding open_new
open_new-IsValid none pool new v room = v
open_new-IsValid (some c) pool new v room = record {
  bounded = omega (arith, length-append pool (record c { in_use = true } ∷ []));
  distinct =
      rw (ids-append pool (record c { in_use = true }))
        (IsDistinct-append (ids pool) c.id v.distinct new);
}

same_ids-IsValid :
    {pool pool' : Pool}
    → (ids pool' ≡ ids pool) × (length pool' ≡ length pool)
    → IsValid pool
    → IsValid pool'
same_ids-IsValid e v = record { bounded = rw e.1 v.bounded; distinct = rw e.0 v.distinct }

claim_healthy-IsValid :
    (at_eof : ℕ → Bool) (pool : Pool) → IsValid pool → IsValid (claim_healthy at_eof pool).1
unfolding claim_healthy
claim_healthy-IsValid at_eof pool v = elim (Option-cases (claim_first (is_healthy at_eof) pool)) [
  | inl miss ↦ rw (miss, claim_healthy) v
  | inr (found, hit) ↦ rw (hit, claim_healthy) (same_ids-IsValid (claim_first-ids _ pool hit) v)
]

-- Whatever the network answers, getting a connection keeps the pool within its four places and
-- free of repetitions, if `connect()` makes a new object.
pub get_connection-IsValid :
    (at_eof : ℕ → Bool) (connected : Option Conn) (pool : Pool)
    → IsFresh connected pool
    → IsValid pool
    → IsValid (get_connection at_eof connected pool).1
unfolding get_connection
get_connection-IsValid at_eof connected pool new v =
    elim (Option-cases (claim_first (idle at_eof) pool)) [
      | inr (found, hit) ↦
          rw (hit, get_connection) (same_ids-IsValid (claim_first-ids _ pool hit) v)
      | inl miss ↦
          rw (miss, get_connection)
            (elim (Bool-cases (ltb (length pool) max_pool_size)) [
              | inl room ↦ rw room (open_new-IsValid connected pool new v (ground arith))
              | inr full ↦ rw full (claim_healthy-IsValid at_eof pool v)
            ])
    ]

release_connection-ids :
    (now i : ℕ) (pool : Pool)
    → (ids (release_connection now i pool) ≡ ids pool)
      × (length (release_connection now i pool) ≡ length pool)
unfolding release_connection
release_connection-ids now i [] = (refl, refl)
release_connection-ids now i (c ∷ pool) = ground (arith, release_connection-ids now i pool)

All-remove {ℓ} :
    (P : ℕ → Type ℓ) (i : ℕ) (pool : Pool) → All P (ids pool) → All P (ids (remove i pool))
unfolding remove
All-remove P i [] h = tt
All-remove P i (c ∷ pool) h = elim (Bool-cases (c.id == i)) [
  | inl e ↦ rw e h.1
  | inr e ↦ rw e (h.0, All-remove P i pool h.1)
]

remove-IsDistinct : (i : ℕ) (pool : Pool) → IsDistinct (ids pool) → IsDistinct (ids (remove i pool))
unfolding remove
remove-IsDistinct i [] d = tt
remove-IsDistinct i (c ∷ pool) d = elim (Bool-cases (c.id == i)) [
  | inl e ↦ rw e d.1
  | inr e ↦ rw e (All-remove _ i pool d.0, remove-IsDistinct i pool d.1)
]

length-remove : (i : ℕ) (pool : Pool) → length (remove i pool) ≤ length pool
unfolding remove
length-remove i [] = omega arith
length-remove i (c ∷ pool) = ground (arith, length-remove i pool)

pub remove-IsValid : (i : ℕ) (pool : Pool) → IsValid pool → IsValid (remove i pool)
remove-IsValid i pool v = record {
  bounded = omega (arith, length-remove i pool);
  distinct = remove-IsDistinct i pool v.distinct;
}

pub release_connection-IsValid :
    (now i : ℕ) (pool : Pool) → IsValid pool → IsValid (release_connection now i pool)
release_connection-IsValid now i pool v = same_ids-IsValid (release_connection-ids now i pool) v

pub finish-IsValid :
    {A : Type 0} (now i : ℕ) (r : Result (Response A)) (pool : Pool)
    → IsValid pool
    → IsValid (finish now i r pool).1
unfolding finish
finish-IsValid now i (ok r) pool v = release_connection-IsValid now i pool v
finish-IsValid now i (raised e) pool v =
    release_connection-IsValid now i (remove i pool) (remove-IsValid i pool v)

-- ===== src/RateLimit/Sorted.antt =====
-- The sorted sets of Redis as far as middleware/rate_limiter.py uses them.
use social_graph_engine.Base.{
  ℕ, ◌+◌, ◌<◌, ◌≡◌, refl, Option, none, some, List, [], ◌∷◌, ltb, leb, if◌then◌else◌, length, Text,
  text_eq, text_eq_refl, arith,
}
use social_graph_engine.Redis.{reply}
use social_graph_engine.RateLimit.{Entry, Pipeline, window_ms}

-- ZREMRANGEBYSCORE: the members whose score is above the bound stay.
abbrev pub cut : Option ℕ → List Entry → List Entry
cut none l = l
cut (some high) [] = []
cut (some high) (e ∷ l) = if leb e.score high then cut (some high) l else e ∷ cut (some high) l

-- ZADD: a member is there once, with its last score.
abbrev pub without : Text → List Entry → List Entry
without m [] = []
without m (e ∷ l) = if text_eq e.member m then without m l else e ∷ without m l

abbrev pub add : Text → ℕ → List Entry → List Entry
add m score l = record { member = m; score = score } ∷ without m l

-- `entries key s` is the sorted set under `key`. The time to live of a key is longer than the window,
-- so an expired key has only members that the next call would remove.
pub record IsSorted {S : Type 0} (P : Pipeline S) (entries : Text → S → List Entry) : Type 0 where
  pub execute-reply :
      (k : Text) (high : Option ℕ) (m : Text) (score ttl : ℕ) (s : S)
      → (P.execute k high m score ttl s).0 ≡ reply (length (add m score (cut high (entries k s))))
  pub execute-entries :
      (k : Text) (high : Option ℕ) (m : Text) (score ttl : ℕ) (s : S)
      → entries k (P.execute k high m score ttl s).1 ≡ add m score (cut high (entries k s))

pub cut-without :
    (high : ℕ) (m : Text) (l : List Entry)
    → cut (some high) (without m (cut (some high) l)) ≡ without m (cut (some high) l)
cut-without high m [] = refl
cut-without high m (e ∷ l) = ground (arith, cut-without high m l)

pub without-without : (m : Text) (l : List Entry) → without m (without m l) ≡ without m l
without-without m [] = refl
without-without m (e ∷ l) = ground (arith, without-without m l)

pub add-cut :
    (m : Text) (high now : ℕ) (l : List Entry)
    → high < now
    → add m now (cut (some high) (add m now (cut (some high) l))) ≡ add m now (cut (some high) l)
add-cut m high now l lt =
    ground (arith, cut-without high m l, without-without m (cut (some high) l), text_eq_refl m)

-- The times that are still in the window at `now`.
abbrev pub recent : ℕ → List ℕ → List ℕ
recent now [] = []
recent now (t ∷ ts) = if ltb now (t + window_ms) then t ∷ recent now ts else recent now ts

-- A list of times, each after all those behind it.
abbrev pub IsAfter : ℕ → List ℕ → Type 0
IsAfter now [] = Unit
IsAfter now (t ∷ ts) = (t < now) × IsAfter t ts

-- ===== src/Cache/Clock.antt =====
-- A server for the laws of Atomic.antt whose keys expire; the commands that the atomic lookup does not
-- send raise.
use social_graph_engine.Base.{
  ℕ, ◌+◌, ◌-◌, ◌<◌, ◌≤◌, ◌≡◌, refl, Bool, true, false, ltb, Option, none, some, Text, text_eq,
  text_eq_refl, codes, if◌then◌else◌, arith,
}
use social_graph_engine.Redis.{Reply, reply, failed}
use social_graph_engine.Cache.{Bytes, Server}
use social_graph_engine.Cache.Atomic.{HasLocks}

-- The time, and what each key was last set to, with the time at which it is gone.
pub record Clock : Type 0 where
  pub now : ℕ
  pub entries : Text → Option (Bytes × ℕ)

abbrev alive : ℕ → Option (Bytes × ℕ) → Option Bytes
alive now none = none
alive now (some (v, end)) = if ltb now end then some v else none

abbrev left_of : ℕ → Option (Bytes × ℕ) → Option ℕ
left_of now none = none
left_of now (some (v, end)) = some (end - now)

abbrev pub value : Text → Clock → Option Bytes
value k s = alive s.now (s.entries k)

abbrev pub left : Text → Clock → Option ℕ
left k s = left_of s.now (s.entries k)

abbrev pub passes : ℕ → Clock → Clock
passes d s = record s { now = s.now + d }

abbrev put : Text → Bytes → ℕ → Clock → Clock
put k v ttl s = record s {
  entries = λ j. if text_eq k j then some (v, s.now + ttl) else s.entries j;
}

abbrev put_new : Text → ℕ → Clock → Option Bytes → Reply Bool × Clock
put_new k ttl s none = (reply true, put k (codes "1") ttl s)
put_new k ttl s (some _) = (reply false, s)

abbrev pub server : Server Clock
server = record {
  get = λ k s. reply (value k s);
  set_ex = λ k ttl v s. (reply tt, put k v ttl s);
  set = λ k v s. (failed, s);
  set_nx = λ k ttl s. put_new k ttl s (value k s);
  delete = λ ks s. (failed, s);
  incr = λ k s. (failed, s);
  sadd = λ k ms s. (failed, s);
  expire = λ k ttl s. (failed, s);
  smembers = λ k s. failed;
  scan = λ cursor pattern s. failed;
}

put_new-missing :
    (k : Text) (ttl : ℕ) (s : Clock) (o : Option Bytes)
    → 0 < ttl
    → o ≡ none
    → ((put_new k ttl s o).0 ≡ reply true)
      × (value k (put_new k ttl s o).1 ≡ some (codes "1"))
      × (left k (put_new k ttl s o).1 ≡ some ttl)
put_new-missing k ttl s none pos e =
    (refl, ground (arith, text_eq_refl k), ground (arith, text_eq_refl k))
put_new-missing k ttl s (some w) pos e = cc

put_new-there :
    (k : Text) (ttl : ℕ) (s : Clock) (o : Option Bytes) (v : Bytes)
    → o ≡ some v
    → value k s ≡ some v
    → ((put_new k ttl s o).0 ≡ reply false)
      × (value k (put_new k ttl s o).1 ≡ some v)
      × (left k (put_new k ttl s o).1 ≡ left k s)
put_new-there k ttl s none v e there = cc
put_new-there k ttl s (some w) v e there = (refl, there, refl)

put_new-other :
    (k : Text) (ttl : ℕ) (s : Clock) (o : Option Bytes) (j : Text)
    → text_eq k j ≡ false
    → value j (put_new k ttl s o).1 ≡ value j s
put_new-other k ttl s none j ne = rw ne refl
put_new-other k ttl s (some _) j ne = refl

alive-missing : (o : Option (Bytes × ℕ)) (d now : ℕ) → alive now o ≡ none → alive (now + d) o ≡ none
alive-missing none d now e = refl
alive-missing (some (v, end)) d now e = ground arith

alive-held :
    (o : Option (Bytes × ℕ)) (d n now : ℕ) (v : Bytes)
    → alive now o ≡ some v
    → left_of now o ≡ some n
    → d < n
    → (alive (now + d) o ≡ some v) × (left_of (now + d) o ≡ some (n - d))
alive-held none d n now v e l below = cc
alive-held (some (w, end)) d n now v e l below = (ground arith, ground arith)

alive-expired :
    (o : Option (Bytes × ℕ)) (d n now : ℕ)
    → left_of now o ≡ some n
    → n ≤ d
    → alive (now + d) o ≡ none
alive-expired none d n now l over = refl
alive-expired (some (w, end)) d n now l over = ground arith

pub server-HasLocks : HasLocks server value left passes
server-HasLocks = record {
  get-reply = λ k s. refl;
  set_nx-missing = λ k ttl s pos e. put_new-missing k ttl s (value k s) pos e;
  set_nx-there = λ k ttl v s e. put_new-there k ttl s (value k s) v e e;
  set_nx-other = λ k ttl j s ne. put_new-other k ttl s (value k s) j ne;
  passes-missing = λ k d s e. alive-missing (s.entries k) d s.now e;
  passes-held = λ k d n v s e l below. alive-held (s.entries k) d n s.now v e l below;
  passes-expired = λ k d n s l over. alive-expired (s.entries k) d n s.now l over;
}

-- ===== src/Cache/Laws.antt =====
-- What the documentation of Redis says of the commands, and of JSON what Python's says.
use social_graph_engine.Base.{ℕ, ◌≡◌, ◌⊎◌, true, false, Option, none, some, List, Text, text_eq}
use social_graph_engine.Redis.{reply, failed}
use social_graph_engine.Redis.Laws.{listed}
use social_graph_engine.Cache.{Bytes, Server, Json}

-- `value k s` is the string under key `k`. Any command may fail, and one that fails may have been
-- carried out: a command changes no key but those it names, and SET leaves the old or the new value.
pub record IsServer {S : Type 0} (R : Server S) (value : Text → S → Option Bytes) : Type 0 where
  pub get-value : (k : Text) (s : S) → (R.get k s ≡ failed) ⊎ (R.get k s ≡ reply (value k s))
  pub set_ex-value :
      (k j : Text) (ttl : ℕ) (v : Bytes) (s : S)
      → (value j (R.set_ex k ttl v s).1 ≡ value j s)
        ⊎ ((text_eq k j ≡ true) × (value j (R.set_ex k ttl v s).1 ≡ some v))
  pub set_nx-other :
      (k : Text) (ttl : ℕ) (j : Text) (s : S)
      → text_eq k j ≡ false
      → value j (R.set_nx k ttl s).1 ≡ value j s
  pub incr-other : (k j : Text) (s : S) → text_eq k j ≡ false → value j (R.incr k s).1 ≡ value j s
  pub sadd-other :
      (k : Text) (ms : List Text) (j : Text) (s : S)
      → text_eq k j ≡ false
      → value j (R.sadd k ms s).1 ≡ value j s
  pub expire-other :
      (k : Text) (ttl : ℕ) (j : Text) (s : S)
      → text_eq k j ≡ false
      → value j (R.expire k ttl s).1 ≡ value j s
  pub delete-other :
      (ks : List Text) (j : Text) (s : S)
      → listed j ks ≡ false
      → value j (R.delete ks s).1 ≡ value j s

-- A server that answers the commands the next theorems need.
pub record IsAnswering {S : Type 0} (R : Server S) (value : Text → S → Option Bytes) : Type 0 where
  pub get-reply : (k : Text) (s : S) → R.get k s ≡ reply (value k s)
  pub delete-reply : (ks : List Text) (s : S) → (n : ℕ) × ((R.delete ks s).0 ≡ reply n)
  pub delete-value :
      (ks : List Text) (j : Text) (s : S) → listed j ks ≡ true → value j (R.delete ks s).1 ≡ none
  pub delete-missing :
      (ks : List Text) (j : Text) (s : S) → value j s ≡ none → value j (R.delete ks s).1 ≡ none

-- `json.loads` undoes `json.dumps`.
abbrev pub IsJson : {D : Type 0} → Json D → Type 0
IsJson {D} J = (d : D) → J.loads (J.dumps d) ≡ some d

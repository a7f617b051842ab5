-- ===== src/Cache/Scan.antt =====
-- The tools of middleware_python/db/redis.py on several keys: the pipelines, and the keys of a domain.
-- A pipeline sends its commands in one MULTI: they are carried out one after the other, and its
-- `execute` raises if one of them failed. The SCAN loops take fuel; they are `none` without.
use social_graph_engine.Base.{
  ℕ, zero, suc, ◌+◌, ◌≡◌, refl, ap, Bool, true, false, ◌&&◌, Option, none, some, List, [], ◌∷◌,
  ◌++◌, length, length-append, Text, arith,
}
use social_graph_engine.Redis.{Reply, reply, failed}
use social_graph_engine.Cache.{Bytes, Server, Codec}
use social_graph_engine.Cache.Stored.{is_reply}
use social_graph_engine.Cache.Invalidate.{domain_pattern}

-- `[None] * len(keys)`
unfoldable pub all_none : List Text → List (Option Text)
all_none [] = []
all_none (key ∷ keys) = none ∷ all_none keys

-- A value behind the values of the other keys; `none` once a command of the pipeline has raised.
unfoldable pub add_value :
    Option (Option Text) → Option (List (Option Text)) → Option (List (Option Text))
add_value none values = none
add_value (some v) none = none
add_value (some v) (some values) = some (v ∷ values)

unfoldable pub or_else : {A : Type 0} → Option A → A → A
or_else none a = a
or_else (some b) a = b

module _ {S : Type 0} (C : Codec) (R : Server S) where
  unfoldable pub setex_all : List (Text × Text × ℕ) → S → Bool × S
  setex_all [] s = (true, s)
  setex_all ((key, value, ttl) ∷ mapping) s =
      let (answer, s₁) = R.set_ex key ttl (C.encode value) s in
      let (rest, s₂) = setex_all mapping s₁ in (is_reply answer && rest, s₂)

  -- `pipeline_setex_multi`
  unfoldable pub pipeline_setex_multi : Bool → List (Text × Text × ℕ) → S → Bool × S
  pipeline_setex_multi false mapping s = (false, s)
  pipeline_setex_multi true mapping s = setex_all mapping s

  -- A value that the client cannot decode fails the pipeline.
  unfoldable pub value_of : Reply (Option Bytes) → Option (Option Text)
  value_of failed = none
  value_of (reply none) = some none
  value_of (reply (some b)) = decoded_value (C.decode b)
    where
      decoded_value : Option Text → Option (Option Text)
      decoded_value none = none
      decoded_value (some t) = some (some t)

  unfoldable pub get_all : List Text → S → Option (List (Option Text))
  get_all [] s = some []
  get_all (key ∷ keys) s = add_value (value_of (R.get key s)) (get_all keys s)

  -- `pipeline_get_multi`
  unfoldable pub pipeline_get_multi : Bool → List Text → S → List (Option Text)
  pipeline_get_multi false keys s = all_none keys
  pipeline_get_multi true keys s = or_else (get_all keys s) (all_none keys)

unfoldable pub plus : Reply ℕ → Option ℕ → Option ℕ
plus failed total = none
plus (reply n) none = none
plus (reply n) (some total) = some (n + total)

module _ {S : Type 0} (R : Server S) where
  unfoldable pub delete_all : List Text → S → Option ℕ × S
  delete_all [] s = (some 0, s)
  delete_all (key ∷ keys) s =
      let (answer, s₁) = R.delete (key ∷ []) s in
      let (rest, s₂) = delete_all keys s₁ in (plus answer rest, s₂)

  -- `pipeline_delete_multi`
  unfoldable pub pipeline_delete_multi : Bool → List Text → S → ℕ × S
  pipeline_delete_multi available [] s = (0, s)
  pipeline_delete_multi false (key ∷ keys) s = (0, s)
  pipeline_delete_multi true (key ∷ keys) s =
      let (n, s') = delete_all (key ∷ keys) s in (or_else n 0, s')

  -- The loops over SCAN; an exception ends them with no keys and with 0.
  unfoldable pub extend :
      (ℕ → List Text → Option (List Text)) → List Text → Reply (ℕ × List Text) → Option (List Text)
  extend go_on keys failed = some []
  extend go_on keys (reply (zero, batch)) = some (keys ++ batch)
  extend go_on keys (reply (suc cursor, batch)) = go_on (suc cursor) (keys ++ batch)

  unfoldable pub scan_keys : Text → S → ℕ → ℕ → List Text → Option (List Text)
  scan_keys pattern s zero cursor keys = none
  scan_keys pattern s (suc fuel) cursor keys =
      extend (scan_keys pattern s fuel) keys (R.scan cursor pattern s)

  unfoldable pub add_batch : (ℕ → ℕ → Option ℕ) → ℕ → Reply (ℕ × List Text) → Option ℕ
  add_batch go_on count failed = some 0
  add_batch go_on count (reply (zero, batch)) = some (count + length batch)
  add_batch go_on count (reply (suc cursor, batch)) = go_on (suc cursor) (count + length batch)

  unfoldable pub count_keys : Text → S → ℕ → ℕ → ℕ → Option ℕ
  count_keys pattern s zero cursor count = none
  count_keys pattern s (suc fuel) cursor count =
      add_batch (count_keys pattern s fuel) count (R.scan cursor pattern s)

  -- `scan_keys_by_domain`
  unfoldable pub scan_keys_by_domain : ℕ → Bool → Text → Text → S → Option (List Text)
  scan_keys_by_domain fuel false domain namespace s = some []
  scan_keys_by_domain fuel true domain namespace s =
      scan_keys (domain_pattern namespace domain) s fuel 0 []

  -- `count_keys_by_domain`
  unfoldable pub count_keys_by_domain : ℕ → Bool → Text → Text → S → Option ℕ
  count_keys_by_domain fuel false domain namespace s = some 0
  count_keys_by_domain fuel true domain namespace s =
      count_keys (domain_pattern namespace domain) s fuel 0 0

abbrev pub size : Option (List Text) → Option ℕ
size none = none
size (some keys) = some (length keys)

module _ {S : Type 0} (R : Server S) (pattern : Text) (s : S) where
  add_batch-size :
      (go_on_n : ℕ → ℕ → Option ℕ) (go_on : ℕ → List Text → Option (List Text)) (keys : List Text)
      (n : ℕ) (answer : Reply (ℕ × List Text))
      → n ≡ length keys
      → ((c : ℕ) (ks : List Text) (m : ℕ) → m ≡ length ks → go_on_n c m ≡ size (go_on c ks))
      → add_batch R go_on_n n answer ≡ size (extend R go_on keys answer)
  unfolding add_batch extend
  add_batch-size go_on_n go_on keys n failed same ih = refl
  add_batch-size go_on_n go_on keys n (reply (zero, batch)) same ih =
      ap some (omega (arith, length-append {0} keys batch))
  add_batch-size go_on_n go_on keys n (reply (suc c, batch)) same ih =
      ih (suc c) (keys ++ batch) (n + length batch) (omega (arith, length-append {0} keys batch))

  count_keys_lem :
      (fuel cursor : ℕ) (keys : List Text) (n : ℕ)
      → n ≡ length keys
      → count_keys R pattern s fuel cursor n ≡ size (scan_keys R pattern s fuel cursor keys)
  unfolding count_keys scan_keys
  count_keys_lem zero cursor keys n same = refl
  count_keys_lem (suc fuel) cursor keys n same =
      add_batch-size (count_keys R pattern s fuel) (scan_keys R pattern s fuel) keys n
        (R.scan cursor pattern s) same (λ c ks m e. count_keys_lem fuel c ks m e)

-- Counting the keys of a domain gives the number of keys that listing them gives, whatever SCAN
-- answers, exceptions included.
pub count_keys_by_domain_lem :
    {S : Type 0}
    → (R : Server S) (fuel : ℕ) (available : Bool) (domain namespace : Text) (s : S)
    → count_keys_by_domain R fuel available domain namespace s
      ≡ size (scan_keys_by_domain R fuel available domain namespace s)
unfolding count_keys_by_domain scan_keys_by_domain
count_keys_by_domain_lem R fuel false domain namespace s = refl
count_keys_by_domain_lem R fuel true domain namespace s =
    count_keys_lem R (domain_pattern namespace domain) s fuel 0 [] 0 refl

length-all_none : (keys : List Text) → length (all_none keys) ≡ length keys
unfolding all_none
length-all_none [] = refl
length-all_none (key ∷ keys) = ap suc (length-all_none keys)

-- The number of values, where a pipeline gives some.
abbrev IsLong : ℕ → Option (List (Option Text)) → Type 0
IsLong n none = Unit
IsLong n (some values) = length values ≡ n

add_value-IsLong :
    (n : ℕ) (v : Option (Option Text)) (o : Option (List (Option Text)))
    → IsLong n o
    → IsLong (suc n) (add_value v o)
unfolding add_value
add_value-IsLong n none o long = tt
add_value-IsLong n (some v) none long = tt
add_value-IsLong n (some v) (some values) long = ap suc long

or_else-length :
    (n : ℕ) (o : Option (List (Option Text))) (a : List (Option Text))
    → IsLong n o
    → length a ≡ n
    → length (or_else o a) ≡ n
unfolding or_else
or_else-length n none a long same = same
or_else-length n (some values) a long same = long

module _ {S : Type 0} (C : Codec) (R : Server S) where
  get_all-IsLong : (keys : List Text) (s : S) → IsLong (length keys) (get_all C R keys s)
  unfolding get_all
  get_all-IsLong [] s = refl
  get_all-IsLong (key ∷ keys) s = add_value-IsLong (length keys) _ _ (get_all-IsLong keys s)

  -- The answer has a place for every key, with and without a client, and if the pipeline raises.
  pub length-pipeline_get_multi :
      (available : Bool) (keys : List Text) (s : S)
      → length (pipeline_get_multi C R available keys s) ≡ length keys
  unfolding pipeline_get_multi
  length-pipeline_get_multi false keys s = length-all_none keys
  length-pipeline_get_multi true keys s =
      or_else-length (length keys) (get_all C R keys s) (all_none keys) (get_all-IsLong keys s)
        (length-all_none keys)

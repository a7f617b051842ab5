-- ===== src/Redis/Memory.antt =====
-- A Redis server in memory that meets `IsReliable`: its state is what every key will read as at every
-- time to come. The number `n` is written as the one code point `n`.
use social_graph_engine.Base.{
  ℕ, ◌+◌, ◌≡◌, refl, ◌≢◌, false, Option, none, some, [], ◌∷◌, Text, text_eq, text_eq_refl, ltb,
  if◌then◌else◌,
}
use social_graph_engine.Redis.{Redis, reply, failed}
use social_graph_engine.Redis.Laws.{Numerals, IsReliable, stored, listed}

abbrev pub Timeline : Type 0
Timeline = ℕ → Text → Option Text

abbrev read_one : Text → Option ℕ
read_one [] = none
read_one (n ∷ []) = some n
read_one (n ∷ _ ∷ _) = none

pub one_digit : (n : ℕ) → ◌≢◌ {A = Text} (n ∷ []) []
one_digit n = λ e. cc

abbrev pub numerals : Numerals
numerals = record {
  show = λ n. n ∷ [];
  read = read_one;
  read-show = λ n. refl;
  show-ne-nil = one_digit;
}

abbrev pub value : ℕ → Text → Timeline → Option Text
value t k s = s t k

-- A key that INCR finds keeps its time to live.
abbrev next_text : ℕ → Option Text → Option Text → Option Text
next_text n none later = some (n ∷ [])
next_text n (some _) none = none
next_text n (some _) (some _) = some (n ∷ [])

abbrev counted : Option Text → ℕ
counted o = stored numerals o + 1

abbrev pub memory : Redis Timeline
memory = record {
  get = λ now k s. reply (s now k);
  exists = λ now k s. reply (elim (s now k) [ none ↦ 0 | some _ ↦ 1 ]);
  setex = λ now k ttl v s. (
    reply tt,
    λ t j. if text_eq k j then (if ltb t (now + ttl) then some v else none) else s t j,
  );
  incr = λ now k s. (
    reply (counted (s now k)),
    λ t j. if text_eq k j then next_text (counted (s now k)) (s now k) (s t k) else s t j,
  );
  expire = λ now k ttl s. (
    reply tt,
    λ t j. if text_eq k j then (if ltb t (now + ttl) then s now j else none) else s t j,
  );
  delete = λ now ks s. (reply 0, λ t j. if listed j ks then none else s t j);
}

incr_now :
    (now : ℕ) (k : Text) (s : Timeline)
    → value now k (memory.incr now k s).1 ≡ some (counted (s now k) ∷ [])
incr_now now k s = rw (text_eq_refl k) (next_now (s now k))
  where
    next_now : (o : Option Text) → next_text (counted o) o o ≡ some (counted o ∷ [])
    next_now none = refl
    next_now (some _) = refl

incr_other :
    (now t : ℕ) (k j : Text) (s : Timeline)
    → text_eq k j ≡ false
    → value t j (memory.incr now k s).1 ≡ value t j s
incr_other now t k j s ne = rw ne

pub memory-IsReliable : IsReliable numerals memory value
memory-IsReliable = record {
  get-value = λ now k s. refl;
  exists-value = λ now k s. refl;
  setex-reply = λ now k ttl v s pos. refl;
  setex-value = λ now t k j ttl v s pos le. refl;
  incr-reply = λ now k s. refl;
  incr-value = incr_now;
  incr-other = incr_other;
  expire-reply = λ now k ttl s. refl;
  expire-value = λ now t k j ttl s le. refl;
  delete-reply = λ now ks s. (0, refl);
  delete-value = λ now t ks j s. refl;
}

-- A server that refuses every command.
abbrev pub broken : Redis Timeline
broken = record {
  get = λ now k s. failed;
  exists = λ now k s. failed;
  setex = λ now k ttl v s. (failed, s);
  incr = λ now k s. (failed, s);
  expire = λ now k ttl s. (failed, s);
  delete = λ now ks s. (failed, s);
}

-- ===== src/Cache/Memory.antt =====
-- A server in memory that never fails, with the laws of Laws.antt, Tags.antt and Versions.antt.
-- Its SCAN gives two keys in two batches.
use social_graph_engine.Base.{
  ℕ, ◌+◌, ◌≡◌, ◌⊎◌, refl, ap, ◌∙◌, Bool, true, false, ltb, Option, none, some, List, [], ◌∷◌, ◌++◌,
  Text, text_eq, text_eq_refl, codes, if◌then◌else◌, Bool-cases, inl, inr, arith,
}
use social_graph_engine.Redis.{Reply, reply}
use social_graph_engine.Redis.Laws.{listed}
use social_graph_engine.Cache.{Bytes, Server}
use social_graph_engine.Cache.Laws.{IsServer, IsAnswering}
use social_graph_engine.Cache.Tags.{HasSets}
use social_graph_engine.Cache.Versions.{IsCounting}
use social_graph_engine.Cache.Values.{
  codec, encode_text, decode_bytes, decode-encode, numerals, read_digit, read-show,
}

pub record Store : Type 0 where
  pub strings : Text → Option Bytes
  pub sets : Text → List Text

abbrev pub value : Text → Store → Option Bytes
value k s = s.strings k

abbrev pub members : Text → Store → List Text
members k s = s.sets k

abbrev pub put : Text → Bytes → Store → Store
put k v s = record s { strings = λ j. if text_eq k j then some v else s.strings j }

abbrev or_zero : Option ℕ → ℕ
or_zero none = 0
or_zero (some n) = n

abbrev digit : Option Text → ℕ
digit none = 0
digit (some t) = or_zero (read_digit t)

abbrev number : Option Bytes → ℕ
number none = 0
number (some b) = digit (decode_bytes b)

abbrev put_new : Text → Option Bytes → Store → Reply Bool × Store
put_new k none s = (reply true, put k (codes "1") s)
put_new k (some _) s = (reply false, s)

abbrev pub two_keys : ℕ → ℕ × List Text
two_keys cursor =
    if ltb cursor 1 then (1, codes "sgp:graph:a" ∷ []) else (0, codes "sgp:graph:b" ∷ [])

abbrev pub server : Server Store
server = record {
  get = λ k s. reply (s.strings k);
  set_ex = λ k ttl v s. (reply tt, put k v s);
  set = λ k v s. (reply tt, put k v s);
  set_nx = λ k ttl s. put_new k (s.strings k) s;
  delete = λ ks s. (reply 0, record s { strings = λ j. if listed j ks then none else s.strings j });
  incr = λ k s. (
    reply (number (s.strings k) + 1),
    put k (encode_text ((48 + (number (s.strings k) + 1)) ∷ [])) s,
  );
  sadd = λ k ms s.
      (reply tt, record s { sets = λ j. if text_eq k j then ms ++ s.sets k else s.sets j });
  expire = λ k ttl s. (reply tt, s);
  smembers = λ k s. reply (s.sets k);
  scan = λ cursor pattern s. reply (two_keys cursor);
}

put-other :
    (k : Text) (v : Bytes) (j : Text) (s : Store)
    → text_eq k j ≡ false
    → value j (put k v s) ≡ value j s
put-other k v j s ne = rw ne refl

put_new-other :
    (k : Text) (o : Option Bytes) (j : Text) (s : Store)
    → text_eq k j ≡ false
    → value j (put_new k o s).1 ≡ value j s
put_new-other k none j s ne = rw ne refl
put_new-other k (some _) j s ne = refl

set_ex-value :
    (k j : Text) (v : Bytes) (s : Store)
    → (value j (put k v s) ≡ value j s) ⊎ ((text_eq k j ≡ true) × (value j (put k v s) ≡ some v))
set_ex-value k j v s = elim (Bool-cases (text_eq k j)) [
  | inl same ↦ inr (same, ap (λ b. if b then some v else s.strings j) same)
  | inr other ↦ inl (put-other k v j s other)
]

pub server-IsServer : IsServer server value
server-IsServer = record {
  get-value = λ k s. inr refl;
  set_ex-value = λ k j ttl v s. set_ex-value k j v s;
  set_nx-other = λ k ttl j s ne. put_new-other k (s.strings k) j s ne;
  incr-other = λ k j s ne. put-other k _ j s ne;
  sadd-other = λ k ms j s ne. refl;
  expire-other = λ k ttl j s ne. refl;
  delete-other = λ ks j s ne. ap (λ b. if b then none else s.strings j) ne;
}

still_missing : (b : Bool) (o : Option Bytes) → o ≡ none → (if b then none else o) ≡ none
still_missing true o e = refl
still_missing false o e = e

pub server-IsAnswering : IsAnswering server value
server-IsAnswering = record {
  get-reply = λ k s. refl;
  delete-reply = λ ks s. (0, refl);
  delete-value = λ ks j s there. ap (λ b. if b then none else s.strings j) there;
  delete-missing = λ ks j s missing. still_missing (listed j ks) (s.strings j) missing;
}

put-value : (k : Text) (v : Bytes) (s : Store) → value k (put k v s) ≡ some v
put-value k v s = ap (λ b. if b then some v else s.strings k) (text_eq_refl k)

number-value : (n : ℕ) (o : Option Bytes) → o ≡ some (encode_text ((48 + n) ∷ [])) → number o ≡ n
number-value n o e = ap number e ∙ at_digit
  where
    at_digit : number (some (encode_text ((48 + n) ∷ []))) ≡ n
    at_digit = ap digit (decode-encode ((48 + n) ∷ [])) ∙ ap or_zero (read-show n)

pub server-IsCounting : IsCounting codec numerals server value
server-IsCounting = record {
  get-reply = λ k s. refl;
  set-value = put-value;
  incr-reply = λ k n s e. ap (λ (m : ℕ). reply (m + 1)) (number-value n (s.strings k) e);
  incr-value = λ k n s e.
      put-value k (encode_text ((48 + (number (s.strings k) + 1)) ∷ [])) s
      ∙ ap (λ (m : ℕ). some (encode_text ((48 + (m + 1)) ∷ []))) (number-value n (s.strings k) e);
}

listed-append : (j : Text) (xs ys : List Text) → listed j xs ≡ true → listed j (xs ++ ys) ≡ true
listed-append j [] ys there = cc
listed-append j (x ∷ xs) ys there = ground (arith, listed-append j xs ys)

pub server-HasSets : HasSets server members
server-HasSets = record {
  smembers-reply = λ k s. refl;
  sadd-members = λ k ms j s ok there.
      ap (λ b. listed j (if b then ms ++ s.sets k else s.sets k)) (text_eq_refl k)
      ∙ listed-append j ms (s.sets k) there;
  expire-members = λ k ttl s. refl;
}

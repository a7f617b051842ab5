-- ===== src/Cache/Values.antt =====
-- A codec, numerals and a JSON with the laws of Laws.antt, Stored.antt and Versions.antt.
use mathlib.Core.Option
use social_graph_engine.Base.{
  ℕ, ◌+◌, ◌-◌, ◌≡◌, ◌≢◌, refl, ap, true, false, ltb, Option, none, some, [], ◌∷◌, drop, Text,
  if◌then◌else◌, Bool-cases, inl, inr, arith,
}
use social_graph_engine.Redis.Laws.{Numerals}
use social_graph_engine.Cache.{Bytes, Codec, Json}
use social_graph_engine.Cache.Laws.{IsJson}
use social_graph_engine.Cache.Keys.{starts_with}
use social_graph_engine.Cache.Stored.{IsCodec}

-- A character from 128 on is written as one number from 256 on.
abbrev pub encode_text : Text → Bytes
encode_text [] = []
encode_text (c ∷ t) = (if ltb c 128 then c else c + 128) ∷ encode_text t

abbrev pub decode_bytes : Bytes → Option Text
decode_bytes [] = some []
decode_bytes (b ∷ bs) =
    let rest = decode_bytes bs in
    if ltb b 128
    then Option.map (λ t. b ∷ t) rest
    else (if ltb b 256 then none else Option.map (λ t. (b - 128) ∷ t) rest)

pub decode-encode : (t : Text) → decode_bytes (encode_text t) ≡ some t
decode-encode [] = refl
decode-encode (c ∷ t) = elim (Bool-cases (ltb c 128)) [
  | inl ascii ↦ rw (ascii, ascii, decode-encode t) refl
  | inr wide ↦
      let not_ascii : ltb (c + 128) 128 ≡ false = ground arith in
      let not_byte : ltb (c + 128) 256 ≡ false = ground arith in
      let back : c + 128 - 128 ≡ c = omega arith in
      rw (wide, not_ascii, not_byte, decode-encode t, back) refl
]

abbrev pub codec : Codec
codec = record {
  encode = encode_text;
  decode = decode_bytes;
  compress = λ b. 120 ∷ 156 ∷ b;
  decompress = λ b. if starts_with b (120 ∷ 156 ∷ []) then some (drop 2 b) else none;
}

undone :
    (b : Bytes) → (if starts_with (120 ∷ 156 ∷ b) (120 ∷ 156 ∷ []) then some b else none) ≡ some b
unfolding starts_with
undone [] = refl
undone (_ ∷ _) = refl

pub codec-IsCodec : IsCodec codec
codec-IsCodec = record {
  decode-encode = decode-encode;
  decompress-compress = undone;
  compress-head = λ b. (b, refl);
  decode-stray = λ rest. refl;
}

-- A number as the one character `48 + n`.
abbrev pub read_digit : Text → Option ℕ
read_digit [] = none
read_digit (c ∷ []) = some (c - 48)
read_digit (_ ∷ _ ∷ _) = none

pub read-show : (n : ℕ) → read_digit ((48 + n) ∷ []) ≡ some n
read-show n = ap some (omega arith)

pub show-ne-nil : (n : ℕ) → ◌≢◌ {A = Text} ((48 + n) ∷ []) []
show-ne-nil n = λ e. cc

abbrev pub numerals : Numerals
numerals = record {
  show = λ n. (48 + n) ∷ [];
  read = read_digit;
  read-show = read-show;
  show-ne-nil = show-ne-nil;
}

abbrev pub json : Json ℕ
json = record { dumps = λ n. (48 + n) ∷ []; loads = read_digit; is_success = λ n. true }

pub json-IsJson : IsJson json
json-IsJson = read-show

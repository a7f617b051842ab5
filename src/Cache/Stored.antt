-- ===== src/Cache/Stored.antt =====
-- Values with compression: `set_compressed` and `get_compressed` of middleware_python/db/redis.py, on
-- the client that `get_redis_async` makes.
use social_graph_engine.Base.{
  ℕ, ◌≡◌, refl, Bool, true, false, ltb, Option, none, some, ◌∷◌, ◌++◌, length, drop, Text, codes,
  if◌then◌else◌, Bool-cases, inl, inr,
}
use social_graph_engine.Redis.{Reply, reply, failed}
use social_graph_engine.Cache.{Bytes, Server, Codec}
use social_graph_engine.Cache.Keys.{starts_with}

-- The option of the client.
unfoldable pub decode_responses : Bool
decode_responses = true

-- What a GET gives in the client: bytes, or a text where the client decodes the answers.
pub data Value : Type 0 where
  bytes : Bytes → Value
  text : Text → Value

-- `_COMPRESS_PREFIX`
unfoldable pub compress_prefix : Bytes
compress_prefix = codes "ZLIB:"

unfoldable pub decoded : Option Text → Reply (Option Value)
decoded none = failed
decoded (some t) = reply (some (text t))

module _ (C : Codec) where
  unfoldable pub receive : Bool → Reply (Option Bytes) → Reply (Option Value)
  receive decodes failed = failed
  receive decodes (reply none) = reply none
  receive true (reply (some b)) = decoded (C.decode b)
  receive false (reply (some b)) = reply (some (bytes b))

  unfoldable pub inflate : Option Bytes → Option Text
  inflate none = none
  inflate (some b) = C.decode b

  -- The text of a value; `none` with no value, and where an exception is logged.
  unfoldable pub text_of : Reply (Option Value) → Option Text
  text_of failed = none
  text_of (reply none) = none
  text_of (reply (some (text t))) = some t
  text_of (reply (some (bytes b))) =
      if starts_with b compress_prefix
      then inflate (C.decompress (drop (length compress_prefix) b))
      else C.decode b

  -- What `get_compressed` makes of the answer to its GET.
  unfoldable pub unpack : Reply (Option Bytes) → Option Text
  unpack answer = text_of (receive decode_responses answer)

  -- What `set_compressed` stores.
  unfoldable pub pack : ℕ → Text → Bytes
  pack threshold value =
      if ltb threshold (length (C.encode value))
      then compress_prefix ++ C.compress (C.encode value)
      else C.encode value

unfoldable pub is_reply : {A : Type 0} → Reply A → Bool
is_reply failed = false
is_reply (reply _) = true

module _ {S : Type 0} (C : Codec) (R : Server S) where
  unfoldable pub get_compressed : Text → S → Option Text
  get_compressed key s = unpack C (R.get key s)

  unfoldable pub set_compressed : ℕ → Text → Text → ℕ → S → Bool × S
  set_compressed threshold key value ttl s =
      let (answer, s') = R.set_ex key ttl (pack C threshold value) s in (is_reply answer, s')

-- What the documentation of Python and zlib says: decoding undoes encoding, inflating undoes
-- deflating, a zlib stream of level 6 starts with the bytes 120 and 156, and 156 can start no
-- character of UTF-8, so that a text of ASCII characters with 156 behind it does not decode.
pub record IsCodec (C : Codec) : Type 0 where
  pub decode-encode : (t : Text) → C.decode (C.encode t) ≡ some t
  pub decompress-compress : (b : Bytes) → C.decompress (C.compress b) ≡ some b
  pub compress-head : (b : Bytes) → (rest : Bytes) × (C.compress b ≡ 120 ∷ 156 ∷ rest)
  pub decode-stray : (rest : Bytes) → C.decode (codes "ZLIB:x" ++ (156 ∷ rest)) ≡ none

-- A stored value that is at most `threshold` bytes long is read back; a longer one is never read
-- again, since the client, which decodes the answers, raises on the compressed bytes.
pub unpack-pack :
    (C : Codec) (threshold : ℕ) (value : Text)
    → IsCodec C
    → unpack C (reply (some (pack C threshold value)))
      ≡ (if ltb threshold (length (C.encode value)) then none else some value)
unfolding unpack pack receive decode_responses text_of decoded compress_prefix
unpack-pack C threshold value law = elim (Bool-cases (ltb threshold (length (C.encode value)))) [
  | inl long ↦
      let (rest, head) = law.compress-head (C.encode value) in
      rw (long, head, law.decode-stray rest) refl
  | inr short ↦ rw (short, law.decode-encode value) refl
]

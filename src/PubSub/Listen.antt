-- ===== src/PubSub/Listen.antt =====
-- `_listen_loop` of services/pubsub.py: the waits between its rounds, and the messages of a session.
use social_graph_engine.Base.{
  ℕ, zero, suc, ◌*◌, ◌≤◌, ◌≡◌, refl, Bool, true, false, not, ◌||◌, Option, none, some, List, [],
  ◌∷◌, arith, All, Bool-cases, inl, inr, ap, Text, text_eq, codes, min, if◌then◌else◌,
}

-- `max_backoff`, in seconds; the first wait is one second.
abbrev pub max_backoff : ℕ
max_backoff = 60

-- How a round of the outer loop ends: Redis is not available; an exception before the subscription
-- stands; an exception of an open session; `_running` found false in a session; a cancellation.
pub data Round : Type 0 where
  unavailable refused lost ended cancelled : Round

-- What a round does to the loop: the seconds it sleeps, and the backoff of the next round, if the
-- loop goes on.
pub record Next : Type 0 where
  pub slept : Option ℕ
  pub backoff : Option ℕ

-- The lines behind the `try`: leave, or sleep and double.
abbrev pause : Bool → ℕ → Next
pause running backoff =
    if not running
    then record { slept = none; backoff = none }
    else record { slept = some backoff; backoff = some (min (backoff * 2) max_backoff) }

-- One round; `running` is `self._running` when the round is over. Without Redis the round sleeps and
-- continues, with the backoff as it was.
unfoldable pub round : Round → Bool → ℕ → Next
round unavailable running backoff = record {
  slept = some backoff;
  backoff = if running then some backoff else none;
}
round refused running backoff = pause running backoff
round lost running backoff = pause running 1
round ended running backoff = pause running 1
round cancelled running backoff = record { slept = none; backoff = none }

abbrev pub cons_wait : Option ℕ → List ℕ → List ℕ
cons_wait none waits = waits
cons_wait (some b) waits = b ∷ waits

-- The waits of the loop over the rounds that the environment gives it.
unfoldable pub listen : List (Round × Bool) → ℕ → List ℕ
listen [] backoff = []
listen ((r, running) ∷ rounds) backoff =
    let n = round r running backoff in
    elim (n.backoff) [
      | none ↦ cons_wait n.slept []
      | some next ↦ cons_wait n.slept (listen rounds next)
    ]

-- Every wait of the loop lasts between one second and sixty.
pub listen-bounds :
    (rounds : List (Round × Bool)) (backoff : ℕ)
    → 1 ≤ backoff
    → backoff ≤ max_backoff
    → All (λ b. (1 ≤ b) × (b ≤ max_backoff)) (listen rounds backoff)
unfolding listen round
listen-bounds [] backoff lo hi = tt
listen-bounds ((unavailable, true) ∷ rounds) backoff lo hi =
    ((lo, hi), listen-bounds rounds backoff lo hi)
listen-bounds ((refused, true) ∷ rounds) backoff lo hi =
    ((lo, hi), listen-bounds rounds _ (omega arith) (omega arith))
listen-bounds ((lost, true) ∷ rounds) backoff lo hi =
    ((omega arith, omega arith), listen-bounds rounds _ (omega arith) (omega arith))
listen-bounds ((ended, true) ∷ rounds) backoff lo hi =
    ((omega arith, omega arith), listen-bounds rounds _ (omega arith) (omega arith))
listen-bounds ((unavailable, false) ∷ rounds) backoff lo hi = ((lo, hi), tt)
listen-bounds (_ ∷ rounds) backoff lo hi = tt

abbrev pub times : ℕ → Round → List (Round × Bool)
times zero r = []
times (suc n) r = (r, true) ∷ times n r

-- 1, 2, 4, ... from `b`, never above the maximum.
abbrev pub doubling : ℕ → ℕ → List ℕ
doubling zero b = []
doubling (suc n) b = b ∷ doubling n (min (b * 2) max_backoff)

abbrev pub steady : ℕ → ℕ → List ℕ
steady zero b = []
steady (suc n) b = b ∷ steady n b

listen-refused : (n backoff : ℕ) → listen (times n refused) backoff ≡ doubling n backoff
unfolding listen round
listen-refused zero backoff = refl
listen-refused (suc n) backoff = ap (◌∷◌ backoff) (listen-refused n (min (backoff * 2) max_backoff))

listen-unavailable : (n backoff : ℕ) → listen (times n unavailable) backoff ≡ steady n backoff
unfolding listen round
listen-unavailable zero backoff = refl
listen-unavailable (suc n) backoff = ap (◌∷◌ backoff) (listen-unavailable n backoff)

-- After a session is lost the loop waits one second, whatever the backoff was, and then doubles from
-- two seconds at each refused attempt, up to sixty.
pub listen-lost :
    (n backoff : ℕ) → listen ((lost, true) ∷ times n refused) backoff ≡ 1 ∷ doubling n 2
unfolding listen round
listen-lost n backoff = ap (◌∷◌ 1) (listen-refused n 2)

-- While Redis is unavailable the wait does not grow: the loop polls at the backoff it had, and the
-- attempts that are refused afterwards double from there.
pub listen-poll :
    (m n backoff : ℕ)
    → (listen (times m unavailable) backoff ≡ steady m backoff)
      × (listen ((unavailable, true) ∷ times n refused) backoff ≡ backoff ∷ doubling n backoff)
unfolding listen round
listen-poll m n backoff =
    (listen-unavailable m backoff, ap (◌∷◌ backoff) (listen-refused n backoff))

-- A message of `get_message`; `text` is a payload of type str or bytes.
pub data Payload : Type 0 where
  text : Text → Payload
  other : Payload

pub record Message : Type 0 where
  pub kind : Text
  pub channel : Text
  pub payload : Payload

-- The dict that a handler gets: the parsed JSON, {} for a payload of another type, or {"_raw": ...}.
pub data Event (J : Type 0) : Type 0 where
  parsed : J → Event J
  empty : Event J
  raw : Text → Event J

module _ {J : Type 0} (loads : Text → Option J) where
  -- `msg_type not in ("message", "pmessage")`
  unfoldable pub is_data : Message → Bool
  is_data m = text_eq m.kind (codes "message") || text_eq m.kind (codes "pmessage")

  unfoldable pub parse : Payload → Event J
  parse other = empty
  parse (text t) = elim (loads t) [ some j ↦ parsed j | none ↦ raw t ]

  module _ {S : Type 0} (handler : Text → Event J → S → Bool × S) where
    -- The inner loop; an exception of the handler (`false`) is logged and the loop goes on.
    unfoldable pub session : List Message → S → S
    session [] s = s
    session (m ∷ messages) s =
        session messages
          (if is_data m then (let (_, s') = handler m.channel (parse m.payload) s in s') else s)

    -- The data messages of a session, and their delivery one after the other, whatever the handler
    -- raises.
    abbrev pub data_of : List Message → List Message
    data_of [] = []
    data_of (m ∷ messages) = if is_data m then m ∷ data_of messages else data_of messages

    abbrev pub deliver : List Message → S → S
    deliver [] s = s
    deliver (m ∷ messages) s = deliver messages (handler m.channel (parse m.payload) s).1

    -- A session hands every data message to the handler once and in order, and nothing else: the
    -- messages of other types and the exceptions of the handler make no difference.
    pub session_lem :
        (messages : List Message) (s : S) → session messages s ≡ deliver (data_of messages) s
    unfolding session
    session_lem [] s = refl
    session_lem (m ∷ messages) s = elim (Bool-cases (is_data m)) [
      | inl wanted ↦ rw wanted (session_lem messages (handler m.channel (parse m.payload) s).1)
      | inr skip ↦ rw skip (session_lem messages s)
    ]

-- ===== src/Sockets/Live/Sessions.antt =====
-- `ws_live_handler` of middleware_python/websockets/live_data_ws.py from its first line to its last:
-- what it does to the hub and what it sends.
use social_graph_engine.Base.{
  ℕ, ◌≡◌, refl, ◌∙◌, Bool, true, false, not, List, [], ◌∷◌, ◌++◌, Text, codes, text_eq,
  if◌then◌else◌,
}
use mathlib.Core.List.{append-nil}
use social_graph_engine.Sockets.{Admission, needs_token, rejected, accepted}
use social_graph_engine.Sockets.Live.{
  Hub, Change, joined, left, change, changes, is_member, add_member,
}
use social_graph_engine.Sockets.Live.Members.{discard-middle}

-- What `receive_json` gives: a message with its action ("" if there is none), its filters, the number
-- of subscribers when it is answered, and whether the answer can be sent; or an exception.
pub data Heard (F : Type 0) : Type 0 where
  message : Text → F → ℕ → Bool → Heard F
  lost : Heard F

pub data Frame (F : Type 0) : Type 0 where
  connected pong : ℕ → Frame F
  unsubscribed : Frame F
  subscribed : F → Frame F
  unknown : Text → Frame F

module _ {F : Type 0} where
  -- The answer to a message
  unfoldable pub answer : Text → F → ℕ → Frame F
  answer action filters count =
      if text_eq action (codes "ping")
      then pong count
      else if text_eq action (codes "unsubscribe")
      then unsubscribed
      else if text_eq action (codes "subscribe")
      then subscribed filters
      else unknown action

  -- The `while True` of the handler; the answers that were sent. `unsubscribe` leaves it.
  unfoldable pub listen : List (Heard F) → List (Frame F)
  unfolding answer
  listen [] = []
  listen (lost ∷ _) = []
  listen (message action filters count sends ∷ later) =
      let rest = listen later in
      if not sends
      then []
      else if text_eq action (codes "unsubscribe")
      then answer action filters count ∷ []
      else answer action filters count ∷ rest

  -- Behind the first `await`: the confirmation stands outside of the `try` whose `finally` discards
  -- the socket.
  unfoldable pub confirm : Bool → ℕ → ℕ → List (Heard F) → List Change × List (Frame F)
  confirm false w count heard = ([], [])
  confirm true w count heard = (left w ∷ [], connected count ∷ listen heard)

  -- `ws_live_handler` for socket `w`: its changes of the hub, in order, and the frames that it sends.
  unfoldable pub live_handler :
      Admission → Bool → ℕ → ℕ → List (Heard F) → List Change × List (Frame F)
  unfolding confirm
  live_handler needs_token confirmed w count heard = ([], [])
  live_handler rejected confirmed w count heard = ([], [])
  live_handler (accepted user) confirmed w count heard =
      let (ends, frames) = confirm confirmed w count heard in (joined w ∷ ends, frames)

  -- A handler that is refused or whose confirmation is sent leaves the set as it found it, whatever
  -- its session brings. One whose confirmation fails leaves its socket in the set.
  pub live_handler-changes :
      (confirmed : Bool) (w count : ℕ) (heard : List (Heard F)) (user : Text) (hub : Hub)
      → is_member w hub.subscribers ≡ false
      → ((changes (live_handler needs_token confirmed w count heard).0 hub).subscribers
          ≡ hub.subscribers)
        × ((changes (live_handler rejected confirmed w count heard).0 hub).subscribers
            ≡ hub.subscribers)
        × ((changes (live_handler (accepted user) true w count heard).0 hub).subscribers
            ≡ hub.subscribers)
        × ((changes (live_handler (accepted user) false w count heard).0 hub).subscribers
            ≡ hub.subscribers ++ w ∷ [])
  unfolding live_handler changes change add_member
  live_handler-changes confirmed w count heard user hub new = (
    refl,
    refl,
    rw new (discard-middle hub.subscribers [] w new ∙ append-nil hub.subscribers),
    rw new refl,
  )

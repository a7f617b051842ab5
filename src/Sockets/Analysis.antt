-- ===== src/Sockets/Analysis.antt =====
-- `ws_analysis_handler` of middleware_python/websockets/analysis_ws.py: a session that runs engine
-- commands. The client may go at any time: of the frames that a session sends, only some number
-- arrive, and every send after them raises. What the client sends, and what the process of each
-- command does, are inputs.
pub mod Replies
use social_graph_engine.Base.{
  ℕ, zero, suc, Bool, true, false, Option, none, some, List, [], ◌∷◌, ◌++◌, Text, codes, text_eq,
  if◌then◌else◌,
}
use social_graph_engine.Engine.{
  Process, Json, dict, other, Execution, answered, failed, Reader, Command, execute_command,
}

-- What `receive_json` gives: a message with its command ("" if there is none) and what the process
-- of the command does; `WebSocketDisconnect`; another exception, with its text.
pub data Received : Type 0 where
  message : Text → Process → Received
  disconnected : Received
  broken : Text → Received

-- The frames; `running`, `completed` and `refused` name the command. `refused` has the dict that the
-- engine answered as its detail, where there is one.
pub data Frame (J : Type 0) : Type 0 where
  no_command : Frame J
  running : Text → Frame J
  completed : Text → Json J → Frame J
  refused : Text → Text → Option (Json J) → Frame J
  internal : Text → Frame J

-- The frames that have arrived, in order, and how many more will arrive.
pub record Wire (J : Type 0) : Type 0 where
  pub arrived : List (Frame J)
  pub left : ℕ

-- The result of a statement: it ran on, or it raised an exception with a text.
pub data Ran : Type 0 where
  on : Ran
  raised : Text → Ran

-- `data.get("status") == "success"`
unfoldable pub is_success : Option Text → Bool
is_success none = false
is_success (some status) = text_eq status (codes "success")

-- `data.get("message", "未知错误")`
unfoldable pub message_of : Option Text → Text
message_of none = codes "未知错误"
message_of (some text) = text

module _ {J : Type 0} where
  -- `send_json`; `gone` is the text of its exception, of whatever class it is.
  unfoldable pub send_left : ℕ → Text → Frame J → List (Frame J) → Ran × Wire J
  send_left zero gone frame arrived = (raised gone, record { arrived = arrived; left = 0 })
  send_left (suc n) gone frame arrived = (on, record { arrived = arrived ++ frame ∷ []; left = n })

  unfoldable pub send : Text → Frame J → Wire J → Ran × Wire J
  unfolding send_left
  send gone frame wire = send_left wire.left gone frame wire.arrived

  -- One statement behind another.
  unfoldable pub next : Ran × Wire J → (Wire J → Ran × Wire J) → Ran × Wire J
  next (on, wire) k = k wire
  next (raised e, wire) k = (raised e, wire)

  -- `try: ... except Exception as e: ...`
  unfoldable pub rescue : Ran × Wire J → (Text → Wire J → Ran × Wire J) → Ran × Wire J
  rescue (on, wire) k = (on, wire)
  rescue (raised e, wire) k = k e wire

module _ {J : Type 0} (P : Reader J) (settings : Text → Command) (gone no_get : Text) where
  -- The frame for an answer: a value that is no dict has no `get`, which raises.
  unfoldable pub send_answer : Text → Json J → Wire J → Ran × Wire J
  unfolding is_success message_of
  send_answer command (other j) wire = (raised no_get, wire)
  send_answer command (dict status text j) wire =
      if is_success status
      then send gone (completed command (dict status text j)) wire
      else send gone (refused command (message_of text) (some (dict status text j))) wire

  unfoldable pub send_execution : Text → Execution J → Wire J → Ran × Wire J
  send_execution command (answered j) wire = send_answer command j wire
  send_execution command (failed k text) wire = (raised text, wire)

  -- The inner `try`
  unfoldable pub run_command : Text → Process → Wire J → Ran × Wire J
  unfolding send_execution
  run_command command p wire =
      rescue (send_execution command (execute_command P (settings command) p) wire)
        (λ e. send gone (refused command e none))

  -- The body of `while True` behind `receive_json`
  unfoldable pub handle : Text → Process → Wire J → Ran × Wire J
  unfolding run_command
  handle [] p wire = send gone no_command wire
  handle (c ∷ cs) p wire = next (send gone (running (c ∷ cs)) wire) (run_command (c ∷ cs) p)

  -- A turn of the loop and the turns after it.
  unfoldable pub turn : Ran × Wire J → (Wire J → Option Text × Wire J) → Option Text × Wire J
  turn (on, wire) later = later wire
  turn (raised e, wire) later = (some e, wire)

  -- `while True`: the text of the exception that ends it, unless `receive_json` raised
  -- `WebSocketDisconnect` or nothing more is received.
  unfoldable pub session : List Received → Wire J → Option Text × Wire J
  session [] wire = (none, wire)
  session (disconnected ∷ _) wire = (none, wire)
  session (broken e ∷ _) wire = (some e, wire)
  session (message command p ∷ later) wire = turn (handle command p wire) (session later)

  -- The last `except Exception as e`, which drops what its own send raises. An exception of a send
  -- that is a `WebSocketDisconnect` goes to the other `except`, which sends nothing; after a send that
  -- raised nothing arrives either way.
  unfoldable pub close_session : Option Text × Wire J → Wire J
  close_session (none, wire) = wire
  close_session (some e, wire) = (send gone (internal e) wire).1

  -- `ws_analysis_handler`, behind the test of the token
  unfoldable pub run_session : List Received → Wire J → Wire J
  run_session received wire = close_session (session received wire)

-- ===== src/Sockets.antt =====
-- The WebSocket endpoints of middleware_python/websockets/: the test of the token that both handlers
-- make before they accept a connection.
pub mod Tokens
pub mod Analysis
pub mod Live
mod Tests
use social_graph_engine.Base.{ℕ, Option, none, some, [], ◌∷◌, Text}
use social_graph_engine.Auth.State.{Claims, Crypto}

-- Closed with code 4001, because there is no token or because `decode_token` raises, or accepted for
-- a user.
pub data Admission : Type 0 where
  needs_token rejected : Admission
  accepted : Text → Admission

abbrev of_payload : Option Claims → Admission
of_payload none = rejected
of_payload (some payload) = accepted payload.sub

-- The first lines of `ws_analysis_handler` and `ws_live_handler`: `if not token`, `decode_token`.
unfoldable pub admission : Crypto → ℕ → Option Text → Admission
admission K now none = needs_token
admission K now (some []) = needs_token
admission K now (some (c ∷ cs)) = of_payload (K.decode now (c ∷ cs))

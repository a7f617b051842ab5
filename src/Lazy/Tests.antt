-- ===== src/Lazy/Tests.antt =====
-- The connectors at concrete attempts.
use social_graph_engine.Base.{ℕ, none}
use social_graph_engine.Lazy.{Lazy, untried, connect, get_client, close, reset, answers}

program : Unit {0}
unfolding connect get_client close reset answers
program = tt

-- The connector after a first contact that failed.
abbrev failed_once : Lazy ℕ
failed_once = (get_client none untried).1

-- ===== src/Engine/Sample.antt =====
-- A reader for the tests that knows one answer of the engine, and a command
-- (middleware_python/services/cpp_engine.py).
use social_graph_engine.Base.{ℕ, none, some, codes, text_eq, if◌then◌else◌}
use social_graph_engine.Engine.{Json, dict, other, Reader, Command}

abbrev pub ready : Json ℕ
ready = dict (some (codes "success")) none (some 7)

abbrev pub sample_reader : Reader ℕ
sample_reader = record {
  decode = λ s. some s;
  decode_error = λ s. codes "invalid start byte";
  loads = λ s.
      if text_eq s (codes "{}")
      then some ready
      else (if text_eq s (codes "[]") then some (other 8) else none);
}

abbrev pub pagerank : Command
pagerank = record {
  engine_path = codes "graph_engine";
  command = codes "pagerank";
  timeout = codes "60.0";
}

-- ===== src/Engine/Tests.antt =====
-- Runs of `execute_command` of middleware_python/services/cpp_engine.py with a reader that knows two
-- answers, and path queries of middleware_python/routes/graph.py below the error handler.
use social_graph_engine.Base.{ℕ, ◌≡◌, refl, none, some, [], ◌∷◌, codes, text_eq, false}
use social_graph_engine.Errors.Handler.{Response, dispatch, build_unexpected_error}
use social_graph_engine.Engine.{
  finished, dict, answered, execute_command, loaded, decoded, error_dict,
}
use social_graph_engine.Engine.Sample.{ready, sample_reader, pagerank}
use social_graph_engine.Engine.Answers.{
  nodes, Values, normal, set_member, normalize, path_command, get_shortest_path,
}

abbrev admitted : Response
admitted = record { status = 200; code = codes "OK"; message = []; request_id = [] }

-- Every dict has a path of one node.
abbrev values : Values ℕ
values = record {
  path = λ j. nodes (codes "7" ∷ []);
  set_path = λ path len j. len;
  no_get = λ j. codes "no attribute 'get'";
  respond = λ j. some admitted;
  invalid = λ j. [];
}

execute_command_prints :
    execute_command sample_reader pagerank (finished (codes "{}")) ≡ answered ready
unfolding execute_command decoded loaded text_eq
execute_command_prints = refl

execute_command_garbage :
    execute_command sample_reader pagerank (finished (codes "{"))
    ≡ answered (error_dict (codes "C++ 引擎返回数据格式异常"))
unfolding execute_command decoded loaded text_eq
execute_command_garbage = refl

normalize_path :
    normalize sample_reader values ready ≡ normal (dict (some (codes "success")) none (some 1))
unfolding normalize set_member text_eq
normalize_path = refl

-- A list on stdout is an internal error.
list_printed :
    (dispatch false none
      (codes "req_1")
      (get_shortest_path sample_reader values [] (codes "dfs") (finished (codes "[]")))).status
    ≡ 500
unfolding dispatch get_shortest_path path_command execute_command decoded loaded normalize
    build_unexpected_error text_eq
list_printed = refl

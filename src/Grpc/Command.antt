-- ===== src/Grpc/Command.antt =====
-- `execute_via_grpc` of middleware_python/services/cpp_grpc_client.py: which call of the client a
-- command becomes. `lower` is Python's `str.lower`, `perform` what a call of the client ends in, and
-- `fallback` what the subprocess engine answers without a client.
use social_graph_engine.Base.{
  ℕ, Bool, true, false, List, [], ◌∷◌, Text, text_eq, codes, if◌then◌else◌,
}
use social_graph_engine.Grpc.{
  timeout_error, not_implemented, connection_error, runtime_error, rpc, unexpected, Result, ok,
  raised,
}

pub data Algorithm : Type 0 where
  bfs dijkstra dfs : Algorithm

-- The methods of `CppGrpcClient` that a command may call.
pub data Call : Type 0 where
  compute_pagerank compute_community compute_betweenness compute_connected_components : Call
  compute_kcore compute_clustering_coeff compute_graph_stats get_full_graph : Call
  find_path : Algorithm → Text → Text → Call

-- The messages of an answer with the status "error".
pub data Message : Type 0 where
  too_few_arguments : ℕ → Message
  unknown_command : Text → Message
  timed_out : Text → Message
  not_connected no_such_algorithm failed : Message

pub data Answer (D : Type 0) : Type 0 where
  answer : D → Answer D
  error : Message → Answer D

-- What a command is before anything is called.
pub data Route : Type 0 where
  call : Call → Route
  refuse : Message → Route

-- A path wants two arguments; more are not looked at.
unfoldable pub path_route : Algorithm → List Text → Route
path_route algorithm [] = refuse (too_few_arguments 0)
path_route algorithm (_ ∷ []) = refuse (too_few_arguments 1)
path_route algorithm (start ∷ end ∷ _) = call (find_path algorithm start end)

unfoldable pub route : Text → Text → List Text → Route
route command cmd args =
    if text_eq cmd (codes "pagerank")
    then call compute_pagerank
    else (if text_eq cmd (codes "community")
        then call compute_community
        else (if text_eq cmd (codes "betweenness")
            then call compute_betweenness
            else (if text_eq cmd (codes "connected_components")
                then call compute_connected_components
                else (if text_eq cmd (codes "kcore")
                    then call compute_kcore
                    else (if text_eq cmd (codes "clustering_coeff")
                        then call compute_clustering_coeff
                        else (if text_eq cmd (codes "graph_stats")
                            then call compute_graph_stats
                            else (if text_eq cmd (codes "get_full_graph")
                                then call get_full_graph
                                else (if text_eq cmd (codes "shortest_path")
                                    then path_route bfs args
                                    else (if text_eq cmd (codes "dijkstra_path")
                                        then path_route dijkstra args
                                        else (if text_eq cmd (codes "echo_chamber")
                                            then path_route dfs args
                                            else refuse (unknown_command command)))))))))))

module _ {D : Type 0} where
  -- The `except` clauses.
  unfoldable pub caught : Text → Result D → Answer D
  caught command (ok d) = answer d
  caught command (raised timeout_error) = error (timed_out command)
  caught command (raised connection_error) = error not_connected
  caught command (raised not_implemented) = error no_such_algorithm
  caught command (raised runtime_error) = error failed
  caught command (raised (rpc code)) = error failed
  caught command (raised unexpected) = error failed

  unfoldable pub follow : (Call → Result D) → Text → Route → Answer D
  follow perform command (refuse message) = error message
  follow perform command (call c) = caught command (perform c)

  -- `execute_via_grpc`, given whether `get_grpc_client` gives a client.
  unfoldable pub execute_via_grpc :
      (Text → Text)
      → (Call → Result D)
      → (Text → List Text → Answer D)
      → Bool
      → Text
      → List Text
      → Answer D
  execute_via_grpc lower perform fallback false command args = fallback command args
  execute_via_grpc lower perform fallback true command args =
      follow perform command (route command (lower command) args)

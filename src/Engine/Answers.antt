-- ===== src/Engine/Answers.antt =====
-- The route `get_shortest_path` (middleware_python/routes/graph.py), which runs `execute_command`
-- (middleware_python/services/cpp_engine.py), below `ErrorHandlerMiddleware`
-- (middleware_python/middleware/error_handler.py), for a caller that its dependencies have let pass.
use social_graph_engine.Base.{
  ℕ, ◌≡◌, ◌≢◌, Option, none, some, List, length, Text, codes, text_eq, if◌then◌else◌, ◌⊎◌,
}
use social_graph_engine.Errors.{app, unexpected, cpp_engine, compute_timeout}
use social_graph_engine.Errors.Handler.{Response, Outcome, returned, raised}
use social_graph_engine.Engine.{
  Process, late, finished, Json, dict, other, Execution, answered, failed, Reader, Command,
  execute_command, error_dict,
}

-- The member `path` of a dict: the dict has none, it cannot be iterated (the text of the TypeError), or
-- its elements as `str` writes them.
pub data Member : Type 0 where
  missing : Member
  not_iterable : Text → Member
  nodes : List Text → Member

-- What Python and FastAPI do with a value of `json.loads`: reading and setting `path`, the text of the
-- AttributeError of `data.get`, and the response that the model PathResponse admits, none where its
-- validation raises.
pub record Values (J : Type 0) : Type 0 where
  pub path : J → Member
  pub set_path : List Text → ℕ → J → J
  pub no_get : J → Text
  pub respond : Json J → Option Response
  pub invalid : Json J → Text

-- The value that the route returns, or the exception that it raises.
pub data Normalized (J : Type 0) : Type 0 where
  normal : Json J → Normalized J
  raises : Text → Normalized J

-- The command of an algorithm.
unfoldable pub path_command : Text → Text
path_command algorithm =
    if text_eq algorithm (codes "dfs")
    then codes "echo_chamber"
    else (if text_eq algorithm (codes "dijkstra")
        then codes "dijkstra_path"
        else codes "shortest_path")

module _ {J : Type 0} (P : Reader J) (V : Values J) where
  -- `data["path"] = [str(node) for node in data["path"]]`, with `path_length`
  unfoldable pub set_member : Option Text → Option Text → J → Member → Normalized J
  set_member status message j missing = normal (dict status message (some j))
  set_member status message j (not_iterable e) = raises e
  set_member status message j (nodes path) =
      normal (dict status message (some (V.set_path path (length path) j)))

  -- `if data.get("status") == "success" and "path" in data`
  unfoldable pub normalize : Json J → Normalized J
  normalize (other j) = raises (V.no_get j)
  normalize (dict (some status) message (some j)) =
      if text_eq status (codes "success")
      then set_member (some status) message j (V.path j)
      else normal (dict (some status) message (some j))
  normalize (dict none message rest) = normal (dict none message rest)
  normalize (dict (some status) message none) = normal (dict (some status) message none)

  abbrev pub validated : Json J → Option Response → Outcome
  validated j none = raised (unexpected (V.invalid j))
  validated j (some r) = returned r

  abbrev pub of_normalized : Normalized J → Outcome
  of_normalized (normal j) = validated j (V.respond j)
  of_normalized (raises e) = raised (unexpected e)

  abbrev pub of_execution : Execution J → Outcome
  of_execution (answered j) = of_normalized (normalize j)
  of_execution (failed k message) = raised (app k message)

  -- The call of the engine, with the timeout of 60 seconds.
  abbrev pub path_call : Text → Text → Command
  path_call engine_path algorithm = record {
    engine_path = engine_path;
    command = path_command algorithm;
    timeout = codes "60.0";
  }

  -- `get_shortest_path`
  unfoldable pub get_shortest_path : Text → Text → Process → Outcome
  get_shortest_path engine_path algorithm p =
      of_execution (execute_command P (path_call engine_path algorithm) p)

  -- The JSON that a process has printed with exit code 0, or a dict that reports an error.
  abbrev pub IsReport : Process → Json J → Type 0
  IsReport p j =
      ((s : Text) × (text : Text) × (p ≡ finished s)
        × (P.decode s ≡ some text)
        × (P.loads text ≡ some j))
      ⊎ ((message : Text) × (j ≡ error_dict message))

  -- The route raises on this value, or the validation of what it returns does.
  abbrev pub IsUnexpected : Normalized J → Type 0
  IsUnexpected (normal j) = V.respond j ≡ none
  IsUnexpected (raises e) = Unit

  abbrev pub IsDict : Json J → Type 0
  IsDict (dict _ _ _) = Unit
  IsDict (other _) = ⊥

  -- A request is answered in one of four ways.
  abbrev pub IsAnswered : Process → Text → Response → Type 0
  IsAnswered p id r =
      ((j j' : Json J) × (valid : Response) × IsReport p j
        × IsDict j
        × (normalize j ≡ normal j')
        × (V.respond j' ≡ some valid)
        × (r ≡ record valid { request_id = id }))
      ⊎ ((j : Json J) × IsReport p j
          × IsUnexpected (normalize j)
          × (r.status ≡ 500)
          × (r.code ≡ codes "INTERNAL_ERROR"))
      ⊎ ((p ≡ late) × (r.status ≡ 504) × (r.code ≡ codes "COMPUTE_TIMEOUT"))
      ⊎ ((p ≢ late) × (r.status ≡ 502) × (r.code ≡ codes "CPP_ENGINE_ERROR"))

  -- Why an execution ends as it does.
  abbrev IsCause : Process → Execution J → Type 0
  IsCause p (answered j) = IsReport p j
  IsCause p (failed k message) =
      ((p ≡ late) × (k ≡ compute_timeout)) ⊎ ((p ≢ late) × (k ≡ cpp_engine))

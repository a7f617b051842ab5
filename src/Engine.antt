-- ===== src/Engine.antt =====
-- `execute_command` of middleware_python/services/cpp_engine.py: the engine as a process for one
-- command. What the process does is an input; json.loads and the UTF-8 decoder are parameters.
pub mod Answers
pub mod Sample
mod Tests
use social_graph_engine.Base.{Option, none, some, Text, codes, ◌++◌}
use social_graph_engine.Errors.{ErrorClass, cpp_engine, compute_timeout}

-- What `create_subprocess_exec` and `communicate` come to: the program is not there; another
-- exception, with its text; the time is over; an exit with a code other than 0, the code as an f-string
-- writes it and stderr as text; an exit with code 0, with the bytes of stdout.
pub data Process : Type 0 where
  not_found late : Process
  broken : Text → Process
  exited : Text → Text → Process
  finished : Text → Process

-- A value of `json.loads`: a dict, with its `status` and its `message` and all of it, or another value.
pub data Json (J : Type 0) : Type 0 where
  dict : Option Text → Option Text → Option J → Json J
  other : J → Json J

-- A returned dict, or a raised exception of core/exceptions.py.
pub data Execution (J : Type 0) : Type 0 where
  answered : Json J → Execution J
  failed : ErrorClass → Text → Execution J

-- Python's text of an exception's class is not read; `decode` answers the text of its exception.
pub record Reader (J : Type 0) : Type 0 where
  pub decode : Text → Option Text
  pub decode_error : Text → Text
  pub loads : Text → Option (Json J)

-- The arguments that the messages name.
pub record Command : Type 0 where
  pub engine_path : Text
  pub command : Text
  pub timeout : Text

module _ {J : Type 0} where
  -- `{"status": "error", "message": ...}`
  unfoldable pub error_dict : Text → Json J
  error_dict message = dict (some (codes "error")) (some message) none

  -- `except Exception as e`
  unfoldable pub engine_error : Text → Execution J
  engine_error e = failed cpp_engine (codes "C++ 引擎执行失败: " ++ e)

module _ {J : Type 0} (P : Reader J) where
  -- `json.loads(...)` with its `except json.JSONDecodeError`
  unfoldable pub loaded : Option (Json J) → Json J
  loaded none = error_dict (codes "C++ 引擎返回数据格式异常")
  loaded (some j) = j

  -- `stdout.decode("utf-8")` raises inside the outer `try`.
  unfoldable pub decoded : Text → Option Text → Execution J
  decoded stdout none = engine_error (P.decode_error stdout)
  decoded stdout (some text) = answered (loaded (P.loads text))

  -- `execute_command`
  unfoldable pub execute_command : Command → Process → Execution J
  unfolding decoded error_dict
  execute_command c late =
      failed compute_timeout (codes "C++ 引擎计算超时 (" ++ (c.timeout ++ (codes "s): " ++ c.command)))
  execute_command c not_found = failed cpp_engine (codes "C++ 引擎可执行文件未找到: " ++ c.engine_path)
  execute_command c (broken e) = engine_error e
  execute_command c (exited code stderr) =
      answered (error_dict (codes "C++ 引擎返回非零退出码 (" ++ (code ++ (codes "): " ++ stderr))))
  execute_command c (finished stdout) = decoded stdout (P.decode stdout)

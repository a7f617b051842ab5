-- ===== src/Performance.antt =====
-- The batch buffer of the operation log: `log_operation`, `_ensure_batch_flush` and `_flush_batch` of
-- middleware_python/services/performance.py, as a state machine over what can happen between two
-- awaits. A document `A` is what `log_operation` builds of its arguments. The write of a batch is
-- `bulk_write_logs` of db/mongodb.py: the environment says which documents it kept.
pub mod Delivery
mod Tests
use social_graph_engine.Base.{ℕ, Bool, true, false, List, [], ◌∷◌, ◌++◌}

-- Where the background task is: there is none or it is done, it sleeps, it awaits the write of a
-- batch, or it awaits the write of the rest after its cancellation.
pub data Phase (A : Type 0) : Type 0 where
  stopped sleeping : Phase A
  writing : List A → Phase A
  closing : Phase A

-- `stored` are the documents in MongoDB, the oldest first, as `buffer` is.
pub record State (A : Type 0) : Type 0 where
  pub buffer : List A
  pub phase : Phase A
  pub stored : List A

-- A call of `log_operation`, the end of a sleep, the answer to a write with the documents it kept, an
-- exception of a write, and the cancellation of the task.
pub data Event (A : Type 0) : Type 0 where
  log : A → Event A
  wake : Event A
  answered : List A → Event A
  write_raised cancelled : Event A

module _ {A : Type 0} where
  abbrev pub init : State A
  init = record { buffer = []; phase = stopped; stored = [] }

  -- `_ensure_batch_flush`: a task that is done, or missing, is started.
  unfoldable pub ensure_batch_flush : Phase A → Phase A
  ensure_batch_flush stopped = sleeping
  ensure_batch_flush sleeping = sleeping
  ensure_batch_flush (writing batch) = writing batch
  ensure_batch_flush closing = closing

  -- The end of `log_operation`
  unfoldable pub append : A → State A → State A
  append doc s = record s { buffer = s.buffer ++ (doc ∷ []); phase = ensure_batch_flush s.phase }

  -- Under the lock: an empty buffer is slept on, a full one becomes the batch.
  unfoldable pub take_batch : List A → State A → State A
  take_batch [] s = s
  take_batch (doc ∷ docs) s = record s { buffer = []; phase = writing (doc ∷ docs) }

  -- `except asyncio.CancelledError`: a batch that is being written is given up.
  unfoldable pub close_on : List A → State A → State A
  close_on [] s = record s { phase = stopped }
  close_on (doc ∷ docs) s = record s { phase = closing }

  unfoldable pub wake_up : Phase A → State A → State A
  wake_up sleeping s = take_batch s.buffer s
  wake_up stopped s = s
  wake_up (writing batch) s = s
  wake_up closing s = s

  -- After the last write the whole buffer is cleared.
  unfoldable pub settle : Phase A → List A → State A → State A
  settle (writing batch) kept s = record s { phase = sleeping; stored = s.stored ++ kept }
  settle closing kept s = record { buffer = []; phase = stopped; stored = s.stored ++ kept }
  settle stopped kept s = s
  settle sleeping kept s = s

  -- `except Exception: pass`; one in the handler of the cancellation ends the task.
  unfoldable pub fail : Phase A → State A → State A
  fail (writing batch) s = record s { phase = sleeping }
  fail closing s = record s { phase = stopped }
  fail stopped s = s
  fail sleeping s = s

  unfoldable pub cancel : Phase A → State A → State A
  cancel stopped s = s
  cancel sleeping s = close_on s.buffer s
  cancel (writing batch) s = close_on s.buffer s
  cancel closing s = record s { phase = stopped }

  unfoldable pub step : State A → Event A → State A
  step s (log doc) = append doc s
  step s wake = wake_up s.phase s
  step s (answered kept) = settle s.phase kept s
  step s write_raised = fail s.phase s
  step s cancelled = cancel s.phase s

  unfoldable pub run : State A → List (Event A) → State A
  run s [] = s
  run s (e ∷ es) = run (step s e) es

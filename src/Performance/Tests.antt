-- ===== src/Performance/Tests.antt =====
-- Documents that arrive and that do not.
use social_graph_engine.Base.{ℕ, ◌≡◌, refl, List, [], ◌∷◌}
use social_graph_engine.Performance.{
  Event, log, wake, answered, cancelled, init, ensure_batch_flush, append, take_batch, close_on,
  wake_up, settle, fail, cancel, step, run,
}
use social_graph_engine.Performance.Delivery.{logged, held, run-delivers}

program : Unit {0}
unfolding ensure_batch_flush append take_batch close_on wake_up settle fail cancel step run
program = tt

abbrev busy : List (Event ℕ)
busy = log 1 ∷ log 2 ∷ wake ∷ log 3 ∷ answered (1 ∷ 2 ∷ []) ∷ log 4 ∷ []

-- A batch whose write is cancelled is in neither place afterwards.
given_up :
    held {A = ℕ} (run init (log 1 ∷ wake ∷ log 2 ∷ cancelled ∷ answered (2 ∷ []) ∷ [])) ≡ 2 ∷ []
unfolding program
given_up = refl

-- A document logged during the last write is cleared with the others.
cleared : held {A = ℕ} (run init (log 1 ∷ cancelled ∷ log 2 ∷ answered (1 ∷ []) ∷ [])) ≡ 1 ∷ []
unfolding program
cleared = refl

run-delivers_example :
    (run (run init busy) (wake ∷ answered (run init busy).buffer ∷ [])).stored ≡ logged busy
unfolding program
run-delivers_example = run-delivers busy (tt, (tt, (tt, (tt, (refl, (tt, tt)))))) refl

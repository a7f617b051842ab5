-- ===== src/Performance/Delivery.antt =====
-- What becomes of the documents in the batch buffer.
use social_graph_engine.Base.{◌≡◌, refl, sym, ap, ◌∙◌, List, [], ◌∷◌, ◌++◌}
use mathlib.Core.List.{append_assoc, append-nil}
use social_graph_engine.Performance.{
  Phase, stopped, sleeping, writing, closing, State, Event, log, wake, answered, write_raised,
  cancelled, init, ensure_batch_flush, append, take_batch, wake_up, settle, step, run,
}

module _ {A : Type 0} where
  abbrev pub logged : List (Event A) → List A
  logged [] = []
  logged (log doc ∷ es) = doc ∷ logged es
  logged (wake ∷ es) = logged es
  logged (answered kept ∷ es) = logged es
  logged (write_raised ∷ es) = logged es
  logged (cancelled ∷ es) = logged es

  abbrev pub in_flight : Phase A → List A
  in_flight stopped = []
  in_flight sleeping = []
  in_flight (writing batch) = batch
  in_flight closing = []

  -- All documents that are in MongoDB, in a write or in the buffer.
  abbrev pub held : State A → List A
  held s = s.stored ++ (in_flight s.phase ++ s.buffer)

  -- A write that keeps its batch, and no exception or cancellation.
  abbrev pub Keeps : Phase A → List A → Type 0
  Keeps (writing batch) kept = kept ≡ batch
  Keeps closing kept = ⊥
  Keeps stopped kept = Unit
  Keeps sleeping kept = Unit

  abbrev pub IsCleanAt : State A → Event A → Type 0
  IsCleanAt s (log doc) = Unit
  IsCleanAt s wake = Unit
  IsCleanAt s (answered kept) = Keeps s.phase kept
  IsCleanAt s write_raised = ⊥
  IsCleanAt s cancelled = ⊥

  abbrev pub IsClean : State A → List (Event A) → Type 0
  IsClean s [] = Unit
  IsClean s (e ∷ es) = IsCleanAt s e × IsClean (step s e) es

  ensure_batch_flush-in_flight : (p : Phase A) → in_flight (ensure_batch_flush p) ≡ in_flight p
  unfolding ensure_batch_flush
  ensure_batch_flush-in_flight stopped = refl
  ensure_batch_flush-in_flight sleeping = refl
  ensure_batch_flush-in_flight (writing batch) = refl
  ensure_batch_flush-in_flight closing = refl

  append-held : (doc : A) (s : State A) → held (append doc s) ≡ held s ++ (doc ∷ [])
  unfolding append
  append-held doc s =
      ap (λ l. s.stored ++ (l ++ (s.buffer ++ (doc ∷ [])))) (ensure_batch_flush-in_flight s.phase)
      ∙ ap (λ l. s.stored ++ l) (sym (append_assoc (in_flight s.phase) s.buffer (doc ∷ [])))
      ∙ sym (append_assoc s.stored (in_flight s.phase ++ s.buffer) (doc ∷ []))

  take_batch-held :
      (b : List A) (s : State A)
      → s.buffer ≡ b
      → s.phase ≡ sleeping
      → held (take_batch b s) ≡ held s
  unfolding take_batch
  take_batch-held [] s full asleep = refl
  take_batch-held (doc ∷ docs) s full asleep =
      ap (λ l. s.stored ++ l) (append-nil (doc ∷ docs))
      ∙ ap (λ l. s.stored ++ l) (sym full)
      ∙ ap (λ p. s.stored ++ (in_flight p ++ s.buffer)) (sym asleep)

  wake_up-held : (p : Phase A) (s : State A) → s.phase ≡ p → held (wake_up p s) ≡ held s
  unfolding wake_up
  wake_up-held stopped s at = refl
  wake_up-held sleeping s at = take_batch-held s.buffer s refl at
  wake_up-held (writing batch) s at = refl
  wake_up-held closing s at = refl

  settle-held :
      (p : Phase A) (kept : List A) (s : State A)
      → s.phase ≡ p
      → Keeps p kept
      → held (settle p kept s) ≡ held s
  unfolding settle
  settle-held stopped kept s at keeps = refl
  settle-held sleeping kept s at keeps = refl
  settle-held closing kept s at keeps = absurd keeps
  settle-held (writing batch) kept s at keeps =
      append_assoc s.stored kept s.buffer
      ∙ ap (λ l. s.stored ++ (l ++ s.buffer)) keeps
      ∙ ap (λ p. s.stored ++ (in_flight p ++ s.buffer)) (sym at)

  step-held :
      (s : State A) (e : Event A) → IsCleanAt s e → held (step s e) ≡ held s ++ logged (e ∷ [])
  unfolding step
  step-held s (log doc) clean = append-held doc s
  step-held s wake clean = wake_up-held s.phase s refl ∙ sym (append-nil (held s))
  step-held s (answered kept) clean =
      settle-held s.phase kept s refl clean ∙ sym (append-nil (held s))
  step-held s write_raised clean = absurd clean
  step-held s cancelled clean = absurd clean

  logged-cons : (e : Event A) (es : List (Event A)) → logged (e ∷ []) ++ logged es ≡ logged (e ∷ es)
  logged-cons (log doc) es = refl
  logged-cons wake es = refl
  logged-cons (answered kept) es = refl
  logged-cons write_raised es = refl
  logged-cons cancelled es = refl

  -- While every write keeps its batch and nothing is cancelled, no document is lost, doubled or
  -- overtaken: those in MongoDB, those in a write and those in the buffer are, in this order, those of
  -- before and those logged since, whatever the turns of the background task.
  pub run-held :
      (s : State A) (es : List (Event A)) → IsClean s es → held (run s es) ≡ held s ++ logged es
  unfolding run
  run-held s [] clean = sym (append-nil (held s))
  run-held s (e ∷ es) clean =
      run-held (step s e) es clean.1
      ∙ ap (λ l. l ++ logged es) (step-held s e clean.0)
      ∙ append_assoc (held s) (logged (e ∷ [])) (logged es)
      ∙ ap (λ l. held s ++ l) (logged-cons e es)

  flush :
      (b : List A) (s : State A)
      → s.buffer ≡ b
      → s.phase ≡ sleeping
      → (settle (take_batch b s).phase b (take_batch b s)).stored ≡ s.stored ++ b
  unfolding take_batch settle
  flush [] s full asleep = rw asleep (sym (append-nil s.stored))
  flush (doc ∷ docs) s full asleep = refl

  wake_up-asleep : (p : Phase A) (s : State A) → p ≡ sleeping → wake_up p s ≡ take_batch s.buffer s
  unfolding wake_up
  wake_up-asleep stopped s at = cc
  wake_up-asleep sleeping s at = refl
  wake_up-asleep (writing batch) s at = cc
  wake_up-asleep closing s at = cc

  -- From the start on, while every write keeps its batch and nothing is cancelled: when the task
  -- sleeps, wakes up and has its write answered, MongoDB has exactly the documents that were logged
  -- before, each once and in the order of their calls.
  pub run-delivers :
      (es : List (Event A))
      → IsClean init es
      → (run init es).phase ≡ sleeping
      → (run (run init es) (wake ∷ answered (run init es).buffer ∷ [])).stored ≡ logged es
  unfolding run step
  run-delivers es clean asleep =
      let s = run init es in
      ap (λ (t : State A). (settle t.phase s.buffer t).stored) (wake_up-asleep s.phase s asleep)
      ∙ flush s.buffer s refl asleep
      ∙ ap (λ p. s.stored ++ (in_flight p ++ s.buffer)) (sym asleep)
      ∙ run-held init es clean

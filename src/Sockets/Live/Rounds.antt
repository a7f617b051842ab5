-- ===== src/Sockets/Live/Rounds.antt =====
-- A pass of `_broadcast_loop` (middleware_python/websockets/live_data_ws.py).
use social_graph_engine.Base.{
  ℕ, suc, ◌+◌, ◌≡◌, ◌≢◌, ◌⊎◌, refl, sym, ◌∙◌, ap, Bool, true, false, not, some, List, [], ◌∷◌, ◌++◌,
  ◌==◌, length, arith, ==_iff, inl, inr, Bool-cases, subst,
}
use mathlib.Core.List.{append_assoc, append-nil}
use social_graph_engine.Sockets.Live.Members.{
  IsDistinct, IsDistinct-drop_middle, is_member-before, discard-middle,
}
use social_graph_engine.Sockets.Live.{
  done, Hub, changes, Sending, Sweep, get_elem?, mark, discard_all, sent, iterate, finish,
  sweep_all, broadcast_round,
}
use social_graph_engine.Sockets.Live.Turns.{
  keep_if, alive, failing, IsQuiet, count_up_lem, count_up_zero, get_elem?-middle, mark-keep_if,
  so_far, iterate_step, iterate_quiet, iterate_raises,
}

discard_all-failing :
    (sending : ℕ → Sending) (i : ℕ) (before xs : List ℕ)
    → IsDistinct (before ++ xs)
    → discard_all (failing sending i xs) (before ++ xs) ≡ before ++ alive sending i xs
unfolding discard_all
discard_all-failing sending i before [] d = refl
discard_all-failing sending i before (x ∷ xs) d = elim (Bool-cases ((sending i).succeeds)) [
  | inl ok ↦ rw ok (
      ap (discard_all (failing sending (suc i) xs)) (sym (append_assoc before (x ∷ []) xs))
      ∙ discard_all-failing sending (suc i) (before ++ x ∷ []) xs
          (subst IsDistinct (sym (append_assoc before (x ∷ []) xs)) d)
      ∙ append_assoc before (x ∷ []) (alive sending (suc i) xs))
  | inr bad ↦ rw bad (
      ap (discard_all (failing sending (suc i) xs))
        (discard-middle before xs x (is_member-before before xs x d))
      ∙ discard_all-failing sending (suc i) before xs (IsDistinct-drop_middle before xs x d))
]

sweep_quiet :
    (sending : ℕ → Sending) (hub : Hub)
    → IsQuiet sending (length hub.subscribers)
    → sweep_all sending hub
      ≡ so_far (alive sending 0 hub.subscribers) (failing sending 0 hub.subscribers) hub
unfolding sweep_all iterate
sweep_quiet sending hub quiet =
    let size = length hub.subscribers in
    let run_through =
      iterate_quiet sending [] hub.subscribers [] [] [] hub 0 0 size
        (sym (append-nil hub.subscribers)) refl quiet (omega arith) in
    ap (λ n. iterate sending n 0 size (so_far [] [] hub)) (sym (count_up_zero hub.subscribers))
    ∙ run_through
    ∙ rw ((==_iff size size).1 refl) refl

broadcast_round_lem :
    (sending : ℕ → Sending) (hub : Hub) (sweep : Sweep)
    → hub.subscribers ≢ []
    → sweep_all sending hub ≡ sweep
    → broadcast_round sending hub ≡ (finish sweep.raised sweep, sweep.reached)
unfolding broadcast_round
broadcast_round_lem sending hub sweep some_there e =
    let full : (length hub.subscribers == 0) ≡ false = not_empty hub.subscribers some_there in
    rw (full, e) refl
  where
    not_empty : (xs : List ℕ) → xs ≢ [] → (length xs == 0) ≡ false
    not_empty [] there = absurd (there refl)
    not_empty (x ∷ xs) there = ground arith

empty_cases : (xs : List ℕ) → (xs ≡ []) ⊎ (xs ≢ [])
empty_cases [] = inl refl
empty_cases (x ∷ xs) = inr (λ e. cc)

-- A pass during which nobody comes or goes sends the event once to every subscriber, in the order of
-- the iteration: it reaches those to which the send succeeds, and these are the subscribers behind the
-- pass. A send that fails does not keep the event from the others, and the task runs on.
pub broadcast_round-delivers :
    (sending : ℕ → Sending) (hub : Hub)
    → IsDistinct hub.subscribers
    → IsQuiet sending (length hub.subscribers)
    → broadcast_round sending hub ≡ (
      record hub { subscribers = alive sending 0 hub.subscribers },
      alive sending 0 hub.subscribers,
    )
unfolding broadcast_round
broadcast_round-delivers sending hub d quiet = elim (empty_cases hub.subscribers) [
  | inl none_there ↦ ground (arith, none_there)
  | inr some_there ↦
      broadcast_round_lem sending hub _ some_there (sweep_quiet sending hub quiet)
      ∙ ap (λ l. (record hub { subscribers = l }, alive sending 0 hub.subscribers))
          (discard_all-failing sending 0 [] hub.subscribers d)
]

keep_if-append : (b : Bool) (x : ℕ) (xs ys : List ℕ) → keep_if b x xs ++ ys ≡ keep_if b x (xs ++ ys)
keep_if-append true x xs ys = refl
keep_if-append false x xs ys = refl

alive-snoc :
    (sending : ℕ → Sending) (i : ℕ) (xs : List ℕ) (x : ℕ)
    → alive sending i xs ++ keep_if ((sending (i + length xs)).succeeds) x []
      ≡ alive sending i (xs ++ x ∷ [])
alive-snoc sending i [] x =
    ap (λ j. keep_if ((sending j).succeeds) x []) {x = i + 0} {y = i} (omega arith)
alive-snoc sending i (y ∷ xs) x =
    ap
      (λ j.
        keep_if ((sending i).succeeds) y (alive sending (suc i) xs)
        ++ keep_if ((sending j).succeeds) x [])
      {x = i + suc (length xs)} {y = suc i + length xs} (omega arith)
    ∙ keep_if-append ((sending i).succeeds) y (alive sending (suc i) xs)
        (keep_if ((sending (suc i + length xs)).succeeds) x [])
    ∙ ap (keep_if ((sending i).succeeds) y) (alive-snoc sending (suc i) xs x)

nonempty-middle : (xs ys : List ℕ) (x : ℕ) {zs : List ℕ} → zs ≡ xs ++ x ∷ ys → zs ≢ []
nonempty-middle [] ys x shape empty = cc
nonempty-middle (y ∷ xs) ys x shape empty = cc

sweep_interrupted :
    (sending : ℕ → Sending) (hub : Hub) (xs ys : List ℕ) (x : ℕ)
    → let s = sending (length xs) in
      let after = changes s.meanwhile hub in
      hub.subscribers ≡ xs ++ x ∷ ys
      → IsQuiet sending (length xs)
      → length after.subscribers ≢ length hub.subscribers
      → sweep_all sending hub ≡ record {
        reached = mark s.succeeds x (alive sending 0 xs);
        dead = mark (not s.succeeds) x (failing sending 0 xs);
        hub = after;
        raised = true;
      }
unfolding sweep_all sent
sweep_interrupted sending hub xs ys x shape quiet grown =
    let size = length hub.subscribers in
    let before = so_far (alive sending 0 xs) (failing sending 0 xs) hub in
    let there : get_elem? hub.subscribers (length xs) ≡ some x =
      rw shape (get_elem?-middle xs ys x) in
    ap (λ n. iterate sending n 0 size (so_far [] [] hub))
      (ap length shape ∙ sym (count_up_lem xs (x ∷ ys)))
    ∙ iterate_quiet sending [] xs (x ∷ ys) [] [] hub (suc (length ys)) 0 (length xs) shape refl
        quiet (omega arith)
    ∙ ap (λ j. iterate sending (suc (length ys)) j size before) {x = 0 + length xs} {y = length xs}
        (omega arith)
    ∙ iterate_step sending (length ys) (length xs) size x before refl there
    ∙ iterate_raises sending (length ys) (suc (length xs)) size
        (sent x (sending (length xs)) before) grown

-- Let the set change its size for the first time while the event is sent to `x`, which stands behind
-- `xs`. Then the pass ends in an exception and the task with it: the event has reached of `xs` and `x`
-- those to which the send succeeded, and nobody behind them; and no dead subscriber is removed.
pub broadcast_round-interrupted :
    (sending : ℕ → Sending) (hub : Hub) (xs ys : List ℕ) (x : ℕ)
    → let after = changes ((sending (length xs)).meanwhile) hub in
      hub.subscribers ≡ xs ++ x ∷ ys
      → IsQuiet sending (length xs)
      → length after.subscribers ≢ length hub.subscribers
      → broadcast_round sending hub
        ≡ (record after { broadcast = done }, alive sending 0 (xs ++ x ∷ []))
unfolding finish
broadcast_round-interrupted sending hub xs ys x shape quiet grown =
    let s = sending (length xs) in
    let after = changes s.meanwhile hub in
    broadcast_round_lem sending hub _ (nonempty-middle xs ys x shape)
      (sweep_interrupted sending hub xs ys x shape quiet grown)
    ∙ ap (λ l. (record after { broadcast = done }, l))
        (sym (append-nil (mark s.succeeds x (alive sending 0 xs)))
          ∙ mark-keep_if s.succeeds x (alive sending 0 xs) []
          ∙ ap (λ j. alive sending 0 xs ++ keep_if ((sending j).succeeds) x []) {x = length xs}
              {y = 0 + length xs} (omega arith)
          ∙ alive-snoc sending 0 xs x)

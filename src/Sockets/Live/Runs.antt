-- ===== src/Sockets/Live/Runs.antt =====
-- Passes of `_broadcast_loop` (middleware_python/websockets/live_data_ws.py) between connections.
use social_graph_engine.Base.{
  ℕ, ◌≡◌, ◌≢◌, refl, sym, ◌∙◌, ap, List, [], ◌∷◌, ◌++◌, length, All, subst,
}
use mathlib.Core.List.{append-nil}
use social_graph_engine.Sockets.Live.{
  running, done, Hub, add_member, ensure, subscribe, leave, Change, joined, left, change, changes,
  Sending, Step, changed, pass, pass_if, step, run,
}
use social_graph_engine.Sockets.Live.Members.{IsDistinct, add_member-IsDistinct, discard-IsDistinct}
use social_graph_engine.Sockets.Live.Turns.{alive, IsQuiet}
use social_graph_engine.Sockets.Live.Rounds.{broadcast_round-delivers, broadcast_round-interrupted}

-- No new connection.
abbrev pub IsStill : Step → Type 0
IsStill (changed (joined w)) = ⊥
IsStill (changed (left w)) = Unit
IsStill (pass sending) = Unit

change-IsDistinct :
    (c : Change) (hub : Hub) → IsDistinct hub.subscribers → IsDistinct (change c hub).subscribers
unfolding change
change-IsDistinct (joined w) hub d = add_member-IsDistinct w hub.subscribers d
change-IsDistinct (left w) hub d = discard-IsDistinct w hub.subscribers d

changes-IsDistinct :
    (cs : List Change) (hub : Hub)
    → IsDistinct hub.subscribers
    → IsDistinct (changes cs hub).subscribers
unfolding changes
changes-IsDistinct [] hub d = d
changes-IsDistinct (c ∷ cs) hub d = changes-IsDistinct cs (change c hub) (change-IsDistinct c hub d)

-- Once the task is done, nobody gets an event until somebody connects.
run-silent :
    (later : List Step) (hub : Hub)
    → All IsStill later
    → hub.broadcast ≡ done
    → IsDistinct hub.subscribers
    → ((run later hub).1 ≡ [])
      × ((run later hub).0.broadcast ≡ done)
      × IsDistinct (run later hub).0.subscribers
unfolding run step change
run-silent [] hub still over d = (refl, over, d)
run-silent (changed (joined w) ∷ later) hub still over d = absurd still.0
run-silent (changed (left w) ∷ later) hub still over d =
    run-silent later (leave w hub) still.1 over (discard-IsDistinct w hub.subscribers d)
run-silent (pass sending ∷ later) hub still over d =
    simp (ap (λ b. pass_if b sending hub) over) (run-silent later hub still.1 over d)

-- A connection to a hub whose task is done, and a pass without interruption.
run-restart :
    (sending : ℕ → Sending) (w : ℕ) (hub : Hub)
    → let members = add_member w hub.subscribers in
      hub.broadcast ≡ done
      → IsDistinct hub.subscribers
      → IsQuiet sending (length members)
      → run (changed (joined w) ∷ pass sending ∷ []) hub ≡ (
        record { subscribers = alive sending 0 members; broadcast = running },
        alive sending 0 members,
      )
unfolding run step change subscribe ensure
run-restart sending w hub over d quiet =
    let members = add_member w hub.subscribers in
    let joint : Hub = record { subscribers = members; broadcast = running } in
    let reached = alive sending 0 members in
    let restarted : subscribe w hub ≡ joint =
      ap (λ b. record { subscribers = members; broadcast = ensure b }) over in
    ap (λ (h : Hub). let r = pass_if h.broadcast sending h in (r.0, r.1 ++ [])) restarted
    ∙ ap (λ (r : Hub × List ℕ). (r.0, r.1 ++ []))
        (broadcast_round-delivers sending joint (add_member-IsDistinct w hub.subscribers d) quiet)
    ∙ ap (λ l. (record joint { subscribers = reached }, l)) (append-nil reached)

-- Let a pass be interrupted as its event goes to `x`, behind `xs`, because the set changes its size.
-- From then on nobody gets an event, however often sockets leave, until somebody connects. With the next
-- connection the task runs again: a pass without interruption reaches every socket of the set, the new
-- one included, to which the send succeeds.
pub run-resumes :
    (sending sending' : ℕ → Sending) (hub : Hub) (xs ys : List ℕ) (x w : ℕ) (later : List Step)
    → let after = changes ((sending (length xs)).meanwhile) hub in
      let stopped = (run (pass sending ∷ later) hub).0 in
      hub.broadcast ≡ running
      → IsDistinct hub.subscribers
      → hub.subscribers ≡ xs ++ x ∷ ys
      → IsQuiet sending (length xs)
      → length after.subscribers ≢ length hub.subscribers
      → All IsStill later
      → IsQuiet sending' (length (add_member w stopped.subscribers))
      → ((run (pass sending ∷ later) hub).1 ≡ alive sending 0 (xs ++ x ∷ []))
        × (stopped.broadcast ≡ done)
        × (run (changed (joined w) ∷ pass sending' ∷ []) stopped ≡ (
          record {
            subscribers = alive sending' 0 (add_member w stopped.subscribers);
            broadcast = running;
          },
          alive sending' 0 (add_member w stopped.subscribers),
        ))
unfolding run step change
run-resumes sending sending' hub xs ys x w later going d shape quiet grown still quiet' =
    let after = changes ((sending (length xs)).meanwhile) hub in
    let halted : Hub = record after { broadcast = done } in
    let first : step (pass sending) hub ≡ (halted, alive sending 0 (xs ++ x ∷ [])) =
      ap (λ b. pass_if b sending hub) going
      ∙ broadcast_round-interrupted sending hub xs ys x shape quiet grown in
    let same : (run (pass sending ∷ later) hub).0 ≡ (run later halted).0 =
      ap (λ (r : Hub × List ℕ). (run later r.0).0) first in
    let (none_later, over, distinct) =
      run-silent later halted still refl
        (changes-IsDistinct ((sending (length xs)).meanwhile) hub d) in
    (
      ap (λ (r : Hub × List ℕ). r.1 ++ (run later r.0).1) first
          ∙ ap (λ l. alive sending 0 (xs ++ x ∷ []) ++ l) none_later
          ∙ append-nil (alive sending 0 (xs ++ x ∷ [])),
      subst (λ (q : Hub). q.broadcast ≡ done) (sym same) over,
      run-restart sending' w (run (pass sending ∷ later) hub).0
          (subst (λ (q : Hub). q.broadcast ≡ done) (sym same) over)
          (subst (λ (q : Hub). IsDistinct q.subscribers) (sym same) distinct) quiet',
    )

-- ===== src/Sockets/Live.antt =====
-- middleware_python/websockets/live_data_ws.py: the set `_active_subscribers`, the task
-- `_broadcast_task` and the sessions of `ws_live_handler`, which change them between the steps of one
-- another: at each `await` other coroutines may run. A socket is a number that is not used again.
pub mod Members
pub mod Turns
pub mod Rounds
pub mod Runs
pub mod Sessions
use social_graph_engine.Base.{
  ℕ, zero, suc, ◌+◌, ◌-◌, Bool, true, false, not, ◌||◌, Option, none, some, List, [], ◌∷◌, ◌++◌,
  ◌==◌, length, Text, codes, text_eq, if◌then◌else◌,
}

-- `_broadcast_task`: None, a task that runs, a task that is done.
pub data Broadcast : Type 0 where
  absent running done : Broadcast

pub record Hub : Type 0 where
  pub subscribers : List ℕ
  pub broadcast : Broadcast

-- `__contains__`, `add` and `discard` of a set; its iteration follows the list.
unfoldable pub is_member : ℕ → List ℕ → Bool
is_member w [] = false
is_member w (x ∷ xs) = x == w || is_member w xs

unfoldable pub add_member : ℕ → List ℕ → List ℕ
unfolding is_member
add_member w xs = if is_member w xs then xs else xs ++ w ∷ []

unfoldable pub discard : ℕ → List ℕ → List ℕ
discard w [] = []
discard w (x ∷ xs) = if x == w then xs else x ∷ discard w xs

-- `if _broadcast_task is None or _broadcast_task.done()`
unfoldable pub ensure : Broadcast → Broadcast
ensure absent = running
ensure running = running
ensure done = running

-- `ws_live_handler` from `accept` to the first `await` behind it.
unfoldable pub subscribe : ℕ → Hub → Hub
unfolding add_member
subscribe w hub = record {
  subscribers = add_member w hub.subscribers;
  broadcast = ensure hub.broadcast;
}

-- The `finally` of `ws_live_handler`
unfoldable pub leave : ℕ → Hub → Hub
leave w hub = record hub { subscribers = discard w hub.subscribers }

-- What other coroutines do to the hub at an `await`.
pub data Change : Type 0 where
  joined left : ℕ → Change

unfoldable pub change : Change → Hub → Hub
unfolding subscribe leave
change (joined w) hub = subscribe w hub
change (left w) hub = leave w hub

unfoldable pub changes : List Change → Hub → Hub
changes [] hub = hub
changes (c ∷ later) hub = changes later (change c hub)

-- One `await ws.send_json(event)`: whether it succeeds, and what happens meanwhile.
pub record Sending : Type 0 where
  pub succeeds : Bool
  pub meanwhile : List Change

-- The loop over the subscribers: who got the event, `dead`, the hub, and whether the iterator raised.
pub record Sweep : Type 0 where
  pub reached : List ℕ
  pub dead : List ℕ
  pub hub : Hub
  pub raised : Bool

abbrev pub get_elem? : List ℕ → ℕ → Option ℕ
get_elem? [] i = none
get_elem? (x ∷ xs) zero = some x
get_elem? (x ∷ xs) (suc i) = get_elem? xs i

unfoldable pub mark : Bool → ℕ → List ℕ → List ℕ
mark true w xs = xs ++ w ∷ []
mark false w xs = xs

-- `_active_subscribers.discard(ws)` for each of `dead`
unfoldable pub discard_all : List ℕ → List ℕ → List ℕ
discard_all [] xs = xs
discard_all (w ∷ dead) xs = discard_all dead (discard w xs)

-- Behind a send to `w`.
unfoldable pub sent : ℕ → Sending → Sweep → Sweep
unfolding mark
sent w s sweep = record sweep {
  reached = mark s.succeeds w sweep.reached;
  dead = mark (not s.succeeds) w sweep.dead;
  hub = changes s.meanwhile sweep.hub;
}

unfoldable pub visit : Option ℕ → Sending → Sweep → Sweep
visit none s sweep = sweep
visit (some w) s sweep = sent w s sweep

-- `for ws in _active_subscribers`, behind `i` turns and before `rest` ones. At each step, the one that
-- would end it too, the iterator of a set raises RuntimeError if the set has not the size that it had
-- at its start.
unfoldable pub iterate : (ℕ → Sending) → (rest i size : ℕ) → Sweep → Sweep
iterate sending zero i size sweep =
    if length sweep.hub.subscribers == size then sweep else record sweep { raised = true }
iterate sending (suc rest) i size sweep =
    let next =
      iterate sending rest (suc i) size
        (visit (get_elem? sweep.hub.subscribers i) (sending i) sweep) in
    if length sweep.hub.subscribers == size then next else record sweep { raised = true }

-- Behind the loop: the dead are discarded; or the exception, which nothing catches, ends the task.
unfoldable pub finish : Bool → Sweep → Hub
finish true sweep = record sweep.hub { broadcast = done }
finish false sweep = record sweep.hub { subscribers = discard_all sweep.dead sweep.hub.subscribers }

-- A pass of `_broadcast_loop` from one sleep to the next: the hub, and who got the event.
unfoldable pub sweep_all : (ℕ → Sending) → Hub → Sweep
sweep_all sending hub =
    let size = length hub.subscribers in
    iterate sending size 0 size (record { reached = []; dead = []; hub = hub; raised = false })

unfoldable pub broadcast_round : (ℕ → Sending) → Hub → Hub × List ℕ
unfolding finish
broadcast_round sending hub =
    let sweep = sweep_all sending hub in
    if length hub.subscribers == 0 then (hub, []) else (finish sweep.raised sweep, sweep.reached)

-- What happens next: a change between the passes, or a pass, if the task runs.
pub data Step : Type 0 where
  changed : Change → Step
  pass : (ℕ → Sending) → Step

unfoldable pub pass_if : Broadcast → (ℕ → Sending) → Hub → Hub × List ℕ
pass_if absent sending hub = (hub, [])
pass_if running sending hub = broadcast_round sending hub
pass_if done sending hub = (hub, [])

unfoldable pub step : Step → Hub → Hub × List ℕ
unfolding pass_if
step (changed c) hub = (change c hub, [])
step (pass sending) hub = pass_if hub.broadcast sending hub

-- The hub, and all that got an event.
unfoldable pub run : List Step → Hub → Hub × List ℕ
run [] hub = (hub, [])
run (s ∷ steps) hub =
    let (hub', reached) = step s hub in
    let (hub'', later) = run steps hub' in (hub'', reached ++ later)

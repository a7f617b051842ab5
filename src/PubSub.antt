-- ===== src/PubSub.antt =====
-- The class `RedisPubSub` of middleware_python/services/pubsub.py.
-- `PubSub` is one client object; `tasks` are the asyncio tasks it has created, in the order of their
-- creation, each running `_listen_loop` for one channel. The public methods hold `_lock`, so each is
-- one step. A cancelled task that `stop` and `unsubscribe` wait for has ended.
pub mod Tasks
pub mod Lifecycle
pub mod Listen
mod Tests
use social_graph_engine.Base.{
  ℕ, zero, suc, ◌+◌, ◌≡◌, Bool, true, false, not, Option, none, some, List, [], ◌∷◌, ◌++◌, ◌==◌,
  if◌then◌else◌, length, Text, text_eq, codes, map,
}

-- An entry of `_subscriptions`: `{"handler": handler, "task": task}` under its channel.
pub record Subscription (H : Type 0) : Type 0 where
  pub channel : Text
  pub handler : H
  pub task : ℕ

pub record Task : Type 0 where
  pub channel : Text
  pub done : Bool

pub record PubSub (H : Type 0) : Type 0 where
  pub started : Bool
  pub running : Bool
  pub subscriptions : List (Subscription H)
  pub tasks : List Task

-- `task.cancel(); await task`, unless it is done.
unfoldable pub cancel : ℕ → List Task → List Task
cancel i [] = []
cancel zero (t ∷ tasks) = record t { done = true } ∷ tasks
cancel (suc i) (t ∷ tasks) = t ∷ cancel i tasks

-- A call on the client.
pub data Call (H : Type 0) : Type 0 where
  start_call stop_call : Call H
  subscribe_call : Text → H → Call H
  unsubscribe_call : Text → Call H

module _ {H : Type 0} where
  -- `__init__`
  unfoldable pub init : PubSub H
  init = record { started = false; running = false; subscriptions = []; tasks = [] }

  -- `start`
  unfoldable pub start : PubSub H → PubSub H
  start p = if p.started then p else record p { running = true; started = true }

  -- The loop of `stop` over the subscriptions.
  unfoldable pub cancel_all : List (Subscription H) → List Task → List Task
  cancel_all [] tasks = tasks
  cancel_all (s ∷ subs) tasks = cancel_all subs (cancel s.task tasks)

  -- `stop`
  unfoldable pub stop : PubSub H → PubSub H
  stop p = if not p.started then p else record p {
    running = false;
    started = false;
    subscriptions = [];
    tasks = cancel_all p.subscriptions p.tasks;
  }

  -- `self._subscriptions.get(channel)`
  unfoldable pub find : Text → List (Subscription H) → Option (Subscription H)
  find channel [] = none
  find channel (s ∷ subs) = if text_eq s.channel channel then some s else find channel subs

  -- `self._subscriptions.pop(channel, None)`, what stays
  unfoldable pub drop_channel : Text → List (Subscription H) → List (Subscription H)
  drop_channel channel [] = []
  drop_channel channel (s ∷ subs) =
      if text_eq s.channel channel then subs else s ∷ drop_channel channel subs

  -- `subscribe`
  unfoldable pub subscribe : Text → H → PubSub H → Bool × PubSub H
  subscribe channel handler p = elim (find channel p.subscriptions) [
    | some _ ↦ (true, p)
    | none ↦ if not p.running then (false, p) else (
      true,
      record p {
        subscriptions =
            p.subscriptions
            ++ record { channel = channel; handler = handler; task = length p.tasks } ∷ [];
        tasks = p.tasks ++ record { channel = channel; done = false } ∷ [];
      },
    )
  ]

  -- `unsubscribe`
  unfoldable pub unsubscribe : Text → PubSub H → Bool × PubSub H
  unsubscribe channel p = elim (find channel p.subscriptions) [
    | none ↦ (false, p)
    | some s ↦ (
      true,
      record p {
        subscriptions = drop_channel channel p.subscriptions;
        tasks = cancel s.task p.tasks;
      },
    )
  ]

  unfoldable pub call : Call H → PubSub H → PubSub H
  call start_call p = start p
  call stop_call p = stop p
  call (subscribe_call channel handler) p = (subscribe channel handler p).1
  call (unsubscribe_call channel) p = (unsubscribe channel p).1

  unfoldable pub run : List (Call H) → PubSub H → PubSub H
  run [] p = p
  run (c ∷ calls) p = run calls (call c p)

-- ===== src/PubSub/Tests.antt =====
-- Calls on a client, and rounds of its listening loop.
use social_graph_engine.Base.{
  ℕ, ◌+◌, ◌≡◌, refl, Bool, true, false, Option, none, List, [], ◌∷◌, Text, codes, text_eq,
}
use social_graph_engine.PubSub.{
  PubSub, Call, start_call, subscribe_call, init, start, stop, cancel, cancel_all, find,
  drop_channel, subscribe, unsubscribe, call, run,
}
use social_graph_engine.PubSub.Tasks.{IsValid}
use social_graph_engine.PubSub.Lifecycle.{run-IsValid}
use social_graph_engine.PubSub.Listen.{
  refused, lost, round, listen, times, Message, text, other, Event, session, is_data, parse,
}

program : Unit {0}
unfolding init start stop cancel cancel_all find drop_channel subscribe unsubscribe call run text_eq
    round listen session is_data parse
program = tt

abbrev calls : List (Call ℕ)
calls = start_call ∷ subscribe_call (1 ∷ []) 10 ∷ subscribe_call (2 ∷ []) 20 ∷ []

abbrev client : PubSub ℕ
client = run calls init

run-IsValid_example : IsValid client
run-IsValid_example = run-IsValid calls

seven_refusals : listen ((lost, true) ∷ times 7 refused) 32 ≡ 1 ∷ 2 ∷ 4 ∷ 8 ∷ 16 ∷ 32 ∷ 60 ∷ 60 ∷ []
unfolding program
seven_refusals = refl

-- A handler that counts, and raises at every message.
abbrev count : Text → Event ℕ → ℕ → Bool × ℕ
count channel event n = (false, n + 1)

abbrev no_json : Text → Option ℕ
no_json t = none

abbrev messages : List Message
messages =
    record { kind = codes "subscribe"; channel = []; payload = other }
    ∷ record { kind = codes "message"; channel = []; payload = text [] }
    ∷ record { kind = codes "pmessage"; channel = []; payload = other }
    ∷ []

two_delivered : session no_json count messages 0 ≡ 2
unfolding program
two_delivered = refl

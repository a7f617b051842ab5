-- ===== src/Sockets/Tests.antt =====
-- WebSocket sessions at concrete inputs.
use social_graph_engine.Base.{
  ℕ, zero, suc, ◌≡◌, ◌≢◌, ◌<◌, refl, arith, true, false, none, some, List, [], ◌∷◌, codes, take,
}
use social_graph_engine.Redis.Memory.{numerals, memory}
use social_graph_engine.Auth.State.{ok}
use social_graph_engine.Auth.Sample.{
  program, home, pair, crypto, crypto-IsSigned, settings, user, fresh, tables, without_redis,
}
use social_graph_engine.Access.{authenticate_jwt, Identity, jwt}
use social_graph_engine.Engine.{finished, exited}
use social_graph_engine.Engine.Sample.{sample_reader, pagerank}
use social_graph_engine.Sockets.{admission, accepted}
use social_graph_engine.Sockets.Tokens.{login-admission}
use social_graph_engine.Sockets.Analysis.{Received, message, run_session}
use social_graph_engine.Sockets.Analysis.Replies.{transcript, run_session_lem}
use social_graph_engine.Sockets.Live.{
  running, done, Hub, changed, pass, joined, left, Sending, run, broadcast_round, add_member,
  is_member, changes, change, subscribe, ensure, discard, leave, step, pass_if, iterate, visit,
  sent, mark, discard_all, finish, sweep_all,
}
use social_graph_engine.Sockets.Live.Turns.{alive}
use social_graph_engine.Sockets.Live.Rounds.{broadcast_round-delivers}
use social_graph_engine.Sockets.Live.Runs.{run-resumes}

live : Unit {0}
unfolding run step change subscribe ensure discard leave pass_if broadcast_round iterate visit sent
    mark discard_all finish sweep_all add_member is_member changes
live = tt

-- Three sockets; the send to the second one fails.
abbrev three : Hub
three = record { subscribers = 1 ∷ 2 ∷ 3 ∷ []; broadcast = running }

abbrev second_fails : ℕ → Sending
second_fails zero = record { succeeds = true; meanwhile = [] }
second_fails (suc zero) = record { succeeds = false; meanwhile = [] }
second_fails (suc (suc _)) = record { succeeds = true; meanwhile = [] }

second_fails-quiet : (i : ℕ) → (second_fails i).meanwhile ≡ []
second_fails-quiet zero = refl
second_fails-quiet (suc zero) = refl
second_fails-quiet (suc (suc _)) = refl

broadcast_round-delivers_example :
    broadcast_round second_fails three
    ≡ (record three { subscribers = alive second_fails 0 (three.subscribers) }, 1 ∷ 3 ∷ [])
unfolding live
broadcast_round-delivers_example =
    broadcast_round-delivers second_fails three (refl, (refl, (refl, tt)))
      (λ i lt. second_fails-quiet i)

-- Socket 4 connects while the event is sent to socket 2.
abbrev interrupted : ℕ → Sending
interrupted zero = record { succeeds = true; meanwhile = [] }
interrupted (suc zero) = record { succeeds = true; meanwhile = joined 4 ∷ [] }
interrupted (suc (suc _)) = record { succeeds = true; meanwhile = [] }

interrupted-quiet : (i : ℕ) → i < 1 → (interrupted i).meanwhile ≡ []
interrupted-quiet zero lt = refl
interrupted-quiet (suc i) lt = absurd (omega arith)

-- Then socket 1 leaves and socket 5 connects.
abbrev stopped : Hub
stopped = (run (pass interrupted ∷ changed (left 1) ∷ []) three).0

run-resumes_example :
    ((run (pass interrupted ∷ changed (left 1) ∷ []) three).1 ≡ 1 ∷ 2 ∷ [])
    × (stopped.broadcast ≡ done)
    × (run (changed (joined 5) ∷ pass second_fails ∷ []) stopped ≡ (
      record {
        subscribers = alive second_fails 0 (add_member 5 stopped.subscribers);
        broadcast = running;
      },
      alive second_fails 0 (add_member 5 stopped.subscribers),
    ))
unfolding live
run-resumes_example =
    run-resumes interrupted second_fails three (1 ∷ []) (3 ∷ []) 2 5 (changed (left 1) ∷ []) refl
      (refl, (refl, (refl, tt))) refl interrupted-quiet (omega arith) (tt, tt)
      (λ i lt. second_fails-quiet i)

run-resumes_reached : (run (changed (joined 5) ∷ pass second_fails ∷ []) stopped).1 ≡ 2 ∷ 4 ∷ 5 ∷ []
unfolding live
run-resumes_reached = refl

abbrev session : List Received
session =
    message [] (exited (codes "1") []) ∷ message (codes "pagerank") (finished (codes "{}")) ∷ []

run_session_lem_example :
    (run_session sample_reader
      (λ c. pagerank)
      []
      []
      session
      (record { arrived = []; left = 2 })).arrived
    ≡ take 2 (transcript sample_reader (λ c. pagerank) [] [] session)
run_session_lem_example = run_session_lem sample_reader (λ c. pagerank) [] [] session 2 []

abbrev viewer : Identity
viewer = record { user_id = user.id; role = user.role; auth_method = jwt; jti = none }

login-admission_example :
    (admission crypto 200 (some pair.access_token) ≡ accepted user.id)
    × (admission crypto 2000 (some pair.refresh_token) ≡ accepted user.id)
    × ((authenticate_jwt memory crypto 2000 pair.refresh_token home).0 ≢ ok viewer)
unfolding program
login-admission_example =
    login-admission memory crypto numerals settings 100 200 2000 (fresh 1) user.email
      user.password_hash [] [] (without_redis tables) home home pair user viewer _ _ _ _
      crypto-IsSigned refl refl refl (omega arith) (omega arith)

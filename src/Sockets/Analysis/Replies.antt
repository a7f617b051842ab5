-- ===== src/Sockets/Analysis/Replies.antt =====
-- The frames that a session of `ws_analysis_handler` (middleware_python/websockets/analysis_ws.py) owes
-- its client.
use social_graph_engine.Base.{
  ℕ, zero, suc, ◌≡◌, refl, sym, ◌∙◌, ap, Option, none, some, List, [], ◌∷◌, ◌++◌, take, Text,
  if◌then◌else◌, arith, length, ◌-◌, ◌≤◌,
}
use mathlib.Core.List.{append_assoc, append-nil}
use social_graph_engine.Engine.{
  Process, dict, other, Execution, answered, failed, Reader, Command, execute_command,
}
use social_graph_engine.Sockets.Analysis.{
  Received, message, disconnected, broken, Frame, no_command, running, completed, refused, internal,
  Wire, Ran, on, raised, send_left, send, next, rescue, is_success, message_of, send_answer,
  send_execution, run_command, handle, turn, session, close_session, run_session,
}

-- Lists cut within their first part or behind it.
take-append_whole :
    {A : Type 0} (xs ys : List A) (n : ℕ)
    → length xs ≤ n
    → take n (xs ++ ys) ≡ xs ++ take (n - length xs) ys
take-append_whole [] ys n le = ap (λ m. take m ys) (omega arith)
take-append_whole (x ∷ xs) ys zero le = absurd (omega arith)
take-append_whole (x ∷ xs) ys (suc n) le = ap (◌∷◌ x) (
    take-append_whole xs ys n (omega arith)
    ∙ ap (λ m. xs ++ take m ys) {x = n - length xs} {y = suc n - suc (length xs)} (omega arith))

take-append_cut :
    {A : Type 0} (xs ys : List A) (n : ℕ) → n ≤ length xs → take n (xs ++ ys) ≡ take n xs
take-append_cut xs ys zero le = refl
take-append_cut [] ys (suc n) le = absurd (omega arith)
take-append_cut (x ∷ xs) ys (suc n) le = ap (◌∷◌ x) (take-append_cut xs ys n (omega arith))

module _ {J : Type 0} (P : Reader J) (settings : Text → Command) (gone no_get : Text) where
  -- The last frame for a command.
  abbrev pub verdict : Text → Execution J → Frame J
  verdict command (failed k text) = refused command text none
  verdict command (answered (other j)) = refused command no_get none
  verdict command (answered (dict status text j)) =
      if is_success status
      then completed command (dict status text j)
      else refused command (message_of text) (some (dict status text j))

  abbrev pub replies : Text → Process → List (Frame J)
  replies [] p = no_command ∷ []
  replies (c ∷ cs) p =
      running (c ∷ cs) ∷ verdict (c ∷ cs) (execute_command P (settings (c ∷ cs)) p) ∷ []

  -- All frames of a session whose client stays.
  abbrev pub transcript : List Received → List (Frame J)
  transcript [] = []
  transcript (disconnected ∷ _) = []
  transcript (broken e ∷ _) = internal e ∷ []
  transcript (message command p ∷ later) = replies command p ++ transcript later

  -- The second frame of a command, with its `try`.
  verdict_sent :
      (command : Text) (x : Execution J) (n : ℕ) (arrived : List (Frame J))
      → rescue
          (send_execution P settings gone no_get command x
            (record { arrived = arrived; left = suc n }))
          (λ e. send gone (refused command e none))
        ≡ (on, record { arrived = arrived ++ verdict command x ∷ []; left = n })
  unfolding rescue send_execution send_answer send send_left
  verdict_sent command (failed k text) n arrived = refl
  verdict_sent command (answered (other j)) n arrived = refl
  verdict_sent command (answered (dict status text j)) n arrived = ground arith

  verdict_cut :
      (command : Text) (x : Execution J) (arrived : List (Frame J))
      → rescue
          (send_execution P settings gone no_get command x (record { arrived = arrived; left = 0 }))
          (λ e. send gone (refused command e none))
        ≡ (raised gone, record { arrived = arrived; left = 0 })
  unfolding rescue send_execution send_answer send send_left
  verdict_cut command (failed k text) arrived = refl
  verdict_cut command (answered (other j)) arrived = refl
  verdict_cut command (answered (dict status text j)) arrived = ground arith

  -- All frames of a message arrive, or the wire is cut within them and the turn raises.
  data Sent (fs : List (Frame J)) (n : ℕ) (arrived : List (Frame J)) : Ran × Wire J → Type 0 where
    whole :
        (r : Ran × Wire J)
        → length fs ≤ n
        → r ≡ (on, record { arrived = arrived ++ fs; left = n - length fs })
        → Sent fs n arrived r
    cut :
        (r : Ran × Wire J) (e : Text)
        → n ≤ length fs
        → r ≡ (raised e, record { arrived = arrived ++ take n fs; left = 0 })
        → Sent fs n arrived r

  handle-Sent :
      (command : Text) (p : Process) (n : ℕ) (arrived : List (Frame J))
      → Sent
          (replies command p)
          n
          arrived
          (handle P settings gone no_get command p (record { arrived = arrived; left = n }))
  unfolding handle send send_left next run_command
  handle-Sent [] p zero arrived = cut _ gone (omega arith) (ground (arith, append-nil arrived))
  handle-Sent [] p (suc n) arrived = whole _ (omega arith) (ground arith)
  handle-Sent (c ∷ cs) p zero arrived =
      cut _ gone (omega arith) (ground (arith, append-nil arrived))
  handle-Sent (c ∷ cs) p (suc zero) arrived = cut _ gone (omega arith) (
      verdict_cut (c ∷ cs) (execute_command P (settings (c ∷ cs)) p)
        (arrived ++ running (c ∷ cs) ∷ []))
  handle-Sent (c ∷ cs) p (suc (suc n)) arrived =
      let x = execute_command P (settings (c ∷ cs)) p in
      whole _ (omega arith) (
        verdict_sent (c ∷ cs) x n (arrived ++ running (c ∷ cs) ∷ [])
        ∙ ap (λ fs. (on, record { arrived = fs; left = n }))
            (append_assoc arrived (running (c ∷ cs) ∷ []) (verdict (c ∷ cs) x ∷ []))
        ∙ ap (λ m. (on, record { arrived = arrived ++ replies (c ∷ cs) p; left = m })) {x = n}
            {y = suc (suc n) - 2} (omega arith))

  turn_arrived :
      (fs rest : List (Frame J)) (n : ℕ) (arrived : List (Frame J)) (r : Ran × Wire J)
      (later : Wire J → Option Text × Wire J)
      → Sent fs n arrived r
      → ((m : ℕ) (before : List (Frame J))
          → (close_session P settings gone no_get
              (later (record { arrived = before; left = m }))).arrived
            ≡ before ++ take m rest)
      → (close_session P settings gone no_get (turn P settings gone no_get r later)).arrived
        ≡ arrived ++ take n (fs ++ rest)
  unfolding turn close_session send send_left
  turn_arrived fs rest n arrived r later (whole _ le e) more = rw e (
      more (n - length fs) (arrived ++ fs)
      ∙ append_assoc arrived fs (take (n - length fs) rest)
      ∙ ap (λ gs. arrived ++ gs) (sym (take-append_whole fs rest n le)))
  turn_arrived fs rest n arrived r later (cut _ text le e) more =
      rw e (ap (λ gs. arrived ++ gs) (sym (take-append_cut fs rest n le)))

  last_arrived :
      (frame : Frame J) (n : ℕ) (arrived : List (Frame J))
      → (send gone frame (record { arrived = arrived; left = n })).1.arrived
        ≡ arrived ++ take n (frame ∷ [])
  unfolding send send_left
  last_arrived frame zero arrived = sym (append-nil arrived)
  last_arrived frame (suc zero) arrived = refl
  last_arrived frame (suc (suc n)) arrived = refl

  -- Whenever the client goes, what has reached it is a beginning of the frames that its messages ask
  -- for: for each message, in order, one error where the command is missing, or else `running` and one
  -- final frame, the result or an error; and a last error if the messages end in an exception. If `n`
  -- sends succeed, exactly the first `n` of these frames arrive; none is sent twice or out of order.
  pub run_session_lem :
      (received : List Received) (n : ℕ) (arrived : List (Frame J))
      → (run_session P settings gone no_get received
          (record { arrived = arrived; left = n })).arrived
        ≡ arrived ++ take n (transcript received)
  unfolding run_session session close_session
  run_session_lem [] zero arrived = sym (append-nil arrived)
  run_session_lem [] (suc n) arrived = sym (append-nil arrived)
  run_session_lem (disconnected ∷ _) zero arrived = sym (append-nil arrived)
  run_session_lem (disconnected ∷ _) (suc n) arrived = sym (append-nil arrived)
  run_session_lem (broken e ∷ _) n arrived = last_arrived (internal e) n arrived
  run_session_lem (message command p ∷ later) n arrived =
      turn_arrived (replies command p) (transcript later) n arrived
        (handle P settings gone no_get command p (record { arrived = arrived; left = n }))
        (session P settings gone no_get later) (handle-Sent command p n arrived)
        (run_session_lem later)

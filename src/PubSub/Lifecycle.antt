-- ===== src/PubSub/Lifecycle.antt =====
-- The life of the subscriptions and of their tasks in services/pubsub.py: each public method keeps the
-- invariant, and what `stop`, `subscribe` and `unsubscribe` do.
use social_graph_engine.Base.{
  ℕ, ◌≡◌, refl, ◌≢◌, true, false, none, some, List, [], ◌∷◌, ◌++◌, arith, length, Option-cases,
  Bool-cases, inl, inr, Text, text_eq, text_eq_refl,
}
use social_graph_engine.PubSub.{
  PubSub, Subscription, Call, start_call, stop_call, subscribe_call, unsubscribe_call, init, start,
  stop, cancel_all, find, drop_channel, subscribe, unsubscribe, call, run,
}
use social_graph_engine.PubSub.Tasks.{
  done_at, owned, IsValid, done_at-cancel, done_at-append, done_at-past, owned-append,
  done_at-cancel_all, IsDistinct-append, owned-drop_channel, IsDistinct-drop_channel,
  find-drop_self, find-drop_ne,
}

module _ {H : Type 0} where
  init-IsValid : IsValid (init {H = H})
  unfolding init
  init-IsValid = record { agree = refl; quiet = inr refl; distinct = tt; live = λ i. refl }

  start-IsValid : (p : PubSub H) → IsValid p → IsValid (start p)
  unfolding start
  start-IsValid p v = elim (Bool-cases p.started) [
    | inl on ↦ simp on v
    | inr off ↦
        simp off (record { agree = refl; quiet = inl refl; distinct = v.distinct; live = v.live })
  ]

  stopped_done :
      (p : PubSub H) → IsValid p → (i : ℕ) → done_at i (cancel_all p.subscriptions p.tasks) ≡ true
  stopped_done p v i = ground (arith, done_at-cancel_all i p.subscriptions p.tasks, v.live i)

  stop-IsValid : (p : PubSub H) → IsValid p → IsValid (stop p)
  unfolding stop
  stop-IsValid p v = elim (Bool-cases p.started) [
    | inl on ↦ simp on (record {
      agree = refl;
      quiet = inr refl;
      distinct = tt;
      live = λ i. ground (arith, stopped_done p v i);
    })
    | inr off ↦ simp off v
  ]

  -- `stop` leaves no subscription, and no listening task runs on: whatever was subscribed, every
  -- task that the client ever created has ended.
  pub stop-quiet :
      (p : PubSub H) (i : ℕ)
      → IsValid p
      → ((stop p).subscriptions ≡ [])
        × ((stop p).running ≡ false)
        × (done_at i (stop p).tasks ≡ true)
  unfolding stop
  stop-quiet p i v = elim (Bool-cases p.started) [
    | inl on ↦ simp on (refl, refl, stopped_done p v i)
    | inr off ↦
        let none_left : p.subscriptions ≡ [] = ground (arith, v.agree, v.quiet) in
        simp off (none_left, ground (arith, v.agree), ground (arith, v.live i))
  ]

  subscribe-IsValid : (c : Text) (h : H) (p : PubSub H) → IsValid p → IsValid (subscribe c h p).1
  unfolding subscribe
  subscribe-IsValid c h p v = elim (Option-cases (find c p.subscriptions)) [
    | inr (s, hit) ↦ rw (hit, subscribe) v
    | inl miss ↦
        rw (miss, subscribe)
          (elim (Bool-cases p.running) [
            | inr off ↦ simp off v
            | inl on ↦ simp on (record {
              agree = ground (arith, v.agree);
              quiet = inl refl;
              distinct = IsDistinct-append p.subscriptions _ v.distinct miss fresh;
              live = λ i. ground (
                arith,
                v.live i,
                done_at-append i p.tasks (record { channel = c; done = false }),
                owned-append i p.subscriptions
                    (record { channel = c; handler = h; task = length p.tasks }),
                done_at-past i p.tasks,
              );
            })
          ])
  ]
    where
      fresh : owned (length p.tasks) p.subscriptions ≡ false
      fresh =
          ground
            (arith, v.live (length p.tasks), done_at-past (length p.tasks) p.tasks (omega arith))

  drop_empty : (c : Text) (subs : List (Subscription H)) → subs ≡ [] → drop_channel c subs ≡ []
  unfolding drop_channel
  drop_empty c [] e = refl
  drop_empty c (u ∷ subs) e = cc

  find_empty : (c : Text) (subs : List (Subscription H)) → subs ≡ [] → find c subs ≡ none
  unfolding find
  find_empty c [] e = refl
  find_empty c (u ∷ subs) e = cc

  find-append_self :
      (subs : List (Subscription H)) (s : Subscription H)
      → find s.channel subs ≡ none
      → find s.channel (subs ++ s ∷ []) ≡ some s
  unfolding find
  find-append_self [] s h = ground (arith, text_eq_refl s.channel)
  find-append_self (u ∷ subs) s h = ground (arith, find-append_self subs s)

  unsubscribe-IsValid : (c : Text) (p : PubSub H) → IsValid p → IsValid (unsubscribe c p).1
  unfolding unsubscribe
  unsubscribe-IsValid c p v = elim (Option-cases (find c p.subscriptions)) [
    | inl miss ↦ rw (miss, unsubscribe) v
    | inr (s, hit) ↦
        rw (hit, unsubscribe)
          (record {
            agree = v.agree;
            quiet = elim v.quiet [ inl on ↦ inl on | inr e ↦ inr (drop_empty c p.subscriptions e) ];
            distinct = IsDistinct-drop_channel c p.subscriptions v.distinct;
            live = λ i. ground (
              arith,
              v.live i,
              owned-drop_channel c i p.subscriptions v.distinct hit,
              done_at-cancel s.task i p.tasks,
            );
          })
  ]

  call-IsValid : (c : Call H) (p : PubSub H) → IsValid p → IsValid (call c p)
  unfolding call
  call-IsValid start_call p v = start-IsValid p v
  call-IsValid stop_call p v = stop-IsValid p v
  call-IsValid (subscribe_call c h) p v = subscribe-IsValid c h p v
  call-IsValid (unsubscribe_call c) p v = unsubscribe-IsValid c p v

  run_from-IsValid : (calls : List (Call H)) (p : PubSub H) → IsValid p → IsValid (run calls p)
  unfolding run
  run_from-IsValid [] p v = v
  run_from-IsValid (c ∷ calls) p v = run_from-IsValid calls (call c p) (call-IsValid c p v)

  -- After any sequence of calls on a new client: nothing is subscribed while it is stopped, no
  -- channel is subscribed twice, and a listening task is alive exactly while a subscription holds it.
  pub run-IsValid : (calls : List (Call H)) → IsValid (run calls init)
  run-IsValid calls = run_from-IsValid calls init init-IsValid

  -- `unsubscribe` of a subscribed channel ends its task and frees the channel; every other channel
  -- `k` keeps its subscription, and every other task `i` its status.
  pub unsubscribe_lem :
      (c k : Text) (i : ℕ) (p : PubSub H) {s : Subscription H}
      → IsValid p
      → find c p.subscriptions ≡ some s
      → text_eq k c ≡ false
      → s.task ≢ i
      → let (answer, p') = unsubscribe c p in
        (answer ≡ true)
        × (find c p'.subscriptions ≡ none)
        × (done_at s.task p'.tasks ≡ true)
        × (find k p'.subscriptions ≡ find k p.subscriptions)
        × (done_at i p'.tasks ≡ done_at i p.tasks)
  unfolding unsubscribe
  unsubscribe_lem c k i p {s} v hit ne other =
      rw (hit, unsubscribe)
        (
          refl,
          find-drop_self c p.subscriptions v.distinct,
          ground (arith, done_at-cancel s.task s.task p.tasks),
          find-drop_ne c k p.subscriptions ne,
          ground (arith, done_at-cancel s.task i p.tasks),
        )

  subscribed-subscribe :
      (c : Text) (h : H) (p : PubSub H)
      → p.running ≡ true
      → ((subscribe c h p).0 ≡ true)
        × ((s : Subscription H) × (find c (subscribe c h p).1.subscriptions ≡ some s))
  unfolding subscribe
  subscribed-subscribe c h p on = elim (Option-cases (find c p.subscriptions)) [
    | inr (s, hit) ↦ rw (hit, subscribe) (refl, (s, hit))
    | inl miss ↦ rw (miss, subscribe) (simp on (refl, (_, find-append_self p.subscriptions _ miss)))
  ]

  subscribe_hit :
      (c : Text) (h : H) (p : PubSub H) {s : Subscription H}
      → find c p.subscriptions ≡ some s
      → subscribe c h p ≡ (true, p)
  unfolding subscribe
  subscribe_hit c h p hit = rw (hit, subscribe)

  -- On a running client `subscribe` answers true, the channel is then subscribed, and asking again,
  -- with whatever handler, changes nothing.
  pub subscribe-running :
      (c : Text) (h h' : H) (p : PubSub H)
      → p.running ≡ true
      → ((subscribe c h p).0 ≡ true)
        × (subscribe c h' (subscribe c h p).1 ≡ (true, (subscribe c h p).1))
  subscribe-running c h h' p on =
      let (answer, (s, hit)) = subscribed-subscribe c h p on in
      (answer, subscribe_hit c h' (subscribe c h p).1 hit)

  -- On a stopped client `subscribe` refuses and starts no task.
  pub subscribe-stopped :
      (c : Text) (h : H) (p : PubSub H)
      → IsValid p
      → p.running ≡ false
      → subscribe c h p ≡ (false, p)
  unfolding subscribe
  subscribe-stopped c h p v off =
      rw (find_empty c p.subscriptions (ground (arith, v.quiet)), subscribe) (simp off)

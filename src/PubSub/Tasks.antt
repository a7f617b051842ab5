-- ===== src/PubSub/Tasks.antt =====
-- Lemmas on the tasks and the subscriptions of services/pubsub.py, and the invariant of the client.
use social_graph_engine.Base.{
  ℕ, zero, suc, ◌≤◌, ◌≡◌, refl, Bool, true, false, not, ◌||◌, ◌&&◌, none, some, List, [], ◌∷◌, ◌++◌,
  arith, length, Bool-cases, inl, inr, ◌==◌, ◌⊎◌, Text, text_eq, text_eq_iff, text_eq_sound,
  if◌then◌else◌,
}
use social_graph_engine.PubSub.{PubSub, Subscription, Task, cancel, cancel_all, find, drop_channel}

-- Whether task `i` has ended (or was never created).
abbrev pub done_at : ℕ → List Task → Bool
done_at i [] = true
done_at zero (t ∷ tasks) = t.done
done_at (suc i) (t ∷ tasks) = done_at i tasks

-- Whether a subscription holds task `i`.
abbrev pub owned : {H : Type 0} → ℕ → List (Subscription H) → Bool
owned i [] = false
owned i (s ∷ subs) = s.task == i || owned i subs

-- No channel and no task stands in two subscriptions.
abbrev pub IsDistinct : {H : Type 0} → List (Subscription H) → Type 0
IsDistinct [] = Unit
IsDistinct (s ∷ subs) = (find s.channel subs ≡ none) × (owned s.task subs ≡ false) × IsDistinct subs

pub record IsValid {H : Type 0} (p : PubSub H) : Type 0 where
  pub agree : p.started ≡ p.running
  pub quiet : (p.running ≡ true) ⊎ (p.subscriptions ≡ [])
  pub distinct : IsDistinct p.subscriptions
  pub live : (i : ℕ) → owned i p.subscriptions ≡ not (done_at i p.tasks)

pub done_at-cancel :
    (i j : ℕ) (tasks : List Task) → done_at j (cancel i tasks) ≡ (i == j || done_at j tasks)
unfolding cancel
done_at-cancel i j [] = ground arith
done_at-cancel zero zero (t ∷ tasks) = refl
done_at-cancel zero (suc j) (t ∷ tasks) = ground arith
done_at-cancel (suc i) zero (t ∷ tasks) = ground arith
done_at-cancel (suc i) (suc j) (t ∷ tasks) = ground (arith, done_at-cancel i j tasks)

pub done_at-append :
    (j : ℕ) (tasks : List Task) (t : Task)
    → done_at j (tasks ++ t ∷ []) ≡ (if length tasks == j then t.done else done_at j tasks)
done_at-append zero [] t = refl
done_at-append (suc j) [] t = ground arith
done_at-append zero (u ∷ tasks) t = ground arith
done_at-append (suc j) (u ∷ tasks) t = ground (arith, done_at-append j tasks t)

pub done_at-past : (j : ℕ) (tasks : List Task) → length tasks ≤ j → done_at j tasks ≡ true
done_at-past j [] h = refl
done_at-past zero (t ∷ tasks) h = absurd (omega arith)
done_at-past (suc j) (t ∷ tasks) h = done_at-past j tasks (omega arith)

module _ {H : Type 0} where
  pub owned-append :
      (j : ℕ) (subs : List (Subscription H)) (s : Subscription H)
      → owned j (subs ++ s ∷ []) ≡ (owned j subs || s.task == j)
  owned-append j [] s = ground arith
  owned-append j (u ∷ subs) s = ground (arith, owned-append j subs s)

  pub done_at-cancel_all :
      (j : ℕ) (subs : List (Subscription H)) (tasks : List Task)
      → done_at j (cancel_all subs tasks) ≡ (owned j subs || done_at j tasks)
  unfolding cancel_all
  done_at-cancel_all j [] tasks = refl
  done_at-cancel_all j (s ∷ subs) tasks =
      ground (arith, done_at-cancel_all j subs (cancel s.task tasks), done_at-cancel s.task j tasks)

  pub find-append :
      (c : Text) (subs : List (Subscription H)) (s : Subscription H)
      → find c subs ≡ none
      → text_eq s.channel c ≡ false
      → find c (subs ++ s ∷ []) ≡ none
  unfolding find
  find-append c [] s h ne = ground arith
  find-append c (u ∷ subs) s h ne = ground (arith, find-append c subs s)

  pub IsDistinct-append :
      (subs : List (Subscription H)) (s : Subscription H)
      → IsDistinct subs
      → find s.channel subs ≡ none
      → owned s.task subs ≡ false
      → IsDistinct (subs ++ s ∷ [])
  unfolding find
  IsDistinct-append [] s d c t = (refl, refl, tt)
  IsDistinct-append (u ∷ subs) s d c t = (
    find-append u.channel subs s d.0
        (ground (arith, text_eq_iff s.channel u.channel, text_eq_iff u.channel s.channel)),
    ground (arith, owned-append u.task subs s),
    IsDistinct-append subs s d.2 (ground arith) (ground arith),
  )

  pub found_owned :
      (c : Text) (subs : List (Subscription H)) {s : Subscription H}
      → find c subs ≡ some s
      → owned s.task subs ≡ true
  unfolding find
  found_owned c [] e = cc
  found_owned c (u ∷ subs) {s} e = ground (arith, found_owned c subs {s = s})

  pub owned-drop_channel :
      (c : Text) (j : ℕ) (subs : List (Subscription H)) {s : Subscription H}
      → IsDistinct subs
      → find c subs ≡ some s
      → owned j (drop_channel c subs) ≡ (owned j subs && not (s.task == j))
  unfolding find drop_channel
  owned-drop_channel c j [] d e = cc
  owned-drop_channel c j (u ∷ subs) {s} d e = elim (Bool-cases (text_eq u.channel c)) [
    | inl hit ↦ elim (Bool-cases (s.task == j)) [
      | inl same ↦ ground arith
      | inr other ↦ ground arith
    ]
    | inr miss ↦ ground (arith, owned-drop_channel c j subs {s = s} d.2, found_owned c subs {s = s})
  ]

  pub find-drop_none :
      (c k : Text) (subs : List (Subscription H))
      → find k subs ≡ none
      → find k (drop_channel c subs) ≡ none
  unfolding find drop_channel
  find-drop_none c k [] h = refl
  find-drop_none c k (u ∷ subs) h = ground (arith, find-drop_none c k subs)

  pub owned-drop_false :
      (c : Text) (j : ℕ) (subs : List (Subscription H))
      → owned j subs ≡ false
      → owned j (drop_channel c subs) ≡ false
  unfolding drop_channel
  owned-drop_false c j [] h = refl
  owned-drop_false c j (u ∷ subs) h = ground (arith, owned-drop_false c j subs)

  pub IsDistinct-drop_channel :
      (c : Text) (subs : List (Subscription H)) → IsDistinct subs → IsDistinct (drop_channel c subs)
  unfolding drop_channel
  IsDistinct-drop_channel c [] d = tt
  IsDistinct-drop_channel c (u ∷ subs) d = elim (Bool-cases (text_eq u.channel c)) [
    | inl hit ↦ rw hit d.2
    | inr miss ↦ rw miss (
      find-drop_none c u.channel subs d.0,
      owned-drop_false c u.task subs d.1,
      IsDistinct-drop_channel c subs d.2,
    )
  ]

  -- The channel is gone once its subscription is dropped.
  pub find-drop_self :
      (c : Text) (subs : List (Subscription H))
      → IsDistinct subs
      → find c (drop_channel c subs) ≡ none
  unfolding find drop_channel
  find-drop_self c [] d = refl
  find-drop_self c (u ∷ subs) d =
      ground (arith, find-drop_self c subs d.2, text_eq_sound u.channel c)

  pub find-drop_ne :
      (c k : Text) (subs : List (Subscription H))
      → text_eq k c ≡ false
      → find k (drop_channel c subs) ≡ find k subs
  unfolding find drop_channel
  find-drop_ne c k [] ne = refl
  find-drop_ne c k (u ∷ subs) ne = ground (
    arith,
    find-drop_ne c k subs,
    text_eq_iff u.channel c,
    text_eq_iff u.channel k,
    text_eq_iff k c,
  )

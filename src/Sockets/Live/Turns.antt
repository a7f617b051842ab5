-- ===== src/Sockets/Live/Turns.antt =====
-- The turns of the loop over the subscribers in `_broadcast_loop`
-- (middleware_python/websockets/live_data_ws.py) in which nothing else happens.
use social_graph_engine.Base.{
  ℕ, zero, suc, ◌+◌, ◌<◌, ◌≤◌, ◌≡◌, ◌≢◌, refl, sym, ◌∙◌, ap, Bool, true, false, not, some, List, [],
  ◌∷◌, ◌++◌, length, arith, ==_iff, length-append,
}
use mathlib.Core.List.{append_assoc, append-nil}
use social_graph_engine.Sockets.Live.{
  Hub, changes, Sending, Sweep, get_elem?, mark, sent, visit, iterate,
}

abbrev pub keep_if : Bool → ℕ → List ℕ → List ℕ
keep_if true x xs = x ∷ xs
keep_if false x xs = xs

-- Of `xs`, visited from turn `i` on, those to which the send succeeds, and those to which it fails.
abbrev pub alive : (ℕ → Sending) → ℕ → List ℕ → List ℕ
alive sending i [] = []
alive sending i (x ∷ xs) = keep_if ((sending i).succeeds) x (alive sending (suc i) xs)

abbrev pub failing : (ℕ → Sending) → ℕ → List ℕ → List ℕ
failing sending i [] = []
failing sending i (x ∷ xs) = keep_if (not ((sending i).succeeds)) x (failing sending (suc i) xs)

-- `length xs + r`, which computes on `xs`.
abbrev pub count_up : List ℕ → ℕ → ℕ
count_up [] r = r
count_up (x ∷ xs) r = suc (count_up xs r)

pub count_up_lem : (xs ys : List ℕ) → count_up xs (length ys) ≡ length (xs ++ ys)
count_up_lem [] ys = refl
count_up_lem (x ∷ xs) ys = ap suc (count_up_lem xs ys)

pub count_up_zero : (xs : List ℕ) → count_up xs 0 ≡ length xs
count_up_zero [] = refl
count_up_zero (x ∷ xs) = ap suc (count_up_zero xs)

pub get_elem?-middle :
    (before xs : List ℕ) (x : ℕ) → get_elem? (before ++ x ∷ xs) (length before) ≡ some x
get_elem?-middle [] xs x = refl
get_elem?-middle (y ∷ before) xs x = get_elem?-middle before xs x

pub mark-keep_if : (b : Bool) (x : ℕ) (xs ys : List ℕ) → mark b x xs ++ ys ≡ xs ++ keep_if b x ys
unfolding mark
mark-keep_if true x xs ys = append_assoc xs (x ∷ []) ys
mark-keep_if false x xs ys = refl

pub iterate_step :
    (sending : ℕ → Sending) (rest i size x : ℕ) (sweep : Sweep)
    → length sweep.hub.subscribers ≡ size
    → get_elem? sweep.hub.subscribers i ≡ some x
    → iterate sending (suc rest) i size sweep
      ≡ iterate sending rest (suc i) size (sent x (sending i) sweep)
unfolding iterate visit
iterate_step sending rest i size x sweep same here =
    rw ((==_iff (length sweep.hub.subscribers) size).1 same, here) refl

abbrev pub so_far : List ℕ → List ℕ → Hub → Sweep
so_far reached dead hub = record { reached = reached; dead = dead; hub = hub; raised = false }

sent_quiet :
    (x : ℕ) (s : Sending) (reached dead : List ℕ) (hub : Hub)
    → s.meanwhile ≡ []
    → sent x s (so_far reached dead hub)
      ≡ so_far (mark s.succeeds x reached) (mark (not s.succeeds) x dead) hub
unfolding sent changes
sent_quiet x s reached dead hub quiet = ground arith

-- Turns in which nothing else happens.
abbrev pub IsQuiet : (ℕ → Sending) → ℕ → Type 0
IsQuiet sending n = (i : ℕ) → i < n → (sending i).meanwhile ≡ []

pub iterate_quiet :
    (sending : ℕ → Sending) (before xs ys reached dead : List ℕ) (hub : Hub) (rest i n : ℕ)
    → hub.subscribers ≡ before ++ (xs ++ ys)
    → i ≡ length before
    → IsQuiet sending n
    → i + length xs ≤ n
    → iterate sending (count_up xs rest) i (length hub.subscribers) (so_far reached dead hub)
      ≡ iterate sending rest
          (i + length xs)
          (length hub.subscribers)
          (so_far (reached ++ alive sending i xs) (dead ++ failing sending i xs) hub)
iterate_quiet sending before [] ys reached dead hub rest i n shape place quiet bound =
    let size = length hub.subscribers in
    ap (λ j. iterate sending rest j size (so_far reached dead hub)) {x = i} {y = i + 0}
      (omega arith)
    ∙ ap (λ l. iterate sending rest (i + 0) size (so_far l dead hub)) (sym (append-nil reached))
    ∙ ap (λ l. iterate sending rest (i + 0) size (so_far (reached ++ []) l hub))
        (sym (append-nil dead))
iterate_quiet sending before (x ∷ xs) ys reached dead hub rest i n shape place quiet bound =
    let size = length hub.subscribers in
    let b = (sending i).succeeds in
    let there : get_elem? hub.subscribers i ≡ some x =
      rw (shape, place) (get_elem?-middle before (xs ++ ys) x) in
    iterate_step sending (count_up xs rest) i size x (so_far reached dead hub) refl there
    ∙ ap (iterate sending (count_up xs rest) (suc i) size)
        (sent_quiet x (sending i) reached dead hub (quiet i (omega arith)))
    ∙ iterate_quiet sending (before ++ x ∷ []) xs ys (mark b x reached) (mark (not b) x dead) hub
        rest (suc i) n (shape ∙ sym (append_assoc before (x ∷ []) (xs ++ ys)))
        (omega (arith, length-append {0} before (x ∷ []))) quiet (omega arith)
    ∙ ap
        (λ j. iterate sending rest j size (
          so_far (mark b x reached ++ alive sending (suc i) xs)
            (mark (not b) x dead ++ failing sending (suc i) xs) hub))
        {x = suc i + length xs} {y = i + suc (length xs)} (omega arith)
    ∙ ap
        (λ l.
          iterate sending rest (i + suc (length xs)) size
            (so_far l (mark (not b) x dead ++ failing sending (suc i) xs) hub))
        (mark-keep_if b x reached (alive sending (suc i) xs))
    ∙ ap
        (λ l.
          iterate sending rest (i + suc (length xs)) size
            (so_far (reached ++ alive sending i (x ∷ xs)) l hub))
        (mark-keep_if (not b) x dead (failing sending (suc i) xs))

pub iterate_raises :
    (sending : ℕ → Sending) (rest i size : ℕ) (sweep : Sweep)
    → length sweep.hub.subscribers ≢ size
    → iterate sending rest i size sweep ≡ record sweep { raised = true }
unfolding iterate
iterate_raises sending zero i size sweep other = ground arith
iterate_raises sending (suc rest) i size sweep other = ground arith

-- ===== src/RateLimit/Window.antt =====
-- What `_check_rate_limit` of middleware/rate_limiter.py counts on a Redis server that answers.
use social_graph_engine.Base.{
  ℕ, suc, ◌+◌, ◌-◌, ◌≤◌, ◌<◌, ◌≡◌, refl, sym, ◌∙◌, ap, false, some, List, [], ◌∷◌, ltb, leb, length,
  All, Text, text_eq, text_eq_refl, text_eq_sound, arith, Bool-cases, inl, inr,
}
use social_graph_engine.Redis.{reply}
use social_graph_engine.Redis.Laws.{Numerals}
use social_graph_engine.RateLimit.{
  Entry, Pipeline, ClientType, rate_key, window_ms, window_start, judge, check_rate_limit, calls,
}
use social_graph_engine.RateLimit.Sorted.{
  cut, without, add, IsSorted, without-without, add-cut, recent, IsAfter,
}

module _ (N : Numerals) where
  abbrev entry : ℕ → Entry
  entry t = record { member = N.show t; score = t }

  abbrev entries_of : List ℕ → List Entry
  entries_of [] = []
  entries_of (t ∷ ts) = entry t ∷ entries_of ts

  length-entries_of : (ts : List ℕ) → length (entries_of ts) ≡ length ts
  length-entries_of [] = refl
  length-entries_of (t ∷ ts) = ap suc (length-entries_of ts)

  cut-entries_some :
      (now : ℕ) (ts : List ℕ)
      → window_ms ≤ now
      → cut (some (now - window_ms)) (entries_of ts) ≡ entries_of (recent now ts)
  cut-entries_some now [] full = refl
  cut-entries_some now (t ∷ ts) full = ground (arith, cut-entries_some now ts full)

  entries_of-recent :
      (now : ℕ) (ts : List ℕ) → now < window_ms → entries_of ts ≡ entries_of (recent now ts)
  entries_of-recent now [] early = refl
  entries_of-recent now (t ∷ ts) early = ground (arith, entries_of-recent now ts early)

  cut-entries_of :
      (now : ℕ) (ts : List ℕ) → cut (window_start now) (entries_of ts) ≡ entries_of (recent now ts)
  unfolding window_start
  cut-entries_of now ts = elim (Bool-cases (leb window_ms now)) [
    | inl full ↦ rw full (cut-entries_some now ts (ground arith))
    | inr early ↦ rw early (entries_of-recent now ts (ground arith))
  ]

  show_ne : (t now : ℕ) → t < now → text_eq (N.show t) (N.show now) ≡ false
  show_ne t now lt = elim (Bool-cases (text_eq (N.show t) (N.show now))) [
    | inr differ ↦ differ
    | inl same ↦
        absurd
          (ground (arith, text_eq_sound (N.show t) (N.show now), N.read-show t, N.read-show now))
  ]

  without-entries_of :
      (now : ℕ) (ts : List ℕ)
      → All (λ t. t < now) ts
      → without (N.show now) (entries_of ts) ≡ entries_of ts
  without-entries_of now [] lower = refl
  without-entries_of now (t ∷ ts) lower =
      ground (arith, show_ne t now lower.0, without-entries_of now ts lower.1)

  recent-below : (t now : ℕ) (ts : List ℕ) → All (λ u. u < t) ts → All (λ u. u < t) (recent now ts)
  recent-below t now [] below = tt
  recent-below t now (u ∷ ts) below = elim (Bool-cases (ltb now (u + window_ms))) [
    | inl stays ↦ rw stays (below.0, recent-below t now ts below.1)
    | inr goes ↦ rw goes (recent-below t now ts below.1)
  ]

  below_weaken : (t now : ℕ) (ts : List ℕ) → t < now → All (λ u. u < t) ts → All (λ u. u < now) ts
  below_weaken t now [] lt below = tt
  below_weaken t now (u ∷ ts) lt below = (omega arith, below_weaken t now ts lt below.1)

  IsAfter-below : (now : ℕ) (ts : List ℕ) → IsAfter now ts → All (λ u. u < now) ts
  IsAfter-below now [] after = tt
  IsAfter-below now (t ∷ ts) after =
      (after.0, below_weaken t now ts after.0 (IsAfter-below t ts after.1))

  -- Cutting at an earlier time first makes no difference.
  recent-recent : (t now : ℕ) (ts : List ℕ) → t ≤ now → recent now (recent t ts) ≡ recent now ts
  recent-recent t now [] le = refl
  recent-recent t now (u ∷ ts) le = ground (arith, recent-recent t now ts le)

  -- One call: the entries of the earlier calls that are still in the window, and its own.
  slide :
      (now : ℕ) (ts : List ℕ)
      → All (λ t. t < now) ts
      → add (N.show now) now (cut (window_start now) (entries_of ts))
        ≡ entry now ∷ entries_of (recent now ts)
  slide now ts below = rw (cut-entries_of now ts) (
      ap (◌∷◌ (entry now)) (without-entries_of now (recent now ts) (recent-below now now ts below)))

  -- What the calls at these times leave.
  abbrev kept : List ℕ → List ℕ
  kept [] = []
  kept (t ∷ ts) = t ∷ recent t ts

  recent-kept : (now : ℕ) (ts : List ℕ) → IsAfter now ts → recent now (kept ts) ≡ recent now ts
  recent-kept now [] after = refl
  recent-kept now (t ∷ ts) after = ground (arith, recent-recent t now ts (omega arith))

  kept-below : (now : ℕ) (ts : List ℕ) → IsAfter now ts → All (λ u. u < now) (kept ts)
  kept-below now [] after = tt
  kept-below now (t ∷ ts) after =
      (after.0, recent-below now t ts (IsAfter-below now (t ∷ ts) after).1)

  module _ {S : Type 0} (P : Pipeline S) (entries : Text → S → List Entry)
      (laws : IsSorted P entries) (kind : ClientType) (id : Text) (max_requests : ℕ) where
    slide_kept :
        (now : ℕ) (ts : List ℕ) (s : S)
        → IsAfter now ts
        → entries (rate_key kind id) s ≡ entries_of (kept ts)
        → add (N.show now) now (cut (window_start now) (entries (rate_key kind id) s))
          ≡ entries_of (now ∷ recent now ts)
    slide_kept now ts s after stored =
        ap (λ l. add (N.show now) now (cut (window_start now) l)) stored
        ∙ slide now (kept ts) (kept-below now ts after)
        ∙ ap (λ l. entries_of (now ∷ l)) (recent-kept now ts after)

    calls-entries :
        (t : ℕ) (ts : List ℕ) (s : S)
        → IsAfter t ts
        → entries (rate_key kind id) s ≡ []
        → (s' : S) × (calls N P kind id max_requests ts (some s) ≡ some s')
          × (entries (rate_key kind id) s' ≡ entries_of (kept ts))
    unfolding calls check_rate_limit
    calls-entries _ [] s after empty = (s, refl, empty)
    calls-entries _ (t ∷ ts) s after empty =
        let (s', run, stored) = calls-entries t ts s after.1 empty in
        (
          (P.execute (rate_key kind id) (window_start t) (N.show t) t 70 s').1,
          ap (λ o. (check_rate_limit N P kind id max_requests t o).1) run,
          laws.execute-entries (rate_key kind id) (window_start t) (N.show t) t 70 s'
              ∙ slide_kept t ts s' after.1 stored,
        )

    -- On a reliable Redis a client that has made calls at the times `ts`, each at a later millisecond
    -- than the one before, is allowed one more at the later time `now` exactly when its calls of the
    -- last 60 seconds, this one included, are not more than the limit; the refused calls count too.
    pub check_rate_limit_lem :
        (now : ℕ) (ts : List ℕ) (s : S)
        → IsAfter now ts
        → entries (rate_key kind id) s ≡ []
        → (check_rate_limit N P kind id max_requests now
            (calls N P kind id max_requests ts (some s))).0
          ≡ record {
            allowed = leb (suc (length (recent now ts))) max_requests;
            current = suc (length (recent now ts));
            reset_seconds = 60;
          }
    unfolding check_rate_limit judge
    check_rate_limit_lem now ts s after empty =
        let (s', run, stored) = calls-entries now ts s after empty in
        let count =
          laws.execute-reply (rate_key kind id) (window_start now) (N.show now) now 70 s' in
        rw run (
          ap (judge max_requests) (
            count
            ∙ ap (λ l. reply (length l)) (slide_kept now ts s' after stored)
            ∙ ap (λ n. reply (suc n)) (length-entries_of (recent now ts))))

    twice :
        (now : ℕ) (l : List Entry)
        → let slid = add (N.show now) now (cut (window_start now) l) in
          add (N.show now) now (cut (window_start now) slid) ≡ slid
    unfolding window_start
    twice now l = elim (Bool-cases (leb window_ms now)) [
      | inl full ↦ rw full (add-cut (N.show now) (now - window_ms) now l (ground arith))
      | inr early ↦
          rw early (ground (arith, without-without (N.show now) l, text_eq_refl (N.show now)))
    ]

    -- Calls of the same millisecond count as one: on a reliable Redis, a call that follows another one
    -- of the same client at the same time has the same verdict, so that any number of them is allowed
    -- if the first is.
    pub check_rate_limit-again :
        (now : ℕ) (s : S)
        → let (verdict, after) = check_rate_limit N P kind id max_requests now (some s) in
          (check_rate_limit N P kind id max_requests now after).0 ≡ verdict
    unfolding check_rate_limit
    check_rate_limit-again now s =
        let key = rate_key kind id in
        let s' = (P.execute key (window_start now) (N.show now) now 70 s).1 in
        let first = laws.execute-reply key (window_start now) (N.show now) now 70 s in
        let left = laws.execute-entries key (window_start now) (N.show now) now 70 s in
        let second = laws.execute-reply key (window_start now) (N.show now) now 70 s' in
        ap (judge max_requests) (
          second
          ∙ ap (λ l. reply (length (add (N.show now) now (cut (window_start now) l)))) left
          ∙ ap (λ l. reply (length l)) (twice now (entries key s))
          ∙ sym first)

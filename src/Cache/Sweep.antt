-- ===== src/Cache/Sweep.antt =====
-- The SCAN loop of `invalidate_cache`: it ends, and what it has deleted by then.
use social_graph_engine.Base.{
  ℕ, zero, suc, ◌+◌, ◌<◌, ◌≡◌, ◌⊎◌, refl, ap, ◌∙◌, Bool, true, false, Option, none, some, List, [],
  ◌∷◌, length, Text, arith, inl, inr,
}
use social_graph_engine.Redis.{reply}
use social_graph_engine.Redis.Laws.{listed}
use social_graph_engine.Cache.{Bytes, Server}
use social_graph_engine.Cache.Laws.{IsAnswering}
use social_graph_engine.Cache.Invalidate.{
  is_refused, expand, acknowledged, delete_batch, turn_on, turn, sweep, invalidate_cache,
}

-- SCAN with a pattern while the keys it gives are deleted, as its documentation promises it: from any
-- cursor the iteration is back at 0 after finitely many calls (`rank` bounds how many are still to come),
-- and a key that matches and is there all the time is given. `pending` says which keys an iteration that
-- has come to a cursor has still to give. A key may be given twice, and a call may give none.
pub record HasScan {S : Type 0} (R : Server S) (value : Text → S → Option Bytes) (pattern : Text)
    (matches : Text → Bool) (rank : ℕ → S → ℕ) (pending : ℕ → Text → S → Bool) : Type 0 where
  pub scan-reply :
      (c : ℕ) (s : S) → (c' : ℕ) × (keys : List Text) × (R.scan c pattern s ≡ reply (c', keys))
  pub rank-next :
      (c c' : ℕ) (keys : List Text) (s : S)
      → R.scan c pattern s ≡ reply (suc c', keys)
      → rank (suc c') (delete_batch R keys s).1 < rank c s
  pub pending-start :
      (k : Text) (s : S) → matches k ≡ true → (value k s ≡ none) ⊎ (pending 0 k s ≡ true)
  pub pending-next :
      (c c' : ℕ) (keys : List Text) (k : Text) (s : S)
      → R.scan c pattern s ≡ reply (suc c', keys)
      → pending c k s ≡ true
      → (listed k keys ≡ true) ⊎ (pending (suc c') k (delete_batch R keys s).1 ≡ true)
  pub pending-last :
      (c : ℕ) (keys : List Text) (k : Text) (s : S)
      → R.scan c pattern s ≡ reply (0, keys)
      → pending c k s ≡ true
      → listed k keys ≡ true

module _ {S : Type 0} (R : Server S) (value : Text → S → Option Bytes)
    (law : IsAnswering R value) where
  delete_batch-reply : (keys : List Text) (s : S) → (delete_batch R keys s).0 ≡ reply tt
  unfolding delete_batch acknowledged
  delete_batch-reply [] s = refl
  delete_batch-reply (j ∷ keys) s =
      let (n, answered) = law.delete-reply (j ∷ keys) s in ap acknowledged answered

  delete_batch-keeps :
      (k : Text) (keys : List Text) (s : S)
      → value k s ≡ none
      → value k (delete_batch R keys s).1 ≡ none
  unfolding delete_batch
  delete_batch-keeps k [] s missing = missing
  delete_batch-keeps k (j ∷ keys) s missing = law.delete-missing (j ∷ keys) k s missing

  delete_batch-gone :
      (k : Text) (keys : List Text) (s : S)
      → listed k keys ≡ true
      → value k (delete_batch R keys s).1 ≡ none
  unfolding delete_batch
  delete_batch-gone k [] s there = cc
  delete_batch-gone k (j ∷ keys) s there = law.delete-value (j ∷ keys) k s there

  module _ (pattern : Text) (matches : Text → Bool) (rank : ℕ → S → ℕ)
      (pending : ℕ → Text → S → Bool) (scans : HasScan R value pattern matches rank pending) where
    -- A key that is gone, or that the iteration has still to give.
    abbrev IsDoomed : ℕ → Text → S → Type 0
    IsDoomed cursor k s = (value k s ≡ none) ⊎ (pending cursor k s ≡ true)

    -- The loop ends in a state in which all such keys are gone.
    abbrev Ends : Option ℕ × S → ℕ → S → Type 0
    Ends run cursor s =
        (n : ℕ) × (end : S) × (run ≡ (some n, end))
        × ((k : Text) → IsDoomed cursor k s → value k end ≡ none)

    IsDoomed-last :
        (cursor : ℕ) (keys : List Text) (s : S) (k : Text)
        → R.scan cursor pattern s ≡ reply (0, keys)
        → IsDoomed cursor k s
        → value k (delete_batch R keys s).1 ≡ none
    IsDoomed-last cursor keys s k given (inl missing) = delete_batch-keeps k keys s missing
    IsDoomed-last cursor keys s k given (inr due) =
        delete_batch-gone k keys s (scans.pending-last cursor keys k s given due)

    IsDoomed-next :
        (cursor cursor' : ℕ) (keys : List Text) (s : S) (k : Text)
        → R.scan cursor pattern s ≡ reply (suc cursor', keys)
        → IsDoomed cursor k s
        → IsDoomed (suc cursor') k (delete_batch R keys s).1
    IsDoomed-next cursor cursor' keys s k given (inl missing) =
        inl (delete_batch-keeps k keys s missing)
    IsDoomed-next cursor cursor' keys s k given (inr due) =
        elim (scans.pending-next cursor cursor' keys k s given due) [
          | inl now ↦ inl (delete_batch-gone k keys s now)
          | inr later ↦ inr later
        ]

    -- A turn whose SCAN gives `keys`.
    turned :
        (fuel cursor cursor' count : ℕ) (keys : List Text) (s : S)
        → R.scan cursor pattern s ≡ reply (cursor', keys)
        → sweep R pattern (suc fuel) cursor count s
          ≡ turn_on R
              (sweep R pattern fuel)
              cursor'
              count
              (length keys)
              (reply tt, (delete_batch R keys s).1)
    unfolding sweep turn
    turned fuel cursor cursor' count keys s given =
        ap (λ r. turn R (sweep R pattern fuel) count r s) given
        ∙ ap
            (λ a.
              turn_on R (sweep R pattern fuel) cursor' count (length keys)
                (a, (delete_batch R keys s).1))
            (delete_batch-reply keys s)

    -- A turn ends the loop or goes on with fewer turns to come.
    turned-Ends :
        (fuel cursor count : ℕ) (s : S) (cursor' : ℕ) (keys : List Text)
        → ((c n : ℕ) (s' : S) → rank c s' < fuel → Ends (sweep R pattern fuel c n s') c s')
        → rank cursor s < suc fuel
        → R.scan cursor pattern s ≡ reply (cursor', keys)
        → Ends (sweep R pattern (suc fuel) cursor count s) cursor s
    unfolding turn_on
    turned-Ends fuel cursor count s zero keys later enough given = (
      count + length keys,
      (delete_batch R keys s).1,
      turned fuel cursor 0 count keys s given,
      λ k doomed. IsDoomed-last cursor keys s k given doomed,
    )
    turned-Ends fuel cursor count s (suc cursor') keys later enough given =
        let fewer = scans.rank-next cursor cursor' keys s given in
        let (n, end, run, gone) =
          later (suc cursor') (count + length keys) (delete_batch R keys s).1 (omega arith) in
        (
          n,
          end,
          turned fuel cursor (suc cursor') count keys s given ∙ run,
          λ k doomed. gone k (IsDoomed-next cursor cursor' keys s k given doomed),
        )

    sweep-Ends :
        (fuel cursor count : ℕ) (s : S)
        → rank cursor s < fuel
        → Ends (sweep R pattern fuel cursor count s) cursor s
    sweep-Ends zero cursor count s enough = absurd (omega arith)
    sweep-Ends (suc fuel) cursor count s enough =
        let (cursor', keys, given) = scans.scan-reply cursor s in
        turned-Ends fuel cursor count s cursor' keys (sweep-Ends fuel) enough given

-- On a Redis that answers and whose SCAN keeps its promises, `invalidate_cache` ends for every
-- pattern that is not refused, with one turn more than SCAN's iteration has still to come as fuel, and
-- answers a count; and every key that the expanded pattern matches is gone then.
pub invalidate_cache-gone :
    {S : Type 0}
    → (R : Server S) (value : Text → S → Option Bytes) (matches : Text → Bool) (rank : ℕ → S → ℕ)
      (pending : ℕ → Text → S → Bool) (environment pattern namespace : Text) (fuel : ℕ) (s : S)
    → IsAnswering R value
    → HasScan R value (expand namespace pattern) matches rank pending
    → is_refused environment pattern ≡ false
    → rank 0 s < fuel
    → (n : ℕ) × (end : S) × (invalidate_cache R fuel environment true pattern namespace s
        ≡ (some n, end))
      × ((k : Text) → matches k ≡ true → value k end ≡ none)
unfolding invalidate_cache
invalidate_cache-gone R value matches rank pending environment pattern namespace fuel s law scans
      allowed enough =
    let (n, end, run, gone) =
      sweep-Ends R value law (expand namespace pattern) matches rank pending scans fuel 0 0 s
        enough in
    (n, end, rw allowed run, λ k fits. gone k (scans.pending-start k s fits))

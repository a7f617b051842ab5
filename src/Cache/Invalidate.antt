-- ===== src/Cache/Invalidate.antt =====
-- Deleting cached values: `invalidate_cache` and its callers, and `invalidate_by_tag`, of
-- middleware_python/services/cache.py. The SCAN loop takes fuel; it is `none` without.
mod Tests
use social_graph_engine.Base.{
  ℕ, zero, suc, ◌+◌, Bool, true, false, not, ◌==◌, ◌&&◌, ◌||◌, Option, none, some, List, [], ◌∷◌,
  ◌++◌, length, Text, text_eq, codes, if◌then◌else◌,
}
use mathlib.Core.Option
use social_graph_engine.Redis.{Reply, reply, failed}
use social_graph_engine.Cache.{Server}
use social_graph_engine.Cache.Compute.{tag_key}

-- `c in pattern` for one character; ":" is 58 and "*" 42.
unfoldable pub has_char : ℕ → Text → Bool
has_char c [] = false
has_char c (d ∷ t) = (c == d) || has_char c t

-- `_confirm_safe`
unfoldable pub confirm_safe : Text → Bool
confirm_safe environment = not (text_eq environment (codes "production"))

-- The patterns that `invalidate_cache` refuses: `and` binds before `or`.
unfoldable pub is_refused : Text → Text → Bool
is_refused environment pattern =
    text_eq pattern (codes "*")
    || (text_eq pattern (codes "sgp:*")
        || (text_eq pattern (codes "social_graph:*") && not (confirm_safe environment)))

unfoldable pub expand : Text → Text → Text
expand namespace pattern =
    if not (has_char 58 pattern) && not (has_char 42 pattern)
    then namespace ++ (codes ":" ++ (pattern ++ codes ":*"))
    else pattern

unfoldable pub domain_pattern : Text → Text → Text
domain_pattern namespace domain = namespace ++ (codes ":" ++ (domain ++ codes ":*"))

unfoldable pub acknowledged : Reply ℕ → Reply (Unit {0})
acknowledged failed = failed
acknowledged (reply _) = reply tt

-- The count, or 0 where the command raises.
unfoldable pub or_zero : Reply ℕ → ℕ → ℕ
or_zero failed count = 0
or_zero (reply _) count = count

module _ {S : Type 0} (R : Server S) where
  -- A batch of SCAN is deleted, if it is not empty.
  unfoldable pub delete_batch : List Text → S → Reply (Unit {0}) × S
  delete_batch [] s = (reply tt, s)
  delete_batch (k ∷ ks) s = let (answer, s') = R.delete (k ∷ ks) s in (acknowledged answer, s')

  -- What a turn of the loop does with its batch: `go_on` are the turns that follow, from a cursor and
  -- the count so far; an exception ends the loop with that count.
  unfoldable pub turn_on :
      (ℕ → ℕ → S → Option ℕ × S) → ℕ → ℕ → ℕ → Reply (Unit {0}) × S → Option ℕ × S
  turn_on go_on cursor count deleted (failed, s) = (some count, s)
  turn_on go_on zero count deleted (reply _, s) = (some (count + deleted), s)
  turn_on go_on (suc cursor) count deleted (reply _, s) = go_on (suc cursor) (count + deleted) s

  unfoldable pub turn : (ℕ → ℕ → S → Option ℕ × S) → ℕ → Reply (ℕ × List Text) → S → Option ℕ × S
  turn go_on count failed s = (some count, s)
  turn go_on count (reply (cursor, keys)) s =
      turn_on go_on cursor count (length keys) (delete_batch keys s)

  unfoldable pub sweep : Text → ℕ → ℕ → ℕ → S → Option ℕ × S
  sweep pattern zero cursor count s = (none, s)
  sweep pattern (suc fuel) cursor count s =
      turn (sweep pattern fuel) count (R.scan cursor pattern s) s

  -- `invalidate_cache`
  unfoldable pub invalidate_cache : ℕ → Text → Bool → Text → Text → S → Option ℕ × S
  invalidate_cache fuel environment available pattern namespace s =
      if is_refused environment pattern
      then (some 0, s)
      else (if available then sweep (expand namespace pattern) fuel 0 0 s else (some 0, s))

  -- `invalidate_by_domain`
  unfoldable pub invalidate_by_domain : ℕ → Text → Bool → Text → Text → S → Option ℕ × S
  invalidate_by_domain fuel environment available domain namespace s =
      invalidate_cache fuel environment available (domain_pattern namespace domain) (codes "sgp") s

  -- The set of a tag goes after its members; the count is that of the members.
  unfoldable pub delete_set : Text → ℕ → Reply ℕ × S → ℕ × S
  delete_set key count (failed, s) = (0, s)
  delete_set key count (reply _, s) =
      let (answer, s') = R.delete (key ∷ []) s in (or_zero answer count, s')

  unfoldable pub delete_tag : Text → List Text → S → ℕ × S
  delete_tag key [] s = (0, s)
  delete_tag key (m ∷ ms) s = delete_set key (suc (length ms)) (R.delete (m ∷ ms) s)

  unfoldable pub use_members : Text → Reply (List Text) → S → ℕ × S
  use_members key failed s = (0, s)
  use_members key (reply members) s = delete_tag key members s

  -- `invalidate_by_tag`
  unfoldable pub invalidate_by_tag : Bool → Text → S → ℕ × S
  invalidate_by_tag false tag s = (0, s)
  invalidate_by_tag true tag s = use_members (tag_key R tag) (R.smembers (tag_key R tag) s) s

  -- `count += await ...`
  unfoldable pub add_count : (S → Option ℕ × S) → Option ℕ × S → Option ℕ × S
  add_count f (none, s) = (none, s)
  add_count f (some count, s) = let (n, s') = f s in (Option.map (λ k. count + k) n, s')

  unfoldable pub counted_tag : Bool → Text → S → Option ℕ × S
  counted_tag available tag s = let (n, s') = invalidate_by_tag available tag s in (some n, s')

  -- `invalidate_algorithm_cache`
  unfoldable pub invalidate_algorithm_cache : ℕ → Text → Bool → Text → Text → S → Option ℕ × S
  invalidate_algorithm_cache fuel environment available algorithm namespace s =
      add_count (counted_tag available algorithm) (
        add_count
          (invalidate_cache fuel environment available
            (codes "socialgraph:" ++ (algorithm ++ codes ":*")) (codes "sgp"))
          (add_count
            (invalidate_cache fuel environment available
              (codes "social_graph:" ++ (algorithm ++ codes ":*")) (codes "sgp"))
            (invalidate_cache fuel environment available
              (namespace ++ (codes ":graph:" ++ (algorithm ++ codes ":*"))) (codes "sgp") s)))

-- ===== src/Cache/Tags.antt =====
-- What is gone after `invalidate_by_tag`.
use social_graph_engine.Base.{
  ℕ, suc, ◌≡◌, refl, sym, ap, subst, true, false, Option, none, List, [], ◌∷◌, length, Text,
  text_eq_refl, ◌||◌,
}
use social_graph_engine.Redis.{Reply, reply, failed}
use social_graph_engine.Redis.Laws.{listed}
use social_graph_engine.Cache.{Bytes, Server}
use social_graph_engine.Cache.Laws.{IsAnswering}
use social_graph_engine.Cache.Compute.{tag_key, then_expire, cache_tag_dependency}
use social_graph_engine.Cache.Invalidate.{
  or_zero, delete_set, delete_tag, use_members, invalidate_by_tag,
}

-- The sets of Redis: SMEMBERS gives the members, SADD adds some, EXPIRE leaves them for now.
pub record HasSets {S : Type 0} (R : Server S) (members : Text → S → List Text) : Type 0 where
  pub smembers-reply : (key : Text) (s : S) → R.smembers key s ≡ reply (members key s)
  pub sadd-members :
      (key : Text) (ms : List Text) (j : Text) (s : S)
      → (R.sadd key ms s).0 ≡ reply tt
      → listed j ms ≡ true
      → listed j (members key (R.sadd key ms s).1) ≡ true
  pub expire-members :
      (key : Text) (ttl : ℕ) (s : S) → members key (R.expire key ttl s).1 ≡ members key s

module _ {S : Type 0} (R : Server S) (value : Text → S → Option Bytes) (law : IsAnswering R value)
    (k : Text) where
  delete_tag-gone :
      (key : Text) (members : List Text) (s : S)
      → listed k members ≡ true
      → (delete_tag R key members s
          ≡ (length members, (R.delete (key ∷ []) (R.delete members s).1).1))
        × (value k (R.delete (key ∷ []) (R.delete members s).1).1 ≡ none)
  unfolding delete_tag delete_set or_zero
  delete_tag-gone key [] s there = cc
  delete_tag-gone key (m ∷ ms) s there =
      let (n, answered) = law.delete-reply (m ∷ ms) s in
      let (n', answered') = law.delete-reply (key ∷ []) (R.delete (m ∷ ms) s).1 in
      let s' = (R.delete (m ∷ ms) s).1 in
      let end = (R.delete (key ∷ []) s').1 in
      (
        subst (λ a. delete_set R key (suc (length ms)) (a, s') ≡ (suc (length ms), end))
            (sym answered) (ap (λ (a : Reply ℕ). (or_zero a (suc (length ms)), end)) answered'),
        law.delete-missing (key ∷ []) k _ (law.delete-value (m ∷ ms) k s there),
      )

  -- Every member of a tag is gone after the tag's invalidation, which answers their number.
  invalidate_by_tag-gone :
      (members : Text → S → List Text) (tag : Text) (s : S)
      → HasSets R members
      → listed k (members (tag_key R tag) s) ≡ true
      → ((invalidate_by_tag R true tag s).0 ≡ length (members (tag_key R tag) s))
        × (value k (invalidate_by_tag R true tag s).1 ≡ none)
  unfolding invalidate_by_tag use_members
  invalidate_by_tag-gone members tag s sets there =
      let (run, gone) = delete_tag-gone (tag_key R tag) (members (tag_key R tag) s) s there in
      rw (sets.smembers-reply (tag_key R tag) s, run) (refl, gone)

  tagged :
      (members : Text → S → List Text) (key : Text) (added : Reply (Unit {0})) (s : S)
      → HasSets R members
      → (added ≡ reply tt → listed k (members key s) ≡ true)
      → (then_expire R key (added, s)).0 ≡ true
      → listed k (members key (then_expire R key (added, s)).1) ≡ true
  unfolding then_expire
  tagged members key failed s sets there ok = cc
  tagged members key (reply tt) s sets there ok =
      subst (λ l. listed k l ≡ true) (sym (sets.expire-members key 604800 s)) (there refl)

  -- On a Redis that answers SMEMBERS and DEL: a key whose registration under a tag was answered is
  -- gone after the tag's invalidation, and the answer is the number of the tag's members.
  pub cache_tag_dependency-invalidate :
      (members : Text → S → List Text) (tag : Text) (s : S)
      → HasSets R members
      → (cache_tag_dependency R tag k s).0 ≡ true
      → (value k (invalidate_by_tag R true tag (cache_tag_dependency R tag k s).1).1 ≡ none)
        × ((invalidate_by_tag R true tag (cache_tag_dependency R tag k s).1).0
            ≡ length (members (tag_key R tag) (cache_tag_dependency R tag k s).1))
  unfolding cache_tag_dependency
  cache_tag_dependency-invalidate members tag s sets registered =
      let itself : listed k (k ∷ []) ≡ true = ap (λ b. b || false) (text_eq_refl k) in
      let key = tag_key R tag in
      let s' = (R.sadd key (k ∷ []) s).1 in
      let (count, gone) = invalidate_by_tag-gone members tag _ sets (
        tagged members key (R.sadd key (k ∷ []) s).0 s' sets
          (λ ok. sets.sadd-members key (k ∷ []) k s ok itself) registered) in
      (gone, count)

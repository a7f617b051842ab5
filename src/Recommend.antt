-- ===== src/Recommend.antt =====
-- `get_friend_recommendations` and `scenario_a_friend_recommendation` of
-- middleware_python/services/neo4j_service.py: the answers of Neo4j and of the engine are inputs, a
-- PageRank is of a type `P`. A combined score is in hundredths, to which the code rounds it, and so a
-- number.
pub mod Best
mod Tests
use social_graph_engine.Base.{
  ℕ, Bool, true, false, Option, none, some, List, [], ◌∷◌, map, take, Text, text_eq, leb, ltb, ◌||◌,
  if◌then◌else◌,
}

-- A record of the query; `none` is a PageRank that is null or missing.
pub record Found (P : Type 0) : Type 0 where
  pub id : Text
  pub common_friends : ℕ
  pub pagerank : Option P

-- The explanation of a recommendation, which names the number of common friends in the first two.
pub data Explanation : Type 0 where
  none_yet influential connected by_pagerank : Explanation

pub record Candidate (P : Type 0) : Type 0 where
  pub id : Text
  pub common_friends : ℕ
  pub pagerank : P
  pub combined_score : ℕ
  pub explanation : Explanation

-- `execute_command("pagerank")`: an exception, an answer that is no success, or nodes with scores.
pub data Ran (P : Type 0) : Type 0 where
  raised unsuccessful : Ran P
  success : List (Text × P) → Ran P

-- The arithmetic of floats: 0.0, `== 0`, `round(pr, 6)` and `round(common * (1.0 + pr * 10), 2)`.
pub record Floats (P : Type 0) : Type 0 where
  pub zero_rank : P
  pub is_zero : P → Bool
  pub round6 : P → P
  pub combine : ℕ → P → ℕ

module _ {P : Type 0} (F : Floats P) where
  unfoldable pub or_zero_rank : Option P → P
  or_zero_rank none = F.zero_rank
  or_zero_rank (some p) = p

  -- The loop of `get_friend_recommendations`
  unfoldable pub candidate_of : Found P → Candidate P
  unfolding or_zero_rank
  candidate_of rec = record {
    id = rec.id;
    common_friends = rec.common_friends;
    pagerank = F.round6 (or_zero_rank rec.pagerank);
    combined_score = F.combine rec.common_friends (or_zero_rank rec.pagerank);
    explanation = none_yet;
  }

  -- `any(c.get("pagerank", 0) == 0 for c in candidates)`
  unfoldable pub need_cpp : List (Candidate P) → Bool
  need_cpp [] = false
  need_cpp (c ∷ cs) = F.is_zero c.pagerank || need_cpp cs

  -- `cpp_pagerank.get(cid, ...)`: the last score of a node counts.
  unfoldable pub rank_of : List (Text × P) → Text → P → P
  rank_of [] cid default = default
  rank_of ((node, score) ∷ items) cid default =
      rank_of items cid (if text_eq node cid then score else default)

  unfoldable pub explain : ℕ → Explanation
  explain common =
      if leb 5 common then influential else if leb 2 common then connected else by_pagerank

  -- The body of the loop of `scenario_a_friend_recommendation`
  unfoldable pub rescore : List (Text × P) → Candidate P → Candidate P
  unfolding rank_of explain
  rescore cpp_pagerank c =
      let pr = rank_of cpp_pagerank c.id c.pagerank in
      record c {
        pagerank = F.round6 pr;
        combined_score = F.combine c.common_friends pr;
        explanation = explain c.common_friends;
      }

  -- `cpp_pagerank` behind the engine's answer; `none` is its exception.
  unfoldable pub cpp_pagerank : Bool → Ran P → Option (List (Text × P))
  cpp_pagerank false run = some []
  cpp_pagerank true raised = none
  cpp_pagerank true unsuccessful = some []
  cpp_pagerank true (success items) = some items

  -- `sort` by descending score keeps the order of equal ones.
  unfoldable pub insert_by_score : Candidate P → List (Candidate P) → List (Candidate P)
  insert_by_score c [] = c ∷ []
  insert_by_score c (d ∷ ds) =
      let later = insert_by_score c ds in
      if ltb c.combined_score d.combined_score then d ∷ later else c ∷ d ∷ ds

  unfoldable pub sort_by_score : List (Candidate P) → List (Candidate P)
  unfolding insert_by_score
  sort_by_score [] = []
  sort_by_score (c ∷ cs) = insert_by_score c (sort_by_score cs)

  unfoldable pub ranked :
      Option (List (Text × P)) → ℕ → List (Candidate P) → Option (List (Candidate P))
  unfolding sort_by_score rescore
  ranked none limit candidates = none
  ranked (some ranks) limit candidates =
      some (take limit (sort_by_score (map (rescore ranks) candidates)))

  -- `scenario_a_friend_recommendation`, given the records of the query and what the engine would
  -- answer; `none` is the exception.
  unfoldable pub scenario_a_friend_recommendation :
      ℕ → List (Found P) → Ran P → Option (List (Candidate P))
  unfolding candidate_of need_cpp cpp_pagerank ranked
  scenario_a_friend_recommendation limit records run =
      let candidates = map candidate_of records in
      ranked (cpp_pagerank (need_cpp candidates) run) limit candidates

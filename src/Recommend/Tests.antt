-- ===== src/Recommend/Tests.antt =====
-- Recommendations for a user with three candidates.
use social_graph_engine.Base.{
  ℕ, ◌+◌, ◌*◌, ◌==◌, ◌≡◌, refl, none, some, List, [], ◌∷◌, map, Text, text_eq,
}
use social_graph_engine.Recommend.{
  Found, Candidate, Ran, success, Floats, candidate_of, or_zero_rank, need_cpp, rank_of, explain,
  rescore, cpp_pagerank, insert_by_score, sort_by_score, ranked, scenario_a_friend_recommendation,
}
use social_graph_engine.Recommend.Best.{IsBest, scenario_a_friend_recommendation-IsBest}

program : Unit {0}
unfolding scenario_a_friend_recommendation candidate_of or_zero_rank need_cpp rank_of explain
    rescore cpp_pagerank insert_by_score sort_by_score ranked text_eq
program = tt

-- PageRanks in hundredths.
abbrev hundredths : Floats ℕ
hundredths = record {
  zero_rank = 0;
  is_zero = λ p. p == 0;
  round6 = λ p. p;
  combine = λ common p. common * (100 + p * 10);
}

abbrev found : ℕ → ℕ → Found ℕ
found n common = record { id = n ∷ []; common_friends = common; pagerank = none }

abbrev records : List (Found ℕ)
records = found 1 5 ∷ found 2 4 ∷ found 3 1 ∷ []

abbrev engine : Ran ℕ
engine = success ((2 ∷ [], 9) ∷ [])

abbrev two : List (Candidate ℕ)
two = rescored 2 4 ∷ rescored 1 5 ∷ []
  where
    rescored : ℕ → ℕ → Candidate ℕ
    rescored n common =
        rescore hundredths ((2 ∷ [], 9) ∷ []) (candidate_of hundredths (found n common))

scenario_a_friend_recommendation-IsBest_example :
    (ranks : List (Text × ℕ)) × (rest : List (Candidate ℕ)) × (cpp_pagerank hundredths
        (need_cpp hundredths (map (candidate_of hundredths) records))
        engine
      ≡ some ranks)
    × IsBest hundredths 2
        (map (rescore hundredths ranks) (map (candidate_of hundredths) records))
        two
        rest
unfolding program
scenario_a_friend_recommendation-IsBest_example =
    scenario_a_friend_recommendation-IsBest hundredths 2 records engine two refl

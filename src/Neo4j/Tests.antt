-- ===== src/Neo4j/Tests.antt =====
-- The retry loop on a function that fails twice, and on one that always fails.
use social_graph_engine.Base.{
  ℕ, suc, ◌<◌, ◌≡◌, refl, Bool, true, false, List, [], ◌∷◌, ◌⊎◌, ltb, if◌then◌else◌, arith,
}
use social_graph_engine.Neo4j.{
  Outcome, returned, thrown, raised, recover, attempts, retry_with_backoff, execute_cypher,
  records_of, result_of,
}
use social_graph_engine.Neo4j.Attempts.{is_transient, AllTransient, delays, retry_with_backoff_lem}

program : Unit {0}
unfolding recover attempts retry_with_backoff records_of execute_cypher
program = tt

-- Exceptions below 5 are transient; the third attempt returns two records.
abbrev transient : ℕ → Bool
transient e = ltb e 5

abbrev third_time : ℕ → Outcome ℕ (List ℕ)
third_time k = if ltb k 3 then thrown k else returned (7 ∷ 8 ∷ [])

abbrev never : ℕ → Outcome ℕ (List ℕ)
never k = thrown 1

third : execute_cypher transient 10 3 third_time true ≡ 7 ∷ 8 ∷ []
unfolding program
third = refl

exhausted_run :
    retry_with_backoff transient 10 3 never
    ≡ record { result = raised 1; calls = 3; slept = 10 ∷ 20 ∷ [] }
unfolding program
exhausted_run = refl

retry_with_backoff_lem_example :
    ((n : ℕ) × (n < 3)
      × AllTransient transient 10 3 third_time 1 n
      × (is_transient transient 10 3 third_time (third_time (suc n)) ≡ false)
      × (retry_with_backoff transient 10 3 third_time ≡ record {
        result = result_of (third_time (suc n));
        calls = suc n;
        slept = delays 10 0 n;
      }))
    ⊎ ((e : ℕ) × AllTransient transient 10 3 third_time 1 3
        × (third_time 3 ≡ thrown e)
        × (retry_with_backoff transient 10 3 third_time
            ≡ record { result = raised e; calls = 3; slept = delays 10 0 2 }))
retry_with_backoff_lem_example = retry_with_backoff_lem transient 10 3 third_time (omega arith)

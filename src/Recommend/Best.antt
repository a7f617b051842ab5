-- ===== src/Recommend/Best.antt =====
-- What `scenario_a_friend_recommendation` (middleware_python/services/neo4j_service.py) recommends.
use social_graph_engine.Base.{
  ℕ, zero, suc, ◌≤◌, ◌≡◌, refl, sym, ◌∙◌, ap, subst, Option, none, some, List, [], ◌∷◌, ◌++◌, map,
  take, drop, length, length-take, ltb, All, arith, Bool-cases, inl, inr, Text, min,
}
use mathlib.Core.List.{Perm}
use mathlib.Core.List.Perm
use social_graph_engine.Recommend.{
  Found, Candidate, Ran, Floats, candidate_of, need_cpp, cpp_pagerank, rescore, insert_by_score,
  sort_by_score, ranked, scenario_a_friend_recommendation,
}

module _ {P : Type 0} (F : Floats P) where
  -- Scores do not grow along the list.
  abbrev pub IsSorted : List (Candidate P) → Type 0
  IsSorted [] = Unit
  IsSorted (c ∷ cs) = All (λ d. d.combined_score ≤ c.combined_score) cs × IsSorted cs

  insert-perm : (c : Candidate P) (cs : List (Candidate P)) → Perm (insert_by_score F c cs) (c ∷ cs)
  unfolding insert_by_score
  insert-perm c [] = Perm.refl (c ∷ [])
  insert-perm c (d ∷ ds) = elim (Bool-cases (ltb c.combined_score d.combined_score)) [
    | inl less ↦ rw less (Perm.trans (Perm.cons d (insert-perm c ds)) (Perm.swap c d ds))
    | inr more ↦ rw more (Perm.refl (c ∷ d ∷ ds))
  ]

  sort-perm : (cs : List (Candidate P)) → Perm (sort_by_score F cs) cs
  unfolding sort_by_score
  sort-perm [] = Perm.refl []
  sort-perm (c ∷ cs) = Perm.trans (insert-perm c (sort_by_score F cs)) (Perm.cons c (sort-perm cs))

  insert-All :
      (n : ℕ) (c : Candidate P) (cs : List (Candidate P))
      → c.combined_score ≤ n
      → All (λ (d : Candidate P). d.combined_score ≤ n) cs
      → All (λ (d : Candidate P). d.combined_score ≤ n) (insert_by_score F c cs)
  unfolding insert_by_score
  insert-All n c [] le all = (le, tt)
  insert-All n c (d ∷ ds) le all = elim (Bool-cases (ltb c.combined_score d.combined_score)) [
    | inl less ↦ rw less (all.0, insert-All n c ds le all.1)
    | inr more ↦ rw more (le, all)
  ]

  All-le :
      (m n : ℕ) (cs : List (Candidate P))
      → m ≤ n
      → All (λ (d : Candidate P). d.combined_score ≤ m) cs
      → All (λ (d : Candidate P). d.combined_score ≤ n) cs
  All-le m n [] le all = tt
  All-le m n (c ∷ cs) le all = (omega arith, All-le m n cs le all.1)

  insert-IsSorted :
      (c : Candidate P) (cs : List (Candidate P)) → IsSorted cs → IsSorted (insert_by_score F c cs)
  unfolding insert_by_score
  insert-IsSorted c [] s = (tt, tt)
  insert-IsSorted c (d ∷ ds) s = elim (Bool-cases (ltb c.combined_score d.combined_score)) [
    | inl less ↦
        rw less (insert-All d.combined_score c ds (ground arith) s.0, insert-IsSorted c ds s.1)
    | inr more ↦
        let le : d.combined_score ≤ c.combined_score = ground arith in
        rw more ((le, All-le d.combined_score c.combined_score ds le s.0), s)
  ]

  sort-IsSorted : (cs : List (Candidate P)) → IsSorted (sort_by_score F cs)
  unfolding sort_by_score
  sort-IsSorted [] = tt
  sort-IsSorted (c ∷ cs) = insert-IsSorted c (sort_by_score F cs) (sort-IsSorted cs)

  insert-length :
      (c : Candidate P) (cs : List (Candidate P))
      → length (insert_by_score F c cs) ≡ suc (length cs)
  unfolding insert_by_score
  insert-length c [] = refl
  insert-length c (d ∷ ds) = ground (arith, insert-length c ds)

  sort-length : (cs : List (Candidate P)) → length (sort_by_score F cs) ≡ length cs
  unfolding sort_by_score
  sort-length [] = refl
  sort-length (c ∷ cs) = insert-length c (sort_by_score F cs) ∙ ap suc (sort-length cs)

  -- No element of the first list scores lower than one of the second.
  abbrev pub Beat : List (Candidate P) → List (Candidate P) → Type 0
  Beat cs ds =
      All (λ (c : Candidate P). All (λ (d : Candidate P). d.combined_score ≤ c.combined_score) ds)
        cs

  All-drop :
      (n m : ℕ) (cs : List (Candidate P))
      → All (λ (d : Candidate P). d.combined_score ≤ m) cs
      → All (λ (d : Candidate P). d.combined_score ≤ m) (drop n cs)
  All-drop zero m cs all = all
  All-drop (suc n) m [] all = tt
  All-drop (suc n) m (c ∷ cs) all = All-drop n m cs all.1

  All-take :
      (n m : ℕ) (cs : List (Candidate P))
      → All (λ (d : Candidate P). d.combined_score ≤ m) cs
      → All (λ (d : Candidate P). d.combined_score ≤ m) (take n cs)
  All-take zero m cs all = tt
  All-take (suc n) m [] all = tt
  All-take (suc n) m (c ∷ cs) all = (all.0, All-take n m cs all.1)

  cut :
      (n : ℕ) (cs : List (Candidate P))
      → IsSorted cs
      → IsSorted (take n cs) × Beat (take n cs) (drop n cs) × (take n cs ++ drop n cs ≡ cs)
  cut zero cs s = (tt, tt, refl)
  cut (suc n) [] s = (tt, tt, refl)
  cut (suc n) (c ∷ cs) s =
      let (sorted, beat, whole) = cut n cs s.1 in
      (
        (All-take n c.combined_score cs s.0, sorted),
        (All-drop n c.combined_score cs s.0, beat),
        ap (◌∷◌ c) whole,
      )

  -- What an answer promises of the candidates, cut at `limit`.
  abbrev pub IsBest : ℕ → List (Candidate P) → List (Candidate P) → List (Candidate P) → Type 0
  IsBest limit candidates answer rest =
      Perm (answer ++ rest) candidates
      × IsSorted answer
      × Beat answer rest
      × (length answer ≡ min limit (length candidates))

  cut-IsBest :
      (limit : ℕ) (cs : List (Candidate P))
      → IsBest limit cs (take limit (sort_by_score F cs)) (drop limit (sort_by_score F cs))
  cut-IsBest limit cs =
      let ds = sort_by_score F cs in
      let (sorted, beat, whole) = cut limit ds (sort-IsSorted cs) in
      (
        subst (λ l. Perm l cs) (sym whole) (sort-perm cs),
        sorted,
        beat,
        length-take limit ds ∙ ap (min limit) (sort-length cs),
      )

  ranked-IsBest :
      (ranks : Option (List (Text × P))) (limit : ℕ) (cs answer : List (Candidate P))
      → ranked F ranks limit cs ≡ some answer
      → (used : List (Text × P)) × (rest : List (Candidate P)) × (ranks ≡ some used)
        × IsBest limit (map (rescore F used) cs) answer rest
  unfolding ranked
  ranked-IsBest none limit cs answer e = absurd (cc)
  ranked-IsBest (some used) limit cs answer e =
      let ds = map (rescore F used) cs in
      let same : take limit (sort_by_score F ds) ≡ answer = cc in
      (
        used,
        drop limit (sort_by_score F ds),
        refl,
        subst (λ a. IsBest limit ds a (drop limit (sort_by_score F ds))) same (cut-IsBest limit ds),
      )

  -- A recommendation answers the best candidates: with the PageRanks that it uses, those of the engine
  -- or none, the answer and some rest are all candidates, each once; the answer is in descending order of
  -- the score, none of the rest scores higher than one of the answer, and there are as many as asked for,
  -- or all.
  pub scenario_a_friend_recommendation-IsBest :
      (limit : ℕ) (records : List (Found P)) (run : Ran P) (answer : List (Candidate P))
      → scenario_a_friend_recommendation F limit records run ≡ some answer
      → (ranks : List (Text × P)) × (rest : List (Candidate P)) × (cpp_pagerank F
            (need_cpp F (map (candidate_of F) records))
            run
          ≡ some ranks)
        × IsBest limit (map (rescore F ranks) (map (candidate_of F) records)) answer rest
  unfolding scenario_a_friend_recommendation
  scenario_a_friend_recommendation-IsBest limit records run answer e =
      let candidates = map (candidate_of F) records in
      ranked-IsBest (cpp_pagerank F (need_cpp F candidates) run) limit candidates answer e

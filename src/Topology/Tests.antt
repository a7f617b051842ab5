-- ===== src/Topology/Tests.antt =====
-- Five links on pages of two, from Neo4j and from the engine.
use social_graph_engine.Base.{
  ℕ, ◌≡◌, refl, none, some, List, [], ◌∷◌, map, length, take, drop, Text, text_eq, arith,
  length-take,
}
use social_graph_engine.Topology.{
  rows, query_failed, Session, success, failure, paged, zero_division, text_ltb, insert, node_ids,
  nodes_of, pages_for, clamp, link_of, get_full_topology, slice, fall_back, or_fall_back,
  with_counts, page_from, query_links, query_page, get_topology_paginated,
}
use social_graph_engine.Topology.Pages.{
  IsSnapshot, joined, links_of, get_topology_paginated_complete,
}
use social_graph_engine.Topology.Answers.{IsAnswer, IsLimited, get_topology_paginated-IsAnswer}

program : Unit {0}
unfolding text_eq text_ltb insert node_ids nodes_of pages_for clamp link_of get_full_topology slice
    fall_back or_fall_back with_counts page_from query_links query_page get_topology_paginated
program = tt

-- An id is written as one character.
abbrev letter : ℕ → Text
letter n = n ∷ []

abbrev edges : List (ℕ × ℕ)
edges = (1, 2) ∷ (1, 3) ∷ (2, 3) ∷ (4, 1) ∷ (4, 3) ∷ []

abbrev neo4j : Session ℕ
neo4j = record {
  relations = rows edges;
  count_relations = rows (some 5);
  count_users = rows (some 9);
  page_of_relations = λ skip limit. rows (take limit (drop skip edges));
}

neo4j-IsSnapshot : IsSnapshot edges 9 neo4j
neo4j-IsSnapshot = record {
  counts_relations = refl;
  counts_users = refl;
  cuts = λ skip limit. refl;
}

neo4j-IsLimited : IsLimited (some neo4j)
neo4j-IsLimited skip limit rs e =
    let back : length rs ≡ length (take limit (drop skip edges)) = cc in
    omega (arith, back, length-take limit (drop skip edges))

-- A page past the end is the last one.
last_page :
    get_topology_paginated letter (some neo4j) failure 7 2
    ≡ paged record {
      page = 3;
      page_size = 2;
      total_nodes = 9;
      total_edges = 5;
      total_pages = 3;
      nodes = record { id = 3 ∷ []; group = 1 } ∷ record { id = 4 ∷ []; group = 1 } ∷ [];
      links = record { source = 4 ∷ []; target = 3 ∷ [] } ∷ [];
    }
unfolding program
last_page = refl

no_size : get_topology_paginated letter (some neo4j) failure 1 0 ≡ zero_division
unfolding program
no_size = refl

-- Where only the query for the links fails, the fallback starts from the page that Neo4j's count allows:
-- page 7 has become page 1.
clamped_fallback :
    links_of (
      get_topology_paginated letter
        (some (record neo4j {
          relations = query_failed;
          count_relations = rows (some 1);
          page_of_relations = λ skip limit. query_failed;
        }))
        (success [] (map (link_of letter) edges))
        7
        2)
    ≡ map (link_of letter) (take 2 edges)
unfolding program
clamped_fallback = refl

get_topology_paginated_complete_example :
    (joined
        (λ page. links_of (get_topology_paginated letter (some neo4j) failure page 2))
        (pages_for 5 2)
      ≡ map (link_of letter) edges)
    × (joined
          (λ page.
            links_of
              (get_topology_paginated letter none (success [] (map (link_of letter) edges)) page 2))
          (pages_for 5 2)
        ≡ map (link_of letter) edges)
get_topology_paginated_complete_example =
    get_topology_paginated_complete letter edges 9 neo4j failure [] 2 neo4j-IsSnapshot (omega arith)

get_topology_paginated-IsAnswer_example :
    IsAnswer failure 2 (get_topology_paginated letter (some neo4j) failure 7 2)
get_topology_paginated-IsAnswer_example =
    get_topology_paginated-IsAnswer letter (some neo4j) failure 7 2 neo4j-IsLimited

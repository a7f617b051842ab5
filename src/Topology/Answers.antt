-- ===== src/Topology/Answers.antt =====
-- Each answer of `get_topology_paginated`: what a page holds, and how the two ways to it compare.
use social_graph_engine.Base.{
  ℕ, ◌-◌, ◌*◌, ◌≤◌, ◌<◌, ◌≡◌, refl, sym, ◌∙◌, ap, subst, false, ◌==◌, Option, none, some, List, [],
  ◌∷◌, map, length, take, drop, Text, arith, length-take, length-map, Bool-cases, inl, inr, ◌⊎◌,
}
use social_graph_engine.Redis.Laws.{listed}
use social_graph_engine.Topology.{
  Link, Node, Answer, rows, query_failed, Session, Full, success, failure, malformed, engine_raised,
  get_full_topology, fallback_raised, Queried, found, gave_up, Page, Paged, paged, not_loaded,
  zero_division, node_ids, nodes_of, pages_for, clamp, link_of, slice, fall_back, or_fall_back,
  with_counts, page_from, query_links, query_page, get_topology_paginated,
}
use social_graph_engine.Topology.Nodes.{IsSorted, is_endpoint, node_ids-IsSorted, listed-node_ids}
use social_graph_engine.Topology.Pages.{map-take, map-drop, IsSnapshot, paginated_lem, page_at}

-- A page that is in range and not too long, whose nodes are the endpoints of its links, sorted, each
-- once.
abbrev pub IsPage : ℕ → Page → Type 0
IsPage size p =
    ((1 ≤ p.page) × (p.page ≤ p.total_pages))
    × (length p.links ≤ size)
    × IsSorted (map (λ n. n.id) p.nodes)
    × ((t : Text) → listed t (map (λ n. n.id) p.nodes) ≡ is_endpoint t p.links)

-- Why an answer is no page: the engine's error answer, a page size of 0, or an exception of the engine
-- or of the reading of its answer.
abbrev pub IsAnswer : Full → ℕ → Paged → Type 0
IsAnswer engine size (paged p) = IsPage size p
IsAnswer engine size not_loaded = engine ≡ failure
IsAnswer engine size zero_division = size ≡ 0
IsAnswer engine size fallback_raised = (engine ≡ malformed) ⊎ (engine ≡ engine_raised)

-- The engine's answer itself, or links that were read.
abbrev IsFrom : Full → Full → Type 0
IsFrom engine (success _ _) = Unit
IsFrom engine full = full ≡ engine

-- `LIMIT` is kept to.
abbrev pub IsLimited : {V : Type 0} → Option (Session V) → Type 0
IsLimited {V} none = Unit
IsLimited {V} (some session) =
    (skip limit : ℕ) (rs : List (V × V))
    → session.page_of_relations skip limit ≡ rows rs
    → length rs ≤ limit

ids :
    (ts : List Text)
    → map (λ (n : Node). n.id) (map (λ nid. record { id = nid; group = 1 }) ts) ≡ ts
ids [] = refl
ids (t ∷ ts) = ap (λ l. t ∷ l) (ids ts)

nodes_of-ids : (ls : List Link) → map (λ (n : Node). n.id) (nodes_of ls) ≡ node_ids ls
unfolding nodes_of
nodes_of-ids ls = ids (node_ids ls)

in_range :
    (page total size : ℕ)
    → (1 ≤ clamp page (pages_for total size))
      × (clamp page (pages_for total size) ≤ pages_for total size)
unfolding clamp pages_for
in_range page total size = (omega arith, omega arith)

nodes_of-IsPage :
    (size page total users : ℕ) (ls : List Link)
    → length ls ≤ size
    → IsPage size record {
      page = clamp page (pages_for total size);
      page_size = size;
      total_nodes = users;
      total_edges = total;
      total_pages = pages_for total size;
      nodes = nodes_of ls;
      links = ls;
    }
nodes_of-IsPage size page total users ls short = (
  in_range page total size,
  short,
  subst IsSorted (sym (nodes_of-ids ls)) (node_ids-IsSorted ls),
  λ t. ap (listed t) (nodes_of-ids ls) ∙ listed-node_ids t ls,
)

fall_back-IsAnswer :
    (engine full : Full) (page size : ℕ)
    → IsFrom engine full
    → IsAnswer engine size (fall_back full page size)
unfolding fall_back slice
fall_back-IsAnswer engine failure page size from = sym from
fall_back-IsAnswer engine malformed page size from = inl (sym from)
fall_back-IsAnswer engine engine_raised page size from = inr (sym from)
fall_back-IsAnswer engine (success nodes ls) page size from = elim (Bool-cases (size == 0)) [
  | inl e ↦ rw e (ground arith)
  | inr e ↦
      let here = clamp page (pages_for (length ls) size) in
      let cut = take size (drop ((here - 1) * size) ls) in
      rw e (
        nodes_of-IsPage size page (length ls) (length (node_ids ls)) cut
          (omega (arith, length-take size (drop ((here - 1) * size) ls))))
]

self-IsFrom : (engine : Full) → IsFrom engine engine
self-IsFrom (success _ _) = tt
self-IsFrom failure = refl
self-IsFrom malformed = refl
self-IsFrom engine_raised = refl

abbrev Fine : ℕ → Queried → Type 0
Fine size (gave_up page) = Unit
Fine size (found p) = IsPage size p

module _ {V : Type 0} (str : V → Text) where
  page_from-Fine :
      (size page total users : ℕ) (a : Answer (List (V × V)))
      → ((rs : List (V × V)) → a ≡ rows rs → length rs ≤ size)
      → Fine size (page_from str total users (clamp page (pages_for total size)) size a)
  unfolding page_from
  page_from-Fine size page total users query_failed limited = tt
  page_from-Fine size page total users (rows rs) limited =
      nodes_of-IsPage size page total users (map (link_of str) rs)
        (omega (arith, length-map (link_of str) rs, limited rs refl))

  query_links-Fine :
      (session : Session V) (size page total users : ℕ)
      → IsLimited (some session)
      → Fine size (query_links str session total users page size)
  unfolding query_links
  query_links-Fine session size page total users limited = elim (Bool-cases (size == 0)) [
    | inl e ↦ rw e tt
    | inr e ↦ rw e (page_from-Fine size page total users _ (limited _ size))
  ]

  with_counts-Fine :
      (size : ℕ) (c u : Answer (Option ℕ)) (page : ℕ) (go_on : ℕ → ℕ → Queried)
      → ((e n : ℕ) → Fine size (go_on e n))
      → Fine size (with_counts c u page go_on)
  unfolding with_counts
  with_counts-Fine size (rows c) (rows u) page go_on fine = fine _ _
  with_counts-Fine size (rows c) query_failed page go_on fine = tt
  with_counts-Fine size query_failed u page go_on fine = tt

  or_fall_back-IsAnswer :
      (size : ℕ) (o : Queried) (engine full : Full)
      → IsFrom engine full
      → Fine size o
      → IsAnswer engine size (or_fall_back o full size)
  unfolding or_fall_back
  or_fall_back-IsAnswer size (gave_up page) engine full from fine =
      fall_back-IsAnswer engine full page size from
  or_fall_back-IsAnswer size (found p) engine full from fine = fine

  get_full_topology-IsFrom :
      (session : Session V) (engine : Full)
      → IsFrom engine (get_full_topology str (some session) engine)
  unfolding get_full_topology
  get_full_topology-IsFrom session engine = of_answer session.relations
    where
      of_answer :
          (a : Answer (List (V × V)))
          → IsFrom engine (elim a [
            | rows records ↦
                success (nodes_of (map (link_of str) records)) (map (link_of str) records)
            | query_failed ↦ engine
          ])
      of_answer (rows records) = tt
      of_answer query_failed = self-IsFrom engine

  -- If Neo4j keeps to LIMIT: whatever page is asked for, and whichever of the queries fail, the
  -- answer is a page between 1 and its `total_pages`, of at most `page_size` links, whose nodes are
  -- the endpoints of these links, each once and in ascending order; or the error answer, only where
  -- the engine answered an error; or, only for a page size of 0, a division by zero; or an exception,
  -- only where the engine's call or the reading of its answer raised.
  pub get_topology_paginated-IsAnswer :
      (driver : Option (Session V)) (engine : Full) (page page_size : ℕ)
      → IsLimited driver
      → IsAnswer engine page_size (get_topology_paginated str driver engine page page_size)
  unfolding get_topology_paginated query_page
  get_topology_paginated-IsAnswer none engine page page_size limited =
      fall_back-IsAnswer engine engine page page_size (self-IsFrom engine)
  get_topology_paginated-IsAnswer (some session) engine page page_size limited =
      or_fall_back-IsAnswer page_size _ engine _ (get_full_topology-IsFrom session engine) (
        with_counts-Fine page_size session.count_relations session.count_users page _
          (λ e n. query_links-Fine session page_size page e n limited))

  slice_at :
      (es : List (V × V)) (users page size : ℕ)
      → 0 < size
      → slice (map (link_of str) es) page size
        ≡ paged (record (page_at str es users page size) {
          total_nodes = length (node_ids (map (link_of str) es));
        })
  unfolding slice
  slice_at es users page size pos =
      let nonzero : (size == 0) ≡ false = ground arith in
      let skip = (clamp page (pages_for (length es) size) - 1) * size in
      let cut : map (link_of str) (take size (drop skip es))
          ≡ take size (drop skip (map (link_of str) es)) =
        map-take (link_of str) size (drop skip es)
        ∙ ap (take size) (map-drop (link_of str) skip es) in
      rw (nonzero, length-map (link_of str) es, cut) refl

  -- While the relations do not change, for every page size but 0: with the same links in the same
  -- order, the page from Neo4j and the page from the engine agree in everything but `total_nodes`;
  -- Neo4j counts all users, the other way only the endpoints of a link.
  pub get_topology_paginated-agree :
      (es : List (V × V)) (users : ℕ) (session : Session V) (engine : Full) (nodes : List Node)
      (page page_size : ℕ)
      → IsSnapshot es users session
      → 0 < page_size
      → (p : Page) × (get_topology_paginated str (some session) engine page page_size
          ≡ paged (record p { total_nodes = users }))
        × (get_topology_paginated str none (success nodes (map (link_of str) es)) page page_size
            ≡ paged (record p { total_nodes = length (node_ids (map (link_of str) es)) }))
  unfolding get_topology_paginated fall_back
  get_topology_paginated-agree es users session engine nodes page page_size snap pos = (
    page_at str es users page page_size,
    paginated_lem str es users session engine page page_size snap pos,
    slice_at es users page page_size pos,
  )

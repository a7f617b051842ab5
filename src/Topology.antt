-- ===== src/Topology.antt =====
-- The full topology and its pages: `get_full_topology` and `get_topology_paginated` of
-- middleware_python/services/neo4j_service.py. Neo4j and the C++ engine are not part of this module: a
-- query is what it answers or that it raises, the engine's fallback what it answers, and `str` is
-- Python's. A set of ids is kept as the list that `sorted` makes of it. A page and a page size are natural
-- numbers here; the routes do not refuse negative ones.
pub mod Nodes
pub mod Pages
pub mod Answers
pub mod Order
mod Tests
use social_graph_engine.Base.{
  ℕ, zero, suc, ◌+◌, ◌-◌, ◌*◌, ◌/◌, min, max, Bool, true, false, ◌==◌, Option, none, some, List, [],
  ◌∷◌, map, length, take, drop, Text, text_eq, if◌then◌else◌, ltb, ◌&&◌, ◌||◌,
}

pub record Link : Type 0 where
  pub source : Text
  pub target : Text

pub record Node : Type 0 where
  pub id : Text
  pub group : ℕ

-- What a query of the driver answers, or that it raises.
pub data Answer (A : Type 0) : Type 0 where
  rows : A → Answer A
  query_failed : Answer A

-- The queries on one session; the counts are those of `count(r)` and `count(u)`, `none` with no record.
pub record Session (V : Type 0) : Type 0 where
  pub relations : Answer (List (V × V))
  pub count_relations : Answer (Option ℕ)
  pub count_users : Answer (Option ℕ)
  pub page_of_relations : ℕ → ℕ → Answer (List (V × V))

-- What `execute_command("get_full_graph")` and `get_full_topology` come to: a success, another dict, a
-- value on which `full.get` or the reading of its links raises, or an exception of `execute_command`.
pub data Full : Type 0 where
  success : List Node → List Link → Full
  failure malformed engine_raised : Full

pub record Page : Type 0 where
  pub page : ℕ
  pub page_size : ℕ
  pub total_nodes : ℕ
  pub total_edges : ℕ
  pub total_pages : ℕ
  pub nodes : List Node
  pub links : List Link

-- A page, the error answer, the ZeroDivisionError of a page size of 0, or an exception of the engine's
-- fallback.
pub data Paged : Type 0 where
  paged : Page → Paged
  not_loaded zero_division fallback_raised : Paged

-- What the queries come to: a page, or an exception, with the value that `page` has by then.
pub data Queried : Type 0 where
  found : Page → Queried
  gave_up : ℕ → Queried

-- `s < t` on texts.
unfoldable pub text_ltb : Text → Text → Bool
text_ltb [] [] = false
text_ltb [] (_ ∷ _) = true
text_ltb (_ ∷ _) [] = false
text_ltb (a ∷ s) (b ∷ t) = ltb a b || ((a == b) && text_ltb s t)

-- `node_ids.add(x)`
unfoldable pub insert : Text → List Text → List Text
insert x [] = x ∷ []
insert x (y ∷ ys) =
    let rest = insert x ys in
    if text_ltb x y then x ∷ y ∷ ys else (if text_eq x y then y ∷ ys else y ∷ rest)

unfoldable pub node_ids : List Link → List Text
node_ids [] = []
node_ids (l ∷ ls) = insert l.source (insert l.target (node_ids ls))

unfoldable pub nodes_of : List Link → List Node
nodes_of links = map (λ nid. record { id = nid; group = 1 }) (node_ids links)

abbrev or_zero : Option ℕ → ℕ
or_zero none = 0
or_zero (some n) = n

unfoldable pub pages_for : ℕ → ℕ → ℕ
pages_for total_edges page_size = max 1 ((total_edges + page_size - 1) / page_size)

unfoldable pub clamp : ℕ → ℕ → ℕ
clamp page total_pages = max 1 (min page total_pages)

module _ {V : Type 0} (str : V → Text) where
  unfoldable pub link_of : V × V → Link
  link_of (source, target) = record { source = str source; target = str target }

  unfoldable pub get_full_topology : Option (Session V) → Full → Full
  get_full_topology none engine = engine
  get_full_topology (some session) engine = elim session.relations [
    | rows records ↦ success (nodes_of (map link_of records)) (map link_of records)
    | query_failed ↦ engine
  ]

-- The page `page` of the links that are all in memory.
unfoldable pub slice : List Link → ℕ → ℕ → Paged
slice all_links page page_size =
    if page_size == 0
    then zero_division
    else (let total_pages = pages_for (length all_links) page_size in
        let here = clamp page total_pages in
        let page_links = take page_size (drop ((here - 1) * page_size) all_links) in
        paged record {
          page = here;
          page_size = page_size;
          total_nodes = length (node_ids all_links);
          total_edges = length all_links;
          total_pages = total_pages;
          nodes = nodes_of page_links;
          links = page_links;
        })

unfoldable pub fall_back : Full → ℕ → ℕ → Paged
fall_back failure page page_size = not_loaded
fall_back malformed page page_size = fallback_raised
fall_back engine_raised page page_size = fallback_raised
fall_back (success _ links) page page_size = slice links page page_size

unfoldable pub or_fall_back : Queried → Full → ℕ → Paged
or_fall_back (found p) full page_size = paged p
or_fall_back (gave_up page) full page_size = fall_back full page page_size

-- The counts, with 0 for a query without a record.
unfoldable pub with_counts : Answer (Option ℕ) → Answer (Option ℕ) → ℕ → (ℕ → ℕ → Queried) → Queried
with_counts (rows count_record) (rows node_record) page go_on =
    go_on (or_zero count_record) (or_zero node_record)
with_counts (rows _) query_failed page go_on = gave_up page
with_counts query_failed _ page go_on = gave_up page

module _ {V : Type 0} (str : V → Text) where
  -- The page `here`, to which `page` is set by now, with the links that were found.
  unfoldable pub page_from : ℕ → ℕ → ℕ → ℕ → Answer (List (V × V)) → Queried
  page_from total_edges total_nodes here page_size query_failed = gave_up here
  page_from total_edges total_nodes here page_size (rows records) = found record {
    page = here;
    page_size = page_size;
    total_nodes = total_nodes;
    total_edges = total_edges;
    total_pages = pages_for total_edges page_size;
    nodes = nodes_of (map (link_of str) records);
    links = map (link_of str) records;
  }

module _ {V : Type 0} (str : V → Text) where
  -- The rest of the queries once the counts are there; the division raises before `page` is set.
  unfoldable pub query_links : Session V → ℕ → ℕ → ℕ → ℕ → Queried
  query_links session total_edges total_nodes page page_size =
      let total_pages = pages_for total_edges page_size in
      let here = clamp page total_pages in
      if page_size == 0
      then gave_up page
      else page_from str total_edges total_nodes here page_size
          (session.page_of_relations ((here - 1) * page_size) page_size)

  unfoldable pub query_page : Session V → ℕ → ℕ → Queried
  query_page session page page_size =
      with_counts session.count_relations session.count_users page
        (λ total_edges total_nodes. query_links session total_edges total_nodes page page_size)

  unfoldable pub get_topology_paginated : Option (Session V) → Full → ℕ → ℕ → Paged
  get_topology_paginated none engine page page_size = fall_back engine page page_size
  get_topology_paginated (some session) engine page page_size =
      or_fall_back (query_page session page page_size) (get_full_topology str (some session) engine)
        page_size

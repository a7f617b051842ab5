-- ===== src/Topology/Pages.antt =====
-- What `get_topology_paginated` answers: pages in range, which together are the topology.
use social_graph_engine.Base.{
  ℕ, zero, suc, ◌+◌, ◌-◌, ◌*◌, ◌/◌, ◌≤◌, ◌<◌, max, ◌≡◌, refl, sym, ◌∙◌, ap, subst, false, ◌==◌,
  Option, none, some, List, [], ◌∷◌, ◌++◌, map, length, take, drop, Text, arith, length-map,
}
use native.Mathlib.Nat.{lt-div-mul-add}
use social_graph_engine.Topology.{
  Link, Node, Answer, rows, Session, Full, success, Page, Paged, paged, not_loaded, zero_division,
  fallback_raised, Queried, found, with_counts, nodes_of, pages_for, clamp, link_of,
  get_full_topology, slice, fall_back, or_fall_back, page_from, query_links, query_page,
  get_topology_paginated,
}

take-nil : {A : Type 0} (n : ℕ) → take {A = A} n [] ≡ []
take-nil zero = refl
take-nil (suc n) = refl

take-add : {A : Type 0} (a b : ℕ) (xs : List A) → take a xs ++ take b (drop a xs) ≡ take (a + b) xs
take-add zero b xs = subst (λ k. take b xs ≡ take k xs) (omega arith) refl
take-add (suc a) b [] = take-nil b ∙ sym (take-nil (suc a + b))
take-add (suc a) b (x ∷ xs) =
    let e : suc (a + b) ≡ suc a + b = omega arith in
    subst (λ k. x ∷ (take a xs ++ take b (drop a xs)) ≡ take k (x ∷ xs)) e
      (ap (λ l. x ∷ l) (take-add a b xs))

take-all : {A : Type 0} (n : ℕ) (xs : List A) → length xs ≤ n → take n xs ≡ xs
take-all zero [] le = refl
take-all zero (x ∷ xs) le = absurd (omega arith)
take-all (suc n) [] le = refl
take-all (suc n) (x ∷ xs) le = ap (λ l. x ∷ l) (take-all n xs (omega arith))

-- The links of pages 1 to `n`, one behind the other.
abbrev pub joined : (ℕ → List Link) → ℕ → List Link
joined get zero = []
joined get (suc n) = joined get n ++ get (suc n)

-- The links that an answer carries.
abbrev pub links_of : Paged → List Link
links_of (paged p) = p.links
links_of not_loaded = []
links_of zero_division = []
links_of fallback_raised = []

pages_for-covers : (total size : ℕ) → 0 < size → total ≤ pages_for total size * size
unfolding pages_for
pages_for-covers total size pos = at_least ((total + size - 1) / size) (lt-div-mul-add pos)
  where
    at_least : (q : ℕ) → total + size - 1 < q * size + size → total ≤ max 1 q * size
    at_least zero lt = omega arith
    at_least (suc q) lt =
        let top : suc q ≡ max 1 (suc q) = omega arith in
        let enough : total ≤ suc q * size = omega arith in subst (λ m. total ≤ m * size) top enough

pages_for-pos : (total size : ℕ) → 1 ≤ pages_for total size
unfolding pages_for
pages_for-pos total size = omega arith

-- The pages are cut one behind the other.
joined-take :
    (get : ℕ → List Link) (size : ℕ) (all : List Link) (n : ℕ)
    → ((k : ℕ) → k < n → get (suc k) ≡ take size (drop (k * size) all))
    → joined get n ≡ take (n * size) all
joined-take get size all zero h = subst (λ k. [] ≡ take k all) {x = 0} (omega arith) refl
joined-take get size all (suc n) h =
    let e : n * size + size ≡ suc n * size = omega arith in
    rw (joined-take get size all n (λ k lt. h k (omega arith)), h n (omega arith))
      (subst (λ k. take (n * size) all ++ take size (drop (n * size) all) ≡ take k all) e
        (take-add (n * size) size all))

pub map-take :
    {A B : Type 0} (f : A → B) (n : ℕ) (xs : List A) → map f (take n xs) ≡ take n (map f xs)
map-take f zero xs = refl
map-take f (suc n) [] = refl
map-take f (suc n) (x ∷ xs) = ap (λ l. f x ∷ l) (map-take f n xs)

pub map-drop :
    {A B : Type 0} (f : A → B) (n : ℕ) (xs : List A) → map f (drop n xs) ≡ drop n (map f xs)
map-drop f zero xs = refl
map-drop f (suc n) [] = refl
map-drop f (suc n) (x ∷ xs) = map-drop f n xs

-- In range the page asked for is the page answered.
clamp-in_range :
    (k total size : ℕ) → k < pages_for total size → (clamp (suc k) (pages_for total size) - 1) ≡ k
unfolding clamp
clamp-in_range k total size lt = omega arith

all_pages :
    (get : ℕ → List Link) (size : ℕ) (all : List Link)
    → 0 < size
    → ((k : ℕ) → k < pages_for (length all) size → get (suc k) ≡ take size (drop (k * size) all))
    → joined get (pages_for (length all) size) ≡ all
all_pages get size all pos h =
    joined-take get size all (pages_for (length all) size) h
    ∙ take-all (pages_for (length all) size * size) all (pages_for-covers (length all) size pos)

slice_links :
    (all : List Link) (size k : ℕ)
    → 0 < size
    → k < pages_for (length all) size
    → links_of (slice all (suc k) size) ≡ take size (drop (k * size) all)
unfolding slice
slice_links all size k pos lt =
    let nonzero : (size == 0) ≡ false = ground arith in
    rw (nonzero, clamp-in_range k (length all) size lt) refl

-- What Neo4j answers while the relations do not change: `es` in the order of their ids.
pub record IsSnapshot {V : Type 0} (es : List (V × V)) (users : ℕ) (session : Session V)
    : Type 0 where
  pub counts_relations : session.count_relations ≡ rows (some (length es))
  pub counts_users : session.count_users ≡ rows (some users)
  pub cuts :
      (skip limit : ℕ) → session.page_of_relations skip limit ≡ rows (take limit (drop skip es))

module _ {V : Type 0} (str : V → Text) where
  query_page-counts :
      (es : List (V × V)) (users : ℕ) (session : Session V) (page size : ℕ)
      → IsSnapshot es users session
      → query_page str session page size ≡ query_links str session (length es) users page size
  unfolding query_page with_counts
  query_page-counts es users session page size snap =
      let go_on = λ (e n : ℕ). query_links str session e n page size in
      ap (λ (a : Answer (Option ℕ)). with_counts a session.count_users page go_on)
        snap.counts_relations
      ∙ ap (λ (a : Answer (Option ℕ)). with_counts (rows (some (length es))) a page go_on)
          snap.counts_users

  -- The page that a snapshot has.
  abbrev pub page_at : List (V × V) → ℕ → ℕ → ℕ → Page
  page_at es users page size =
      let here = clamp page (pages_for (length es) size) in
      let records = take size (drop ((here - 1) * size) es) in
      record {
        page = here;
        page_size = size;
        total_nodes = users;
        total_edges = length es;
        total_pages = pages_for (length es) size;
        nodes = nodes_of (map (link_of str) records);
        links = map (link_of str) records;
      }

  query_links_lem :
      (es : List (V × V)) (users : ℕ) (session : Session V) (page size : ℕ)
      → IsSnapshot es users session
      → 0 < size
      → query_links str session (length es) users page size ≡ found (page_at es users page size)
  unfolding query_links page_from
  query_links_lem es users session page size snap pos =
      let nonzero : (size == 0) ≡ false = ground arith in
      simp (nonzero, snap.cuts ((clamp page (pages_for (length es) size) - 1) * size) size) refl

  query_page_lem :
      (es : List (V × V)) (users : ℕ) (session : Session V) (page size : ℕ)
      → IsSnapshot es users session
      → 0 < size
      → query_page str session page size ≡ found (page_at es users page size)
  query_page_lem es users session page size snap pos =
      query_page-counts es users session page size snap
      ∙ query_links_lem es users session page size snap pos

  -- Neo4j answers the page, and the engine is not asked.
  pub paginated_lem :
      (es : List (V × V)) (users : ℕ) (session : Session V) (engine : Full) (page size : ℕ)
      → IsSnapshot es users session
      → 0 < size
      → get_topology_paginated str (some session) engine page size
        ≡ paged (page_at es users page size)
  unfolding get_topology_paginated or_fall_back
  paginated_lem es users session engine page size snap pos =
      let full = get_full_topology str (some session) engine in
      ap (λ (o : Queried). or_fall_back o full size)
        (query_page_lem es users session page size snap pos)

  paginated_links :
      (es : List (V × V)) (users : ℕ) (session : Session V) (engine : Full) (size k : ℕ)
      → IsSnapshot es users session
      → 0 < size
      → k < pages_for (length (map (link_of str) es)) size
      → links_of (get_topology_paginated str (some session) engine (suc k) size)
        ≡ take size (drop (k * size) (map (link_of str) es))
  paginated_links es users session engine size k snap pos lt =
      let lt' : k < pages_for (length es) size =
        subst (λ n. k < pages_for n size) (length-map (link_of str) es) lt in
      ap links_of (paginated_lem es users session engine (suc k) size snap pos)
      ∙ ap (λ (i : ℕ). map (link_of str) (take size (drop (i * size) es)))
          (clamp-in_range k (length es) size lt')
      ∙ map-take (link_of str) size (drop (k * size) es)
      ∙ ap (take size) (map-drop (link_of str) (k * size) es)

  -- While the relations do not change, the links of the pages 1 to `total_pages`, one behind the
  -- other, are all the links, each once and in order, for every page size but 0: from Neo4j, and from
  -- the engine where there is no driver.
  pub get_topology_paginated_complete :
      (es : List (V × V)) (users : ℕ) (session : Session V) (engine : Full) (nodes : List Node)
      (page_size : ℕ)
      → IsSnapshot es users session
      → 0 < page_size
      → (joined
            (λ page. links_of (get_topology_paginated str (some session) engine page page_size))
            (pages_for (length (map (link_of str) es)) page_size)
          ≡ map (link_of str) es)
        × (joined
              (λ page. links_of (
                get_topology_paginated str none
                  (success nodes (map (link_of str) es))
                  page
                  page_size))
              (pages_for (length (map (link_of str) es)) page_size)
            ≡ map (link_of str) es)
  unfolding get_topology_paginated fall_back
  get_topology_paginated_complete es users session engine nodes page_size snap pos = (
    all_pages (λ page. links_of (get_topology_paginated str (some session) engine page page_size))
        page_size (map (link_of str) es) pos
        (λ k lt. paginated_links es users session engine page_size k snap pos lt),
    all_pages
        (λ page.
          links_of
            (get_topology_paginated str none (success nodes (map (link_of str) es)) page page_size))
        page_size (map (link_of str) es) pos
        (λ k lt. slice_links (map (link_of str) es) page_size k pos lt),
  )

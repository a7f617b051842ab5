-- ===== src/Topology/Order.antt =====
-- The nodes of `get_full_topology` (middleware_python/services/neo4j_service.py) as a function of the
-- set of endpoints, whatever the order, the direction and the number of the links.
use social_graph_engine.Base.{
  ◌≡◌, refl, sym, ◌∙◌, ap, subst, true, false, List, [], ◌∷◌, Text, text_eq, text_eq_sound,
  text_eq_refl, ◌||◌, arith, map, Bool-cases, inl, inr,
}
use mathlib.Core.Quot
use mathlib.Core.Quot.{Quot}
use social_graph_engine.Redis.Laws.{listed}
use social_graph_engine.Topology.{Link, Node, text_ltb, node_ids, nodes_of}
use social_graph_engine.Topology.Nodes.{
  IsBelow, IsSorted, is_endpoint, node_ids-IsSorted, listed-node_ids,
}

text_ltb_trans : (s t u : Text) → text_ltb s t ≡ true → text_ltb t u ≡ true → text_ltb s u ≡ true
unfolding text_ltb
text_ltb_trans [] [] u h k = cc
text_ltb_trans [] (_ ∷ _) [] h k = cc
text_ltb_trans [] (_ ∷ _) (_ ∷ _) h k = refl
text_ltb_trans (_ ∷ _) [] u h k = cc
text_ltb_trans (_ ∷ _) (_ ∷ _) [] h k = cc
text_ltb_trans (a ∷ s) (b ∷ t) (c ∷ u) h k = ground (arith, text_ltb_trans s t u)

text_ltb_irrefl : (s : Text) → text_ltb s s ≡ false
unfolding text_ltb
text_ltb_irrefl [] = refl
text_ltb_irrefl (a ∷ s) = ground (arith, text_ltb_irrefl s)

-- What is listed behind the head of a sorted list comes after the head.
listed-after :
    (x t : Text) (xs : List Text)
    → IsBelow x xs
    → IsSorted xs
    → listed t xs ≡ true
    → text_ltb x t ≡ true
listed-after x t [] below s h = cc
listed-after x t (y ∷ ys) below s h = elim (Bool-cases (text_eq y t)) [
  | inl same ↦ subst (λ z. text_ltb x z ≡ true) (text_eq_sound y t same) below
  | inr other ↦ text_ltb_trans x y t below (listed-after y t ys s.0 s.1 (ground arith))
]

head_unlisted : (x : Text) (xs : List Text) → IsBelow x xs → IsSorted xs → listed x xs ≡ false
head_unlisted x xs below s = elim (Bool-cases (listed x xs)) [
  | inl there ↦ absurd (cc (sym (listed-after x x xs below s there) ∙ text_ltb_irrefl x))
  | inr gone ↦ gone
]

heads_equal :
    (x y : Text) (xs ys : List Text)
    → IsSorted (x ∷ xs)
    → IsSorted (y ∷ ys)
    → listed y (x ∷ xs) ≡ true
    → listed x (y ∷ ys) ≡ true
    → x ≡ y
heads_equal x y xs ys s s' h h' = elim (Bool-cases (text_eq x y)) [
  | inl same ↦ text_eq_sound x y same
  | inr other ↦ elim (Bool-cases (text_eq y x)) [
    | inl same ↦ sym (text_eq_sound y x same)
    | inr other' ↦
        let less = listed-after x y xs s.0 s.1 (ground arith) in
        let more = listed-after y x ys s'.0 s'.1 (ground arith) in
        absurd (cc (sym (text_ltb_trans x y x less more) ∙ text_ltb_irrefl x))
  ]
]

listed_head : (x : Text) (xs : List Text) → listed x (x ∷ xs) ≡ true
listed_head x xs = ap (λ b. b || listed x xs) (text_eq_refl x)

-- The tails of two sorted lists with one head list the same.
tails_agree :
    (x t : Text) (xs ys : List Text)
    → IsSorted (x ∷ xs)
    → IsSorted (x ∷ ys)
    → listed t (x ∷ xs) ≡ listed t (x ∷ ys)
    → listed t xs ≡ listed t ys
tails_agree x t xs ys s s' same = elim (Bool-cases (text_eq x t)) [
  | inl here ↦
      subst (λ u. listed u xs ≡ listed u ys) (text_eq_sound x t here)
        (head_unlisted x xs s.0 s.1 ∙ sym (head_unlisted x ys s'.0 s'.1))
  | inr elsewhere ↦ ground arith
]

-- A sorted list without repetitions is known by what it lists.
sorted_unique :
    (xs ys : List Text)
    → IsSorted xs
    → IsSorted ys
    → ((t : Text) → listed t xs ≡ listed t ys)
    → xs ≡ ys
sorted_unique [] [] s s' same = refl
sorted_unique [] (y ∷ ys) s s' same = absurd (cc (same y ∙ listed_head y ys))
sorted_unique (x ∷ xs) [] s s' same = absurd (cc (sym (same x) ∙ listed_head x xs))
sorted_unique (x ∷ xs) (y ∷ ys) s s' same =
    let e : x ≡ y =
      heads_equal x y xs ys s s' (same y ∙ listed_head y ys) (sym (same x) ∙ listed_head x xs) in
    let s'' : IsSorted (x ∷ ys) = subst (λ z. IsSorted (z ∷ ys)) (sym e) s' in
    let same' : (t : Text) → listed t (x ∷ xs) ≡ listed t (x ∷ ys) =
      subst (λ z. (t : Text) → listed t (x ∷ xs) ≡ listed t (z ∷ ys)) (sym e) same in
    ap (◌∷◌ x) (sorted_unique xs ys s.1 s''.1 (λ t. tails_agree x t xs ys s s'' (same' t)))
    ∙ ap (λ z. z ∷ ys) e

-- The links have the same endpoints.
abbrev pub SameEndpoints : List Link → List Link → Type 0
SameEndpoints ls ls' = (t : Text) → is_endpoint t ls ≡ is_endpoint t ls'

node_ids-SameEndpoints : (ls ls' : List Link) → SameEndpoints ls ls' → node_ids ls ≡ node_ids ls'
node_ids-SameEndpoints ls ls' same =
    sorted_unique (node_ids ls) (node_ids ls') (node_ids-IsSorted ls) (node_ids-IsSorted ls')
      (λ t. listed-node_ids t ls ∙ same t ∙ sym (listed-node_ids t ls'))

-- The nodes of a topology are a function of the links up to their order, their direction and their
-- number: a function of the quotient by equality of the endpoints gives the nodes that the code makes of
-- any list of links.
pub nodes_of-factors :
    (nodes : Quot SameEndpoints → List Node) × ((ls : List Link) → nodes (Quot.mk ls) ≡ nodes_of ls)
unfolding nodes_of
nodes_of-factors = (
  Quot.lift (hlevel) nodes_of (λ ls ls' same. ap (map _) (node_ids-SameEndpoints ls ls' same)),
  λ ls. refl,
)

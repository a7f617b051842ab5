-- ===== src/Topology/Nodes.antt =====
-- The ids of a list of links: sorted, and exactly the endpoints.
use social_graph_engine.Base.{
  ◌≡◌, refl, Bool, true, false, List, [], ◌∷◌, Text, text_eq, text_eq_sound, ◌||◌, arith,
  Bool-cases, inl, inr, ap,
}
use social_graph_engine.Redis.Laws.{listed}
use social_graph_engine.Topology.{Link, text_ltb, insert, node_ids}

-- `x` comes before the first of the list.
abbrev pub IsBelow : Text → List Text → Type 0
IsBelow x [] = Unit
IsBelow x (y ∷ ys) = text_ltb x y ≡ true

abbrev pub IsSorted : List Text → Type 0
IsSorted [] = Unit
IsSorted (x ∷ xs) = IsBelow x xs × IsSorted xs

abbrev pub is_endpoint : Text → List Link → Bool
is_endpoint t [] = false
is_endpoint t (l ∷ ls) = text_eq l.source t || (text_eq l.target t || is_endpoint t ls)

text_ltb_total : (s t : Text) → text_ltb s t ≡ false → text_eq s t ≡ false → text_ltb t s ≡ true
unfolding text_ltb text_eq
text_ltb_total [] [] h e = cc
text_ltb_total [] (_ ∷ _) h e = cc
text_ltb_total (_ ∷ _) [] h e = refl
text_ltb_total (a ∷ s) (b ∷ t) h e = ground (arith, text_ltb_total s t)

insert-IsBelow :
    (x y : Text) (ys : List Text) → text_ltb y x ≡ true → IsBelow y ys → IsBelow y (insert x ys)
unfolding insert
insert-IsBelow x y [] lt below = lt
insert-IsBelow x y (z ∷ zs) lt below = elim (Bool-cases (text_ltb x z)) [
  | inl e ↦ rw e lt
  | inr e ↦ elim (Bool-cases (text_eq x z)) [
    | inl same ↦ rw (e, same) below
    | inr other ↦ rw (e, other) below
  ]
]

insert-IsSorted : (x : Text) (ys : List Text) → IsSorted ys → IsSorted (insert x ys)
unfolding insert
insert-IsSorted x [] ok = (tt, tt)
insert-IsSorted x (y ∷ ys) ok = elim (Bool-cases (text_ltb x y)) [
  | inl e ↦ rw e (e, ok)
  | inr e ↦ elim (Bool-cases (text_eq x y)) [
    | inl same ↦ rw (e, same) ok
    | inr other ↦
        rw (e, other)
          (insert-IsBelow x y ys (text_ltb_total x y e other) ok.0, insert-IsSorted x ys ok.1)
  ]
]

pub node_ids-IsSorted : (ls : List Link) → IsSorted (node_ids ls)
unfolding node_ids
node_ids-IsSorted [] = tt
node_ids-IsSorted (l ∷ ls) =
    insert-IsSorted l.source _ (insert-IsSorted l.target _ (node_ids-IsSorted ls))

listed-insert :
    (t x : Text) (ys : List Text) → listed t (insert x ys) ≡ (text_eq x t || listed t ys)
unfolding insert
listed-insert t x [] = refl
listed-insert t x (y ∷ ys) = elim (Bool-cases (text_eq x y)) [
  | inl same ↦
      let e : x ≡ y = text_eq_sound x y same in
      ground (arith, ap (λ (z : Text). text_eq z t) e, listed-insert t x ys)
  | inr other ↦ ground (arith, listed-insert t x ys)
]

pub listed-node_ids : (t : Text) (ls : List Link) → listed t (node_ids ls) ≡ is_endpoint t ls
unfolding node_ids
listed-node_ids t [] = refl
listed-node_ids t (l ∷ ls) =
    rw
      (
        listed-insert t l.source (insert l.target (node_ids ls)),
        listed-insert t l.target (node_ids ls),
        listed-node_ids t ls,
      )
      refl

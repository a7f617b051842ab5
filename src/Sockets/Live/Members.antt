-- ===== src/Sockets/Live/Members.antt =====
-- The set `_active_subscribers` of middleware_python/websockets/live_data_ws.py as a list without
-- repetitions.
use social_graph_engine.Base.{
  ℕ, ◌≡◌, refl, false, ◌||◌, List, [], ◌∷◌, ◌++◌, ◌==◌, arith, Bool-cases, inl, inr,
}
use social_graph_engine.Sockets.Live.{is_member, add_member, discard}

abbrev pub IsDistinct : List ℕ → Type 0
IsDistinct [] = Unit
IsDistinct (x ∷ xs) = (is_member x xs ≡ false) × IsDistinct xs

pub is_member-append :
    (w : ℕ) (xs ys : List ℕ) → is_member w (xs ++ ys) ≡ (is_member w xs || is_member w ys)
unfolding is_member
is_member-append w [] ys = refl
is_member-append w (x ∷ xs) ys = ground (arith, is_member-append w xs ys)

pub IsDistinct-drop_middle :
    (before xs : List ℕ) (x : ℕ) → IsDistinct (before ++ x ∷ xs) → IsDistinct (before ++ xs)
unfolding is_member
IsDistinct-drop_middle [] xs x d = d.1
IsDistinct-drop_middle (y ∷ before) xs x d = (
  ground (arith, is_member-append y before (x ∷ xs), is_member-append y before xs),
  IsDistinct-drop_middle before xs x d.1,
)

pub is_member-before :
    (before xs : List ℕ) (x : ℕ) → IsDistinct (before ++ x ∷ xs) → is_member x before ≡ false
unfolding is_member
is_member-before [] xs x d = refl
is_member-before (y ∷ before) xs x d =
    ground (arith, is_member-append y before (x ∷ xs), is_member-before before xs x)

pub discard-middle :
    (before xs : List ℕ) (x : ℕ)
    → is_member x before ≡ false
    → discard x (before ++ x ∷ xs) ≡ before ++ xs
unfolding is_member discard
discard-middle [] xs x out = ground arith
discard-middle (y ∷ before) xs x out = ground (arith, discard-middle before xs x)

pub is_member-discard :
    (w v : ℕ) (xs : List ℕ) → is_member w xs ≡ false → is_member w (discard v xs) ≡ false
unfolding is_member discard
is_member-discard w v [] out = refl
is_member-discard w v (x ∷ xs) out = ground (arith, is_member-discard w v xs)

pub discard-IsDistinct : (v : ℕ) (xs : List ℕ) → IsDistinct xs → IsDistinct (discard v xs)
unfolding discard
discard-IsDistinct v [] d = tt
discard-IsDistinct v (x ∷ xs) d = elim (Bool-cases (x == v)) [
  | inl same ↦ rw same d.1
  | inr other ↦ rw other (is_member-discard x v xs d.0, discard-IsDistinct v xs d.1)
]

snoc-IsDistinct :
    (w : ℕ) (xs : List ℕ) → is_member w xs ≡ false → IsDistinct xs → IsDistinct (xs ++ w ∷ [])
unfolding is_member
snoc-IsDistinct w [] out d = (refl, tt)
snoc-IsDistinct w (x ∷ xs) out d =
    (ground (arith, is_member-append x xs (w ∷ [])), snoc-IsDistinct w xs (ground arith) d.1)

pub add_member-IsDistinct : (w : ℕ) (xs : List ℕ) → IsDistinct xs → IsDistinct (add_member w xs)
unfolding add_member
add_member-IsDistinct w xs d = elim (Bool-cases (is_member w xs)) [
  | inl old ↦ rw old d
  | inr new ↦ rw new (snoc-IsDistinct w xs new d)
]

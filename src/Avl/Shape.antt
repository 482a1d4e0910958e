-- ===== src/Avl/Shape.antt =====
-- The AVL invariant: every balance is the difference of the two heights. A path keeps what a subtree
-- of a given height must have around it.
use libls.Prelude.{ℕ, suc, max, ◌≡◌, [], ◌∷◌}
use libls.Avl.{
  Balance, equal_height, left_higher, right_higher, Tree, leaf, node, from_left, from_right,
  Ancestors, plug,
}

abbrev pub height : Tree → ℕ
height leaf = 0
height (node b l x r) = suc (max (height l) (height r))

abbrev pub Tells : Balance → ℕ → ℕ → Type 0
Tells equal_height l r = l ≡ r
Tells left_higher l r = l ≡ suc r
Tells right_higher l r = r ≡ suc l

abbrev pub IsAvl : Tree → Type 0
IsAvl leaf = Unit
IsAvl (node b l x r) = IsAvl l × IsAvl r × Tells b (height l) (height r)

-- Around a subtree of height `h` the tree is an AVL tree.
abbrev pub FitsAround : ℕ → Ancestors → Type 0
FitsAround h [] = Unit
FitsAround h (from_left b x r ∷ up) =
    IsAvl r × Tells b h (height r) × FitsAround (suc (max h (height r))) up
FitsAround h (from_right b l x ∷ up) =
    IsAvl l × Tells b (height l) h × FitsAround (suc (max (height l) h)) up

-- An AVL subtree in a path that fits its height makes an AVL tree, and conversely.
pub IsAvl-plug :
    (t : Tree) (up : Ancestors) → IsAvl t → FitsAround (height t) up → IsAvl (plug t up)
unfolding plug
IsAvl-plug t [] a f = a
IsAvl-plug t (from_left b x r ∷ up) a (ar, b', f) = IsAvl-plug (node b t x r) up (a, ar, b') f
IsAvl-plug t (from_right b l x ∷ up) a (al, b', f) = IsAvl-plug (node b l x t) up (al, a, b') f

pub FitsAround-plug :
    (t : Tree) (up : Ancestors) → IsAvl (plug t up) → IsAvl t × FitsAround (height t) up
unfolding plug
FitsAround-plug t [] a = (a, tt)
FitsAround-plug t (from_left b x r ∷ up) a =
    let ((at, ar, b'), f) = FitsAround-plug (node b t x r) up a in (at, (ar, b', f))
FitsAround-plug t (from_right b l x ∷ up) a =
    let ((al, at, b'), f) = FitsAround-plug (node b l x t) up a in (at, (al, b', f))

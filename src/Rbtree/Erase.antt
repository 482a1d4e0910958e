-- ===== src/Rbtree/Erase.antt =====
-- `rb_erase` as a whole: the tree without the node, still a red-black tree.
use mathlib.Core.List.{append_assoc}
use libls.Prelude.{ℕ, suc, ◌≡◌, refl, sym, ap, subst, ◌∙◌, some, List, [], ◌∷◌, ◌++◌, arith}
use libls.Rbtree.{
  Color, red, black, Tree, leaf, node, from_left, from_right, Ancestors, rb_color, rb_set_color,
  ____rb_erase_color, successor, replace_by, rb_erase,
}
use libls.Links.{plug, inorder, before, behind, inorder-plug}
use libls.Rbtree.Shape.{
  Apart, counted, black_height, IsRb, IsRbTree, color_above, FitsAround, FitsAround-plug,
  Apart-black, RedBlack, RedBlack-eq, plug-RedBlack,
}
use libls.Rbtree.Recolor.{recolor-RedBlack}

-- A subtree that its path fits.
abbrev Fitting : Ancestors → Tree → Type 0
Fitting up t = IsRb t × Apart (color_above up) (rb_color t) × FitsAround (black_height t) up

-- A leaf takes the place of a node without children.
leaf-RedBlack :
    (c : Color) (up : Ancestors)
    → FitsAround (counted c 0) up
    → RedBlack
        (before up ++ behind up)
        (elim c [ red ↦ some (plug leaf up) | black ↦ ____rb_erase_color leaf up ])
unfolding rb_color inorder
leaf-RedBlack red up f = plug-RedBlack leaf up 0 [] tt refl (Apart-black (color_above up)) refl f
leaf-RedBlack black up f = recolor-RedBlack up leaf 0 (tt, refl, tt) f

-- An only child, with its colour.
child-RedBlack :
    (c cc : Color) (l : Tree) (x : ℕ) (r : Tree) (up : Ancestors)
    → IsRb (node cc l x r)
    → black_height (node cc l x r) ≡ 0
    → Apart c cc
    → Apart (color_above up) c
    → FitsAround (counted c 0) up
    → RedBlack
        (before up ++ (inorder (node cc l x r) ++ behind up))
        (some (plug (rb_set_color c (node cc l x r)) up))
unfolding rb_color rb_set_color inorder
child-RedBlack red red l x r up a e d cu f = absurd d
child-RedBlack c black l x r up a e d cu f = absurd (omega (arith, e))
child-RedBlack black red l x r up a e d cu f =
    plug-RedBlack (node black l x r) up 1 _ (a.0, a.1, a.2, tt, tt) (ap suc e) cu refl f

-- The node that takes the place: its path fits the subtree that it leaves.
replace_by-RedBlack :
    (c : Color) (l : Tree) (up : Ancestors) (cs : Color) (y : ℕ) (t : Tree) (path : Ancestors)
    → Fitting (path ++ (from_right c l y ∷ up)) (node cs leaf y t)
    → RedBlack
        (before (path ++ (from_right c l y ∷ up))
          ++ (inorder t ++ behind (path ++ (from_right c l y ∷ up))))
        (replace_by c l up (cs, y, t, path))
unfolding replace_by inorder rb_color
replace_by-RedBlack c l up red y leaf path (a, d, f) =
    leaf-RedBlack red (path ++ (from_right c l y ∷ up)) f
replace_by-RedBlack c l up black y leaf path (a, d, f) =
    leaf-RedBlack black (path ++ (from_right c l y ∷ up)) f
replace_by-RedBlack c l up red y (node red tl z tr) path (a, d, f) = absurd a.4
replace_by-RedBlack c l up black y (node ct tl z tr) path (a, d, f) =
    child-RedBlack black ct tl z tr (path ++ (from_right c l y ∷ up)) a.1 (sym a.2) tt d f
replace_by-RedBlack c l up red y (node black tl z tr) path (a, d, f) = absurd (omega (arith, a.2))

-- What the descent finds above `base`: a node without a left child that fits, the first of the
-- addresses `rest`.
abbrev Found : Ancestors → List ℕ → Color × ℕ × Tree × Ancestors → Type 0
Found base rest (cs, y, t, path) =
    Fitting (path ++ base) (node cs leaf y t)
    × (before (path ++ base) ≡ before base)
    × (y ∷ (inorder t ++ behind (path ++ base)) ≡ rest)

successor-Found :
    (l : Tree) (c : Color) (y : ℕ) (r : Tree) (path base : Ancestors)
    → Fitting (path ++ base) (node c l y r)
    → before (path ++ base) ≡ before base
    → Found base (inorder (node c l y r) ++ behind (path ++ base)) (successor c l y r path)
unfolding successor inorder rb_color
successor-Found leaf c y r path base f e = (f, e, refl)
successor-Found (node b ll x lr) c y r path base ((al, ar, d, cl, cr), cu, f) e =
    Found-eq (successor b ll x lr (from_left c y r ∷ path))
      (sym (append_assoc (inorder (node b ll x lr)) (y ∷ inorder r) (behind (path ++ base))))
      (successor-Found ll b x lr (from_left c y r ∷ path) base (al, cl, (ar, d, cr, cu, f)) e)
  where
    Found-eq :
        {xs ys : List ℕ} (q : Color × ℕ × Tree × Ancestors)
        → xs ≡ ys
        → Found base xs q
        → Found base ys q
    Found-eq (cs, z, t, p) ex (g, h, o) = (g, h, o ∙ ex)

-- The addresses before and behind the erased node, as the path to its successor has them.
around_erased :
    (bs ls : List ℕ) (y : ℕ) (ts ps bs' rest : List ℕ)
    → bs' ≡ bs ++ (ls ++ y ∷ [])
    → y ∷ (ts ++ ps) ≡ rest
    → bs' ++ (ts ++ ps) ≡ bs ++ (ls ++ rest)
around_erased bs ls y ts ps bs' rest e o =
    let f : (bs ++ (ls ++ y ∷ [])) ++ (ts ++ ps) ≡ bs ++ (ls ++ y ∷ (ts ++ ps)) =
      simp append_assoc in
    ap (λ l. l ++ (ts ++ ps)) e ∙ f ∙ ap (λ l. bs ++ (ls ++ l)) o

-- A node with two children.
two_children :
    (c : Color) (l : Tree) (up : Ancestors) (rest : List ℕ) (q : Color × ℕ × Tree × Ancestors)
    → ((z : ℕ) → Found (from_right c l z ∷ up) rest q)
    → RedBlack (before up ++ (inorder l ++ rest)) (replace_by c l up q)
two_children c l up rest (cs, y, t, path) found =
    let (f, e, o) = found y in
    RedBlack-eq _ (around_erased (before up) (inorder l) y (inorder t) _ _ rest e o)
      (replace_by-RedBlack c l up cs y t path f)

erase-RedBlack :
    (c : Color) (l : Tree) (x : ℕ) (r : Tree) (up : Ancestors)
    → Fitting up (node c l x r)
    → RedBlack (before up ++ (inorder l ++ (inorder r ++ behind up))) (rb_erase (node c l x r) up)
unfolding rb_erase inorder rb_color
erase-RedBlack red leaf x leaf up (a, d, f) = leaf-RedBlack red up f
erase-RedBlack black leaf x leaf up (a, d, f) = leaf-RedBlack black up f
erase-RedBlack red leaf x (node cr rl y rr) up (a, d, f) =
    child-RedBlack red cr rl y rr up a.1 (sym a.2) a.4 d f
erase-RedBlack black leaf x (node cr rl y rr) up (a, d, f) =
    child-RedBlack black cr rl y rr up a.1 (sym a.2) tt d f
erase-RedBlack c (node cl ll z lr) x leaf up (a, d, f) =
    child-RedBlack c cl ll z lr up a.0 a.2 a.3 d (subst (λ n. FitsAround (counted c n) up) a.2 f)
erase-RedBlack c (node cl ll z lr) x (node cr rl y rr) up ((al, ar, e, dl, dr), d, f) =
    RedBlack-eq _ refl (
      two_children c (node cl ll z lr) up (inorder (node cr rl y rr) ++ behind up)
        (successor cr rl y rr [])
        (λ v.
          successor-Found rl cr y rr [] (from_right c (node cl ll z lr) v ∷ up)
            (ar, dr, (al, e, dl, d, subst (λ n. FitsAround (counted c n) up) e f)) refl))

-- Erasing any node of a red-black tree follows no null pointer, ends, and gives a red-black tree whose
-- addresses are the old ones in the old order, without that of the node.
pub rb_erase-RedBlack :
    (c : Color) (l : Tree) (x : ℕ) (r : Tree) (up : Ancestors)
    → IsRbTree (plug (node c l x r) up)
    → RedBlack (before up ++ (inorder l ++ (inorder r ++ behind up))) (rb_erase (node c l x r) up)
      × (inorder (plug (node c l x r) up)
          ≡ before up ++ (inorder l ++ x ∷ (inorder r ++ behind up)))
rb_erase-RedBlack c l x r up a = (
  erase-RedBlack c l x r up (FitsAround-plug (node c l x r) up a),
  inorder-plug (node c l x r) up
      ∙ ap (λ xs. before up ++ xs)
          (unfold inorder in append_assoc (inorder l) (x ∷ inorder r) (behind up)),
)

-- ===== src/Rbtree/Replace.antt =====
-- `rb_replace_node`.
use mathlib.Core.List.{append_assoc}
use libls.Prelude.{ℕ, refl, ap, ◌∷◌, ◌++◌}
use libls.Rbtree.{Color, Tree, node, Ancestors, rb_color, rb_replace_node}
use libls.Links.{plug, inorder, before, behind}
use libls.Rbtree.Shape.{
  black_height, IsRbTree, FitsAround-plug, RedBlack, RedBlack-eq, plug-RedBlack,
}

-- The tree stays a red-black tree, with the new address in the place of the old one.
pub rb_replace_node-RedBlack :
    (c : Color) (l : Tree) (x y : ℕ) (r : Tree) (up : Ancestors)
    → IsRbTree (plug (node c l x r) up)
    → RedBlack
        (before up ++ (inorder l ++ y ∷ (inorder r ++ behind up)))
        (rb_replace_node y (node c l x r) up)
unfolding rb_replace_node inorder rb_color
rb_replace_node-RedBlack c l x y r up a =
    let (b, d, f) = FitsAround-plug (node c l x r) up a in
    RedBlack-eq _
      (ap (λ xs. before up ++ xs) (append_assoc (inorder l) (y ∷ inorder r) (behind up)))
      (plug-RedBlack (node c l y r) up (black_height (node c l x r)) (inorder l ++ y ∷ inorder r) b
        refl d refl f)

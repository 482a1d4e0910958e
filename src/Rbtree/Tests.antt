-- ===== src/Rbtree/Tests.antt =====
-- Runs of the red-black tree.
use mathlib.Core.List.{reverse}
use libls.Prelude.{ℕ, suc, ◌≡◌, refl, some, [], ◌∷◌, ◌++◌, length, arith}
use libls.Rbtree.{
  red, black, Tree, leaf, node, from_left, Ancestors, rb_color, rb_set_color, rb_link_node,
  rotate_right, insert_step, __rb_insert, erase_step, rotate_sibling_left, erase_cases_left,
  ____rb_erase_color, successor, replace_by, rb_erase,
}
use libls.Links.{plug, inorder, before, behind}
use libls.Links.Walk.{visited}
use libls.Links.Walk.Postorder.{postorder}
use libls.Rbtree.Shape.{IsRbTree, RedBlack}
use libls.Rbtree.Insert.{__rb_insert-RedBlack}
use libls.Rbtree.Erase.{rb_erase-RedBlack}
use libls.Rbtree.Walk.{
  rb_next, rb_prev, rb_first, rb_last, rb_first_postorder, rb_next_postorder, rb_next-visited,
}
use libls.Rbtree.Search.{rb_insert}
use libls.Rbtree.Search.Sorted.{Sorted}
use libls.Rbtree.Search.Refine.{cmp, insert_key, Refines, rb_insert-Refines}

-- The link left of a red 10, which is left of the root 20.
abbrev below_10 : Ancestors
below_10 = from_left red 10 leaf ∷ from_left black 20 leaf ∷ []

below_10-IsRbTree : IsRbTree (plug leaf below_10)
unfolding plug rb_color
below_10-IsRbTree = (((tt, tt, refl, tt, tt), tt, refl, tt, tt), tt)

insert_rotates :
    __rb_insert (rb_link_node 5) below_10
    ≡ some (node black (node red leaf 5 leaf) 10 (node red leaf 20 leaf))
unfolding __rb_insert rb_link_node insert_step rotate_right rb_color rb_set_color plug
insert_rotates = refl

__rb_insert-RedBlack_example :
    RedBlack (before below_10 ++ 5 ∷ behind below_10) (__rb_insert (rb_link_node 5) below_10)
    × (inorder (plug leaf below_10) ≡ before below_10 ++ behind below_10)
__rb_insert-RedBlack_example = __rb_insert-RedBlack below_10 5 below_10-IsRbTree

-- A tree of four nodes, all black but 40; erasing 10 rotates its sibling 30.
abbrev right_30 : Tree
right_30 = node black leaf 30 (node red leaf 40 leaf)

abbrev above_10 : Ancestors
above_10 = from_left black 20 right_30 ∷ []

abbrev four : Tree
four = node black (node black leaf 10 leaf) 20 right_30

four-IsRbTree : IsRbTree four
unfolding rb_color
four-IsRbTree =
    (((tt, tt, refl, tt, tt), (tt, (tt, tt, refl, tt, tt), refl, tt, tt), refl, tt, tt), tt)

plug_four : IsRbTree (plug (node black leaf 10 leaf) above_10)
unfolding plug
plug_four = four-IsRbTree

erase_rotates :
    rb_erase (node black leaf 10 leaf) above_10
    ≡ some (node black (node black leaf 20 leaf) 30 (node black leaf 40 leaf))
unfolding rb_erase ____rb_erase_color erase_step erase_cases_left rotate_sibling_left rb_color
    rb_set_color plug
erase_rotates = refl

erase_successor :
    rb_erase four [] ≡ some (node black (node black leaf 10 leaf) 30 (node black leaf 40 leaf))
unfolding rb_erase successor replace_by rb_set_color plug
erase_successor = refl

rb_erase-RedBlack_example :
    RedBlack (20 ∷ 30 ∷ 40 ∷ []) (rb_erase (node black leaf 10 leaf) above_10)
    × (inorder (plug (node black leaf 10 leaf) above_10) ≡ 10 ∷ 20 ∷ 30 ∷ 40 ∷ [])
unfolding inorder
rb_erase-RedBlack_example = rb_erase-RedBlack black leaf 10 leaf above_10 plug_four

rb_next-visited_example :
    (visited rb_next (suc (length (inorder four))) (rb_first four) ≡ some (inorder four))
    × (visited rb_prev (suc (length (inorder four))) (rb_last four) ≡ some (reverse (inorder four)))
    × (visited rb_next_postorder (suc (length (postorder four))) (rb_first_postorder four)
        ≡ some (postorder four))
rb_next-visited_example = rb_next-visited four

-- The key of a node is its address.
abbrev own : ℕ → ℕ
own x = x

four-Sorted : Sorted own (inorder four)
unfolding inorder
four-Sorted = (
  (omega arith, (omega arith, (omega arith, tt))),
  ((omega arith, (omega arith, tt)), ((omega arith, tt), (tt, tt))),
)

rb_insert-Refines_example :
    Refines own four (insert_key own 25 (inorder four)) (rb_insert (cmp own 25) 25 four)
rb_insert-Refines_example = rb_insert-Refines own 25 four four-IsRbTree four-Sorted

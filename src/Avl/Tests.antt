-- ===== src/Avl/Tests.antt =====
-- Runs of the AVL tree.
use libls.Prelude.{suc, ◌++◌, ◌≡◌, refl, some, [], ◌∷◌, length}
use mathlib.Core.List.{reverse}
use libls.Avl.{
  equal_height, right_higher, Tree, leaf, node, from_right, Ancestors, plug, inorder,
  avl_insert_balance, avl_link_node, avl_erase, avl_right_balance, erase_real, avl_erase_balance,
  unlink, avl_replace_node, address, erase_step,
}
use libls.Links.Walk.{right_most}
use libls.Avl.Shape.{IsAvl}
use libls.Links.{before, behind}
use libls.Avl.Insert.{Ordered, avl_insert_balance-Ordered}
use libls.Avl.Remove.{Distinct, avl_erase-Ordered}
use libls.Links.Walk.{visited}
use libls.Links.Walk.Postorder.{postorder}
use libls.Avl.Walk.{
  avl_next, avl_prev, avl_first, avl_last, avl_first_postorder, avl_next_postorder,
  avl_next-visited,
}

-- 20 on the right of 10 on the right of nothing, and the link right of 20.
abbrev two : Ancestors
two = from_right equal_height leaf 20 ∷ from_right right_higher leaf 10 ∷ []

two-IsAvl : IsAvl (plug leaf two)
unfolding plug
two-IsAvl = (tt, (tt, tt, refl), refl)

insert_rotates :
    avl_insert_balance (avl_link_node 30) two
    ≡ some (node equal_height (node equal_height leaf 10 leaf) 20 (node equal_height leaf 30 leaf))
unfolding avl_insert_balance avl_link_node avl_right_balance plug
insert_rotates = refl

avl_insert_balance-Ordered_example :
    Ordered (before two ++ 30 ∷ behind two) (avl_insert_balance (avl_link_node 30) two)
    × (inorder (plug leaf two) ≡ before two ++ behind two)
avl_insert_balance-Ordered_example = avl_insert_balance-Ordered two 30 two-IsAvl

-- The tree of four addresses from which the root 20 is erased: 10 takes its place, 30 is rotated.
abbrev left_10 : Tree
left_10 = node equal_height leaf 10 leaf

abbrev right_30 : Tree
right_30 = node right_higher leaf 30 (node equal_height leaf 40 leaf)

four-IsAvl : IsAvl (plug (node right_higher left_10 20 right_30) [])
unfolding plug
four-IsAvl = ((tt, tt, refl), (tt, (tt, tt, refl), refl), refl)

four-Distinct : Distinct (inorder (plug (node right_higher left_10 20 right_30) []))
unfolding plug inorder
four-Distinct = (refl, (refl, (refl, (refl, tt))))

erase_replaces :
    avl_erase (node right_higher left_10 20 right_30) []
    ≡ some (node equal_height left_10 30 (node equal_height leaf 40 leaf))
unfolding avl_erase erase_real right_most avl_erase_balance unlink avl_replace_node address plug
    erase_step
erase_replaces = refl

avl_erase-Ordered_example :
    Ordered
      ((inorder left_10 ++ inorder right_30) ++ [])
      (avl_erase (node right_higher left_10 20 right_30) [])
avl_erase-Ordered_example =
    avl_erase-Ordered right_higher left_10 20 right_30 [] four-IsAvl four-Distinct

abbrev four : Tree
four = node right_higher left_10 20 right_30

avl_next-visited_example :
    (visited avl_next (suc (length (inorder four))) (avl_first four) ≡ some (inorder four))
    × (visited avl_prev (suc (length (inorder four))) (avl_last four)
        ≡ some (reverse (inorder four)))
    × (visited avl_next_postorder (suc (length (postorder four))) (avl_first_postorder four)
        ≡ some (postorder four))
avl_next-visited_example = avl_next-visited four

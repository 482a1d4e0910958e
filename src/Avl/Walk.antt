-- ===== src/Avl/Walk.antt =====
-- src/avltree.c, the iteration.
use mathlib.Core.List.{reverse}
use libls.Prelude.{suc, ◌≡◌, some, length}
use libls.Links.Walk
use libls.Links.Walk.{visited}
use libls.Links.Walk.Order.{next-visited}
use libls.Links.Walk.Postorder.{postorder, first_postorder-visited}
use libls.Avl.{Tree, Ancestors, inorder}

-- A call on the null pointer fails the assertion of `avl_next` and `avl_prev`; the iteration makes none.
unfoldable pub avl_next : Tree → Ancestors → Tree × Ancestors
unfolding Walk.next
avl_next = Walk.next

unfoldable pub avl_prev : Tree → Ancestors → Tree × Ancestors
unfolding Walk.prev
avl_prev = Walk.prev

unfoldable pub avl_first : Tree → Tree × Ancestors
unfolding Walk.first
avl_first = Walk.first

unfoldable pub avl_last : Tree → Tree × Ancestors
unfolding Walk.last
avl_last = Walk.last

unfoldable pub avl_first_postorder : Tree → Tree × Ancestors
unfolding Walk.first_postorder
avl_first_postorder = Walk.first_postorder

unfoldable pub avl_next_postorder : Tree → Ancestors → Tree × Ancestors
unfolding Walk.next_postorder
avl_next_postorder = Walk.next_postorder

-- Loops from `avl_first` by `avl_next`, from `avl_last` by `avl_prev`, and from
-- `avl_first_postorder` by `avl_next_postorder`, visit every node once, in the order of the tree, in the
-- opposite order, and behind its children, and end at the null pointer behind the last one: `visited` is
-- `none` where a loop has not met it after one test more than there are nodes.
pub avl_next-visited :
    (t : Tree)
    → (visited avl_next (suc (length (inorder t))) (avl_first t) ≡ some (inorder t))
      × (visited avl_prev (suc (length (inorder t))) (avl_last t) ≡ some (reverse (inorder t)))
      × (visited avl_next_postorder (suc (length (postorder t))) (avl_first_postorder t)
          ≡ some (postorder t))
unfolding avl_next avl_prev avl_first avl_last avl_next_postorder avl_first_postorder
avl_next-visited t = ((next-visited t).0, (next-visited t).1, first_postorder-visited t)

-- ===== src/Rbtree/Walk.antt =====
-- src/rbtree.c, the iteration.
use mathlib.Core.List.{reverse}
use libls.Prelude.{suc, ◌≡◌, some, length}
use libls.Links.Walk
use libls.Links.Walk.{visited}
use libls.Links.Walk.Order.{next-visited}
use libls.Links.Walk.Postorder.{postorder, first_postorder-visited}
use libls.Rbtree.{Tree, Ancestors, inorder}

-- No node of a tree is `RB_EMPTY_NODE`, so that the test for one is left out.
unfoldable pub rb_next : Tree → Ancestors → Tree × Ancestors
unfolding Walk.next
rb_next = Walk.next

unfoldable pub rb_prev : Tree → Ancestors → Tree × Ancestors
unfolding Walk.prev
rb_prev = Walk.prev

unfoldable pub rb_first : Tree → Tree × Ancestors
unfolding Walk.first
rb_first = Walk.first

unfoldable pub rb_last : Tree → Tree × Ancestors
unfolding Walk.last
rb_last = Walk.last

unfoldable pub rb_first_postorder : Tree → Tree × Ancestors
unfolding Walk.first_postorder
rb_first_postorder = Walk.first_postorder

unfoldable pub rb_next_postorder : Tree → Ancestors → Tree × Ancestors
unfolding Walk.next_postorder
rb_next_postorder = Walk.next_postorder

-- Loops from `rb_first` by `rb_next`, from `rb_last` by `rb_prev`, and from
-- `rb_first_postorder` by `rb_next_postorder`, visit every node once, in the order of the tree, in the
-- opposite order, and behind its children, and end at the null pointer behind the last one: `visited` is
-- `none` where a loop has not met it after one test more than there are nodes.
pub rb_next-visited :
    (t : Tree)
    → (visited rb_next (suc (length (inorder t))) (rb_first t) ≡ some (inorder t))
      × (visited rb_prev (suc (length (inorder t))) (rb_last t) ≡ some (reverse (inorder t)))
      × (visited rb_next_postorder (suc (length (postorder t))) (rb_first_postorder t)
          ≡ some (postorder t))
unfolding rb_next rb_prev rb_first rb_last rb_next_postorder rb_first_postorder
rb_next-visited t = ((next-visited t).0, (next-visited t).1, first_postorder-visited t)

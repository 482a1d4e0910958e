-- ===== src/Rbtree/Search.antt =====
-- include/ls/rbtree.h, `rb_find` and `rb_insert`. The callback `cmp` with its key is a function from the
-- address of a node to the sign of the result. The search ends in a node or at a null link.
pub mod Sorted
pub mod Refine
use libls.Prelude.{ℕ, Option, none, some, [], ◌∷◌}
use Prim.Native.Nat.{Ordering}
use libls.Rbtree.{Tree, leaf, node, from_left, from_right, Ancestors, rb_link_node, __rb_insert}

unfoldable pub rb_find : (ℕ → Ordering) → Tree → Option ℕ
rb_find cmp leaf = none
rb_find cmp (node c l x r) = elim (cmp x) [
  | Ordering.lt ↦ rb_find cmp l
  | Ordering.gt ↦ rb_find cmp r
  | Ordering.eq ↦ some x
]

-- Where the loop of `rb_insert` ends.
pub data Place : Type 0 where
  found : ℕ → Place
  link : Ancestors → Place

unfoldable pub search : (ℕ → Ordering) → Tree → Ancestors → Place
search cmp leaf up = link up
search cmp (node c l x r) up = elim (cmp x) [
  | Ordering.lt ↦ search cmp l (from_left c x r ∷ up)
  | Ordering.gt ↦ search cmp r (from_right c l x ∷ up)
  | Ordering.eq ↦ found x
]

-- What `rb_insert` returns, the tree that it leaves.
unfoldable pub insert_at : ℕ → Tree → Place → Option ℕ × Option Tree
unfolding rb_link_node __rb_insert
insert_at x t (found y) = (some y, some t)
insert_at x t (link up) = (none, __rb_insert (rb_link_node x) up)

unfoldable pub rb_insert : (ℕ → Ordering) → ℕ → Tree → Option ℕ × Option Tree
unfolding search insert_at
rb_insert cmp x t = insert_at x t (search cmp t [])

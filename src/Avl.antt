-- ===== src/Avl.antt =====
-- src/avltree.c and include/ls/avltree.h. A node is known by its address, a number other than 0; the
-- links `left` and `right` make a tree, and the chain of parent pointers above a node is a list of
-- edges, the parent first. `none` is `abort()`, or a null pointer that is followed.
pub mod Packed
pub mod Rotate
pub mod Shape
pub mod Insert
pub mod Unlink
pub mod Erase
pub mod Rename
pub mod Remove
pub mod Walk
mod Tests
use libls.Prelude.{
  ℕ, zero, suc, ◌+◌, max, Bool, true, false, Option, none, some, List, [], ◌∷◌, ◌++◌, ◌==◌,
  if◌then◌else◌,
}
pub use libls.Links.{Linked, leaf, node, Edge, from_left, from_right, Above}
unfoldable pub use libls.Links.{plug, inorder, address}
use libls.Links.Walk.{right_most}

pub data Balance : Type 0 where
  equal_height left_higher right_higher : Balance

-- The nodes carry the two bits `balance`.
abbrev pub Tree : Type 0
Tree = Linked Balance

abbrev pub Ancestors : Type 0
Ancestors = Above Balance

-- `avl_balance`; a null pointer has none.
unfoldable pub avl_balance : Tree → Option Balance
avl_balance leaf = none
avl_balance (node b l x r) = some b

unfoldable pub avl_set_balance : Balance → Tree → Tree
avl_set_balance b leaf = leaf
avl_set_balance b (node _ l x r) = node b l x r

-- `avl_rotate_left(P->right, P)` and `avl_rotate_right(P->left, P)`, on the tree at P; each node keeps
-- its balance.
unfoldable pub avl_rotate_left : Tree → Option Tree
avl_rotate_left (node bp l p (node bn nl n nr)) = some (node bn (node bp l p nl) n nr)
avl_rotate_left t = none

unfoldable pub avl_rotate_right : Tree → Option Tree
avl_rotate_right (node bp (node bn nl n nr) p r) = some (node bn nl n (node bp nr p r))
avl_rotate_right t = none

infixl 5 ◌>>=◌
abbrev pub ◌>>=◌ : Option Tree → (Tree → Option Tree) → Option Tree
none >>= f = none
some t >>= f = f t

-- The balances that the double rotations leave at the outer nodes, by that of the inner one: the node
-- that comes to stand on the left, and the one on the right.
unfoldable pub balance_left_of : Balance → Balance
balance_left_of equal_height = equal_height
balance_left_of left_higher = equal_height
balance_left_of right_higher = left_higher

unfoldable pub balance_right_of : Balance → Balance
balance_right_of equal_height = equal_height
balance_right_of left_higher = right_higher
balance_right_of right_higher = equal_height

-- The left-right case at the parent: the inner node becomes level, the left child is rotated to the
-- left and the parent to the right. `avl_erase_left_right` does the same.
unfoldable pub left_right : Tree → ℕ → Tree → Option Tree
unfolding avl_set_balance balance_left_of balance_right_of avl_rotate_left avl_rotate_right
left_right (node bn nl n (node bi il i ir)) p r = do
  l ←
      avl_rotate_left
        (node (balance_left_of bi) nl n (avl_set_balance equal_height (node bi il i ir)))
  avl_rotate_right (node (balance_right_of bi) l p r)
left_right t p r = none

unfoldable pub right_left : Tree → ℕ → Tree → Option Tree
unfolding avl_set_balance balance_left_of balance_right_of avl_rotate_left avl_rotate_right
right_left l p (node bn (node bi il i ir) n nr) = do
  r ←
      avl_rotate_right
        (node (balance_right_of bi) (avl_set_balance equal_height (node bi il i ir)) n nr)
  avl_rotate_left (node (balance_left_of bi) l p r)
right_left l p t = none

-- `avl_left_balance(node, parent)`, by the balance of the node.
unfoldable pub avl_left_balance : Tree → ℕ → Tree → Option Tree
unfolding left_right avl_rotate_right
avl_left_balance leaf p r = none
avl_left_balance (node equal_height nl n nr) p r = none
avl_left_balance (node left_higher nl n nr) p r =
    avl_rotate_right (node equal_height (node equal_height nl n nr) p r)
avl_left_balance (node right_higher nl n nr) p r = left_right (node right_higher nl n nr) p r

unfoldable pub avl_right_balance : Tree → ℕ → Tree → Option Tree
unfolding right_left avl_rotate_left
avl_right_balance l p leaf = none
avl_right_balance l p (node equal_height nl n nr) = none
avl_right_balance l p (node left_higher nl n nr) = right_left l p (node left_higher nl n nr)
avl_right_balance l p (node right_higher nl n nr) =
    avl_rotate_left (node equal_height l p (node equal_height nl n nr))

-- `avl_insert_balance`: the walk from the new node to the root.
unfoldable pub avl_insert_balance : Tree → Ancestors → Option Tree
avl_insert_balance t [] = some t
avl_insert_balance t (from_left equal_height x r ∷ up) =
    avl_insert_balance (node left_higher t x r) up
avl_insert_balance t (from_left left_higher x r ∷ up) =
    avl_left_balance t x r >>= λ s. some (plug s up)
avl_insert_balance t (from_left right_higher x r ∷ up) = some (plug (node equal_height t x r) up)
avl_insert_balance t (from_right equal_height l x ∷ up) =
    avl_insert_balance (node right_higher l x t) up
avl_insert_balance t (from_right left_higher l x ∷ up) = some (plug (node equal_height l x t) up)
avl_insert_balance t (from_right right_higher l x ∷ up) =
    avl_right_balance l x t >>= λ s. some (plug s up)

-- `avl_link_node` at a null link.
unfoldable pub avl_link_node : ℕ → Tree
avl_link_node x = node equal_height leaf x leaf

-- What happens at a parent that has become two higher on its right: the new subtree, and whether it
-- has kept its height, where the walk ends.
pub data Step : Type 0 where
  stop : Tree → Step
  go_on : Tree → Step
  aborted : Step

abbrev pub stop_with : Option Tree → Step
stop_with none = aborted
stop_with (some t) = stop t

abbrev pub go_on_with : Option Tree → Step
go_on_with none = aborted
go_on_with (some t) = go_on t

unfoldable pub erase_right : Tree → ℕ → Tree → Step
unfolding avl_rotate_left right_left
erase_right t p leaf = aborted
erase_right t p (node equal_height nl n nr) =
    stop_with (avl_rotate_left (node right_higher t p (node left_higher nl n nr)))
erase_right t p (node left_higher nl n nr) = go_on_with (right_left t p (node left_higher nl n nr))
erase_right t p (node right_higher nl n nr) =
    go_on_with (avl_rotate_left (node equal_height t p (node equal_height nl n nr)))

unfoldable pub erase_left : Tree → ℕ → Tree → Step
unfolding avl_rotate_right left_right
erase_left leaf p t = aborted
erase_left (node equal_height nl n nr) p t =
    stop_with (avl_rotate_right (node left_higher (node right_higher nl n nr) p t))
erase_left (node left_higher nl n nr) p t =
    go_on_with (avl_rotate_right (node equal_height (node equal_height nl n nr) p t))
erase_left (node right_higher nl n nr) p t = go_on_with (left_right (node right_higher nl n nr) p t)

-- One round of `avl_erase_balance`, at the parent.
unfoldable pub erase_step : Tree → Edge Balance → Step
unfolding erase_left erase_right
erase_step t (from_left equal_height x r) = stop (node right_higher t x r)
erase_step t (from_left left_higher x r) = go_on (node equal_height t x r)
erase_step t (from_left right_higher x r) = erase_right t x r
erase_step t (from_right equal_height l x) = stop (node left_higher l x t)
erase_step t (from_right left_higher l x) = erase_left l x t
erase_step t (from_right right_higher l x) = go_on (node equal_height l x t)

-- What follows the round: `return`, the next round `walk`, or `abort()`.
abbrev pub after_step : (Tree → Option Tree) → Ancestors → Step → Option Tree
after_step walk up (stop s) = some (plug s up)
after_step walk up (go_on s) = walk s
after_step walk up aborted = none

unfoldable pub avl_erase_balance : Tree → Ancestors → Option Tree
avl_erase_balance t [] = some t
avl_erase_balance t (f ∷ up) = after_step (λ s. avl_erase_balance s up) up (erase_step t f)

-- `real->left ? real->left : real->right`.
unfoldable pub only_child : Tree → Tree → Tree
only_child leaf r = r
only_child (node b ll y lr) r = node b ll y lr

-- Unlinking of the node at address `x`, which has one child at most: the child takes its place.
unfoldable pub unlink : ℕ → Tree → Tree
unfolding only_child
unlink x leaf = leaf
unlink x (node b l y r) = if y == x then only_child l r else node b (unlink x l) y (unlink x r)

-- `avl_replace_node(victim, node)`: the node at address `y` takes the place, the links and the balance
-- of the node at address `x`.
unfoldable pub avl_replace_node : ℕ → ℕ → Tree → Tree
avl_replace_node x y leaf = leaf
avl_replace_node x y (node b l z r) =
    node b (avl_replace_node x y l) (if z == x then y else z) (avl_replace_node x y r)

-- The end of `avl_erase`: the real node is unlinked and put in the place of the erased one.
unfoldable pub erase_real : ℕ → Tree × Ancestors → Option Tree
unfolding avl_erase_balance unlink avl_replace_node address
erase_real x (real, up) = do
  t ← avl_erase_balance real up
  let y = address real
  some (if y == x then unlink y t else avl_replace_node x y (unlink y t))

-- `avl_erase` at a node with its path: with two children the node before it is the one to unlink.
unfoldable pub avl_erase : Tree → Ancestors → Option Tree
unfolding erase_real right_most
avl_erase leaf up = none
avl_erase (node b leaf x r) up = erase_real x (node b leaf x r, up)
avl_erase (node b (node c ll y lr) x leaf) up = erase_real x (node b (node c ll y lr) x leaf, up)
avl_erase (node b (node c ll y lr) x (node d rl z rr)) up =
    erase_real x (right_most (node c ll y lr) (from_left b x (node d rl z rr) ∷ up))

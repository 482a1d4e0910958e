-- ===== src/Links/Walk.antt =====
-- The iteration of src/avltree.c and of src/rbtree.c, which is the same code. A pointer to a node is the
-- subtree there with its parents, the null pointer a `leaf`.
pub mod Order
pub mod Postorder
use mathlib.Core.Option
use libls.Prelude.{ℕ, zero, suc, Option, none, some, List, [], ◌∷◌}
use libls.Links.{Linked, leaf, node, from_left, from_right, Above}

-- `right_most`, with the path to it.
unfoldable pub right_most : {B : Type 0} → Linked B → Above B → Linked B × Above B
right_most leaf up = (leaf, up)
right_most (node b l x leaf) up = (node b l x leaf, up)
right_most (node b l x (node c rl y rr)) up = right_most (node c rl y rr) (from_right b l x ∷ up)

unfoldable pub left_most : {B : Type 0} → Linked B → Above B → Linked B × Above B
left_most leaf up = (leaf, up)
left_most (node b leaf x r) up = (node b leaf x r, up)
left_most (node b (node c ll y lr) x r) up = left_most (node c ll y lr) (from_left b x r ∷ up)

-- The parent, the null pointer at the root.
unfoldable pub parent : {B : Type 0} → Linked B → Above B → Linked B × Above B
parent t [] = (leaf, [])
parent t (from_left b x r ∷ up) = (node b t x r, up)
parent t (from_right b l x ∷ up) = (node b l x t, up)

-- The loops `while ((parent = parent(node)) && node == parent->right)` and `... parent->left`.
unfoldable pub up_from_right : {B : Type 0} → Linked B → Above B → Linked B × Above B
up_from_right t [] = (leaf, [])
up_from_right t (from_left b x r ∷ up) = (node b t x r, up)
up_from_right t (from_right b l x ∷ up) = up_from_right (node b l x t) up

unfoldable pub up_from_left : {B : Type 0} → Linked B → Above B → Linked B × Above B
up_from_left t [] = (leaf, [])
up_from_left t (from_left b x r ∷ up) = up_from_left (node b t x r) up
up_from_left t (from_right b l x ∷ up) = (node b l x t, up)

-- The iteration makes no call on the null pointer.
unfoldable pub next : {B : Type 0} → Linked B → Above B → Linked B × Above B
unfolding up_from_right left_most
next leaf up = (leaf, up)
next (node b l x leaf) up = up_from_right (node b l x leaf) up
next (node b l x (node c rl y rr)) up = left_most (node c rl y rr) (from_right b l x ∷ up)

unfoldable pub prev : {B : Type 0} → Linked B → Above B → Linked B × Above B
unfolding up_from_left right_most
prev leaf up = (leaf, up)
prev (node b leaf x r) up = up_from_left (node b leaf x r) up
prev (node b (node c ll y lr) x r) up = right_most (node c ll y lr) (from_left b x r ∷ up)

unfoldable pub first : {B : Type 0} → Linked B → Linked B × Above B
unfolding left_most
first leaf = (leaf, [])
first (node b l x r) = left_most (node b l x r) []

unfoldable pub last : {B : Type 0} → Linked B → Linked B × Above B
unfolding right_most
last leaf = (leaf, [])
last (node b l x r) = right_most (node b l x r) []

unfoldable pub left_deepest : {B : Type 0} → Linked B → Above B → Linked B × Above B
left_deepest leaf up = (leaf, up)
left_deepest (node b (node c ll y lr) x r) up = left_deepest (node c ll y lr) (from_left b x r ∷ up)
left_deepest (node b leaf x (node c rl y rr)) up =
    left_deepest (node c rl y rr) (from_right b leaf x ∷ up)
left_deepest (node b leaf x leaf) up = (node b leaf x leaf, up)

unfoldable pub first_postorder : {B : Type 0} → Linked B → Linked B × Above B
unfolding left_deepest
first_postorder leaf = (leaf, [])
first_postorder (node b l x r) = left_deepest (node b l x r) []

unfoldable pub next_postorder : {B : Type 0} → Linked B → Above B → Linked B × Above B
unfolding left_deepest parent
next_postorder leaf up = (leaf, [])
next_postorder t (from_left b x (node c rl y rr) ∷ up) =
    left_deepest (node c rl y rr) (from_right b t x ∷ up)
next_postorder t up = parent t up

-- The addresses that a `for` loop visits until it meets the null pointer, or `none` where it has not met it
-- after the given number of tests.
unfoldable pub visited :
    {B : Type 0}
    → (Linked B → Above B → Linked B × Above B)
    → ℕ
    → Linked B × Above B
    → Option (List ℕ)
visited next zero p = none
visited next (suc n) (leaf, up) = some []
visited next (suc n) (node b l x r, up) =
    Option.map (λ rest. x ∷ rest) (visited next n (next (node b l x r) up))

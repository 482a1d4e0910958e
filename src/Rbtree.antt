-- ===== src/Rbtree.antt =====
-- src/rbtree.c and include/ls/rbtree.h.
pub mod Shape
pub mod Insert
pub mod Recolor
pub mod Erase
pub mod Walk
pub mod Search
pub mod Replace
mod Tests
use libls.Prelude.{ℕ, Bool, true, false, Option, none, some, List, [], ◌∷◌, ◌++◌}
pub use libls.Links.{Linked, leaf, node, Edge, from_left, from_right, Above}
unfoldable pub use libls.Links.{plug, inorder}

-- The bit `RB_RED` or `RB_BLACK` of a node.
pub data Color : Type 0 where
  red black : Color

abbrev pub Tree : Type 0
Tree = Linked Color

abbrev pub Ancestors : Type 0
Ancestors = Above Color

-- The colour of a pointer; a null pointer counts as black.
unfoldable pub rb_color : Tree → Color
rb_color leaf = black
rb_color (node c l x r) = c

-- `if (tmp) rb_set_parent_color(tmp, ..., color)`.
unfoldable pub rb_set_color : Color → Tree → Tree
rb_set_color c leaf = leaf
rb_set_color c (node _ l x r) = node c l x r

-- `rb_link_node` at a null link; `RB_RED` is 0.
unfoldable pub rb_link_node : ℕ → Tree
rb_link_node x = node red leaf x leaf

-- What one round of a loop does: the loop ends with this subtree, goes on from it, or a null pointer
-- is followed.
pub data Step : Type 0 where
  stop : Tree → Step
  go_on : Tree → Step
  fault : Step

-- Case 3 of `__rb_insert`, with the node, its parent `p` and `tmp`, the right child of the parent:
-- the parent takes the place and the colour of the grandparent `g`.
unfoldable pub rotate_right : Color → Tree → ℕ → Tree → ℕ → Tree → Tree
unfolding rb_set_color
rotate_right c n p tmp g u = node c n p (node red (rb_set_color black tmp) g u)

unfoldable pub rotate_left : Color → Tree → ℕ → Tree → ℕ → Tree → Tree
unfolding rb_set_color
rotate_left c u g tmp p n = node c (node red u g (rb_set_color black tmp)) p n

-- Case 2 of `__rb_insert` and the case 3 that follows: the node `n` between the parent `p` and the
-- grandparent `g` takes the place of the parent first.
unfoldable pub rotate_left_right : Color → Tree → ℕ → Tree → ℕ → Tree → Step
unfolding rotate_right rb_set_color
rotate_left_right c s p leaf g u = fault
rotate_left_right c s p (node _ nl n nr) g u =
    stop (rotate_right c (node red s p (rb_set_color black nl)) n nr g u)

unfoldable pub rotate_right_left : Color → Tree → ℕ → Tree → ℕ → Tree → Step
unfolding rotate_left rb_set_color
rotate_right_left c u g leaf p s = fault
rotate_right_left c u g (node _ nl n nr) p s =
    stop (rotate_left c u g nl n (node red (rb_set_color black nr) p s))

-- One round of `__rb_insert` at a node with a red parent: the edge to the parent, and the edge from it
-- to the grandparent, which must not be null.
unfoldable pub insert_step : Tree → Edge Color → Edge Color → Step
unfolding rb_color rb_set_color rotate_left rotate_right rotate_left_right rotate_right_left
insert_step n (from_left cp p s) (from_left cg g u) = elim (rb_color u) [
  | red ↦ go_on (node red (node black n p s) g (rb_set_color black u))
  | black ↦ stop (rotate_right cg n p s g u)
]
insert_step n (from_right cp s p) (from_left cg g u) = elim (rb_color u) [
  | red ↦ go_on (node red (node black s p n) g (rb_set_color black u))
  | black ↦ rotate_left_right cg s p n g u
]
insert_step n (from_right cp s p) (from_right cg u g) = elim (rb_color u) [
  | red ↦ go_on (node red (rb_set_color black u) g (node black s p n))
  | black ↦ stop (rotate_left cg u g s p n)
]
insert_step n (from_left cp p s) (from_right cg u g) = elim (rb_color u) [
  | red ↦ go_on (node red (rb_set_color black u) g (node black n p s))
  | black ↦ rotate_right_left cg u g n p s
]

-- What follows a round: `break`, the next round `loop`, or a fault.
abbrev pub after_step : (Tree → Option Tree) → Ancestors → Step → Option Tree
after_step loop up (stop s) = some (plug s up)
after_step loop up (go_on s) = loop s
after_step loop up fault = none

abbrev pub edge_color : Edge Color → Color
edge_color (from_left c x r) = c
edge_color (from_right c l x) = c

-- `__rb_insert`, and so `rb_insert_color`: the walk from the new node to the root.
unfoldable pub __rb_insert : Tree → Ancestors → Option Tree
unfolding insert_step rb_set_color
__rb_insert n [] = some (rb_set_color black n)
__rb_insert n (parent ∷ []) = elim (edge_color parent) [
  | black ↦ some (plug n (parent ∷ []))
  | red ↦ none
]
__rb_insert n (parent ∷ gparent ∷ up) = elim (edge_color parent) [
  | black ↦ some (plug n (parent ∷ gparent ∷ up))
  | red ↦ after_step (λ s. __rb_insert s up) up (insert_step n parent gparent)
]

-- Case 4 of `____rb_erase_color`: the sibling takes the place and the colour of the parent `p`.
unfoldable pub rotate_sibling_left : Tree → Color → ℕ → Tree → ℕ → Tree → Tree
unfolding rb_set_color
rotate_sibling_left t c p sl s sr = node c (node black t p sl) s (rb_set_color black sr)

unfoldable pub rotate_sibling_right : Tree → ℕ → Tree → Color → ℕ → Tree → Tree
unfolding rb_set_color
rotate_sibling_right sl s sr c p t = node c (rb_set_color black sl) s (node black sr p t)

-- Case 3 and the case 4 that follows: the red node between the parent and the sibling becomes the
-- sibling first.
unfoldable pub rotate_inner_left : Tree → Color → ℕ → Color → Tree → ℕ → Tree → Step
unfolding rotate_sibling_left rb_set_color
rotate_inner_left t c p cs leaf s sr = fault
rotate_inner_left t c p cs (node ci il i ir) s sr =
    stop (rotate_sibling_left t c p il i (node cs (rb_set_color black ir) s sr))

unfoldable pub rotate_inner_right : Color → Tree → ℕ → Tree → Color → ℕ → Tree → Step
unfolding rotate_sibling_right rb_set_color
rotate_inner_right cs sl s leaf c p t = fault
rotate_inner_right cs sl s (node ci il i ir) c p t =
    stop (rotate_sibling_right (node cs sl s (rb_set_color black il)) i ir c p t)

-- The end of case 2: a red parent becomes black, from a black one the loop goes on.
unfoldable pub flip_parent : Color → (Color → Tree) → Step
flip_parent red parent = stop (parent black)
flip_parent black parent = go_on (parent black)

-- Cases 2 to 4, with the parent `p` of colour `c` and the sibling `s`.
unfoldable pub erase_cases_left : Tree → Color → ℕ → Color → Tree → ℕ → Tree → Step
unfolding rb_color rotate_sibling_left rotate_inner_left flip_parent
erase_cases_left t c p cs sl s sr = elim (rb_color sr) [
  | red ↦ stop (rotate_sibling_left t c p sl s sr)
  | black ↦ elim (rb_color sl) [
    | red ↦ rotate_inner_left t c p cs sl s sr
    | black ↦ flip_parent c (λ d. node d t p (node red sl s sr))
  ]
]

unfoldable pub erase_cases_right : Color → Tree → ℕ → Tree → Color → ℕ → Tree → Step
unfolding rb_color rotate_sibling_right rotate_inner_right flip_parent
erase_cases_right cs sl s sr c p t = elim (rb_color sl) [
  | red ↦ stop (rotate_sibling_right sl s sr c p t)
  | black ↦ elim (rb_color sr) [
    | red ↦ rotate_inner_right cs sl s sr c p t
    | black ↦ flip_parent c (λ d. node d (node red sl s sr) p t)
  ]
]

-- Behind case 1, which leaves the parent red: the loop never goes on from a red parent.
abbrev pub below_sibling : (Tree → Tree) → Step → Step
below_sibling around (stop s) = stop (around s)
below_sibling around (go_on s) = fault
below_sibling around fault = fault

-- One round of `____rb_erase_color`, at the edge to the parent; case 1 first, where the sibling is red
-- and its child next to the parent becomes the new one. A null pointer there is followed.
unfoldable pub erase_step : Tree → Edge Color → Step
unfolding erase_cases_left erase_cases_right
erase_step t (from_left c p leaf) = fault
erase_step t (from_left c p (node black sl s sr)) = erase_cases_left t c p black sl s sr
erase_step t (from_left c p (node red leaf s sr)) = fault
erase_step t (from_left c p (node red (node ci il i ir) s sr)) =
    below_sibling (λ u. node c u s sr) (erase_cases_left t red p black il i ir)
erase_step t (from_right c leaf p) = fault
erase_step t (from_right c (node black sl s sr) p) = erase_cases_right black sl s sr c p t
erase_step t (from_right c (node red sl s leaf) p) = fault
erase_step t (from_right c (node red sl s (node ci il i ir)) p) =
    below_sibling (λ u. node c sl s u) (erase_cases_right black il i ir red p t)

unfoldable pub ____rb_erase_color : Tree → Ancestors → Option Tree
unfolding erase_step
____rb_erase_color t [] = some t
____rb_erase_color t (e ∷ up) = after_step (λ s. ____rb_erase_color s up) up (erase_step t e)

-- The descent to the successor, from the node of the given parts: its colour, address and right child,
-- and the path to it.
unfoldable pub successor : Color → Tree → ℕ → Tree → Ancestors → Color × ℕ × Tree × Ancestors
successor c leaf y r path = (c, y, r, path)
successor c (node cl ll x lr) y r path = successor cl ll x lr (from_left c y r ∷ path)

-- Cases 2 and 3 of `__rb_erase_augmented`: the successor leaves its place to its child and takes that
-- of the erased node.
unfoldable pub replace_by : Color → Tree → Ancestors → Color × ℕ × Tree × Ancestors → Option Tree
unfolding ____rb_erase_color rb_set_color
replace_by c l up (black, y, leaf, path) = ____rb_erase_color leaf (path ++ (from_right c l y ∷ up))
replace_by c l up (red, y, leaf, path) = some (plug leaf (path ++ (from_right c l y ∷ up)))
replace_by c l up (cs, y, node cc cl z cr, path) =
    some (plug (rb_set_color black (node cc cl z cr)) (path ++ (from_right c l y ∷ up)))

-- `rb_erase` at a node with its path.
unfoldable pub rb_erase : Tree → Ancestors → Option Tree
unfolding ____rb_erase_color rb_set_color successor replace_by
rb_erase leaf up = none
rb_erase (node black leaf x leaf) up = ____rb_erase_color leaf up
rb_erase (node red leaf x leaf) up = some (plug leaf up)
rb_erase (node c leaf x (node cr rl y rr)) up = some (plug (rb_set_color c (node cr rl y rr)) up)
rb_erase (node c (node cl ll z lr) x leaf) up = some (plug (rb_set_color c (node cl ll z lr)) up)
rb_erase (node c (node cl ll z lr) x (node cr rl y rr)) up =
    replace_by c (node cl ll z lr) up (successor cr rl y rr [])

-- `rb_replace_node(victim, new)`: the new node takes the place, the links and the colour.
unfoldable pub rb_replace_node : ℕ → Tree → Ancestors → Option Tree
rb_replace_node y leaf up = none
rb_replace_node y (node c l x r) up = some (plug (node c l y r) up)

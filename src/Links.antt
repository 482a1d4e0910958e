-- ===== src/Links.antt =====
-- The links of include/ls/avltree.h and include/ls/rbtree.h: `left` and `right` of the nodes make a
-- tree, and the chain of parent pointers above a node is a list of edges, the parent first. A node is
-- known by its address, a number other than 0, and carries bits of its own, its balance or its colour.

pub mod Walk
use mathlib.Core.List.{append_assoc, append-nil}
use libls.Prelude.{ℕ, ◌≡◌, sym, ap, ◌∙◌, List, [], ◌∷◌, ◌++◌}

-- The bits of a node, its left child, its address and its right child.
pub data Linked (B : Type 0) : Type 0 where
  leaf : Linked B
  node : B → Linked B → ℕ → Linked B → Linked B

-- A parent, seen from its left or from its right child.
pub data Edge (B : Type 0) : Type 0 where
  from_left : B → ℕ → Linked B → Edge B
  from_right : B → Linked B → ℕ → Edge B

abbrev pub Above : Type 0 → Type 0
Above B = List (Edge B)

-- The whole tree around a child.
unfoldable pub plug : {B : Type 0} → Linked B → Above B → Linked B
plug t [] = t
plug t (from_left b x r ∷ up) = plug (node b t x r) up
plug t (from_right b l x ∷ up) = plug (node b l x t) up

-- The addresses in the order of the tree.
unfoldable pub inorder : {B : Type 0} → Linked B → List ℕ
inorder leaf = []
inorder (node b l x r) = inorder l ++ x ∷ inorder r

unfoldable pub address : {B : Type 0} → Linked B → ℕ
address leaf = 0
address (node b l x r) = x

-- The addresses on the path, before and behind those of the subtree.
abbrev pub before : {B : Type 0} → Above B → List ℕ
before [] = []
before (from_left b x r ∷ up) = before up
before (from_right b l x ∷ up) = before up ++ (inorder l ++ x ∷ [])

abbrev pub behind : {B : Type 0} → Above B → List ℕ
behind [] = []
behind (from_left b x r ∷ up) = x ∷ (inorder r ++ behind up)
behind (from_right b l x ∷ up) = behind up

pub inorder-plug :
    {B : Type 0} (t : Linked B) (up : Above B)
    → inorder (plug t up) ≡ before up ++ (inorder t ++ behind up)
unfolding plug inorder
inorder-plug t [] = sym (append-nil (inorder t))
inorder-plug t (from_left b x r ∷ up) =
    inorder-plug (node b t x r) up
    ∙ ap (λ l. before up ++ l) (append_assoc (inorder t) (x ∷ inorder r) (behind up))
inorder-plug t (from_right b l x ∷ up) = inorder-plug (node b l x t) up ∙ simp append_assoc

-- The addresses around a child, and around its parent.
pub left_order :
    {B : Type 0} (b c : B) (t : Linked B) (x : ℕ) (r : Linked B) (up : Above B)
    → before up ++ (inorder (node b t x r) ++ behind up)
      ≡ before (from_left c x r ∷ up) ++ (inorder t ++ behind (from_left c x r ∷ up))
unfolding inorder
left_order b c t x r up =
    ap (λ l. before up ++ l) (append_assoc (inorder t) (x ∷ inorder r) (behind up))

pub right_order :
    {B : Type 0} (b c : B) (l : Linked B) (x : ℕ) (t : Linked B) (up : Above B)
    → before up ++ (inorder (node b l x t) ++ behind up)
      ≡ before (from_right c l x ∷ up) ++ (inorder t ++ behind (from_right c l x ∷ up))
unfolding inorder
right_order b c l x t up = simp append_assoc

pub edge_order :
    {B : Type 0} (t : Linked B) (e : Edge B) (up : Above B)
    → before up ++ (inorder (plug t (e ∷ [])) ++ behind up)
      ≡ before (e ∷ up) ++ (inorder t ++ behind (e ∷ up))
unfolding plug
edge_order t (from_left b x r) up = left_order b b t x r up
edge_order t (from_right b l x) up = right_order b b l x t up

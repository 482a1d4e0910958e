-- ===== src/Rbtree/Shape.antt =====
-- The properties of a red-black tree that the head of src/rbtree.c lists, and what a path keeps around
-- a subtree.
use libls.Prelude.{ℕ, suc, ◌≡◌, refl, sym, ap, subst, ◌∙◌, Option, some, List, [], ◌∷◌, ◌++◌}
use libls.Rbtree.{
  Color, red, black, Tree, leaf, node, from_left, from_right, Ancestors, edge_color, rb_color,
  rb_set_color,
}
use libls.Links.{plug, inorder, before, behind, inorder-plug}

-- A red node has no red child.
abbrev pub Apart : Color → Color → Type 0
Apart red red = ⊥
Apart red black = Unit
Apart black c = Unit

-- The number of black nodes on a path with a node more.
abbrev pub counted : Color → ℕ → ℕ
counted red h = h
counted black h = suc h

-- The number of black nodes on the leftmost path.
abbrev pub black_height : Tree → ℕ
black_height leaf = 0
black_height (node c l x r) = counted c (black_height l)

-- Both children of a red node are black, and every path has the same number of black nodes.
abbrev pub IsRb : Tree → Type 0
IsRb leaf = Unit
IsRb (node c l x r) =
    IsRb l
    × IsRb r
    × (black_height l ≡ black_height r)
    × Apart c (rb_color l)
    × Apart c (rb_color r)

-- The colour that the node above imposes; the root must be black, as if below a red node.
abbrev pub color_above : Ancestors → Color
color_above [] = red
color_above (e ∷ up) = edge_color e

-- Around a subtree with `h` black nodes on every path the tree is a red-black tree.
abbrev pub FitsAround : ℕ → Ancestors → Type 0
FitsAround h [] = Unit
FitsAround h (from_left c x r ∷ up) =
    IsRb r
    × (h ≡ black_height r)
    × Apart c (rb_color r)
    × Apart (color_above up) c
    × FitsAround (counted c h) up
FitsAround h (from_right c l x ∷ up) =
    IsRb l
    × (black_height l ≡ h)
    × Apart c (rb_color l)
    × Apart (color_above up) c
    × FitsAround (counted c h) up

-- A whole red-black tree: the root is black.
abbrev pub IsRbTree : Tree → Type 0
IsRbTree t = IsRb t × Apart red (rb_color t)

pub IsRbTree-plug :
    (t : Tree) (up : Ancestors) (h : ℕ)
    → IsRb t
    → black_height t ≡ h
    → Apart (color_above up) (rb_color t)
    → FitsAround h up
    → IsRbTree (plug t up)
unfolding plug rb_color
IsRbTree-plug t [] h a e c f = (a, c)
IsRbTree-plug t (from_left b x r ∷ up) h a e c (ar, er, cr, cu, f) =
    IsRbTree-plug (node b t x r) up (counted b h) (a, ar, e ∙ er, c, cr) (ap (counted b) e) cu f
IsRbTree-plug t (from_right b l x ∷ up) h a e c (al, el, cl, cu, f) =
    IsRbTree-plug (node b l x t) up (counted b h) (al, a, el ∙ sym e, cl, c) (ap (counted b) el) cu
      f

pub FitsAround-plug :
    (t : Tree) (up : Ancestors)
    → IsRbTree (plug t up)
    → IsRb t × Apart (color_above up) (rb_color t) × FitsAround (black_height t) up
unfolding plug rb_color
FitsAround-plug t [] (a, c) = (a, c, tt)
FitsAround-plug t (from_left b x r ∷ up) a =
    let ((at, ar, e, c, cr), cu, f) = FitsAround-plug (node b t x r) up a in
    (at, c, (ar, e, cr, cu, f))
FitsAround-plug t (from_right b l x ∷ up) a =
    let ((al, at, e, cl, c), cu, f) = FitsAround-plug (node b l x t) up a in
    (at, c, (al, e, cl, cu, subst (λ n. FitsAround (counted b n) up) e f))

-- A whole red-black tree with the addresses `xs`.
abbrev pub RedBlack : List ℕ → Option Tree → Type 0
RedBlack xs r = (t : Tree) × (r ≡ some t) × IsRbTree t × (inorder t ≡ xs)

pub RedBlack-eq : {xs ys : List ℕ} (r : Option Tree) → xs ≡ ys → RedBlack xs r → RedBlack ys r
RedBlack-eq r e (t, run, a, o) = (t, run, a, o ∙ e)

pub plug-RedBlack :
    (s : Tree) (up : Ancestors) (h : ℕ) (xs : List ℕ)
    → IsRb s
    → black_height s ≡ h
    → Apart (color_above up) (rb_color s)
    → inorder s ≡ xs
    → FitsAround h up
    → RedBlack (before up ++ (xs ++ behind up)) (some (plug s up))
plug-RedBlack s up h xs a e c o f = (
  plug s up,
  refl,
  IsRbTree-plug s up h a e c f,
  inorder-plug s up ∙ ap (λ l. before up ++ (l ++ behind up)) o,
)

-- A subtree that may stand below a red node with `h` black nodes on every path.
abbrev pub BlackOf : ℕ → Tree → Type 0
BlackOf h t = IsRb t × (black_height t ≡ h) × Apart red (rb_color t)

pub black_kept : (t : Tree) → Apart red (rb_color t) → rb_set_color black t ≡ t
unfolding rb_color rb_set_color
black_kept leaf c = refl
black_kept (node red l x r) c = absurd c
black_kept (node black l x r) c = refl

pub Apart-black : (c : Color) → Apart c black
Apart-black red = tt
Apart-black black = tt

pub inorder-rb_set_color : (c : Color) (t : Tree) → inorder (rb_set_color c t) ≡ inorder t
unfolding rb_set_color inorder
inorder-rb_set_color c leaf = refl
inorder-rb_set_color c (node b l x r) = refl

pub rb_set_color-black : (t : Tree) → rb_color (rb_set_color black t) ≡ black
unfolding rb_set_color rb_color
rb_set_color-black leaf = refl
rb_set_color-black (node b l x r) = refl

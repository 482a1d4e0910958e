-- ===== src/Rbtree/Insert.antt =====
-- The walk of `__rb_insert`.
pub mod Round
use mathlib.Core.List.{append_assoc, append-nil}
use libls.Prelude.{
  ℕ, suc, ◌+◌, ◌≡◌, refl, sym, ap, subst, ◌∙◌, Option, some, List, [], ◌∷◌, ◌++◌, arith,
}
use libls.Rbtree.{
  Color, red, black, Tree, leaf, node, Edge, from_left, from_right, Ancestors, Step, stop, go_on,
  fault, rb_color, rb_set_color, rb_link_node, edge_color, rotate_right, rotate_left,
  rotate_left_right, rotate_right_left, insert_step, after_step, __rb_insert,
}
use libls.Links.{plug, inorder, before, behind, inorder-plug, edge_order}
use libls.Rbtree.Shape.{
  Apart, counted, black_height, IsRb, IsRbTree, color_above, FitsAround, FitsAround-plug, RedBlack,
  Apart-black, RedBlack-eq, plug-RedBlack,
}
use libls.Rbtree.Insert.Round.{Rounded, RedOf, order_at, insert_step-Rounded}

fits_above :
    (h : ℕ) (e : Edge Color) (up : Ancestors)
    → Apart (edge_color e) red
    → FitsAround h (e ∷ up)
    → FitsAround (suc h) up
fits_above h (from_left red x r) up a f = absurd a
fits_above h (from_right red l x) up a f = absurd a
fits_above h (from_left black x r) up a (ar, er, cr, cu, f) = f
fits_above h (from_right black l x) up a (al, el, cl, cu, f) = f

-- A round, and the rounds that follow it.
after_step-RedBlack :
    (h : ℕ) (xs : List ℕ) (r : Step) (up : Ancestors)
    → Rounded h xs r
    → FitsAround (suc h) up
    → ((s : Tree)
        → RedOf (suc h) s
        → RedBlack (before up ++ (inorder s ++ behind up)) (__rb_insert s up))
    → RedBlack (before up ++ (xs ++ behind up)) (after_step (λ s. __rb_insert s up) up r)
after_step-RedBlack h xs (stop s) up (a, e, c, o) f ih =
    plug-RedBlack s up (suc h) xs a e
      (subst (λ b. Apart (color_above up) b) (sym c) (Apart-black (color_above up))) o f
after_step-RedBlack h xs (go_on s) up (a, e, c, o) f ih =
    RedBlack-eq _ (ap (λ l. before up ++ (l ++ behind up)) o) (ih s (a, e, c))
after_step-RedBlack h xs fault up a f ih = absurd a

-- A red node below a black one: the walk ends.
below_black :
    (h : ℕ) (n : Tree) (up : Ancestors)
    → RedOf h n
    → color_above up ≡ black
    → FitsAround h up
    → RedBlack (before up ++ (inorder n ++ behind up)) (some (plug n up))
below_black h n up (a, e, c) b f = plug-RedBlack n up h (inorder n) a e (rw b tt) refl f

root-RedBlack :
    (h : ℕ) (n : Tree) → RedOf h n → RedBlack (inorder n ++ []) (some (rb_set_color black n))
unfolding rb_set_color rb_color inorder
root-RedBlack h leaf (a, e, c) = absurd (cc)
root-RedBlack h (node b l x r) (a, e, c) = (
  node black l x r,
  refl,
  ((a.0, a.1, a.2, tt, tt), tt),
  sym (append-nil (inorder l ++ x ∷ inorder r)),
)

insert-RedBlack :
    (up : Ancestors) (n : Tree) (h : ℕ)
    → RedOf h n
    → FitsAround h up
    → RedBlack (before up ++ (inorder n ++ behind up)) (__rb_insert n up)
unfolding __rb_insert plug
insert-RedBlack [] n h rn f = root-RedBlack h n rn
insert-RedBlack (from_left black x r ∷ []) n h rn f =
    below_black h n (from_left black x r ∷ []) rn refl f
insert-RedBlack (from_right black l x ∷ []) n h rn f =
    below_black h n (from_right black l x ∷ []) rn refl f
insert-RedBlack (from_left red x r ∷ []) n h rn f = absurd f.3
insert-RedBlack (from_right red l x ∷ []) n h rn f = absurd f.3
insert-RedBlack (from_left black x r ∷ e ∷ up) n h rn f =
    below_black h n (from_left black x r ∷ e ∷ up) rn refl f
insert-RedBlack (from_right black l x ∷ e ∷ up) n h rn f =
    below_black h n (from_right black l x ∷ e ∷ up) rn refl f
insert-RedBlack (from_left red x r ∷ e ∷ up) n h rn f =
    RedBlack-eq _ (edge_order (node red n x r) e up ∙ edge_order n (from_left red x r) (e ∷ up)) (
      after_step-RedBlack h (order_at n (from_left red x r) e) (insert_step n (from_left red x r) e)
        up (insert_step-Rounded h n (from_left red x r) e up rn refl f) (fits_above h e up f.3 f.4)
        (λ s rs. insert-RedBlack up s (suc h) rs (fits_above h e up f.3 f.4)))
insert-RedBlack (from_right red l x ∷ e ∷ up) n h rn f =
    RedBlack-eq _ (edge_order (node red l x n) e up ∙ edge_order n (from_right red l x) (e ∷ up)) (
      after_step-RedBlack h (order_at n (from_right red l x) e)
        (insert_step n (from_right red l x) e) up
        (insert_step-Rounded h n (from_right red l x) e up rn refl f) (fits_above h e up f.3 f.4)
        (λ s rs. insert-RedBlack up s (suc h) rs (fits_above h e up f.3 f.4)))

-- Linking a new node at any null link of a red-black tree and rebalancing follows no null pointer, and
-- gives a red-black tree whose addresses are the old ones in the old order, with the new one between
-- those before and those behind the link.
pub __rb_insert-RedBlack :
    (up : Ancestors) (x : ℕ)
    → IsRbTree (plug leaf up)
    → RedBlack (before up ++ x ∷ behind up) (__rb_insert (rb_link_node x) up)
      × (inorder (plug leaf up) ≡ before up ++ behind up)
__rb_insert-RedBlack up x a = (
  unfold rb_link_node rb_color inorder in
      (insert-RedBlack up (rb_link_node x) 0 ((tt, tt, refl, tt, tt), refl, refl)
        (FitsAround-plug leaf up a).2),
  unfold inorder in inorder-plug leaf up,
)

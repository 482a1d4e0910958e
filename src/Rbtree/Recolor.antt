-- ===== src/Rbtree/Recolor.antt =====
-- The walk of `____rb_erase_color`.
pub mod Round
pub mod Cases
use mathlib.Core.List.{append_assoc, append-nil}
use libls.Prelude.{ℕ, suc, ◌≡◌, refl, sym, ap, subst, ◌∙◌, Option, some, List, [], ◌∷◌, ◌++◌, arith}
use libls.Rbtree.{
  Color, red, black, Tree, leaf, node, Edge, from_left, from_right, Ancestors, Step, stop, go_on,
  fault, rb_color, edge_color, below_sibling, erase_step, after_step, ____rb_erase_color,
}
use libls.Links.{plug, inorder, before, behind, edge_order}
use libls.Rbtree.Shape.{
  Apart, counted, black_height, IsRb, color_above, FitsAround, BlackOf, RedBlack, RedBlack-eq,
  plug-RedBlack,
}
use libls.Rbtree.Recolor.Round.{Restored, Restored-eq}
use libls.Rbtree.Recolor.Cases.{erase_cases_left-Restored, erase_cases_right-Restored}

-- Behind case 1 the rest of the round ends below the former sibling.
below_left :
    (k : ℕ) (xs : List ℕ) (r : Step) (s : ℕ) (sr : Tree)
    → Restored red k xs r
    → IsRb sr × (k ≡ black_height sr)
    → Restored black k (xs ++ s ∷ inorder sr) (below_sibling (λ u. node black u s sr) r)
unfolding inorder rb_color
below_left k xs (stop u) s sr (a, e, c, o) (ar, er) =
    ((a, ar, e ∙ er, tt, tt), ap suc e, λ b q. q, ap (λ l. l ++ s ∷ inorder sr) o)
below_left k xs (go_on u) s sr (a, e, o) ar = absurd (cc)
below_left k xs fault s sr a ar = a

below_right :
    (k : ℕ) (xs : List ℕ) (r : Step) (s : ℕ) (sl : Tree)
    → Restored red k xs r
    → IsRb sl × (black_height sl ≡ k)
    → Restored black k (inorder sl ++ s ∷ xs) (below_sibling (λ u. node black sl s u) r)
unfolding inorder rb_color
below_right k xs (stop u) s sl (a, e, c, o) (al, el) =
    ((al, a, el ∙ sym e, tt, tt), ap suc el, λ b q. q, ap (λ l. inorder sl ++ s ∷ l) o)
below_right k xs (go_on u) s sl (a, e, o) al = absurd (cc)
below_right k xs fault s sl a al = a

-- One round at any parent.
erase_step-Restored :
    (h : ℕ) (t : Tree) (e : Edge Color) (up : Ancestors)
    → BlackOf h t
    → FitsAround (suc h) (e ∷ up)
    → Restored (edge_color e) (suc h) (inorder (plug t (e ∷ []))) (erase_step t e)
unfolding erase_step plug inorder rb_color
erase_step-Restored h t (from_left c p leaf) up bt (a, e, v, w, f) = absurd (omega (arith, e))
erase_step-Restored h t (from_left c p (node black sl s sr)) up bt ((al, ar, d, g, k), e, v, w, f) =
    erase_cases_left-Restored c h t p sl s sr bt (al, omega (arith, e)) (ar, omega (arith, e, d))
erase_step-Restored h t (from_left c p (node red leaf s sr)) up bt (a, e, v, w, f) =
    absurd (omega (arith, e))
erase_step-Restored h t (from_left c p (node red (node red il i ir) s sr)) up bt (a, e, v, w, f) =
    absurd a.3
erase_step-Restored h t (from_left red p (node red (node black il i ir) s sr)) up bt
      (a, e, v, w, f) =
    absurd v
erase_step-Restored h t (from_left black p (node red (node black il i ir) s sr)) up bt
      ((al, ar, d, g, k), e, v, w, f) =
    Restored-eq black (suc h) _ (append_assoc (inorder t) (p ∷ (inorder il ++ i ∷ inorder ir)) _) (
      below_left (suc h) _ _ s sr
        (erase_cases_left-Restored red h t p il i ir bt (al.0, omega (arith, e))
          (al.1, omega (arith, e, al.2)))
        (ar, e ∙ d))
erase_step-Restored h t (from_right c leaf p) up bt (a, e, v, w, f) = absurd (omega (arith, e))
erase_step-Restored h t (from_right c (node black sl s sr) p) up bt
      ((al, ar, d, g, k), e, v, w, f) =
    erase_cases_right-Restored c h t p sl s sr bt (al, omega (arith, e)) (ar, omega (arith, e, d))
erase_step-Restored h t (from_right c (node red sl s leaf) p) up bt
      ((al, ar, d, g, k), e, v, w, f) =
    absurd (omega (arith, e, d))
erase_step-Restored h t (from_right c (node red sl s (node red il i ir)) p) up bt (a, e, v, w, f) =
    absurd a.4
erase_step-Restored h t (from_right red (node red sl s (node black il i ir)) p) up bt
      (a, e, v, w, f) =
    absurd v
erase_step-Restored h t (from_right black (node red sl s (node black il i ir)) p) up bt
      ((al, ar, d, g, k), e, v, w, f) =
    Restored-eq black (suc h) _
      (sym (append_assoc (inorder sl) (s ∷ (inorder il ++ i ∷ inorder ir)) (p ∷ inorder t)))
      (below_right (suc h) _ _ s sl
        (erase_cases_right-Restored red h t p il i ir bt (ar.0, omega (arith, e, d))
          (ar.1, omega (arith, e, d, ar.2)))
        (al, e))

pub fits_parent :
    (k : ℕ) (e : Edge Color) (up : Ancestors)
    → FitsAround k (e ∷ up)
    → Apart (color_above up) (edge_color e) × FitsAround (counted (edge_color e) k) up
fits_parent k (from_left c x r) up (a, e, cr, cu, f) = (cu, f)
fits_parent k (from_right c l x) up (a, e, cl, cu, f) = (cu, f)

after_step-RedBlack :
    (c : Color) (k : ℕ) (xs : List ℕ) (r : Step) (up : Ancestors)
    → Restored c k xs r
    → Apart (color_above up) c × FitsAround (counted c k) up
    → ((s : Tree)
        → BlackOf k s
        → FitsAround (suc k) up
        → RedBlack (before up ++ (inorder s ++ behind up)) (____rb_erase_color s up))
    → RedBlack (before up ++ (xs ++ behind up)) (after_step (λ s. ____rb_erase_color s up) up r)
after_step-RedBlack c k xs (stop s) up (a, e, d, o) (cu, f) ih =
    plug-RedBlack s up (counted c k) xs a e (d (color_above up) cu) o f
after_step-RedBlack c k xs (go_on s) up (a, e, o) (cu, f) ih =
    RedBlack-eq _ (ap (λ l. before up ++ (l ++ behind up)) o)
      (ih s a (subst (λ d. FitsAround (counted d k) up) e f))
after_step-RedBlack c k xs fault up a f ih = absurd a

-- The walk, from a black subtree that has one black node fewer on every path than its place in the
-- tree asks for, follows no null pointer, ends, and gives a red-black tree of the same addresses.
pub recolor-RedBlack :
    (up : Ancestors) (t : Tree) (h : ℕ)
    → BlackOf h t
    → FitsAround (suc h) up
    → RedBlack (before up ++ (inorder t ++ behind up)) (____rb_erase_color t up)
unfolding ____rb_erase_color
recolor-RedBlack [] t h (a, e, c) f = (t, refl, (a, c), sym (append-nil (inorder t)))
recolor-RedBlack (e ∷ up) t h bt f = RedBlack-eq _ (edge_order t e up) (
    after_step-RedBlack (edge_color e) (suc h) _ (erase_step t e) up
      (erase_step-Restored h t e up bt f) (fits_parent (suc h) e up f)
      (λ s bs g. recolor-RedBlack up s (suc h) bs g))

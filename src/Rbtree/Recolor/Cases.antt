-- ===== src/Rbtree/Recolor/Cases.antt =====
-- The cases of one round of `____rb_erase_color` together.
use libls.Prelude.{ℕ, suc, ◌≡◌, refl, sym, ap, ◌∙◌, ◌∷◌, ◌++◌}
use libls.Rbtree.{
  Color, red, black, Tree, leaf, node, rb_color, rb_set_color, flip_parent, erase_cases_left,
  erase_cases_right,
}
use libls.Links.{inorder}
use libls.Rbtree.Shape.{black_height, IsRb, BlackOf, Apart-black}
use libls.Rbtree.Recolor.Round.{
  Restored, rotate_sibling_left-Restored, rotate_sibling_right-Restored, rotate_inner_left-Restored,
  rotate_inner_right-Restored,
}

-- Case 2, where the parent has the given subtrees with the sibling red.
flip_parent-Restored :
    (c : Color) (h : ℕ) (l : Tree) (p : ℕ) (r : Tree)
    → IsRb l × (black_height l ≡ h)
    → IsRb r × (black_height r ≡ h)
    → Restored c (suc h) (inorder l ++ p ∷ inorder r) (flip_parent c (λ d. node d l p r))
unfolding flip_parent rb_color inorder
flip_parent-Restored red h l p r (al, el) (ar, er) =
    ((al, ar, el ∙ sym er, tt, tt), ap suc el, (λ b a. Apart-black b), refl)
flip_parent-Restored black h l p r (al, el) (ar, er) =
    (((al, ar, el ∙ sym er, tt, tt), ap suc el, tt), refl, refl)

-- Cases 2 to 4 at a black sibling.
pub erase_cases_left-Restored :
    (c : Color) (h : ℕ) (t : Tree) (p : ℕ) (sl : Tree) (s : ℕ) (sr : Tree)
    → BlackOf h t
    → IsRb sl × (black_height sl ≡ h)
    → IsRb sr × (black_height sr ≡ h)
    → Restored c
        (suc h)
        (inorder t ++ p ∷ (inorder sl ++ s ∷ inorder sr))
        (erase_cases_left t c p black sl s sr)
unfolding erase_cases_left rb_color inorder rb_set_color
erase_cases_left-Restored c h t p sl s (node red xl x xr) bt (al, el) (ar, er) =
    rotate_sibling_left-Restored c h t p sl s (node red xl x xr) bt (al, el)
      ((ar.0, ar.1, ar.2, tt, tt), ap suc er)
erase_cases_left-Restored c h t p (node red yl y yr) s leaf bt (al, el) (ar, er) =
    rotate_inner_left-Restored c h t p yl y yr s leaf bt (al, el) (ar, er, tt)
erase_cases_left-Restored c h t p leaf s leaf bt (al, el) (ar, er) =
    flip_parent-Restored c h t p (node red leaf s leaf) (bt.0, bt.1)
      ((al, ar, el ∙ sym er, tt, tt), el)
erase_cases_left-Restored c h t p (node black yl y yr) s leaf bt (al, el) (ar, er) =
    flip_parent-Restored c h t p (node red (node black yl y yr) s leaf) (bt.0, bt.1)
      ((al, ar, el ∙ sym er, tt, tt), el)
erase_cases_left-Restored c h t p (node red yl y yr) s (node black xl x xr) bt (al, el) (ar, er) =
    rotate_inner_left-Restored c h t p yl y yr s (node black xl x xr) bt (al, el) (ar, er, tt)
erase_cases_left-Restored c h t p leaf s (node black xl x xr) bt (al, el) (ar, er) =
    flip_parent-Restored c h t p (node red leaf s (node black xl x xr)) (bt.0, bt.1)
      ((al, ar, el ∙ sym er, tt, tt), el)
erase_cases_left-Restored c h t p (node black yl y yr) s (node black xl x xr) bt (al, el) (ar, er) =
    flip_parent-Restored c h t p (node red (node black yl y yr) s (node black xl x xr)) (bt.0, bt.1)
      ((al, ar, el ∙ sym er, tt, tt), el)

pub erase_cases_right-Restored :
    (c : Color) (h : ℕ) (t : Tree) (p : ℕ) (sl : Tree) (s : ℕ) (sr : Tree)
    → BlackOf h t
    → IsRb sl × (black_height sl ≡ h)
    → IsRb sr × (black_height sr ≡ h)
    → Restored c
        (suc h)
        ((inorder sl ++ s ∷ inorder sr) ++ p ∷ inorder t)
        (erase_cases_right black sl s sr c p t)
unfolding erase_cases_right rb_color inorder rb_set_color
erase_cases_right-Restored c h t p (node red xl x xr) s sr bt (al, el) (ar, er) =
    rotate_sibling_right-Restored c h t p sr s (node red xl x xr) bt (ar, er)
      ((al.0, al.1, al.2, tt, tt), ap suc el)
erase_cases_right-Restored c h t p leaf s (node red yl y yr) bt (al, el) (ar, er) =
    rotate_inner_right-Restored c h t p yl y yr s leaf bt (ar, er) (al, el, tt)
erase_cases_right-Restored c h t p leaf s leaf bt (al, el) (ar, er) =
    flip_parent-Restored c h (node red leaf s leaf) p t ((al, ar, el ∙ sym er, tt, tt), el)
      (bt.0, bt.1)
erase_cases_right-Restored c h t p leaf s (node black yl y yr) bt (al, el) (ar, er) =
    flip_parent-Restored c h (node red leaf s (node black yl y yr)) p t
      ((al, ar, el ∙ sym er, tt, tt), el) (bt.0, bt.1)
erase_cases_right-Restored c h t p (node black xl x xr) s (node red yl y yr) bt (al, el) (ar, er) =
    rotate_inner_right-Restored c h t p yl y yr s (node black xl x xr) bt (ar, er) (al, el, tt)
erase_cases_right-Restored c h t p (node black xl x xr) s leaf bt (al, el) (ar, er) =
    flip_parent-Restored c h (node red (node black xl x xr) s leaf) p t
      ((al, ar, el ∙ sym er, tt, tt), el) (bt.0, bt.1)
erase_cases_right-Restored c h t p (node black xl x xr) s (node black yl y yr) bt (al, el)
      (ar, er) =
    flip_parent-Restored c h (node red (node black xl x xr) s (node black yl y yr)) p t
      ((al, ar, el ∙ sym er, tt, tt), el) (bt.0, bt.1)

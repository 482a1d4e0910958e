-- ===== src/Rbtree/Recolor/Round.antt =====
-- The rounds of `____rb_erase_color`.
use mathlib.Core.List.{append_assoc}
use libls.Prelude.{ℕ, suc, ◌≡◌, sym, ap, subst, ◌∙◌, List, ◌∷◌, ◌++◌}
use libls.Rbtree.{
  Color, red, black, Tree, node, Step, stop, go_on, fault, rb_color, rb_set_color,
  rotate_sibling_left, rotate_sibling_right, rotate_inner_left, rotate_inner_right,
}
use libls.Links.{inorder}
use libls.Rbtree.Shape.{
  Apart, counted, black_height, IsRb, BlackOf, black_kept, Apart-black, inorder-rb_set_color,
  rb_set_color-black,
}

-- A round at a parent of colour `c`, whose subtrees had `k` black nodes on every path: the loop ends
-- with as many below the parent, in a node of its colour or a black one, or goes on from a black
-- parent with one fewer.
abbrev pub Restored : Color → ℕ → List ℕ → Step → Type 0
Restored c k xs (stop s) =
    IsRb s
    × (black_height s ≡ counted c k)
    × ((b : Color) → Apart b c → Apart b (rb_color s))
    × (inorder s ≡ xs)
Restored c k xs (go_on s) = BlackOf k s × (c ≡ black) × (inorder s ≡ xs)
Restored c k xs fault = ⊥

-- Case 4 on either side, with a child of the sibling on the far side that is black in the end.
pub rotate_sibling_left-Restored :
    (c : Color) (h : ℕ) (t : Tree) (p : ℕ) (sl : Tree) (s : ℕ) (sr : Tree)
    → BlackOf h t
    → IsRb sl × (black_height sl ≡ h)
    → IsRb (rb_set_color black sr) × (black_height (rb_set_color black sr) ≡ suc h)
    → Restored c
        (suc h)
        (inorder t ++ p ∷ (inorder sl ++ s ∷ inorder sr))
        (stop (rotate_sibling_left t c p sl s sr))
unfolding rotate_sibling_left rb_color inorder
rotate_sibling_left-Restored c h t p sl s sr (at, et, ct) (al, el) (ar, er) = (
  ((at, al, et ∙ sym el, tt, tt), ar, ap suc et ∙ sym er, Apart-black c, painted),
  ap (λ n. counted c (suc n)) et,
  λ b a. a,
  append_assoc (inorder t) (p ∷ inorder sl) (s ∷ inorder (rb_set_color black sr))
      ∙ ap (λ l. inorder t ++ p ∷ (inorder sl ++ s ∷ l)) (inorder-rb_set_color black sr),
)
  where
    painted : Apart c (rb_color (rb_set_color black sr))
    painted = subst (λ d. Apart c d) (sym (rb_set_color-black sr)) (Apart-black c)

pub rotate_sibling_right-Restored :
    (c : Color) (h : ℕ) (t : Tree) (p : ℕ) (sr : Tree) (s : ℕ) (sl : Tree)
    → BlackOf h t
    → IsRb sr × (black_height sr ≡ h)
    → IsRb (rb_set_color black sl) × (black_height (rb_set_color black sl) ≡ suc h)
    → Restored c
        (suc h)
        ((inorder sl ++ s ∷ inorder sr) ++ p ∷ inorder t)
        (stop (rotate_sibling_right sl s sr c p t))
unfolding rotate_sibling_right rb_color inorder
rotate_sibling_right-Restored c h t p sr s sl (at, et, ct) (ar, er) (al, el) = (
  (al, (ar, at, er ∙ sym et, tt, tt), el ∙ sym (ap suc er), painted, Apart-black c),
  ap (counted c) el,
  λ b a. a,
  ap (λ l. l ++ s ∷ (inorder sr ++ p ∷ inorder t)) (inorder-rb_set_color black sl)
      ∙ sym (append_assoc (inorder sl) (s ∷ inorder sr) (p ∷ inorder t)),
)
  where
    painted : Apart c (rb_color (rb_set_color black sl))
    painted = subst (λ d. Apart c d) (sym (rb_set_color-black sl)) (Apart-black c)

pub Restored-eq :
    (c : Color) (k : ℕ) {xs ys : List ℕ} (r : Step)
    → xs ≡ ys
    → Restored c k xs r
    → Restored c k ys r
Restored-eq c k (stop s) e (a, b, d, o) = (a, b, d, o ∙ e)
Restored-eq c k (go_on s) e (a, b, o) = (a, b, o ∙ e)
Restored-eq c k fault e a = a

-- Case 3 and the case 4 behind it: the red inner child of a black sibling.
pub rotate_inner_left-Restored :
    (c : Color) (h : ℕ) (t : Tree) (p : ℕ) (il : Tree) (i : ℕ) (ir : Tree) (s : ℕ) (sr : Tree)
    → BlackOf h t
    → IsRb (node red il i ir) × (black_height il ≡ h)
    → BlackOf h sr
    → Restored c
        (suc h)
        (inorder t ++ p ∷ (inorder (node red il i ir) ++ s ∷ inorder sr))
        (rotate_inner_left t c p black (node red il i ir) s sr)
unfolding rotate_inner_left inorder
rotate_inner_left-Restored c h t p il i ir s sr bt ((al, ar, e, cl, cr), el) (asr, esr, csr) =
    rw (black_kept ir cr) (
      Restored-eq c (suc h) (stop (rotate_sibling_left t c p il i (node black ir s sr)))
        (simp append_assoc)
        (rotate_sibling_left-Restored c h t p il i (node black ir s sr) bt (al, el)
          (unfold rb_set_color in
            (((ar, asr, sym e ∙ el ∙ sym esr, tt, tt), ap suc (sym e ∙ el))))))

pub rotate_inner_right-Restored :
    (c : Color) (h : ℕ) (t : Tree) (p : ℕ) (il : Tree) (i : ℕ) (ir : Tree) (s : ℕ) (sl : Tree)
    → BlackOf h t
    → IsRb (node red il i ir) × (black_height il ≡ h)
    → BlackOf h sl
    → Restored c
        (suc h)
        ((inorder sl ++ s ∷ inorder (node red il i ir)) ++ p ∷ inorder t)
        (rotate_inner_right black sl s (node red il i ir) c p t)
unfolding rotate_inner_right inorder
rotate_inner_right-Restored c h t p il i ir s sl bt ((al, ar, e, cl, cr), el) (asl, esl, csl) =
    rw (black_kept il cl) (
      Restored-eq c (suc h) (stop (rotate_sibling_right (node black sl s il) i ir c p t))
        (simp append_assoc)
        (rotate_sibling_right-Restored c h t p ir i (node black sl s il) bt (ar, sym e ∙ el)
          (unfold rb_set_color in (((asl, al, esl ∙ sym el, tt, tt), ap suc esl)))))

-- ===== src/Rbtree/Insert/Round.antt =====
-- The rounds of `__rb_insert`.
use mathlib.Core.List.{append_assoc}
use libls.Prelude.{ℕ, suc, ◌≡◌, refl, sym, ap, ◌∙◌, List, [], ◌∷◌, ◌++◌}
use libls.Rbtree.{
  Color, red, black, Tree, leaf, node, Edge, from_left, from_right, Ancestors, Step, stop, go_on,
  fault, rb_color, rb_set_color, edge_color, rotate_right, rotate_left, rotate_left_right,
  rotate_right_left, insert_step,
}
use libls.Links.{plug, inorder}
use libls.Rbtree.Shape.{BlackOf, black_kept, black_height, IsRb, FitsAround}

-- A round above subtrees with `h` black nodes on every path, at a black grandparent: the walk ends
-- with a black node, or goes on from a red one.
abbrev pub Rounded : ℕ → List ℕ → Step → Type 0
Rounded h xs (stop s) = IsRb s × (black_height s ≡ suc h) × (rb_color s ≡ black) × (inorder s ≡ xs)
Rounded h xs (go_on s) = IsRb s × (black_height s ≡ suc h) × (rb_color s ≡ red) × (inorder s ≡ xs)
Rounded h xs fault = ⊥

-- Case 3 on either side; the orders are those of the tree before it.
rotate_right-Rounded :
    (h : ℕ) (n : Tree) (p : ℕ) (t : Tree) (g : ℕ) (u : Tree)
    → IsRb n × (black_height n ≡ h)
    → BlackOf h t
    → BlackOf h u
    → Rounded h
        ((inorder n ++ p ∷ inorder t) ++ g ∷ inorder u)
        (stop (rotate_right black n p t g u))
unfolding rotate_right rb_color inorder
rotate_right-Rounded h n p t g u (an, en) (at, et, ct) (au, eu, cu) = rw (black_kept t ct) (
  (an, (at, au, et ∙ sym eu, ct, cu), en ∙ sym et, tt, tt),
  ap suc en,
  refl,
  sym (append_assoc (inorder n) (p ∷ inorder t) (g ∷ inorder u)),
)

rotate_left-Rounded :
    (h : ℕ) (n : Tree) (p : ℕ) (t : Tree) (g : ℕ) (u : Tree)
    → IsRb n × (black_height n ≡ h)
    → BlackOf h t
    → BlackOf h u
    → Rounded h (inorder u ++ g ∷ (inorder t ++ p ∷ inorder n)) (stop (rotate_left black u g t p n))
unfolding rotate_left rb_color inorder
rotate_left-Rounded h n p t g u (an, en) (at, et, ct) (au, eu, cu) = rw (black_kept t ct) (
  ((au, at, eu ∙ sym et, cu, ct), an, eu ∙ sym en, tt, tt),
  ap suc eu,
  refl,
  append_assoc (inorder u) (g ∷ inorder t) (p ∷ inorder n),
)

Rounded-eq : (h : ℕ) {xs ys : List ℕ} (r : Step) → xs ≡ ys → Rounded h xs r → Rounded h ys r
Rounded-eq h (stop s) e (a, b, c, o) = (a, b, c, o ∙ e)
Rounded-eq h (go_on s) e (a, b, c, o) = (a, b, c, o ∙ e)
Rounded-eq h fault e a = a

-- A red node with its children, as the walk has it.
abbrev pub RedOf : ℕ → Tree → Type 0
RedOf h n = IsRb n × (black_height n ≡ h) × (rb_color n ≡ red)

-- Case 2 and the case 3 behind it.
rotate_left_right-Rounded :
    (h : ℕ) (t : Tree) (p : ℕ) (n : Tree) (g : ℕ) (u : Tree)
    → RedOf h n
    → BlackOf h t
    → BlackOf h u
    → Rounded h ((inorder t ++ p ∷ inorder n) ++ g ∷ inorder u) (rotate_left_right black t p n g u)
unfolding rotate_left_right rb_color inorder
rotate_left_right-Rounded h t p leaf g u (an, en, cn) bt bu = absurd (cc)
rotate_left_right-Rounded h t p (node black l x r) g u (an, en, cn) bt bu = absurd (cc)
rotate_left_right-Rounded h t p (node red l x r) g u ((al, ar, e, cl, cr), en, cn) (at, et, ct) bu =
    rw (black_kept l cl) (
      Rounded-eq h (stop (rotate_right black (node red t p l) x r g u)) (simp append_assoc) (
        rotate_right-Rounded h (node red t p l) x r g u ((at, al, et ∙ sym en, ct, cl), et)
          (ar, sym e ∙ en, cr) bu))

rotate_right_left-Rounded :
    (h : ℕ) (t : Tree) (p : ℕ) (n : Tree) (g : ℕ) (u : Tree)
    → RedOf h n
    → BlackOf h t
    → BlackOf h u
    → Rounded h (inorder u ++ g ∷ (inorder n ++ p ∷ inorder t)) (rotate_right_left black u g n p t)
unfolding rotate_right_left rb_color inorder
rotate_right_left-Rounded h t p leaf g u (an, en, cn) bt bu = absurd (cc)
rotate_right_left-Rounded h t p (node black l x r) g u (an, en, cn) bt bu = absurd (cc)
rotate_right_left-Rounded h t p (node red l x r) g u ((al, ar, e, cl, cr), en, cn) (at, et, ct) bu =
    rw (black_kept r cr) (
      Rounded-eq h (stop (rotate_left black u g l x (node red r p t))) (simp append_assoc) (
        rotate_left-Rounded h (node red r p t) x l g u
          ((ar, at, sym e ∙ en ∙ sym et, cr, ct), sym e ∙ en) (al, en, cl) bu))

-- The addresses of the subtree at the grandparent.
abbrev pub order_at : Tree → Edge Color → Edge Color → List ℕ
order_at n parent gparent = inorder (plug n (parent ∷ gparent ∷ []))

-- One round, at a red parent: the walk ends below a black grandparent or goes on from a red one.
pub insert_step-Rounded :
    (h : ℕ) (n : Tree) (parent gparent : Edge Color) (up : Ancestors)
    → RedOf h n
    → edge_color parent ≡ red
    → FitsAround h (parent ∷ gparent ∷ up)
    → Rounded h (order_at n parent gparent) (insert_step n parent gparent)
unfolding insert_step plug inorder rb_color rb_set_color
insert_step-Rounded h n (from_left black p t) g up rn e f = absurd (cc)
insert_step-Rounded h n (from_right black t p) g up rn e f = absurd (cc)
insert_step-Rounded h n (from_left red p t) (from_left red g u) up rn e f = absurd f.3
insert_step-Rounded h n (from_left red p t) (from_right red u g) up rn e f = absurd f.3
insert_step-Rounded h n (from_right red t p) (from_left red g u) up rn e f = absurd f.3
insert_step-Rounded h n (from_right red t p) (from_right red u g) up rn e f = absurd f.3
insert_step-Rounded h n (from_left red p t) (from_left black g leaf) up (an, en, cn) e
      (at, et, ct, cg, (au, eu, cu, cb, f)) =
    rotate_right-Rounded h n p t g leaf (an, en) (at, sym et, ct) (au, sym eu, tt)
insert_step-Rounded h n (from_left red p t) (from_left black g (node red ul y ur)) up (an, en, cn) e
      (at, et, ct, cg, (au, eu, cu, cb, f)) =
    (
      ((an, at, en ∙ et, tt, tt), (au.0, au.1, au.2, tt, tt), ap suc en ∙ ap suc eu, tt, tt),
      ap suc en,
      refl,
      refl,
    )
insert_step-Rounded h n (from_left red p t) (from_left black g (node black ul y ur)) up (an, en, cn)
      e (at, et, ct, cg, (au, eu, cu, cb, f)) =
    rotate_right-Rounded h n p t g (node black ul y ur) (an, en) (at, sym et, ct) (au, sym eu, tt)
insert_step-Rounded h n (from_left red p t) (from_right black leaf g) up (an, en, cn) e
      (at, et, ct, cg, (au, eu, cu, cb, f)) =
    rotate_right_left-Rounded h t p n g leaf (an, en, cn) (at, sym et, ct) (au, eu, tt)
insert_step-Rounded h n (from_left red p t) (from_right black (node red ul y ur) g) up (an, en, cn)
      e (at, et, ct, cg, (au, eu, cu, cb, f)) =
    (
      ((au.0, au.1, au.2, tt, tt), (an, at, en ∙ et, tt, tt), ap suc eu ∙ sym (ap suc en), tt, tt),
      ap suc eu,
      refl,
      refl,
    )
insert_step-Rounded h n (from_left red p t) (from_right black (node black ul y ur) g) up
      (an, en, cn) e (at, et, ct, cg, (au, eu, cu, cb, f)) =
    rotate_right_left-Rounded h t p n g (node black ul y ur) (an, en, cn) (at, sym et, ct)
      (au, eu, tt)
insert_step-Rounded h n (from_right red t p) (from_left black g leaf) up (an, en, cn) e
      (at, et, ct, cg, (au, eu, cu, cb, f)) =
    rotate_left_right-Rounded h t p n g leaf (an, en, cn) (at, et, ct) (au, sym eu, tt)
insert_step-Rounded h n (from_right red t p) (from_left black g (node red ul y ur)) up (an, en, cn)
      e (at, et, ct, cg, (au, eu, cu, cb, f)) =
    (
      ((at, an, et ∙ sym en, tt, tt), (au.0, au.1, au.2, tt, tt), ap suc et ∙ ap suc eu, tt, tt),
      ap suc et,
      refl,
      refl,
    )
insert_step-Rounded h n (from_right red t p) (from_left black g (node black ul y ur)) up
      (an, en, cn) e (at, et, ct, cg, (au, eu, cu, cb, f)) =
    rotate_left_right-Rounded h t p n g (node black ul y ur) (an, en, cn) (at, et, ct)
      (au, sym eu, tt)
insert_step-Rounded h n (from_right red t p) (from_right black leaf g) up (an, en, cn) e
      (at, et, ct, cg, (au, eu, cu, cb, f)) =
    rotate_left-Rounded h n p t g leaf (an, en) (at, et, ct) (au, eu, tt)
insert_step-Rounded h n (from_right red t p) (from_right black (node red ul y ur) g) up (an, en, cn)
      e (at, et, ct, cg, (au, eu, cu, cb, f)) =
    (
      (
        (au.0, au.1, au.2, tt, tt),
        (at, an, et ∙ sym en, tt, tt),
        ap suc eu ∙ sym (ap suc et),
        tt,
        tt,
      ),
      ap suc eu,
      refl,
      refl,
    )
insert_step-Rounded h n (from_right red t p) (from_right black (node black ul y ur) g) up
      (an, en, cn) e (at, et, ct, cg, (au, eu, cu, cb, f)) =
    rotate_left-Rounded h n p t g (node black ul y ur) (an, en) (at, et, ct) (au, eu, tt)

-- ===== src/Avl/Insert.antt =====
-- The walk of `avl_insert_balance`.
use mathlib.Core.List.{append-nil}
use libls.Prelude.{
  ℕ, suc, max, ◌≡◌, ◌≢◌, ◌⊎◌, inl, inr, refl, sym, ap, subst, ◌∙◌, Option, none, some, List, [],
  ◌∷◌, ◌++◌, arith,
}
use libls.Avl.{
  Balance, equal_height, left_higher, right_higher, Tree, leaf, node, from_left, from_right,
  Ancestors, plug, inorder, avl_balance, avl_left_balance, avl_right_balance, avl_insert_balance,
  avl_link_node, ◌>>=◌,
}
use libls.Links.{left_order, right_order}
use libls.Avl.Shape.{height, IsAvl, FitsAround, IsAvl-plug, FitsAround-plug}
use libls.Links.{before, behind, inorder-plug}
use libls.Avl.Rotate.{Balanced, avl_left_balance-Balanced, avl_right_balance-Balanced}

-- An AVL tree with the addresses `xs`.
abbrev pub Ordered : List ℕ → Option Tree → Type 0
Ordered xs r = (t : Tree) × (r ≡ some t) × IsAvl t × (inorder t ≡ xs)

-- The subtree is back at the height that its path expects.
pub plug-Ordered :
    (s : Tree) (up : Ancestors) (h : ℕ) (xs : List ℕ)
    → IsAvl s
    → height s ≡ h
    → inorder s ≡ xs
    → FitsAround h up
    → Ordered (before up ++ (xs ++ behind up)) (some (plug s up))
plug-Ordered s up h xs a e o f = (
  plug s up,
  refl,
  IsAvl-plug s up a (subst (λ k. FitsAround k up) (sym e) f),
  inorder-plug s up ∙ ap (λ l. before up ++ (l ++ behind up)) o,
)

plug_with :
    (m : Option Tree) (up : Ancestors) (h : ℕ) (xs : List ℕ)
    → Balanced h xs m
    → FitsAround h up
    → Ordered (before up ++ (xs ++ behind up)) (m >>= λ s. some (plug s up))
plug_with none up h xs b f = absurd b
plug_with (some s) up h xs b f = plug-Ordered s up h xs b.0 b.1 b.2 f

-- Rewriting the order of a result.
pub Ordered-eq : {xs ys : List ℕ} (r : Option Tree) → xs ≡ ys → Ordered xs r → Ordered ys r
Ordered-eq r e (t, run, a, o) = (t, run, a, o ∙ e)

leans :
    {b : Balance} (l : Tree) (x : ℕ) (r : Tree)
    → b ≢ equal_height
    → avl_balance (node b l x r) ≢ some equal_height
unfolding avl_balance
leans l x r ne e = ne (cc e)

leaning : {P : Type 0} {h : ℕ} → P ⊎ (h ≡ 0) → h ≢ 0 → P
leaning (inl p) ne = p
leaning (inr z) ne = absurd (ne z)

-- The subtree has grown from height `h`; one that leans to neither side is the new node itself.
insert-Ordered :
    (up : Ancestors) (t : Tree) (h : ℕ)
    → IsAvl t
    → height t ≡ suc h
    → (avl_balance t ≢ some equal_height) ⊎ (h ≡ 0)
    → FitsAround h up
    → Ordered (before up ++ (inorder t ++ behind up)) (avl_insert_balance t up)
unfolding avl_insert_balance inorder
insert-Ordered [] t h a e lean f = (t, refl, a, sym (append-nil (inorder t)))
insert-Ordered (from_left equal_height x r ∷ up) t h a e lean (ar, d, f) =
    Ordered-eq _ (left_order left_higher equal_height t x r up) (
      insert-Ordered up (node left_higher t x r) (suc h) (a, ar, omega arith) (omega arith)
        (inl (leans _ _ _ (λ p. cc))) (subst (λ k. FitsAround k up) (omega arith) f))
insert-Ordered (from_left left_higher x r ∷ up) t h a e lean (ar, d, f) =
    Ordered-eq _ (left_order equal_height left_higher t x r up) (
      plug_with (avl_left_balance t x r) up (suc (suc (height r))) (inorder t ++ x ∷ inorder r)
        (avl_left_balance-Balanced t x r a ar (omega arith) (leaning lean (omega arith)))
        (subst (λ k. FitsAround k up) (omega arith) f))
insert-Ordered (from_left right_higher x r ∷ up) t h a e lean (ar, d, f) =
    Ordered-eq _ (left_order equal_height right_higher t x r up) (
      plug-Ordered (node equal_height t x r) up (suc (max h (height r))) _ (a, ar, omega arith)
        (omega arith) refl f)
insert-Ordered (from_right equal_height l x ∷ up) t h a e lean (al, d, f) =
    Ordered-eq _ (right_order right_higher equal_height l x t up) (
      insert-Ordered up (node right_higher l x t) (suc h) (al, a, omega arith) (omega arith)
        (inl (leans _ _ _ (λ p. cc))) (subst (λ k. FitsAround k up) (omega arith) f))
insert-Ordered (from_right left_higher l x ∷ up) t h a e lean (al, d, f) =
    Ordered-eq _ (right_order equal_height left_higher l x t up) (
      plug-Ordered (node equal_height l x t) up (suc (max (height l) h)) _ (al, a, omega arith)
        (omega arith) refl f)
insert-Ordered (from_right right_higher l x ∷ up) t h a e lean (al, d, f) =
    Ordered-eq _ (right_order equal_height right_higher l x t up) (
      plug_with (avl_right_balance l x t) up (suc (suc (height l))) (inorder l ++ x ∷ inorder t)
        (avl_right_balance-Balanced l x t a al (omega arith) (leaning lean (omega arith)))
        (subst (λ k. FitsAround k up) (omega arith) f))

-- Linking a new node at any null link of an AVL tree and rebalancing never aborts, and gives an AVL
-- tree whose addresses are the old ones in the old order, with the new one between those before and
-- those behind the link.
pub avl_insert_balance-Ordered :
    (up : Ancestors) (x : ℕ)
    → IsAvl (plug leaf up)
    → Ordered (before up ++ x ∷ behind up) (avl_insert_balance (avl_link_node x) up)
      × (inorder (plug leaf up) ≡ before up ++ behind up)
avl_insert_balance-Ordered up x a = (
  unfold avl_link_node inorder in
      (insert-Ordered up (avl_link_node x) 0 (tt, tt, refl) (omega arith) (inr refl)
        (FitsAround-plug leaf up a).1),
  unfold inorder in inorder-plug leaf up,
)

-- ===== src/Avl/Erase.antt =====
-- `avl_erase`: the walk of `avl_erase_balance`, the unlinking and the replacement.
use mathlib.Core.List.{append-nil}
use libls.Prelude.{ℕ, suc, max, ◌≡◌, refl, sym, ap, subst, Option, List, [], ◌∷◌, ◌++◌, arith}
use libls.Avl.{
  Balance, Edge, equal_height, left_higher, right_higher, Tree, from_left, from_right, Ancestors,
  inorder, Step, stop, go_on, aborted, erase_step, after_step, avl_erase_balance,
}
use libls.Avl.Shape.{height, IsAvl, FitsAround}
use libls.Links.{before, behind}
use libls.Avl.Rotate.{Shrunk, erase_left-Shrunk, erase_right-Shrunk}
use libls.Avl.Insert.{Ordered, Ordered-eq, plug-Ordered}
use libls.Links.{left_order, right_order}

-- The parent around a subtree, as it was before the subtree lost one in height.
abbrev around_height : ℕ → Edge Balance → ℕ
around_height h (from_left b x r) = suc (max (suc h) (height r))
around_height h (from_right b l x) = suc (max (height l) (suc h))

abbrev around_list : List ℕ → Edge Balance → List ℕ
around_list t (from_left b x r) = t ++ x ∷ inorder r
around_list t (from_right b l x) = inorder l ++ x ∷ t

Shrunk-eq : (h k : ℕ) (xs : List ℕ) (st : Step) → h ≡ k → Shrunk h xs st → Shrunk k xs st
Shrunk-eq h k xs st e s = subst (λ n. Shrunk n xs st) e s

erase_step-Shrunk :
    (t : Tree) (f : Edge Balance)
    → IsAvl t
    → FitsAround (suc (height t)) (f ∷ [])
    → Shrunk (around_height (height t) f) (around_list (inorder t) f) (erase_step t f)
unfolding erase_step inorder
erase_step-Shrunk t (from_left equal_height x r) a (ar, d, _) =
    ((a, ar, omega arith), omega arith, refl)
erase_step-Shrunk t (from_left left_higher x r) a (ar, d, _) =
    ((a, ar, omega arith), omega arith, refl)
erase_step-Shrunk t (from_left right_higher x r) a (ar, d, _) =
    Shrunk-eq (suc (suc (suc (height t)))) _ _ _ (omega arith)
      (erase_right-Shrunk t x r a ar (omega arith))
erase_step-Shrunk t (from_right equal_height l x) a (al, d, _) =
    ((al, a, omega arith), omega arith, refl)
erase_step-Shrunk t (from_right left_higher l x) a (al, d, _) =
    Shrunk-eq (suc (suc (suc (height t)))) _ _ _ (omega arith)
      (erase_left-Shrunk l x t al a (omega arith))
erase_step-Shrunk t (from_right right_higher l x) a (al, d, _) =
    ((al, a, omega arith), omega arith, refl)

FitsAround-head :
    (h : ℕ) (f : Edge Balance) (up : Ancestors) → FitsAround h (f ∷ up) → FitsAround h (f ∷ [])
FitsAround-head h (from_left b x r) up (a, d, f) = (a, d, tt)
FitsAround-head h (from_right b l x) up (a, d, f) = (a, d, tt)

FitsAround-tail :
    (h : ℕ) (f : Edge Balance) (up : Ancestors)
    → FitsAround (suc h) (f ∷ up)
    → FitsAround (around_height h f) up
FitsAround-tail h (from_left b x r) up (a, d, f) = f
FitsAround-tail h (from_right b l x) up (a, d, f) = f

around-before :
    (t : Tree) (f : Edge Balance) (up : Ancestors)
    → before up ++ (around_list (inorder t) f ++ behind up)
      ≡ before (f ∷ up) ++ (inorder t ++ behind (f ∷ up))
unfolding inorder
around-before t (from_left b x r) up = left_order equal_height b t x r up
around-before t (from_right b l x) up = right_order equal_height b l x t up

after_step-Ordered :
    (walk : Tree → Option Tree) (up : Ancestors) (h : ℕ) (xs : List ℕ) (st : Step)
    → Shrunk h xs st
    → FitsAround h up
    → ((s : Tree)
        → IsAvl s
        → FitsAround (suc (height s)) up
        → Ordered (before up ++ (inorder s ++ behind up)) (walk s))
    → Ordered (before up ++ (xs ++ behind up)) (after_step walk up st)
after_step-Ordered walk up h xs (stop s) sh f k = plug-Ordered s up h xs sh.0 sh.1 sh.2 f
after_step-Ordered walk up h xs (go_on s) sh f k =
    Ordered-eq _ (ap (λ l. before up ++ (l ++ behind up)) sh.2)
      (k s sh.0 (subst (λ n. FitsAround n up) (sym sh.1) f))
after_step-Ordered walk up h xs aborted sh f k = absurd sh

-- Where a subtree is one lower than its path expects, the walk restores the balance.
pub erase-Ordered :
    (up : Ancestors) (t : Tree)
    → IsAvl t
    → FitsAround (suc (height t)) up
    → Ordered (before up ++ (inorder t ++ behind up)) (avl_erase_balance t up)
unfolding avl_erase_balance
erase-Ordered [] t a f = (t, refl, a, sym (append-nil (inorder t)))
erase-Ordered (g ∷ up) t a f = Ordered-eq _ (around-before t g up) (
    after_step-Ordered (λ s. avl_erase_balance s up) up (around_height (height t) g)
      (around_list (inorder t) g) (erase_step t g)
      (erase_step-Shrunk t g a (FitsAround-head _ g up f)) (FitsAround-tail (height t) g up f)
      (λ s ok fs. erase-Ordered up s ok fs))

-- ===== src/Avl/Rotate.antt =====
-- The rotations keep the order, and bring a parent whose subtrees differ by two back into balance.
use mathlib.Core.List.{append_assoc}
use libls.Prelude.{ℕ, suc, ◌≡◌, ◌≢◌, refl, Option, none, some, List, ◌∷◌, ◌++◌, arith}
use libls.Avl.{
  equal_height, left_higher, right_higher, Tree, leaf, node, inorder, left_right, right_left,
  avl_left_balance, avl_right_balance, avl_balance, Step, stop, go_on, aborted, go_on_with,
  erase_left, erase_right,
}
use libls.Avl.Shape.{height, IsAvl}

-- An AVL tree of height `h` with the addresses `xs`.
abbrev pub Balanced : ℕ → List ℕ → Option Tree → Type 0
Balanced h xs none = ⊥
Balanced h xs (some s) = IsAvl s × (height s ≡ h) × (inorder s ≡ xs)

left_right-Balanced :
    (nl : Tree) (n : ℕ) (nr : Tree) (p : ℕ) (r : Tree)
    → IsAvl (node right_higher nl n nr)
    → IsAvl r
    → height nl ≡ height r
    → Balanced
        (suc (suc (height r)))
        (inorder (node right_higher nl n nr) ++ p ∷ inorder r)
        (left_right (node right_higher nl n nr) p r)
unfolding left_right inorder
left_right-Balanced nl n leaf p r a ar h = absurd (omega arith)
left_right-Balanced nl n (node equal_height il i ir) p r a ar h = (
  ((a.0, a.1.0, omega arith), (a.1.1, ar, omega arith), omega arith),
  omega arith,
  simp append_assoc,
)
left_right-Balanced nl n (node left_higher il i ir) p r a ar h = (
  ((a.0, a.1.0, omega arith), (a.1.1, ar, omega arith), omega arith),
  omega arith,
  simp append_assoc,
)
left_right-Balanced nl n (node right_higher il i ir) p r a ar h = (
  ((a.0, a.1.0, omega arith), (a.1.1, ar, omega arith), omega arith),
  omega arith,
  simp append_assoc,
)

right_left-Balanced :
    (l : Tree) (p : ℕ) (nl : Tree) (n : ℕ) (nr : Tree)
    → IsAvl (node left_higher nl n nr)
    → IsAvl l
    → height nr ≡ height l
    → Balanced
        (suc (suc (height l)))
        (inorder l ++ p ∷ inorder (node left_higher nl n nr))
        (right_left l p (node left_higher nl n nr))
unfolding right_left inorder
right_left-Balanced l p leaf n nr a al h = absurd (omega arith)
right_left-Balanced l p (node equal_height il i ir) n nr a al h = (
  ((al, a.0.0, omega arith), (a.0.1, a.1, omega arith), omega arith),
  omega arith,
  simp append_assoc,
)
right_left-Balanced l p (node left_higher il i ir) n nr a al h = (
  ((al, a.0.0, omega arith), (a.0.1, a.1, omega arith), omega arith),
  omega arith,
  simp append_assoc,
)
right_left-Balanced l p (node right_higher il i ir) n nr a al h = (
  ((al, a.0.0, omega arith), (a.0.1, a.1, omega arith), omega arith),
  omega arith,
  simp append_assoc,
)

-- After an insertion on the left of a parent that was higher there.
pub avl_left_balance-Balanced :
    (t : Tree) (x : ℕ) (r : Tree)
    → IsAvl t
    → IsAvl r
    → height t ≡ suc (suc (height r))
    → avl_balance t ≢ some equal_height
    → Balanced (suc (suc (height r))) (inorder t ++ x ∷ inorder r) (avl_left_balance t x r)
unfolding avl_left_balance avl_balance
avl_left_balance-Balanced leaf x r a ar h b = absurd (omega arith)
avl_left_balance-Balanced (node equal_height nl n nr) x r a ar h b = absurd (b refl)
avl_left_balance-Balanced (node left_higher nl n nr) x r a ar h b =
    unfold inorder in ((a.0, (a.1, ar, omega arith), omega arith), omega arith, simp append_assoc)
avl_left_balance-Balanced (node right_higher nl n nr) x r a ar h b =
    left_right-Balanced nl n nr x r a ar (omega arith)

pub avl_right_balance-Balanced :
    (l : Tree) (x : ℕ) (t : Tree)
    → IsAvl t
    → IsAvl l
    → height t ≡ suc (suc (height l))
    → avl_balance t ≢ some equal_height
    → Balanced (suc (suc (height l))) (inorder l ++ x ∷ inorder t) (avl_right_balance l x t)
unfolding avl_right_balance avl_balance
avl_right_balance-Balanced l x leaf a al h b = absurd (omega arith)
avl_right_balance-Balanced l x (node equal_height nl n nr) a al h b = absurd (b refl)
avl_right_balance-Balanced l x (node left_higher nl n nr) a al h b =
    right_left-Balanced l x nl n nr a al (omega arith)
avl_right_balance-Balanced l x (node right_higher nl n nr) a al h b =
    unfold inorder in (((al, a.0, omega arith), a.1, omega arith), omega arith, simp append_assoc)

-- After an erasure: a step that stops has kept the height `h`, one that goes on has lost one.
abbrev pub Shrunk : ℕ → List ℕ → Step → Type 0
Shrunk h xs (stop s) = Balanced h xs (some s)
Shrunk h xs (go_on s) = IsAvl s × (suc (height s) ≡ h) × (inorder s ≡ xs)
Shrunk h xs aborted = ⊥

go_on-Shrunk :
    (h : ℕ) (xs : List ℕ) (o : Option Tree) → Balanced h xs o → Shrunk (suc h) xs (go_on_with o)
go_on-Shrunk h xs none b = b
go_on-Shrunk h xs (some s) b = (b.0, omega arith, b.2)

pub erase_right-Shrunk :
    (t : Tree) (p : ℕ) (r : Tree)
    → IsAvl t
    → IsAvl r
    → height r ≡ suc (suc (height t))
    → Shrunk (suc (suc (suc (height t)))) (inorder t ++ p ∷ inorder r) (erase_right t p r)
unfolding erase_right
erase_right-Shrunk t p leaf a ar h = absurd (omega arith)
erase_right-Shrunk t p (node equal_height nl n nr) a ar h =
    unfold inorder in (((a, ar.0, omega arith), ar.1, omega arith), omega arith, simp append_assoc)
erase_right-Shrunk t p (node left_higher nl n nr) a ar h =
    go_on-Shrunk _ _ _ (right_left-Balanced t p nl n nr ar a (omega arith))
erase_right-Shrunk t p (node right_higher nl n nr) a ar h =
    unfold inorder in (((a, ar.0, omega arith), ar.1, omega arith), omega arith, simp append_assoc)

pub erase_left-Shrunk :
    (l : Tree) (p : ℕ) (t : Tree)
    → IsAvl l
    → IsAvl t
    → height l ≡ suc (suc (height t))
    → Shrunk (suc (suc (suc (height t)))) (inorder l ++ p ∷ inorder t) (erase_left l p t)
unfolding erase_left
erase_left-Shrunk leaf p t a at h = absurd (omega arith)
erase_left-Shrunk (node equal_height nl n nr) p t a at h =
    unfold inorder in ((a.0, (a.1, at, omega arith), omega arith), omega arith, simp append_assoc)
erase_left-Shrunk (node left_higher nl n nr) p t a at h =
    unfold inorder in ((a.0, (a.1, at, omega arith), omega arith), omega arith, simp append_assoc)
erase_left-Shrunk (node right_higher nl n nr) p t a at h =
    go_on-Shrunk _ _ _ (left_right-Balanced nl n nr p t a at (omega arith))

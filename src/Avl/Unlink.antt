-- ===== src/Avl/Unlink.antt =====
-- The walk of `avl_erase_balance` does not look into the subtree that it starts from, so the node that
-- is unlinked behind it could have been unlinked before it.
use mathlib.Core.Option
use libls.Prelude.{
  ℕ, ◌≡◌, refl, sym, ap, ◌∙◌, Bool, false, ◌||◌, Option, some, List, [], ◌∷◌, ◌++◌, arith, ◌==◌,
  ==_refl,
}
use libls.Avl.{
  Edge, Balance, equal_height, left_higher, right_higher, Tree, leaf, node, from_left, from_right,
  Ancestors, plug, inorder, Step, stop, go_on, aborted, erase_left, erase_right, erase_step,
  after_step, avl_erase_balance, unlink, only_child, balance_left_of, balance_right_of,
}

abbrev pub mem : ℕ → List ℕ → Bool
mem y [] = false
mem y (z ∷ zs) = z == y || mem y zs

pub mem-append : (y : ℕ) (xs ys : List ℕ) → mem y (xs ++ ys) ≡ (mem y xs || mem y ys)
mem-append y [] ys = refl
mem-append y (x ∷ xs) ys = ground (arith, mem-append y xs ys)

pub record Absent (y : ℕ) (l : Tree) (x : ℕ) (r : Tree) : Type 0 where
  pub here : (x == y) ≡ false
  pub left : mem y (inorder l) ≡ false
  pub right : mem y (inorder r) ≡ false

pub Absent-node :
    (y : ℕ) (b : Balance) (l : Tree) (x : ℕ) (r : Tree)
    → mem y (inorder (node b l x r)) ≡ false
    → Absent y l x r
unfolding inorder
Absent-node y b l x r h =
    let e = mem-append y (inorder l) (x ∷ inorder r) in
    record { here = ground arith; left = ground arith; right = ground arith }

node_of_Absent :
    (y : ℕ) (b : Balance) (l : Tree) (x : ℕ) (r : Tree)
    → (x == y) ≡ false
    → mem y (inorder l) ≡ false
    → mem y (inorder r) ≡ false
    → mem y (inorder (node b l x r)) ≡ false
unfolding inorder
node_of_Absent y b l x r h hl hr = ground (arith, mem-append y (inorder l) (x ∷ inorder r))

pub unlink-absent : (y : ℕ) (t : Tree) → mem y (inorder t) ≡ false → unlink y t ≡ t
unlink-absent y leaf h = unfold unlink in refl
unlink-absent y (node b l x r) h =
    let a = Absent-node y b l x r h in
    step a.here (unlink-absent y l a.left) (unlink-absent y r a.right)
  where
    step :
        (x == y) ≡ false → unlink y l ≡ l → unlink y r ≡ r → unlink y (node b l x r) ≡ node b l x r
    step here el er = unfold unlink in rw (here, el, er)

pub unlink_root : (y : ℕ) (b : Balance) (l r : Tree) → unlink y (node b l y r) ≡ only_child l r
unfolding unlink
unlink_root y b l r = rw (==_refl y)

unlink_node :
    (y : ℕ) (b : Balance) (l : Tree) (x : ℕ) (r : Tree)
    → (x == y) ≡ false
    → unlink y (node b l x r) ≡ node b (unlink y l) x (unlink y r)
unfolding unlink
unlink_node y b l x r h = rw h

abbrev map_step : (Tree → Tree) → Step → Step
map_step f (stop s) = stop (f s)
map_step f (go_on s) = go_on (f s)
map_step f aborted = aborted

module _ (y : ℕ) where
  -- A subtree of four parts in which only the first can hold `y`.
  first_of_two :
      (b c : Balance) (t : Tree) (p : ℕ) (m : Tree) (n : ℕ) (r : Tree)
      → (p == y) ≡ false
      → mem y (inorder m) ≡ false
      → (n == y) ≡ false
      → mem y (inorder r) ≡ false
      → unlink y (node b (node c t p m) n r) ≡ node b (node c (unlink y t) p m) n r
  first_of_two b c t p m n r hp hm hn hr = rw (
    unlink_node y b (node c t p m) n r hn,
    unlink_node y c t p m hp,
    unlink-absent y m hm,
    unlink-absent y r hr,
  )

  erase_right-unlink :
      (t : Tree) (p : ℕ) (r : Tree)
      → (p == y) ≡ false
      → mem y (inorder r) ≡ false
      → erase_right (unlink y t) p r ≡ map_step (unlink y) (erase_right t p r)
  unfolding erase_right
  erase_right-unlink t p leaf hp hr = refl
  erase_right-unlink t p (node equal_height nl n nr) hp hr =
      let a = Absent-node y _ nl n nr hr in
      ap stop (sym (first_of_two left_higher right_higher t p nl n nr hp a.left a.here a.right))
  erase_right-unlink t p (node left_higher leaf n nr) hp hr = refl
  erase_right-unlink t p (node left_higher (node bi il i ir) n nr) hp hr =
      let a = Absent-node y _ _ n nr hr in
      let c = Absent-node y bi il i ir a.left in
      ap go_on (
        sym (
          first_of_two equal_height (balance_left_of bi) t p il i
            (node (balance_right_of bi) ir n nr) hp c.left c.here
            (node_of_Absent y _ ir n nr a.here c.right a.right)))
  erase_right-unlink t p (node right_higher nl n nr) hp hr =
      let a = Absent-node y _ nl n nr hr in
      ap go_on (sym (first_of_two equal_height equal_height t p nl n nr hp a.left a.here a.right))

  -- The mirror image.
  last_of_two :
      (b c : Balance) (l : Tree) (n : ℕ) (m : Tree) (p : ℕ) (t : Tree)
      → (p == y) ≡ false
      → mem y (inorder m) ≡ false
      → (n == y) ≡ false
      → mem y (inorder l) ≡ false
      → unlink y (node b l n (node c m p t)) ≡ node b l n (node c m p (unlink y t))
  last_of_two b c l n m p t hp hm hn hl = rw (
    unlink_node y b l n (node c m p t) hn,
    unlink_node y c m p t hp,
    unlink-absent y m hm,
    unlink-absent y l hl,
  )

  erase_left-unlink :
      (l : Tree) (p : ℕ) (t : Tree)
      → (p == y) ≡ false
      → mem y (inorder l) ≡ false
      → erase_left l p (unlink y t) ≡ map_step (unlink y) (erase_left l p t)
  unfolding erase_left
  erase_left-unlink leaf p t hp hl = refl
  erase_left-unlink (node equal_height nl n nr) p t hp hl =
      let a = Absent-node y _ nl n nr hl in
      ap stop (sym (last_of_two right_higher left_higher nl n nr p t hp a.right a.here a.left))
  erase_left-unlink (node left_higher nl n nr) p t hp hl =
      let a = Absent-node y _ nl n nr hl in
      ap go_on (sym (last_of_two equal_height equal_height nl n nr p t hp a.right a.here a.left))
  erase_left-unlink (node right_higher nl n leaf) p t hp hl = refl
  erase_left-unlink (node right_higher nl n (node bi il i ir)) p t hp hl =
      let a = Absent-node y _ nl n _ hl in
      let c = Absent-node y bi il i ir a.right in
      ap go_on (
        sym (
          last_of_two equal_height (balance_right_of bi) (node (balance_left_of bi) nl n il) i ir p
            t hp c.right c.here (node_of_Absent y _ nl n il a.here a.left c.left)))

  left_unlink :
      (b : Balance) (t : Tree) (x : ℕ) (r : Tree)
      → (x == y) ≡ false
      → mem y (inorder r) ≡ false
      → node b (unlink y t) x r ≡ unlink y (node b t x r)
  left_unlink b t x r h hr = rw (unlink_node y b t x r h, unlink-absent y r hr)

  right_unlink :
      (b : Balance) (l : Tree) (x : ℕ) (t : Tree)
      → (x == y) ≡ false
      → mem y (inorder l) ≡ false
      → node b l x (unlink y t) ≡ unlink y (node b l x t)
  right_unlink b l x t h hl = rw (unlink_node y b l x t h, unlink-absent y l hl)

  -- The parts of a path that does not hold `y`.
  abbrev pub Outside : Ancestors → Type 0
  Outside [] = Unit
  Outside (from_left b x r ∷ up) = ((x == y) ≡ false) × (mem y (inorder r) ≡ false) × Outside up
  Outside (from_right b l x ∷ up) = ((x == y) ≡ false) × (mem y (inorder l) ≡ false) × Outside up

  erase_step-unlink :
      (t : Tree) (f : Edge Balance)
      → Outside (f ∷ [])
      → erase_step (unlink y t) f ≡ map_step (unlink y) (erase_step t f)
  unfolding erase_step
  erase_step-unlink t (from_left equal_height x r) (h, m, _) = ap stop (left_unlink _ t x r h m)
  erase_step-unlink t (from_left left_higher x r) (h, m, _) = ap go_on (left_unlink _ t x r h m)
  erase_step-unlink t (from_left right_higher x r) (h, m, _) = erase_right-unlink t x r h m
  erase_step-unlink t (from_right equal_height l x) (h, m, _) = ap stop (right_unlink _ l x t h m)
  erase_step-unlink t (from_right left_higher l x) (h, m, _) = erase_left-unlink l x t h m
  erase_step-unlink t (from_right right_higher l x) (h, m, _) = ap go_on (right_unlink _ l x t h m)

  unlink-plug :
      (t : Tree) (up : Ancestors) → Outside up → unlink y (plug t up) ≡ plug (unlink y t) up
  unfolding plug
  unlink-plug t [] o = refl
  unlink-plug t (from_left b x r ∷ up) (h, m, o) =
      unlink-plug (node b t x r) up o ∙ ap (λ s. plug s up) (sym (left_unlink b t x r h m))
  unlink-plug t (from_right b l x ∷ up) (h, m, o) =
      unlink-plug (node b l x t) up o ∙ ap (λ s. plug s up) (sym (right_unlink b l x t h m))

  after_step-unlink :
      (walk : Tree → Option Tree) (up : Ancestors) (st : Step)
      → ((s : Tree) → Option.map (unlink y) (walk s) ≡ walk (unlink y s))
      → Outside up
      → Option.map (unlink y) (after_step walk up st) ≡ after_step walk up (map_step (unlink y) st)
  after_step-unlink walk up (stop s) k o = ap some (unlink-plug s up o)
  after_step-unlink walk up (go_on s) k o = k s
  after_step-unlink walk up aborted k o = refl

  Outside-head : (f : Edge Balance) (up : Ancestors) → Outside (f ∷ up) → Outside (f ∷ [])
  Outside-head (from_left b x r) up (h, m, o) = (h, m, tt)
  Outside-head (from_right b l x) up (h, m, o) = (h, m, tt)

  Outside-tail : (f : Edge Balance) (up : Ancestors) → Outside (f ∷ up) → Outside up
  Outside-tail (from_left b x r) up (h, m, o) = o
  Outside-tail (from_right b l x) up (h, m, o) = o

  -- The walk and the unlinking commute.
  pub avl_erase_balance-unlink :
      (up : Ancestors) (t : Tree)
      → Outside up
      → Option.map (unlink y) (avl_erase_balance t up) ≡ avl_erase_balance (unlink y t) up
  unfolding avl_erase_balance
  avl_erase_balance-unlink [] t o = refl
  avl_erase_balance-unlink (f ∷ up) t o =
      after_step-unlink (λ s. avl_erase_balance s up) up (erase_step t f)
        (λ s. avl_erase_balance-unlink up s (Outside-tail f up o)) (Outside-tail f up o)
      ∙ ap (after_step (λ s. avl_erase_balance s up) up)
          (sym (erase_step-unlink t f (Outside-head f up o)))

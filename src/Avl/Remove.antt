-- ===== src/Avl/Remove.antt =====
-- `avl_erase` as a whole: the tree without the address, still an AVL tree.
use mathlib.Core.Option
use mathlib.Core.List.{append_assoc, append-nil}
use libls.Prelude.{
  ℕ, suc, ◌≡◌, refl, sym, ap, subst, ◌∙◌, false, Option, none, some, List, [], ◌∷◌, ◌++◌, map,
  arith, ◌==◌, ==_refl, if◌then◌else◌,
}
use libls.Avl.{
  Balance, Tree, leaf, node, from_left, from_right, Ancestors, plug, inorder, avl_erase_balance,
  unlink, only_child, avl_replace_node, address, erase_real, avl_erase, ◌>>=◌,
}
use libls.Links.Walk.{right_most}
use libls.Avl.Shape.{height, IsAvl, FitsAround, FitsAround-plug}
use libls.Links.{before, behind, inorder-plug}
use libls.Avl.Insert.{Ordered, Ordered-eq}
use libls.Avl.Unlink.{mem, mem-append, Outside, avl_erase_balance-unlink, unlink_root}
use libls.Avl.Erase.{erase-Ordered}
use libls.Avl.Rename.{renamed, map-middle, Ordered-replace}

-- No address stands in two places.
abbrev pub Distinct : List ℕ → Type 0
Distinct [] = Unit
Distinct (x ∷ xs) = (mem x xs ≡ false) × Distinct xs

-- Around a place the other addresses differ from the one there.
Distinct-middle :
    (xs : List ℕ) (y : ℕ) (ys : List ℕ)
    → Distinct (xs ++ y ∷ ys)
    → (mem y xs ≡ false) × (mem y ys ≡ false)
Distinct-middle [] y ys d = (refl, d.0)
Distinct-middle (x ∷ xs) y ys d =
    let ih = Distinct-middle xs y ys d.1 in
    (ground (arith, d.0, mem-append x xs (y ∷ ys), ih), ih.1)

Outside-mem :
    (y : ℕ) (up : Ancestors) → mem y (before up) ≡ false → mem y (behind up) ≡ false → Outside y up
Outside-mem y [] p q = tt
Outside-mem y (from_left b x r ∷ up) p q =
    let e = mem-append y (inorder r) (behind up) in
    (ground arith, ground arith, Outside-mem y up p (ground arith))
Outside-mem y (from_right b l x ∷ up) p q =
    let e = mem-append y (before up) (inorder l ++ x ∷ []) in
    let f = mem-append y (inorder l) (x ∷ []) in
    (ground arith, ground arith, Outside-mem y up (ground arith) q)

-- A real node `y` with one child at most: the walk and the unlinking leave the rest, balanced.
erase_one :
    (b : Balance) (l : Tree) (y : ℕ) (r : Tree) (up : Ancestors) (c : Tree)
    → only_child l r ≡ c
    → IsAvl c
    → suc (height c) ≡ height (node b l y r)
    → FitsAround (height (node b l y r)) up
    → Outside y up
    → Ordered
        (before up ++ (inorder c ++ behind up))
        (Option.map (unlink y) (avl_erase_balance (node b l y r) up))
erase_one b l y r up c e a h f o =
    rw (avl_erase_balance-unlink y up (node b l y r) o, unlink_root y b l r, e)
      (erase-Ordered up c a (subst (λ n. FitsAround n up) (sym h) f))

only_child-leaf : (l : Tree) → only_child l leaf ≡ l
unfolding only_child
only_child-leaf leaf = refl
only_child-leaf (node b l x r) = refl

-- What `right_most` finds: a node with no right child, last in the order of the subtree.
record RightMost (t : Tree) (up : Ancestors) (found : Tree × Ancestors) : Type 0 where
  b : Balance
  l : Tree
  y : ℕ
  path : Ancestors
  is : found ≡ (node b l y leaf, path)
  same : plug (node b l y leaf) path ≡ plug t up
  behind_same : behind path ≡ behind up
  order : before up ++ inorder t ≡ (before path ++ inorder l) ++ y ∷ []

right_most_lem :
    (b : Balance) (l : Tree) (x : ℕ) (r : Tree) (up : Ancestors)
    → RightMost (node b l x r) up (right_most (node b l x r) up)
unfolding right_most inorder plug
right_most_lem b l x leaf up = record {
  b = b;
  l = l;
  y = x;
  path = up;
  is = refl;
  same = refl;
  behind_same = refl;
  order = sym (append_assoc (before up) (inorder l) (x ∷ []));
}
right_most_lem b l x (node c rl y rr) up =
    let m = right_most_lem c rl y rr (from_right b l x ∷ up) in
    record {
      b = m.b;
      l = m.l;
      y = m.y;
      path = m.path;
      is = m.is;
      same = m.same;
      behind_same = m.behind_same;
      order = above m.order;
    }
  where
    above :
        {zs : List ℕ}
        → (before up ++ (inorder l ++ x ∷ [])) ++ (inorder rl ++ y ∷ inorder rr) ≡ zs
        → before up ++ (inorder l ++ x ∷ (inorder rl ++ y ∷ inorder rr)) ≡ zs
    above e =
        let f : before up ++ (inorder l ++ x ∷ (inorder rl ++ y ∷ inorder rr))
            ≡ (before up ++ (inorder l ++ x ∷ [])) ++ (inorder rl ++ y ∷ inorder rr) =
          simp append_assoc in
        f ∙ e

-- The last lines of `avl_erase`, where the real node is the erased one, and where it is not.
erase_real_self :
    (b : Balance) (l : Tree) (x : ℕ) (r : Tree) (up : Ancestors)
    → erase_real x (node b l x r, up) ≡ Option.map (unlink x) (avl_erase_balance (node b l x r) up)
unfolding erase_real address
erase_real_self b l x r up = end (avl_erase_balance (node b l x r) up)
  where
    end :
        (m : Option Tree)
        → (m >>= λ t. some (if x == x then unlink x t else avl_replace_node x x (unlink x t)))
          ≡ Option.map (unlink x) m
    end none = refl
    end (some t) = rw (==_refl x)

erase_real_other :
    (b : Balance) (l : Tree) (x y : ℕ) (r : Tree) (up : Ancestors)
    → (y == x) ≡ false
    → erase_real x (node b l y r, up)
      ≡ Option.map
          (avl_replace_node x y)
          (Option.map (unlink y) (avl_erase_balance (node b l y r) up))
unfolding erase_real address
erase_real_other b l x y r up ne = end (avl_erase_balance (node b l y r) up)
  where
    end :
        (m : Option Tree)
        → (m >>= λ t. some (if y == x then unlink y t else avl_replace_node x y (unlink y t)))
          ≡ Option.map (avl_replace_node x y) (Option.map (unlink y) m)
    end none = refl
    end (some t) = rw ne

-- The tree around a node, in order.
around :
    (b : Balance) (l : Tree) (x : ℕ) (r : Tree) (up : Ancestors)
    → inorder (plug (node b l x r) up) ≡ (before up ++ inorder l) ++ x ∷ (inorder r ++ behind up)
around b l x r up = inorder-plug (node b l x r) up ∙ unfold inorder in simp append_assoc

around_last :
    (b : Balance) (l : Tree) (y : ℕ) (path : Ancestors)
    → inorder (plug (node b l y leaf) path) ≡ (before path ++ inorder l) ++ y ∷ behind path
unfolding inorder
around_last b l y path = around b l y leaf path

module _ (b : Balance) (l : Tree) (x : ℕ) (r : Tree) (up : Ancestors)
    (avl : IsAvl (plug (node b l x r) up))
    (distinct : Distinct (inorder (plug (node b l x r) up))) where
  apart : (mem x (before up ++ inorder l) ≡ false) × (mem x (inorder r ++ behind up) ≡ false)
  apart =
      Distinct-middle (before up ++ inorder l) x (inorder r ++ behind up)
        (subst Distinct (around b l x r up) distinct)

  Outside-self : Outside x up
  Outside-self =
      Outside-mem x up (ground (arith, apart, mem-append x (before up) (inorder l)))
        (ground (arith, apart, mem-append x (inorder r) (behind up)))

  erase_self :
      (c : Tree)
      → only_child l r ≡ c
      → IsAvl c
      → suc (height c) ≡ height (node b l x r)
      → inorder c ≡ inorder l ++ inorder r
      → Ordered
          (before up ++ ((inorder l ++ inorder r) ++ behind up))
          (erase_real x (node b l x r, up))
  erase_self c e a h o = rw (erase_real_self b l x r up) (
      Ordered-eq _ (ap (λ t. before up ++ (t ++ behind up)) o)
        (erase_one b l x r up c e a h (FitsAround-plug (node b l x r) up avl).1 Outside-self))

  module _ (bm : Balance) (lm : Tree) (y : ℕ) (path : Ancestors)
      (same : plug (node bm lm y leaf) path ≡ plug (node b l x r) up)
      (behind_same : behind path ≡ x ∷ (inorder r ++ behind up))
      (order : before up ++ inorder l ≡ (before path ++ inorder lm) ++ y ∷ []) where
    abbrev front : List ℕ
    front = before path ++ inorder lm

    abbrev rest : List ℕ
    rest = inorder r ++ behind up

    absent_x : (mem x front ≡ false) × ((y == x) ≡ false)
    absent_x =
        let all : mem x (front ++ y ∷ []) ≡ false = subst (λ t. mem x t ≡ false) order apart.0 in
        (ground (arith, mem-append x front (y ∷ [])), ground (arith, mem-append x front (y ∷ [])))

    absent_y : Outside y path
    absent_y =
        let d = Distinct-middle front y (behind path) (
          subst Distinct (around_last bm lm y path)
            (subst (λ t. Distinct (inorder t)) (sym same) distinct)) in
        Outside-mem y path (ground (arith, d, mem-append y (before path) (inorder lm))) d.1

    -- The real node is unlinked, and takes the place of `x`.
    erase_before :
        Ordered
          (before up ++ ((inorder l ++ inorder r) ++ behind up))
          (erase_real x (node bm lm y leaf, path))
    erase_before =
        let fits = FitsAround-plug (node bm lm y leaf) path (subst IsAvl (sym same) avl) in
        let one =
          erase_one bm lm y leaf path lm (only_child-leaf lm) fits.0.0 (omega arith) fits.1
            absent_y in
        let list : map (renamed x y) (before path ++ (inorder lm ++ behind path))
            ≡ before up ++ ((inorder l ++ inorder r) ++ behind up) =
          ap (map (renamed x y)) (
            sym (append_assoc (before path) (inorder lm) (behind path))
            ∙ ap (λ t. front ++ t) behind_same)
          ∙ map-middle x y front rest absent_x.0 apart.1
          ∙ regroup in
        rw (erase_real_other bm lm x y leaf path absent_x.1)
          (Ordered-eq _ list (Ordered-replace x y _ _ one))
      where
        regroup : front ++ y ∷ rest ≡ before up ++ ((inorder l ++ inorder r) ++ behind up)
        regroup =
            let f : front ++ y ∷ rest ≡ (front ++ y ∷ []) ++ rest = simp append_assoc in
            f ∙ ap (λ t. t ++ rest) (sym order) ∙ simp append_assoc

inorder-leaf : (t : Tree) → inorder t ≡ inorder t ++ inorder {B = Balance} leaf
inorder-leaf t = unfold inorder in sym (append-nil (inorder t))

-- `avl_erase` at a node with the parents `up`, in an AVL tree in which no address stands twice, does
-- not abort: what it leaves is an AVL tree of the same addresses in the same order, without the one
-- of the node.
pub avl_erase-Ordered :
    (b : Balance) (l : Tree) (x : ℕ) (r : Tree) (up : Ancestors)
    → IsAvl (plug (node b l x r) up)
    → Distinct (inorder (plug (node b l x r) up))
    → Ordered (before up ++ ((inorder l ++ inorder r) ++ behind up)) (avl_erase (node b l x r) up)
unfolding avl_erase
avl_erase-Ordered b leaf x r up a d =
    erase_self b leaf x r up a d r (unfold only_child in refl)
      (FitsAround-plug (node b leaf x r) up a).0.1 (omega arith) (unfold inorder in refl)
avl_erase-Ordered b (node c ll y lr) x leaf up a d =
    erase_self b (node c ll y lr) x leaf up a d (node c ll y lr) (unfold only_child in refl)
      (FitsAround-plug (node b (node c ll y lr) x leaf) up a).0.0 (omega arith)
      (inorder-leaf (node c ll y lr))
avl_erase-Ordered b (node c ll y lr) x (node e rl z rr) up a d =
    let m = right_most_lem c ll y lr (from_left b x (node e rl z rr) ∷ up) in
    rw m.is (
      erase_before b (node c ll y lr) x (node e rl z rr) up a d m.b m.l m.y m.path
        (m.same ∙ unfold plug in refl) m.behind_same m.order)

-- ===== src/Rbtree/Search/Refine.antt =====
-- `rb_find` and `rb_insert` implement the dictionary of the keys.
use mathlib.Core.List.{append_assoc}
use libls.Prelude.{
  ℕ, ◌<◌, ◌≡◌, refl, sym, ap, subst, ◌∙◌, inl, inr, Option, none, some, List, [], ◌∷◌, ◌++◌,
  All-append, arith,
}
use Prim.Native.Nat.{Ordering, compare}
use libls.Rbtree.{Tree, leaf, node, from_left, from_right, Ancestors, rb_link_node, __rb_insert}
use libls.Links.{plug, inorder, before, behind, inorder-plug}
use libls.Rbtree.Shape.{IsRbTree}
use libls.Rbtree.Insert.{__rb_insert-RedBlack}
use libls.Rbtree.Search.{rb_find, Place, found, link, search, insert_at, rb_insert}
use libls.Rbtree.Search.Sorted.{
  Less, Greater, Sorted, find_key, insert_sorted, Sorted-middle, middle-Sorted,
  insert_sorted-middle, find_key-Greater, find_key-Less, find_key-before, Less-le, Greater-le,
  compare-cases,
}

module _ (key_of : ℕ → ℕ) where
  -- The sign of the callback that compares a key with that of a node.
  abbrev pub cmp : ℕ → ℕ → Ordering
  cmp key x = compare key (key_of x)

  -- What the insertion of an address does to the dictionary: the address that has its key already, or
  -- none, and the addresses then.
  abbrev pub insert_by : Option ℕ → ℕ → List ℕ → Option ℕ × List ℕ
  insert_by (some y) x xs = (some y, xs)
  insert_by none x xs = (none, insert_sorted key_of x xs)

  abbrev pub insert_key : ℕ → List ℕ → Option ℕ × List ℕ
  insert_key x xs = insert_by (find_key key_of (key_of x) xs) x xs

  -- `rb_find` gives the node with the key, or null where the tree has none.
  pub rb_find-find_key :
      (key : ℕ) (t : Tree)
      → Sorted key_of (inorder t)
      → rb_find (cmp key) t ≡ find_key key_of key (inorder t)
  unfolding rb_find inorder
  rb_find-find_key key leaf s = refl
  rb_find-find_key key (node c l x r) s =
      let (sl, a, b, sr) = Sorted-middle key_of (inorder l) x (inorder r) s in
      elim (compare-cases key (key_of x)) [
        | inl (h, e) ↦
            rw (e, rb_find)
              (rb_find-find_key key l sl
                ∙ sym (
                    find_key-before key_of key (inorder l) (x ∷ inorder r)
                      (h, Greater-le key_of key (key_of x) (inorder r) (omega arith) b)))
        | inr (inl (h, e)) ↦
            rw (e, rb_find)
              (sym (
                find_key-Less key_of key (inorder l) (x ∷ inorder r)
                  (Less-le key_of (key_of x) key (inorder l) (omega arith) a)
                ∙ ground (arith, h)))
        | inr (inr (h, e)) ↦
            rw (e, rb_find)
              (rb_find-find_key key r sr
                ∙ sym (
                    find_key-Less key_of key (inorder l) (x ∷ inorder r)
                      (Less-le key_of (key_of x) key (inorder l) (omega arith) a)
                    ∙ ground (arith, h)))
      ]

  -- Where the search for a key may end: in the node with it, or at the null link of its place.
  abbrev Reached : Tree → ℕ → Place → Type 0
  Reached whole key (found y) = find_key key_of key (inorder whole) ≡ some y
  Reached whole key (link up) =
      (plug leaf up ≡ whole) × Less key_of key (before up) × Greater key_of key (behind up)

  hit :
      (key : ℕ) (bs ls : List ℕ) (x : ℕ) (rs as' : List ℕ)
      → key ≡ key_of x
      → Less key_of key bs
      → Less key_of key ls
      → find_key key_of key (bs ++ ((ls ++ x ∷ rs) ++ as')) ≡ some x
  hit key bs ls x rs as' e a b =
      find_key-Less key_of key bs ((ls ++ x ∷ rs) ++ as') a
      ∙ ap (find_key key_of key) (append_assoc ls (x ∷ rs) as')
      ∙ find_key-Less key_of key ls (x ∷ (rs ++ as')) b
      ∙ ground (arith, e)

  search-Reached :
      (key : ℕ) (t : Tree) (up : Ancestors)
      → Sorted key_of (inorder t)
      → Less key_of key (before up)
      → Greater key_of key (behind up)
      → Reached (plug t up) key (search (cmp key) t up)
  unfolding search inorder plug
  search-Reached key leaf up s a b = (refl, a, b)
  search-Reached key (node c l x r) up s a b =
      let (sl, p, q, sr) = Sorted-middle key_of (inorder l) x (inorder r) s in
      elim (compare-cases key (key_of x)) [
        | inl (h, e) ↦
            rw (e, search)
              (search-Reached key l (from_left c x r ∷ up) sl a (
                h,
                All-append (λ z. key < key_of z) (inorder r) (behind up)
                    (Greater-le key_of key (key_of x) (inorder r) (omega arith) q) b,
              ))
        | inr (inl (h, e)) ↦
            rw (e, search)
              (ap (find_key key_of key) (inorder-plug (node c l x r) up)
                ∙ hit key (before up) (inorder l) x (inorder r) (behind up) h a
                    (Less-le key_of (key_of x) key (inorder l) (omega arith) p))
        | inr (inr (h, e)) ↦
            rw (e, search)
              (search-Reached key r (from_right c l x ∷ up) sr
                (All-append (λ z. key_of z < key) (before up) (inorder l ++ x ∷ []) a
                  (All-append (λ z. key_of z < key) (inorder l) (x ∷ [])
                    (Less-le key_of (key_of x) key (inorder l) (omega arith) p) (h, tt)))
                b)
      ]

  -- Where a node is returned, the tree is the one before, colours and links included.
  abbrev pub Unmoved : Tree → Option ℕ → Tree → Type 0
  Unmoved old none t = Unit
  Unmoved old (some y) t = t ≡ old

  -- A tree that stands for the dictionary `xs`, with what the operation on `old` returned.
  abbrev pub Refines : Tree → Option ℕ × List ℕ → Option ℕ × Option Tree → Type 0
  Refines old (out, xs) (got, r) =
      (got ≡ out)
      × ((t : Tree) × (r ≡ some t)
          × IsRbTree t
          × (inorder t ≡ xs)
          × Sorted key_of xs
          × Unmoved old out t)

  insert_key_found :
      (x y : ℕ) (xs : List ℕ)
      → find_key key_of (key_of x) xs ≡ some y
      → insert_key x xs ≡ (some y, xs)
  insert_key_found x y xs e = ap (λ o. insert_by o x xs) e

  insert_key_link :
      (x : ℕ) (bs as' : List ℕ)
      → Less key_of (key_of x) bs
      → Greater key_of (key_of x) as'
      → insert_key x (bs ++ as') ≡ (none, bs ++ x ∷ as')
  insert_key_link x bs as' a b =
      ap (λ o. insert_by o x (bs ++ as'))
        (find_key-Less key_of (key_of x) bs as' a ∙ find_key-Greater key_of (key_of x) as' b)
      ∙ ap (λ l. (none, l)) (insert_sorted-middle key_of bs x as' a b)

  insert_at-Refines :
      (x : ℕ) (t : Tree) (p : Place)
      → IsRbTree t
      → Sorted key_of (inorder t)
      → Reached t (key_of x) p
      → Refines t (insert_key x (inorder t)) (insert_at x t p)
  unfolding insert_at
  insert_at-Refines x t (found y) a s e =
      subst (λ w. Refines t w (some y, some t)) (sym (insert_key_found x y (inorder t) e))
        (refl, (t, refl, a, refl, s, refl))
  insert_at-Refines x t (link up) a s (e, p, q) =
      let ((u, run, b, o), front) = __rb_insert-RedBlack up x (subst IsRbTree (sym e) a) in
      let same = sym front ∙ ap inorder e in
      let sorted = subst (Sorted key_of) (sym same) s in
      subst (λ w. Refines t w (none, __rb_insert (rb_link_node x) up))
        (sym (insert_key_link x (before up) (behind up) p q) ∙ ap (insert_key x) same)
        (refl, (u, run, b, o, middle-Sorted key_of (before up) x (behind up) sorted p q, tt))

-- In a red-black tree in the order of distinct keys, `rb_insert` gives the node that has the key of the
-- new one and leaves the tree as it is, node by node; where there is none it returns null and leaves a red-black tree
-- with the new address at the place of its key, in the order of the keys.
pub rb_insert-Refines :
    (key_of : ℕ → ℕ) (x : ℕ) (t : Tree)
    → IsRbTree t
    → Sorted key_of (inorder t)
    → Refines key_of t (insert_key key_of x (inorder t)) (rb_insert (cmp key_of (key_of x)) x t)
unfolding rb_insert
rb_insert-Refines key_of x t a s =
    insert_at-Refines key_of x t (search (cmp key_of (key_of x)) t []) a s
      (unfold plug in search-Reached key_of (key_of x) t [] s tt tt)

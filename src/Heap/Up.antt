-- ===== src/Heap/Up.antt =====
-- The loop of `heap_pull_up`.
use libls.Prelude.{
  ℕ, zero, suc, ◌≤◌, ◌<◌, ◌≡◌, ◌≢◌, ◌↔◌, inl, inr, refl, sym, ap, subst, ◌∙◌, Bool, le_or_lt,
  Option, some, lt→ltb, le→ltb, true, false, arith,
}
use Prim.Native.Nat.{compare}
use libls.Heap.{Heap, Cmp, positive, read, heap_swap, parent, pull_up, ◌>>=◌}
use libls.Heap.Swap.{Indexed, Holds, swapped, heap_swap-swapped, swapped-Indexed, swapped-Holds}

pub read-inside : (h : Heap) (i : ℕ) → i < h.size → read h i ≡ some (h.node i)
unfolding read
read-inside h i b = rw (lt→ltb i h.size b) refl

module _ (key_of : ℕ → ℕ) where
  -- The sign of a callback that compares the keys of the nodes.
  abbrev pub by_key : Cmp
  by_key a b = compare (key_of a) (key_of b)

  -- The entry is not above its parent.
  abbrev pub Edge : Heap → ℕ → Type 0
  Edge h j = key_of (h.node j) ≤ key_of (h.node (parent j))

  abbrev pub HeapOrdered : ℕ → Heap → Type 0
  HeapOrdered n h = (j : ℕ) → 0 < j → j < n → Edge h j

  -- While an entry moves up: every edge but the one above it, and around it.
  abbrev pub UpOrdered : ℕ → Heap → ℕ → Type 0
  UpOrdered n h i =
      ((j : ℕ) → 0 < j → j < n → j ≢ i → Edge h j)
      × ((j : ℕ)
          → 0 < j
          → j < n
          → parent j ≡ i
          → 0 < i
          → key_of (h.node j) ≤ key_of (h.node (parent i)))

  module _ (h : Heap) (n x y i : ℕ) (ex : h.node i ≡ x) (ey : h.node (parent i) ≡ y) (pos : 0 < i)
      (bi : i < n) (up : UpOrdered n h i) (above : key_of y < key_of x) where
    up_edges : (j : ℕ) → 0 < j → j < n → j ≢ parent i → Edge (swapped h x y i (parent i)) j
    up_edges j pj bj ne = ground (arith, up.0 j, up.1 j)

    up_around :
        (j : ℕ)
        → 0 < j
        → j < n
        → parent j ≡ parent i
        → 0 < parent i
        → key_of ((swapped h x y i (parent i)).node j)
          ≤ key_of ((swapped h x y i (parent i)).node (parent (parent i)))
    up_around j pj bj e pp = ground (arith, up.0 j, up.0 (parent i))

  -- An operation on the first `n` entries that keeps the nodes, and leaves a heap in order.
  abbrev pub Arranged : ℕ → Heap → Option Heap → Type 0
  Arranged n h r =
      (g : Heap) × (r ≡ some g)
      × Indexed n g
      × HeapOrdered n g
      × ((z : ℕ) → Holds n h z ↔ Holds n g z)
      × (g.len ≡ h.len)
      × (g.size ≡ h.size)

  pub positive-le : (a b : ℕ) → key_of a ≤ key_of b → positive (by_key a b) ≡ false
  positive-le a b le = ground arith

  pub positive-lt : (a b : ℕ) → key_of b < key_of a → positive (by_key a b) ≡ true
  positive-lt a b gt = ground arith

  -- The three ways of a round.
  pull_up-root :
      (rounds : ℕ) (h : Heap) (x : ℕ) → h.idx x ≡ 0 → pull_up by_key (suc rounds) h x ≡ some h
  unfolding pull_up
  pull_up-root rounds h x e = rw (le→ltb 0 (h.idx x) (omega (arith, e)), pull_up) refl

  module _ (rounds : ℕ) (h : Heap) (x : ℕ) (pos : 0 < h.idx x) (bi : h.idx x < h.size) where
    abbrev rest : Bool → Option Heap
    rest false = some h
    rest true = heap_swap h x (h.node (parent (h.idx x))) >>= λ g. pull_up by_key rounds g x

    pull_up-head :
        pull_up by_key (suc rounds) h x ≡ rest (positive (by_key x (h.node (parent (h.idx x)))))
    unfolding pull_up
    pull_up-head =
        rw
          (
            lt→ltb 0 (h.idx x) (omega arith),
            read-inside h (parent (h.idx x)) (omega arith),
            pull_up,
          )
          refl

    pull_up-stop :
        key_of x ≤ key_of (h.node (parent (h.idx x))) → pull_up by_key (suc rounds) h x ≡ some h
    pull_up-stop le = pull_up-head ∙ ap rest (positive-le x (h.node (parent (h.idx x))) le)

    pull_up-go :
        h.idx (h.node (parent (h.idx x))) ≡ parent (h.idx x)
        → key_of (h.node (parent (h.idx x))) < key_of x
        → pull_up by_key (suc rounds) h x
          ≡ pull_up by_key rounds
              (swapped h x (h.node (parent (h.idx x))) (h.idx x) (parent (h.idx x)))
              x
    pull_up-go ey gt =
        pull_up-head
        ∙ ap rest (positive-lt x (h.node (parent (h.idx x))) gt)
        ∙ ap (λ r. r >>= λ g. pull_up by_key rounds g x)
            (heap_swap-swapped h x (h.node (parent (h.idx x))) (h.idx x) (parent (h.idx x)) refl ey
              bi (omega arith))

  pub swapped-Arranged :
      (h : Heap) (n x y i j : ℕ)
      → h.node i ≡ x
      → h.node j ≡ y
      → i < n
      → j < n
      → i ≢ j
      → Indexed n h
      → (r : Option Heap) → Arranged n (swapped h x y i j) r
      → Arranged n h r
  swapped-Arranged h n x y i j ex ey bi bj ne ok r (g, run, a, b, c, d, e) = (
    g,
    run,
    a,
    b,
    λ z. (
      λ p. (c z).0 ((swapped-Holds h n x y i j ex ey bi bj ne ok z).0 p),
      λ p. (swapped-Holds h n x y i j ex ey bi bj ne ok z).1 ((c z).1 p),
    ),
    d,
    e,
  )

  -- Every node that is above its parents goes up, by no more rounds than its index.
  pub pull_up-Arranged :
      (rounds : ℕ) (h : Heap) (n x : ℕ)
      → h.idx x < rounds
      → h.idx x < n
      → n ≤ h.size
      → h.node (h.idx x) ≡ x
      → Indexed n h
      → UpOrdered n h (h.idx x)
      → Arranged n h (pull_up by_key rounds h x)
  pull_up-Arranged zero h n x br bi bs ex ok up = absurd (omega arith)
  pull_up-Arranged (suc rounds) h n x br bi bs ex ok up = elim (le_or_lt (h.idx x) 0) [
    | inl e ↦
        subst (Arranged n h) (sym (pull_up-root rounds h x (omega arith))) (
          h,
          refl,
          ok,
          (λ j pj bj. up.0 j pj bj (omega arith)),
          (λ z. (λ a. a, λ a. a)),
          refl,
          refl,
        )
    | inr pos ↦ elim (le_or_lt (key_of x) (key_of (h.node (parent (h.idx x))))) [
      | inl le ↦ subst (Arranged n h) (sym (pull_up-stop rounds h x pos (omega arith) le)) (
        h,
        refl,
        ok,
        (λ j pj bj. ground (arith, up.0 j, ex, le)),
        (λ z. (λ a. a, λ a. a)),
        refl,
        refl,
      )
      | inr gt ↦
          let i = h.idx x in
          let y = h.node (parent (h.idx x)) in
          let ey = ok (parent (h.idx x)) (omega arith) in
          let g = swapped h x y i (parent i) in
          let gi : g.idx x ≡ parent i = ground (arith, ex, ey) in
          subst (Arranged n h) (sym (pull_up-go rounds h x pos (omega arith) ey gt)) (
            swapped-Arranged h n x y i (parent i) ex refl bi (omega arith) (omega arith) ok _ (
              pull_up-Arranged rounds g n x (omega (arith, gi)) (omega (arith, gi)) bs
                (ground (arith, gi))
                (swapped-Indexed h n x y i (parent i) ex refl bi (omega arith) (omega arith) ok)
                (subst (UpOrdered n g) (sym gi) (
                  up_edges h n x y i ex refl pos bi up gt,
                  up_around h n x y i ex refl pos bi up gt,
                ))))
    ]
  ]

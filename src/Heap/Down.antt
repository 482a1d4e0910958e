-- ===== src/Heap/Down.antt =====
-- The loop of `heap_push_down`.
use libls.Prelude.{
  ℕ, zero, suc, ◌+◌, ◌*◌, ◌^◌, ◌≤◌, ◌<◌, ◌≡◌, ◌≢◌, inl, inr, refl, sym, ap, subst, ◌∙◌, Bool,
  le_or_lt, Option, some, le→leb, lt→leb, ◌==◌, ne→==, ==_refl, true, false, arith,
}
use libls.Heap.{Heap, heap_swap, parent, child, greatest, push_down, ◌>>=◌}
use libls.Heap.Swap.{Indexed, swapped, heap_swap-swapped, swapped-Indexed}
use libls.Heap.Up.{by_key, Edge, Arranged, swapped-Arranged}
use libls.Heap.Pick.{Tops, greatest-Picked}

module _ (key_of : ℕ → ℕ) where
  -- While an entry moves down: every edge but those below it, and around it.
  abbrev pub DownOrdered : ℕ → Heap → ℕ → Type 0
  DownOrdered n h i =
      ((j : ℕ) → 0 < j → j < n → parent j ≢ i → Edge key_of h j)
      × ((j : ℕ)
          → 0 < j
          → j < n
          → parent j ≡ i
          → 0 < i
          → key_of (h.node j) ≤ key_of (h.node (parent i)))

  module _ (h : Heap) (n x y i k : ℕ) (ex : h.node i ≡ x) (ey : h.node k ≡ y) (pos : 0 < k)
      (ek : parent k ≡ i) (bk : k < n) (down : DownOrdered n h i) (above : key_of x < key_of y)
      (tops : Tops key_of n h i y) where
    down_edges : (j : ℕ) → 0 < j → j < n → parent j ≢ k → Edge key_of (swapped h x y i k) j
    down_edges j pj bj ne = ground (arith, down.0 j, down.1 k, tops j)

    down_around :
        (j : ℕ)
        → 0 < j
        → j < n
        → parent j ≡ k
        → 0 < k
        → key_of ((swapped h x y i k).node j) ≤ key_of ((swapped h x y i k).node (parent k))
    down_around j pj bj e pk = ground (arith, down.0 j)

  module _ (rounds : ℕ) (h : Heap) (x : ℕ) (bi : h.idx x < h.len) (small : h.len ≤ 2 ^ 31)
      (bs : h.len ≤ h.size) where
    push_down-leaf : h.len ≤ h.idx x * 2 + 1 → push_down (by_key key_of) (suc rounds) h x ≡ some h
    unfolding push_down
    push_down-leaf le =
        let e : child (h.idx x) ≡ h.idx x * 2 + 1 = omega arith in
        rw (e, le→leb h.len (h.idx x * 2 + 1) le, push_down) refl

    abbrev rest : ℕ → Bool → Option Heap
    rest m true = some h
    rest m false = heap_swap h x m >>= λ g. push_down (by_key key_of) rounds g x

    push_down-head :
        (m : ℕ)
        → h.idx x * 2 + 1 < h.len
        → greatest (by_key key_of) h x (h.idx x * 2 + 1) ≡ some m
        → push_down (by_key key_of) (suc rounds) h x ≡ rest m (m == x)
    unfolding push_down
    push_down-head m lt e =
        let c : child (h.idx x) ≡ h.idx x * 2 + 1 = omega arith in
        rw (c, lt→leb h.len (h.idx x * 2 + 1) lt, c, e, push_down) refl

    push_down-go :
        (m k : ℕ)
        → h.idx x * 2 + 1 < h.len
        → greatest (by_key key_of) h x (h.idx x * 2 + 1) ≡ some m
        → m ≢ x
        → h.idx m ≡ k
        → k < h.len
        → push_down (by_key key_of) (suc rounds) h x
          ≡ push_down (by_key key_of) rounds (swapped h x m (h.idx x) k) x
    push_down-go m k lt e ne ek bk =
        push_down-head m lt e
        ∙ ap (rest m) (ne→== m x ne)
        ∙ ap (λ r. r >>= λ g. push_down (by_key key_of) rounds g x)
            (heap_swap-swapped h x m (h.idx x) k refl ek (omega arith) (omega arith))

  -- A node that is below its children goes down, by no more rounds than the length.
  pub push_down-Arranged :
      (rounds : ℕ) (h : Heap) (x : ℕ)
      → h.len < h.idx x + rounds
      → h.idx x < h.len
      → h.len ≤ 2 ^ 31
      → h.len ≤ h.size
      → h.node (h.idx x) ≡ x
      → Indexed h.len h
      → DownOrdered h.len h (h.idx x)
      → Arranged key_of h.len h (push_down (by_key key_of) rounds h x)
  push_down-Arranged zero h x br bi small bs ex ok down = absurd (omega arith)
  push_down-Arranged (suc rounds) h x br bi small bs ex ok down =
      elim (le_or_lt h.len (h.idx x * 2 + 1)) [
        | inl le ↦
            subst (Arranged key_of h.len h) (sym (push_down-leaf rounds h x bi small bs le)) (
              h,
              refl,
              ok,
              (λ j pj bj. down.0 j pj bj (λ e. omega arith)),
              (λ z. (λ a. a, λ a. a)),
              refl,
              refl,
            )
        | inr lt ↦
            let (m, e, p) = greatest-Picked key_of h x (h.idx x) lt bs in
            elim p [
              | inl (same, tops) ↦
                  subst (Arranged key_of h.len h)
                    (sym (
                      push_down-head rounds h x bi small bs m lt e
                      ∙ ap (rest rounds h x bi small bs m)
                          (subst (λ a. (a == x) ≡ true) (sym same) (==_refl x))))
                    (
                      h,
                      refl,
                      ok,
                      (λ j pj bj. ground (arith, down.0 j, tops j pj bj, ex)),
                      (λ z. (λ a. a, λ a. a)),
                      refl,
                      refl,
                    )
              | inr (k, pk, ek, bk, em, gt, tops) ↦
                  let i = h.idx x in
                  let im : h.idx m ≡ k = ap h.idx (sym em) ∙ ok k bk in
                  let ne : i ≢ k = λ q. omega arith in
                  let g = swapped h x m i k in
                  let gi : g.idx x ≡ k = ground (arith, ex, im, em) in
                  subst (Arranged key_of h.len h)
                    (sym (
                      push_down-go rounds h x bi small bs m k lt e (λ q. omega (arith, ap key_of q))
                        im bk))
                    (swapped-Arranged key_of h h.len x m i k ex em bi bk ne ok _ (
                      push_down-Arranged rounds g x (omega (arith, gi)) (omega (arith, gi)) small bs
                        (ground (arith, gi)) (swapped-Indexed h h.len x m i k ex em bi bk ne ok)
                        (subst (DownOrdered h.len g) (sym gi) (
                          down_edges h h.len x m i k ex em pk ek bk down gt tops,
                          down_around h h.len x m i k ex em pk ek bk down gt tops,
                        ))))
            ]
      ]

-- ===== src/Heap/Swap.antt =====
-- The invariant of the array and its indices, and the swap of two nodes.
use libls.Prelude.{ℕ, ◌<◌, ◌≡◌, ◌≢◌, ◌↔◌, ap₂, some, lt→ltb, arith}
use libls.Heap.{Heap, update, write, heap_swap}

pub through : {P Q R : Type 0} → (P ↔ Q) → (Q ↔ R) → P ↔ R
through (a, b) (a', b') = (λ r. a' (a r), λ r. b (b' r))

pub over : {P Q R : Type 0} → (P ↔ Q) → (P ↔ R) → Q ↔ R
over (a, b) (a', b') = (λ q. a' (b q), λ r. a (b' r))

-- The first `n` entries of the array hold nodes that know their indices.
abbrev pub Indexed : ℕ → Heap → Type 0
Indexed n h = (i : ℕ) → i < n → h.idx (h.node i) ≡ i

-- The node is in one of the first `n` entries.
abbrev pub Holds : ℕ → Heap → ℕ → Type 0
Holds n h z = (h.idx z < n) × (h.node (h.idx z) ≡ z)

abbrev pub swapped : Heap → ℕ → ℕ → ℕ → ℕ → Heap
swapped h x y i j = record h {
  node = update (update h.node i y) j x;
  idx = update (update h.idx x j) y i;
}

pub heap_swap-swapped :
    (h : Heap) (x y i j : ℕ)
    → h.idx x ≡ i
    → h.idx y ≡ j
    → i < h.size
    → j < h.size
    → heap_swap h x y ≡ some (swapped h x y i j)
unfolding heap_swap write
heap_swap-swapped h x y i j ex ey bi bj =
    rw (lt→ltb (h.idx x) h.size (omega (arith, ex)), lt→ltb (h.idx y) h.size (omega (arith, ey)))
      (ap₂
        (λ a b.
          some (record h {
            node = update (update h.node a y) b x;
            idx = update (update h.idx x b) y a;
          }))
        ex ey)

-- Two different entries swapped.
module _ (h : Heap) (n x y i j : ℕ) (ex : h.node i ≡ x) (ey : h.node j ≡ y) (bi : i < n)
    (bj : j < n) (ne : i ≢ j) (ok : Indexed n h) where
  pub swapped-Indexed : Indexed n (swapped h x y i j)
  swapped-Indexed k bk = ground (arith, ok i bi, ok j bj, ok k bk)

  pub swapped-Holds : (z : ℕ) → Holds n h z ↔ Holds n (swapped h x y i j) z
  swapped-Holds z = ground (arith, ok i bi, ok j bj)

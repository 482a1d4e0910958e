-- ===== src/Heap/Adjust.antt =====
-- `heap_adjust` and `heap_top`.
use libls.Prelude.{
  ℕ, zero, suc, ◌^◌, ◌≤◌, ◌<◌, ◌≡◌, ◌≢◌, inl, inr, refl, sym, subst, le_or_lt, Option, none, some,
  lt→ltb, le→ltb, true, false, arith,
}
use libls.Heap.{Heap, negative, parent, heap_pull_up, heap_push_down, heap_adjust, heap_top}
use libls.Heap.Swap.{Indexed, Holds}
use libls.Heap.Up.{read-inside, by_key, Edge, HeapOrdered, UpOrdered, Arranged, pull_up-Arranged}
use libls.Heap.Down.{DownOrdered, push_down-Arranged}
use libls.Heap.Insert.{IsHeap}

module _ (key_of : ℕ → ℕ) where
  -- A heap in order but for the key of the entry `i`.
  abbrev pub Disturbed : Heap → ℕ → Type 0
  Disturbed h i =
      ((j : ℕ) → 0 < j → j < h.len → j ≢ i → parent j ≢ i → Edge key_of h j)
      × ((j : ℕ)
          → 0 < j
          → j < h.len
          → parent j ≡ i
          → 0 < i
          → key_of (h.node j) ≤ key_of (h.node (parent i)))

  negative-lt : (a b : ℕ) → key_of a < key_of b → negative (by_key key_of a b) ≡ true
  negative-lt a b lt = ground arith

  negative-le : (a b : ℕ) → key_of b ≤ key_of a → negative (by_key key_of a b) ≡ false
  negative-le a b le = ground arith

  module _ (h : Heap) (x : ℕ) (bi : h.idx x < h.len) (bs : h.len ≤ h.size)
      (ex : h.node (h.idx x) ≡ x) where
    adjust_root : h.idx x ≡ 0 → heap_adjust (by_key key_of) h x ≡ heap_push_down (by_key key_of) h x
    unfolding heap_adjust
    adjust_root e = rw (le→ltb 0 (h.idx x) (omega (arith, e)), heap_adjust) refl

    adjust_down :
        0 < h.idx x
        → key_of x < key_of (h.node (parent (h.idx x)))
        → heap_adjust (by_key key_of) h x ≡ heap_push_down (by_key key_of) h x
    unfolding heap_adjust
    adjust_down pos lt =
        rw
          (
            lt→ltb 0 (h.idx x) pos,
            read-inside h (parent (h.idx x)) (omega arith),
            heap_adjust,
            negative-lt x (h.node (parent (h.idx x))) lt,
          )
          refl

    adjust_up :
        0 < h.idx x
        → key_of (h.node (parent (h.idx x))) ≤ key_of x
        → heap_adjust (by_key key_of) h x ≡ heap_pull_up (by_key key_of) h x
    unfolding heap_adjust
    adjust_up pos le =
        rw
          (
            lt→ltb 0 (h.idx x) pos,
            read-inside h (parent (h.idx x)) (omega arith),
            heap_adjust,
            negative-le x (h.node (parent (h.idx x))) le,
          )
          refl

  push_down_whole :
      (h : Heap) (x : ℕ)
      → h.idx x < h.len
      → h.len ≤ 2 ^ 31
      → h.len ≤ h.size
      → h.node (h.idx x) ≡ x
      → Indexed h.len h
      → DownOrdered key_of h.len h (h.idx x)
      → Arranged key_of h.len h (heap_push_down (by_key key_of) h x)
  unfolding heap_push_down
  push_down_whole h x bi small bs ex ok down =
      push_down-Arranged key_of (suc h.len) h x (omega arith) bi small bs ex ok down

  pull_up_whole :
      (h : Heap) (x : ℕ)
      → h.idx x < h.len
      → h.len ≤ h.size
      → h.node (h.idx x) ≡ x
      → Indexed h.len h
      → UpOrdered key_of h.len h (h.idx x)
      → Arranged key_of h.len h (heap_pull_up (by_key key_of) h x)
  unfolding heap_pull_up
  pull_up_whole h x bi bs ex ok up =
      pull_up-Arranged key_of (suc (h.idx x)) h h.len x (omega arith) bi bs ex ok up

-- Where the key of one node of the heap has changed, up or down, `heap_adjust` ends, stores nothing
-- out of bounds, keeps the nodes and puts them in order again.
pub heap_adjust-Arranged :
    (key_of : ℕ → ℕ) (h : Heap) (x : ℕ)
    → h.idx x < h.len
    → h.len ≤ 2 ^ 31
    → h.len ≤ h.size
    → h.node (h.idx x) ≡ x
    → Indexed h.len h
    → Disturbed key_of h (h.idx x)
    → Arranged key_of h.len h (heap_adjust (by_key key_of) h x)
heap_adjust-Arranged key_of h x bi small bs ex ok d = elim (le_or_lt (h.idx x) 0) [
  | inl z ↦ subst (Arranged key_of h.len h) (sym (adjust_root key_of h x bi bs ex (omega arith))) (
      push_down_whole key_of h x bi small bs ex ok
        ((λ j pj bj ne. d.0 j pj bj (λ q. omega arith) ne), d.1))
  | inr pos ↦ elim (le_or_lt (key_of (h.node (parent (h.idx x)))) (key_of x)) [
    | inl le ↦ subst (Arranged key_of h.len h) (sym (adjust_up key_of h x bi bs ex pos le)) (
        pull_up_whole key_of h x bi bs ex ok
          ((λ j pj bj ne. ground (arith, d.0 j, d.1 j, ex, le)), d.1))
    | inr lt ↦ subst (Arranged key_of h.len h) (sym (adjust_down key_of h x bi bs ex pos lt)) (
        push_down_whole key_of h x bi small bs ex ok
          ((λ j pj bj ne. ground (arith, d.0 j, ex, lt)), d.1))
  ]
]

-- No entry is above the first.
below_top :
    (key_of : ℕ → ℕ) (h : Heap) (bound j : ℕ)
    → HeapOrdered key_of h.len h
    → j < bound
    → j < h.len
    → key_of (h.node j) ≤ key_of (h.node 0)
below_top key_of h zero j o bj b = absurd (omega arith)
below_top key_of h (suc bound) zero o bj b = omega arith
below_top key_of h (suc bound) (suc j) o bj b = omega (
  arith,
  o (suc j) (omega arith) b,
  below_top key_of h bound (parent (suc j)) o (omega arith) (omega arith),
)

-- A highest node of the heap, or null for none.
abbrev pub TopOf : (ℕ → ℕ) → Heap → Option ℕ → Type 0
TopOf key_of h none = h.len ≡ 0
TopOf key_of h (some t) = Holds h.len h t × ((z : ℕ) → Holds h.len h z → key_of z ≤ key_of t)

-- `heap_top` of a heap in order gives the null pointer exactly where the heap is empty, and else one of
-- its nodes that no other is above.
pub heap_top-TopOf :
    (key_of : ℕ → ℕ) (h : Heap)
    → IsHeap key_of h
    → (t : Option ℕ) × (heap_top h ≡ some t) × TopOf key_of h t
unfolding heap_top
heap_top-TopOf key_of h (bs, small, ok, o) = elim (le_or_lt h.len 0) [
  | inl z ↦ (none, rw (le→ltb 0 h.len z, heap_top) refl, omega arith)
  | inr pos ↦ (
    some (h.node 0),
    rw (lt→ltb 0 h.len pos, read-inside h 0 (omega arith), heap_top) refl,
    (
      ground (arith, ok 0 pos),
      λ z (b, e).
          subst (λ y. key_of y ≤ key_of (h.node 0)) e
            (below_top key_of h (suc (h.idx z)) (h.idx z) o (omega arith) b),
    ),
  )
]

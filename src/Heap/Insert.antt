-- ===== src/Heap/Insert.antt =====
-- `heap_insert`, `heap_adjust` and `heap_top`.
use libls.Prelude.{
  ℕ, suc, ◌+◌, ◌^◌, ◌≤◌, ◌<◌, ◌≡◌, ◌≢◌, ◌↔◌, ◌⊎◌, inl, inr, refl, sym, ap, subst, ◌∙◌, Bool,
  le_or_lt, Option, some, lt→ltb, le→ltb, ltb, ◌||◌, le→leb, lt→leb, true, false, arith,
}
use libls.Heap.{Heap, update, write, heap_pull_up, new_size, insert_last, heap_insert, ◌>>=◌}
use libls.Heap.Swap.{Indexed, Holds, over}
use libls.Heap.Up.{by_key, HeapOrdered, UpOrdered, Arranged, pull_up-Arranged}

module _ (key_of : ℕ → ℕ) where
  -- The array has room for its nodes, they know their indices, and none is above its parent.
  abbrev pub IsHeap : Heap → Type 0
  IsHeap h = (h.len ≤ h.size) × (h.len ≤ 2 ^ 31) × Indexed h.len h × HeapOrdered key_of h.len h

  -- The heap with the new entry at its end.
  module _ (h : Heap) (x size : ℕ) (heap : IsHeap h) (fresh : (i : ℕ) → i < h.len → h.node i ≢ x)
      (room : h.len < size) where
    abbrev extended : Heap
    extended = record {
      node = update h.node h.len x;
      idx = update h.idx x h.len;
      len = h.len + 1;
      size = size;
    }

    extended-Indexed : Indexed (h.len + 1) extended
    extended-Indexed i b = ground (arith, heap.2 i, fresh i)

    extended-UpOrdered : UpOrdered key_of (h.len + 1) extended h.len
    extended-UpOrdered =
        ((λ j pj bj ne. ground (arith, heap.3 j)), (λ j pj bj e pl. absurd (omega arith)))

    extended-Holds : (z : ℕ) → Holds (h.len + 1) extended z ↔ (Holds h.len h z ⊎ (z ≡ x))
    extended-Holds z = ground (arith, fresh (h.idx z))

    extended-Arranged :
        Arranged key_of (h.len + 1) extended (heap_pull_up (by_key key_of) extended x)
    unfolding heap_pull_up
    extended-Arranged =
        pull_up-Arranged key_of (suc (extended.idx x)) extended (h.len + 1) x (omega arith)
          (ground arith) (omega arith) (ground arith) extended-Indexed
          (subst (UpOrdered key_of (h.len + 1) extended) (ground arith) extended-UpOrdered)

  -- The node is inserted, or the heap is as it was.
  abbrev pub Inserted : Heap → ℕ → Bool → Heap → Type 0
  Inserted h x false g = g ≡ h
  Inserted h x true g =
      (g.len ≡ h.len + 1) × ((z : ℕ) → Holds g.len g z ↔ (Holds h.len h z ⊎ (z ≡ x)))

  put_at_end :
      (h : Heap) (x size : ℕ) (heap : IsHeap h) (fresh : (i : ℕ) → i < h.len → h.node i ≢ x)
      (room : h.len < size) (small : h.len < 2 ^ 31)
      → (g : Heap) × (heap_pull_up (by_key key_of) (extended h x size heap fresh room) x ≡ some g)
        × IsHeap g
        × Inserted h x true g
  put_at_end h x size heap fresh room small =
      let (g, run, a, b, c, l, s) = extended-Arranged h x size heap fresh room in
      let n : h.len + 1 ≡ g.len = sym l in
      (
        g,
        run,
        (
          omega (arith, l, s),
          omega (arith, l),
          subst (λ k. Indexed k g) n a,
          subst (λ k. HeapOrdered key_of k g) n b,
        ),
        (
          l,
          λ z.
              subst (λ k. Holds k g z ↔ (Holds h.len h z ⊎ (z ≡ x))) n
                (over (c z) (extended-Holds h x size heap fresh room z)),
        ),
      )

  abbrev at_end : Heap → ℕ → ℕ → Option (Bool × Heap)
  at_end h x size =
      heap_pull_up (by_key key_of)
        (record {
          node = update h.node h.len x;
          idx = update h.idx x h.len;
          len = h.len + 1;
          size = size;
        })
        x
      >>= λ up. some (true, up)

  -- The three ways of the call: there is an entry left, the array grows, or there is no memory.
  heap_insert-left :
      (room : Bool) (h : Heap) (x : ℕ)
      → h.len < h.size
      → heap_insert (by_key key_of) room h x ≡ at_end h x h.size
  unfolding heap_insert insert_last write
  heap_insert-left room h x lt =
      rw (lt→leb h.size h.len lt, heap_insert, lt→ltb h.len h.size lt) refl

  heap_insert-grown :
      (h : Heap) (x : ℕ)
      → h.size ≤ h.len
      → h.len < new_size h.size
      → heap_insert (by_key key_of) true h x ≡ at_end h x (new_size h.size)
  unfolding heap_insert insert_last write
  heap_insert-grown h x le lt =
      rw (le→leb h.size h.len le, heap_insert, lt→ltb h.len (new_size h.size) lt) refl

  heap_insert-full :
      (h : Heap) (x : ℕ) → h.size ≤ h.len → heap_insert (by_key key_of) false h x ≡ some (false, h)
  unfolding heap_insert
  heap_insert-full h x le = rw (le→leb h.size h.len le, heap_insert) refl

-- Inserting a new node into a heap of fewer than 2147483648 ends on every outcome of the allocation
-- and stores nothing out of bounds or through the null pointer. It returns 0 exactly where the array has an
-- entry left or the allocation finds memory, and the nodes are then those before and the new one; where it
-- returns -1 the heap is as it was. It is in order in both cases.
pub heap_insert-Inserted :
    (key_of : ℕ → ℕ) (room : Bool) (h : Heap) (x : ℕ)
    → IsHeap key_of h
    → ((i : ℕ) → i < h.len → h.node i ≢ x)
    → h.len < 2 ^ 31
    → (g : Heap) × (heap_insert (by_key key_of) room h x ≡ some (ltb h.len h.size || room, g))
      × IsHeap key_of g
      × Inserted key_of h x (ltb h.len h.size || room) g
heap_insert-Inserted key_of room h x heap fresh small = elim (le_or_lt h.size h.len) [
  | inr lt ↦
      let (g, run, a, b) = put_at_end key_of h x h.size heap fresh lt small in
      rw (lt→ltb h.len h.size lt)
        (g, heap_insert-left key_of room h x lt ∙ ap (λ r. r >>= λ up. some (true, up)) run, a, b)
  | inl le ↦ rw (le→ltb h.len h.size le) (grown room le)
]
  where
    grown :
        (room : Bool)
        → h.size ≤ h.len
        → (g : Heap) × (heap_insert (by_key key_of) room h x ≡ some (room, g))
          × IsHeap key_of g
          × Inserted key_of h x room g
    grown false le = (h, heap_insert-full key_of h x le, heap, refl)
    grown true le =
        let lt : h.len < new_size h.size = ground (arith, heap.0) in
        let (g, run, a, b) = put_at_end key_of h x (new_size h.size) heap fresh lt small in
        (g, heap_insert-grown key_of h x le lt ∙ ap (λ r. r >>= λ up. some (true, up)) run, a, b)

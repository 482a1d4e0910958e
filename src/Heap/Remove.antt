-- ===== src/Heap/Remove.antt =====
-- `heap_delete` as a whole: the heap without the node, in order again.
use libls.Prelude.{
  ℕ, suc, ◌+◌, ◌-◌, ◌≡◌, ◌≢◌, ◌↔◌, inl, inr, refl, sym, ap, subst, ◌∙◌, le_or_lt, Option, some,
  ◌==◌, Bool-cases, ==→eq, ==→ne, arith,
}
use libls.Heap.{Heap, move_up, put_last, heap_delete, ◌>>=◌}
use libls.Heap.Swap.{Indexed, Holds, over}
use libls.Heap.Up.{by_key, HeapOrdered}
use libls.Heap.Insert.{IsHeap}
use libls.Heap.Delete.{HoldsBut, FreeAt, AtLeaf, move_up-AtLeaf}
use libls.Heap.Fill.{Deleted, put_last-Deleted, delete_one, delete_last, delete_inner}

module _ (key_of : ℕ → ℕ) (h : Heap) (x : ℕ) (heap : IsHeap key_of h) (held : Holds h.len h x) where
  abbrev shorter : Heap
  shorter = record h { len = h.len - 1 }

  drop_last-Deleted : h.node (h.len - 1) ≡ x → Deleted key_of (h.len - 1) h x (some shorter)
  drop_last-Deleted e = (
    shorter,
    refl,
    (λ i b. heap.2 i (omega arith)),
    (λ j pj b. heap.3 j pj (omega arith)),
    (λ z. ground (arith, heap.2 (h.len - 1), e, held)),
    refl,
    refl,
  )

  FreeAt-node : FreeAt key_of (h.len - 1) shorter (h.idx x)
  FreeAt-node = (
    omega (arith, held.0),
    (λ i b ne. heap.2 i (omega (arith, held.0))),
    (λ j pj b ne ne'. heap.3 j pj (omega (arith, held.0))),
    λ j pj b e pos.
        ground (arith, heap.3 j pj (omega (arith, held.0)), heap.3 (h.idx x) pos held.0, e),
  )

  finish :
      (r : Option (Heap × ℕ × ℕ))
      → AtLeaf key_of (h.len - 1) (h.node (h.len - 1)) shorter (h.idx x) r
      → Deleted key_of (h.len - 1) h x (r >>= put_last (by_key key_of) (h.node (h.len - 1)))
  finish r (g, q, w, run, f, lf, l, m, el, es) =
      subst
        (λ s. Deleted key_of (h.len - 1) h x (s >>= put_last (by_key key_of) (h.node (h.len - 1))))
        (sym run)
        (put_last-Deleted key_of (h.len - 1) h x (h.node (h.len - 1)) g q w
          (omega (arith, es, heap.0, held.0)) f lf l m el es)

  inner-Deleted :
      h.node (h.len - 1) ≢ x
      → Deleted key_of (h.len - 1) h x (
          move_up (by_key key_of) (suc h.len) shorter (h.idx x) x
          >>= put_last (by_key key_of) (h.node (h.len - 1)))
  inner-Deleted ne = finish _ (
      move_up-AtLeaf key_of (suc h.len) shorter (h.node (h.len - 1)) (h.idx x) x (omega arith)
        (omega (arith, heap.0, held.0)) (omega (arith, heap.1, held.0)) FreeAt-node
        (inr ((λ e. ne (ap h.node (sym e) ∙ held.1)), refl, λ e. ne (sym e))))

  delete-Deleted : Deleted key_of (h.len - 1) h x (heap_delete (by_key key_of) h x)
  delete-Deleted = elim (le_or_lt h.len 1) [
    | inl le ↦
        subst (Deleted key_of (h.len - 1) h x) (sym (delete_one key_of h x (omega (arith, held.0))))
          (drop_last-Deleted (ap h.node (omega (arith, held.0)) ∙ held.1))
    | inr lt ↦ elim (Bool-cases (h.node (h.len - 1) == x)) [
      | inl e ↦
          let last = ==→eq (h.node (h.len - 1)) x e in
          subst (Deleted key_of (h.len - 1) h x) (sym (delete_last key_of h x lt heap.0 last))
            (drop_last-Deleted last)
      | inr e ↦
          let ne = ==→ne (h.node (h.len - 1)) x e in
          subst (Deleted key_of (h.len - 1) h x) (sym (delete_inner key_of h x lt heap.0 ne))
            (inner-Deleted ne)
    ]
  ]

  others : (z : ℕ) → HoldsBut (suc (h.len - 1)) (h.idx x) h z ↔ (Holds h.len h z × (z ≢ x))
  others z = ground (arith, held)

-- Deleting a node of the heap ends, stores nothing out of bounds, and leaves a heap in order of the
-- other nodes, which know their indices.
pub heap_delete-Deleted :
    (key_of : ℕ → ℕ) (h : Heap) (x : ℕ)
    → IsHeap key_of h
    → Holds h.len h x
    → (g : Heap) × (heap_delete (by_key key_of) h x ≡ some g)
      × IsHeap key_of g
      × (g.len + 1 ≡ h.len)
      × ((z : ℕ) → Holds g.len g z ↔ (Holds h.len h z × (z ≢ x)))
heap_delete-Deleted key_of h x heap held =
    from_Deleted (heap_delete (by_key key_of) h x) (delete-Deleted key_of h x heap held)
  where
    from_Deleted :
        (r : Option Heap)
        → Deleted key_of (h.len - 1) h x r
        → (g : Heap) × (r ≡ some g)
          × IsHeap key_of g
          × (g.len + 1 ≡ h.len)
          × ((z : ℕ) → Holds g.len g z ↔ (Holds h.len h z × (z ≢ x)))
    from_Deleted r (g, run, a, b, m, l, s) = (
      g,
      run,
      (
        omega (arith, l, s, heap.0),
        omega (arith, l, heap.1),
        subst (λ k. Indexed k g) (sym l) a,
        subst (λ k. HeapOrdered key_of k g) (sym l) b,
      ),
      omega (arith, l, held.0),
      λ z.
          subst (λ k. Holds k g z ↔ (Holds h.len h z × (z ≢ x))) (sym l)
            (over (m z) (others key_of h x heap held z)),
    )

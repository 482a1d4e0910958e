-- ===== src/Heap/Fill.antt =====
-- The end of `heap_delete`: the last node is put at the free leaf, and goes up from there.
use libls.Prelude.{
  ℕ, suc, ◌+◌, ◌*◌, ◌-◌, ◌≤◌, ◌<◌, ◌≡◌, ◌≢◌, ◌↔◌, inl, inr, refl, sym, subst, ◌∙◌, Option, some,
  lt→ltb, ◌==◌, ne→==, ==_refl, true, false, arith,
}
use libls.Heap.{
  Heap, update, read, write, move_up, put_last, pull_up, heap_pull_up, heap_delete, ◌>>=◌,
}
use libls.Heap.Swap.{Indexed, Holds, through}
use libls.Heap.Up.{by_key, HeapOrdered, UpOrdered, Arranged, pull_up-Arranged}
use libls.Heap.Delete.{HoldsBut, FreeAt, LastAt}

module _ (key_of : ℕ → ℕ) where
  -- A heap of `n` nodes, without `x`.
  abbrev pub Deleted : ℕ → Heap → ℕ → Option Heap → Type 0
  Deleted n h x r =
      (g : Heap) × (r ≡ some g)
      × Indexed n g
      × HeapOrdered key_of n g
      × ((z : ℕ) → HoldsBut (suc n) (h.idx x) h z ↔ Holds n g z)
      × (g.len ≡ n)
      × (g.size ≡ h.size)

  module _ (n : ℕ) (g : Heap) (last q : ℕ) (f : FreeAt key_of n g q) (leaf : n < q * 2 + 1)
      (ne : q ≢ n) (el : g.node n ≡ last) where
    abbrev filled : Heap
    filled = record g { node = update g.node q last; idx = update g.idx last q }

    filled-Indexed : Indexed n filled
    filled-Indexed i b = ground (arith, f.1 i, f.1 n, el)

    filled-UpOrdered : UpOrdered key_of n filled q
    filled-UpOrdered =
        ((λ j pj bj nq. ground (arith, f.2 j pj, leaf)), λ j pj bj e pos. absurd (omega arith))

    filled-Holds : (z : ℕ) → HoldsBut (suc n) q g z ↔ Holds n filled z
    filled-Holds z = ground (arith, f.0, f.1 n, el)

  put_last-moved :
      (g : Heap) (last q w : ℕ) → w ≡ last → put_last (by_key key_of) last (g, q, w) ≡ some g
  unfolding put_last
  put_last-moved g last q w e =
      let b : (w == last) ≡ true = subst (λ v. (v == last) ≡ true) (sym e) (==_refl last) in
      rw (b, put_last) refl

  put_last-put :
      (g : Heap) (last q w : ℕ)
      → w ≢ last
      → q < g.size
      → put_last (by_key key_of) last (g, q, w)
        ≡ pull_up
            (by_key key_of)
            (suc q)
            (record g { node = update g.node q last; idx = update g.idx last q })
            last
  unfolding put_last write heap_pull_up
  put_last-put g last q w ne b =
      rw (ne→== w last ne, lt→ltb q g.size b, put_last, ==_refl last) refl

  from_Arranged :
      (n : ℕ) (h : Heap) (x : ℕ) (k : Heap) (r : Option Heap)
      → ((z : ℕ) → HoldsBut (suc n) (h.idx x) h z ↔ Holds n k z)
      → k.len ≡ n
      → k.size ≡ h.size
      → Arranged key_of n k r
      → Deleted n h x r
  from_Arranged n h x k r m l s (u, run, a, b, c, lu, su) =
      (u, run, a, b, (λ z. through (m z) (c z)), lu ∙ l, su ∙ s)

  pub put_last-Deleted :
      (n : ℕ) (h : Heap) (x last : ℕ) (g : Heap) (q w : ℕ)
      → n < g.size
      → FreeAt key_of n g q
      → n < q * 2 + 1
      → LastAt key_of n last g q w
      → ((z : ℕ) → HoldsBut (suc n) (h.idx x) h z ↔ HoldsBut (suc n) q g z)
      → g.len ≡ n
      → g.size ≡ h.size
      → Deleted n h x (put_last (by_key key_of) last (g, q, w))
  put_last-Deleted n h x last g q w bs f lf (inl (e, ew)) m l s = (
    g,
    put_last-moved g last q w ew,
    (λ i b. f.1 i (omega arith) (omega arith)),
    (λ j pj b. f.2 j pj (omega arith) (omega arith) (omega arith)),
    (λ z. through (m z) (ground (arith, e))),
    l,
    s,
  )
  put_last-Deleted n h x last g q w bs f lf (inr (ne, el, nw)) m l s =
      let k = filled n g last q f lf ne el in
      let ki : k.idx last ≡ q = ground arith in
      subst (Deleted n h x) (sym (put_last-put g last q w nw (omega (arith, f.0)))) (
        from_Arranged n h x k _ (λ z. through (m z) (filled-Holds n g last q f lf ne el z)) l s
          (pull_up-Arranged key_of (suc q) k n last (omega (arith, ki)) (omega (arith, ki, f.0))
            (omega arith) (ground (arith, ki)) (filled-Indexed n g last q f lf ne el)
            (subst (UpOrdered key_of n k) (sym ki) (filled-UpOrdered n g last q f lf ne el))))

  -- The ways of the call.
  pub delete_one :
      (h : Heap) (x : ℕ)
      → h.len ≡ 1
      → heap_delete (by_key key_of) h x ≡ some (record h { len = h.len - 1 })
  unfolding heap_delete
  delete_one h x e =
      let z : ((h.len - 1) == 0) ≡ true = ground (arith, e) in rw (z, heap_delete) refl

  pub delete_last :
      (h : Heap) (x : ℕ)
      → 1 < h.len
      → h.len ≤ h.size
      → h.node (h.len - 1) ≡ x
      → heap_delete (by_key key_of) h x ≡ some (record h { len = h.len - 1 })
  unfolding heap_delete read
  delete_last h x lt bs e =
      let z : ((h.len - 1) == 0) ≡ false = ground arith in
      let b : (h.node (h.len - 1) == x) ≡ true =
        subst (λ v. (h.node (h.len - 1) == v) ≡ true) e (==_refl (h.node (h.len - 1))) in
      rw (z, lt→ltb (h.len - 1) h.size (omega arith), b, heap_delete) refl

  pub delete_inner :
      (h : Heap) (x : ℕ)
      → 1 < h.len
      → h.len ≤ h.size
      → h.node (h.len - 1) ≢ x
      → heap_delete (by_key key_of) h x ≡ (
          move_up (by_key key_of) (suc h.len) (record h { len = h.len - 1 }) (h.idx x) x
          >>= put_last (by_key key_of) (h.node (h.len - 1)))
  unfolding heap_delete read
  delete_inner h x lt bs ne =
      let z : ((h.len - 1) == 0) ≡ false = ground arith in
      rw (z, lt→ltb (h.len - 1) h.size (omega arith), ne→== (h.node (h.len - 1)) x ne, heap_delete)
        refl

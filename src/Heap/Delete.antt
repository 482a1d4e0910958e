-- ===== src/Heap/Delete.antt =====
-- `heap_delete`: the free index goes down to a leaf, where the last node is put.
use libls.Prelude.{
  ℕ, zero, suc, ◌+◌, ◌*◌, ◌^◌, ◌≤◌, ◌<◌, ◌≡◌, ◌≢◌, ◌↔◌, ◌⊎◌, inl, inr, refl, sym, ap, subst, ◌∙◌,
  le_or_lt, Option, some, leb, lt→ltb, le→ltb, le→leb, lt→leb, if◌then◌else◌, arith,
}
use libls.Heap.{Heap, update, positive, write, parent, child, right_or, move_up}
use libls.Heap.Swap.{through}
use libls.Heap.Up.{read-inside, by_key, Edge, positive-le, positive-lt}

-- The node is in one of the first `m` entries other than `p`.
abbrev pub HoldsBut : ℕ → ℕ → Heap → ℕ → Type 0
HoldsBut m p h z = (h.idx z < m) × (h.idx z ≢ p) × (h.node (h.idx z) ≡ z)

module _ (key_of : ℕ → ℕ) where
  -- The entries up to the index `n`, the length by now, where the index `p` is free.
  abbrev pub FreeAt : ℕ → Heap → ℕ → Type 0
  FreeAt n h p =
      (p ≤ n)
      × ((i : ℕ) → i ≤ n → i ≢ p → h.idx (h.node i) ≡ i)
      × ((j : ℕ) → 0 < j → j ≤ n → j ≢ p → parent j ≢ p → Edge key_of h j)
      × ((j : ℕ)
          → 0 < j
          → j ≤ n
          → parent j ≡ p
          → 0 < p
          → key_of (h.node j) ≤ key_of (h.node (parent p)))

  -- The greater child.
  abbrev Chosen : ℕ → Heap → ℕ → ℕ → Type 0
  Chosen n h p y =
      (k : ℕ) × (0 < k)
      × (parent k ≡ p)
      × (k ≤ n)
      × (h.node k ≡ y)
      × ((j : ℕ) → 0 < j → j ≤ n → parent j ≡ p → key_of (h.node j) ≤ key_of y)

  choose-Chosen :
      (n : ℕ) (h : Heap) (p : ℕ)
      → p * 2 + 1 ≤ n
      → n < h.size
      → (y : ℕ) × (right_or (by_key key_of) h (leb (p * 2 + 2) n) (p * 2 + 2) (h.node (p * 2 + 1))
          ≡ some y)
        × Chosen n h p y
  unfolding right_or
  choose-Chosen n h p b bs = elim (le_or_lt (p * 2 + 2) n) [
    | inr lt ↦ rw (lt→leb (p * 2 + 2) n lt) (
      _,
      refl,
      (
        p * 2 + 1,
        omega arith,
        omega arith,
        b,
        refl,
        λ j pj bj e. ground (arith, first j pj (omega arith) e),
      ),
    )
    | inl le ↦
        rw (le→leb (p * 2 + 2) n le, right_or, read-inside h (p * 2 + 2) (omega arith))
          (_, refl, greater le)
  ]
    where
      first : (j : ℕ) → 0 < j → j < p * 2 + 2 → parent j ≡ p → j ≡ p * 2 + 1
      first j pj bj e = omega arith

      either : (j : ℕ) → 0 < j → parent j ≡ p → (j ≡ p * 2 + 1) ⊎ (j ≡ p * 2 + 2)
      either j pj e = ground arith

      greater :
          p * 2 + 2 ≤ n
          → Chosen n h p (
              if positive (by_key key_of (h.node (p * 2 + 2)) (h.node (p * 2 + 1)))
              then h.node (p * 2 + 2)
              else h.node (p * 2 + 1))
      greater le = elim (le_or_lt (key_of (h.node (p * 2 + 2))) (key_of (h.node (p * 2 + 1)))) [
        | inl q ↦ rw (positive-le key_of (h.node (p * 2 + 2)) (h.node (p * 2 + 1)) q) (
          p * 2 + 1,
          omega arith,
          omega arith,
          b,
          refl,
          λ j pj bj e. ground (arith, either j pj e, q),
        )
        | inr q ↦ rw (positive-lt key_of (h.node (p * 2 + 2)) (h.node (p * 2 + 1)) q) (
          p * 2 + 2,
          omega arith,
          omega arith,
          le,
          refl,
          λ j pj bj e. ground (arith, either j pj e, q),
        )
      ]

  -- The child moves up, and its index is free.
  module _ (n : ℕ) (h : Heap) (p y k : ℕ) (f : FreeAt n h p) (pk : 0 < k) (ek : parent k ≡ p)
      (bk : k ≤ n) (ey : h.node k ≡ y)
      (tops : (j : ℕ) → 0 < j → j ≤ n → parent j ≡ p → key_of (h.node j) ≤ key_of y) where
    abbrev moved : Heap
    moved = record h { node = update h.node p y; idx = update h.idx y p }

    moved-FreeAt : FreeAt n moved k
    moved-FreeAt = (
      bk,
      (λ i bi ne. ground (arith, f.1 i bi, f.1 k bk)),
      (λ j pj bj ne ne'. ground (arith, f.2 j pj bj, f.3 k pk bk, tops j pj bj)),
      λ j pj bj e pos. ground (arith, f.2 j pj bj),
    )

    moved-Holds : (z : ℕ) → HoldsBut (suc n) p h z ↔ HoldsBut (suc n) k moved z
    moved-Holds z = ground (arith, f.0, f.1 k bk)

  -- The last node has moved up, or it is still behind the end.
  abbrev pub LastAt : ℕ → ℕ → Heap → ℕ → ℕ → Type 0
  LastAt n last h p x = ((p ≡ n) × (x ≡ last)) ⊎ ((p ≢ n) × (h.node n ≡ last) × (x ≢ last))

  -- Where the loop ends: at a leaf.
  abbrev pub AtLeaf : ℕ → ℕ → Heap → ℕ → Option (Heap × ℕ × ℕ) → Type 0
  AtLeaf n last h p r =
      (g : Heap) × (q : ℕ) × (w : ℕ) × (r ≡ some (g, q, w))
      × FreeAt n g q
      × (n < q * 2 + 1)
      × LastAt n last g q w
      × ((z : ℕ) → HoldsBut (suc n) p h z ↔ HoldsBut (suc n) q g z)
      × (g.len ≡ h.len)
      × (g.size ≡ h.size)

  move_up-stop :
      (rounds : ℕ) (h : Heap) (p x : ℕ)
      → h.len < child p
      → move_up (by_key key_of) (suc rounds) h p x ≡ some (h, p, x)
  unfolding move_up
  move_up-stop rounds h p x lt = rw (lt→ltb h.len (child p) lt, move_up) refl

  move_up-go :
      (rounds : ℕ) (h : Heap) (p x y k : ℕ)
      → child p ≡ p * 2 + 1
      → p * 2 + 1 ≤ h.len
      → h.len < h.size
      → right_or (by_key key_of) h (leb (p * 2 + 2) h.len) (p * 2 + 2) (h.node (p * 2 + 1)) ≡ some y
      → h.idx y ≡ k
      → move_up (by_key key_of) (suc rounds) h p x
        ≡ move_up
            (by_key key_of)
            rounds
            (record h { node = update h.node p y; idx = update h.idx y p })
            k
            y
  unfolding move_up write
  move_up-go rounds h p x y k c le bs e ek =
      let two : p * 2 + 1 + 1 ≡ p * 2 + 2 = omega arith in
      rw
        (
          c,
          le→ltb h.len (p * 2 + 1) le,
          c,
          read-inside h (p * 2 + 1) (omega arith),
          two,
          e,
          lt→ltb p h.size (omega arith),
          move_up,
        )
        (ap
          (λ q.
            move_up (by_key key_of) rounds
              (record h { node = update h.node p y; idx = update h.idx y p }) q y)
          ek)

  moved-LastAt :
      (n : ℕ) (h : Heap) (last p x y k : ℕ)
      → FreeAt n h p
      → p < n
      → parent k ≡ p
      → 0 < k
      → k ≤ n
      → h.node k ≡ y
      → LastAt n last h p x
      → LastAt n last (record h { node = update h.node p y; idx = update h.idx y p }) k y
  moved-LastAt n h last p x y k f lt ek pk bk ey (inl (e, ex)) = absurd (omega (arith, e))
  moved-LastAt n h last p x y k f lt ek pk bk ey (inr (ne, el, nx)) = elim (le_or_lt n k) [
    | inl le ↦ let kn : k ≡ n = omega arith in inl (kn, sym ey ∙ ap h.node kn ∙ el)
    | inr kn ↦ inr (
      omega arith,
      ground (arith, el),
      λ e. omega (
        arith,
        f.1 n (omega arith) (omega arith),
        f.1 k bk (omega arith),
        ap h.idx (ey ∙ e ∙ sym el),
      ),
    )
  ]

  -- The loop ends within as many rounds as there are indices behind the free one.
  pub move_up-AtLeaf :
      (rounds : ℕ) (h : Heap) (last p x : ℕ)
      → h.len < p + rounds
      → h.len < h.size
      → h.len < 2 ^ 31
      → FreeAt h.len h p
      → LastAt h.len last h p x
      → AtLeaf h.len last h p (move_up (by_key key_of) rounds h p x)
  move_up-AtLeaf zero h last p x br bs small f l = absurd (omega (arith, f.0))
  move_up-AtLeaf (suc rounds) h last p x br bs small f l =
      let c : child p ≡ p * 2 + 1 = omega (arith, f.0) in
      elim (le_or_lt (p * 2 + 1) h.len) [
        | inr lt ↦
            subst (AtLeaf h.len last h p) (sym (move_up-stop rounds h p x (omega (arith, c))))
              (h, p, x, refl, f, lt, l, (λ z. (λ a. a, λ a. a)), refl, refl)
        | inl le ↦
            let (y, e, (k, pk, ek, bk, ey, tops)) = choose-Chosen h.len h p le bs in
            let ok = f.1 k bk (λ q. omega arith) in
            let iy : h.idx y ≡ k = ap h.idx (sym ey) ∙ ok in
            let g = record h { node = update h.node p y; idx = update h.idx y p } in
            let (g', q, w, run, a, b, d, m, u, v) =
              move_up-AtLeaf rounds g last k y (omega arith) bs small
                (moved-FreeAt h.len h p y k f pk ek bk ey tops)
                (moved-LastAt h.len h last p x y k f (omega arith) ek pk bk ey l) in
            (
              g',
              q,
              w,
              move_up-go rounds h p x y k c le bs e iy ∙ run,
              a,
              b,
              d,
              (λ z. through (moved-Holds h.len h p y k f pk ek bk ey tops z) (m z)),
              u,
              v,
            )
      ]

-- ===== src/Heap/Pick.antt =====
-- The choice of the greatest child in `heap_push_down`.
use libls.Prelude.{
  ℕ, ◌+◌, ◌*◌, ◌≤◌, ◌<◌, ◌≡◌, ◌⊎◌, inl, inr, refl, sym, subst, le_or_lt, some, ltb, lt→ltb, le→ltb,
  if◌then◌else◌, arith,
}
use libls.Heap.{Heap, positive, parent, right_or, greatest}
use libls.Heap.Up.{read-inside, by_key, positive-le, positive-lt}

module _ (key_of : ℕ → ℕ) where
  -- No child is above `m`.
  abbrev pub Tops : ℕ → Heap → ℕ → ℕ → Type 0
  Tops n h i m = (j : ℕ) → 0 < j → j < n → parent j ≡ i → key_of (h.node j) ≤ key_of m

  -- What `max` is: the node where it is above its children, or the greatest of them.
  abbrev pub Picked : ℕ → Heap → ℕ → ℕ → ℕ → Type 0
  Picked n h x i m =
      ((m ≡ x) × Tops n h i x)
      ⊎ ((k : ℕ) × (0 < k)
          × (parent k ≡ i)
          × (k < n)
          × (h.node k ≡ m)
          × (key_of x < key_of m)
          × Tops n h i m)

  Picked-Tops : (n : ℕ) (h : Heap) (x i m : ℕ) → Picked n h x i m → Tops n h i m
  Picked-Tops n h x i m (inl (e, t)) = subst (Tops n h i) (sym e) t
  Picked-Tops n h x i m (inr (k, p, ek, b, e, gt, t)) = t

  -- The first child alone.
  first_Picked :
      (h : Heap) (x i : ℕ)
      → Picked
          (i * 2 + 2)
          h
          x
          i
          (if positive (by_key key_of (h.node (i * 2 + 1)) x) then h.node (i * 2 + 1) else x)
  first_Picked h x i = elim (le_or_lt (key_of (h.node (i * 2 + 1))) (key_of x)) [
    | inl le ↦
        rw (positive-le key_of (h.node (i * 2 + 1)) x le)
          (inl (refl, λ j pj bj e. ground (arith, only j pj bj e)))
    | inr gt ↦ rw (positive-lt key_of (h.node (i * 2 + 1)) x gt) (
        inr (
          i * 2 + 1,
          omega arith,
          omega arith,
          omega arith,
          refl,
          gt,
          λ j pj bj e. ground (arith, only j pj bj e),
        ))
  ]
    where
      only : (j : ℕ) → 0 < j → j < i * 2 + 2 → parent j ≡ i → j ≡ i * 2 + 1
      only j pj bj e = omega arith

  -- With the second child.
  second_Picked :
      (h : Heap) (x i m : ℕ)
      → Picked (i * 2 + 2) h x i m
      → i * 2 + 2 < h.len
      → Picked h.len h x i
          (if positive (by_key key_of (h.node (i * 2 + 2)) m) then h.node (i * 2 + 2) else m)
  second_Picked h x i m p b = elim (le_or_lt (key_of (h.node (i * 2 + 2))) (key_of m)) [
    | inl le ↦ rw (positive-le key_of (h.node (i * 2 + 2)) m le) (kept le p)
    | inr gt ↦ rw (positive-lt key_of (h.node (i * 2 + 2)) m gt) (
        inr (
          i * 2 + 2,
          omega arith,
          omega arith,
          omega arith,
          refl,
          higher gt p,
          λ j pj bj e. ground (arith, only j pj bj e, Picked-Tops (i * 2 + 2) h x i m p j pj),
        ))
  ]
    where
      only : (j : ℕ) → 0 < j → j < h.len → parent j ≡ i → (j < i * 2 + 2) ⊎ (j ≡ i * 2 + 2)
      only j pj bj e = ground arith

      kept :
          key_of (h.node (i * 2 + 2)) ≤ key_of m → Picked (i * 2 + 2) h x i m → Picked h.len h x i m
      kept le (inl (e, t)) = inl (e, λ j pj bj ej. ground (arith, only j pj bj ej, t j pj, e, le))
      kept le (inr (k, pk, ek, bk, e, gt, t)) =
          inr (
            k,
            pk,
            ek,
            omega arith,
            e,
            gt,
            λ j pj bj ej. ground (arith, only j pj bj ej, t j pj, le),
          )

      higher :
          key_of m < key_of (h.node (i * 2 + 2))
          → Picked (i * 2 + 2) h x i m
          → key_of x < key_of (h.node (i * 2 + 2))
      higher gt (inl (e, t)) = ground (arith, e)
      higher gt (inr (k, pk, ek, bk, e, g, t)) = omega arith

  right_or-Picked :
      (h : Heap) (x i m : ℕ)
      → Picked (i * 2 + 2) h x i m
      → i * 2 + 1 < h.len
      → h.len ≤ h.size
      → (m' : ℕ) × (right_or (by_key key_of) h (ltb (i * 2 + 2) h.len) (i * 2 + 2) m ≡ some m')
        × Picked h.len h x i m'
  unfolding right_or
  right_or-Picked h x i m p b bs = elim (le_or_lt h.len (i * 2 + 2)) [
    | inl le ↦
        rw (le→ltb (i * 2 + 2) h.len le) (m, refl, subst (λ n. Picked n h x i m) (omega arith) p)
    | inr lt ↦
        rw (lt→ltb (i * 2 + 2) h.len lt, right_or, read-inside h (i * 2 + 2) (omega arith))
          (_, refl, second_Picked h x i m p lt)
  ]

  pub greatest-Picked :
      (h : Heap) (x i : ℕ)
      → i * 2 + 1 < h.len
      → h.len ≤ h.size
      → (m : ℕ) × (greatest (by_key key_of) h x (i * 2 + 1) ≡ some m) × Picked h.len h x i m
  unfolding greatest
  greatest-Picked h x i b bs =
      let two : i * 2 + 1 + 1 ≡ i * 2 + 2 = omega arith in
      rw (greatest, read-inside h (i * 2 + 1) (omega arith), two)
        (right_or-Picked h x i _ (first_Picked h x i) b bs)

-- ===== src/Bitmap/Area.antt =====
-- `bitmap_find_next_zero_area`.
use mathlib.Core.Bool.{not}
use libls.Prelude.{
  ℕ, zero, suc, ◌+◌, ◌-◌, ◌*◌, ◌%◌, ◌^◌, ◌<◌, ◌≤◌, ◌≡◌, refl, ap, ◌∙◌, true, false, some, List,
  length, All, min, lt→ltb, le→ltb, le_or_lt, arith, inl, inr, ◌⊎◌,
}
use libls.Bitops.{IsWord, find_next_bit, find_next_zero_bit}
use libls.Bitops.Word.{IsFirst}
use libls.Bitops.First.{bit_at}
use libls.Bitops.Next.{find_next_bit-FindsFirst}
use libls.Bitops.Zero.{find_next_zero_bit-FindsFirst}
use libls.Bitmap.Align.{Aligned, AlignsUp, align_mask-AlignsUp}
use libls.Bitmap.{align_mask, zero_area, bitmap_find_next_zero_area, ◌>>=◌}

-- An aligned index inside the bitmap, from which on `nr` bits are clear.
abbrev pub FreeArea : List ℕ → ℕ → ℕ → ℕ → ℕ → Type 0
FreeArea map size nr a q =
    Aligned a q × (q + nr ≤ size) × ((i : ℕ) → q ≤ i → i < q + nr → bit_at map i ≡ false)

-- The least such index from `start` on, or a number above the size where there is none.
abbrev pub FoundArea : List ℕ → ℕ → ℕ → ℕ → ℕ → ℕ → Type 0
FoundArea map size nr a start r =
    ((start ≤ r)
      × FreeArea map size nr a r
      × ((q : ℕ) → start ≤ q → FreeArea map size nr a q → r ≤ q))
    ⊎ ((size < r) × ((q : ℕ) → start ≤ q → ¬ FreeArea map size nr a q))

module _ (map : List ℕ) (size nr a : ℕ) (am : All IsWord map) (long : size ≤ 64 * length map)
    (more : 0 < nr) (fits : size + 2 ^ a + nr ≤ 2 ^ 64) where
  -- No free area lies before the aligned index.
  reach :
      (start first index q : ℕ)
      → IsFirst (λ k. not (bit_at map k)) (min start size) size first
      → AlignsUp a first index
      → start ≤ q
      → FreeArea map size nr a q
      → index ≤ q
  reach start first index q f up le (al, inside, clear) = elim (le_or_lt first q) [
    | inl behind ↦ up.least q behind al
    | inr before ↦
        let taken = f.none_before q (ground arith) before in
        absurd (ground (arith, taken, clear q (omega arith) (omega (arith, more))))
  ]

  -- None lies across a set bit.
  skip :
      (index i q : ℕ)
      → bit_at map i ≡ true
      → index ≤ i
      → i < index + nr
      → index ≤ q
      → FreeArea map size nr a q
      → i + 1 ≤ q
  skip index i q taken le lt from (al, inside, clear) = elim (le_or_lt q i) [
    | inl before ↦ absurd (ground (arith, taken, clear i before (omega arith)))
    | inr behind ↦ omega arith
  ]

  later :
      (start next r : ℕ)
      → start ≤ next
      → ((q : ℕ) → start ≤ q → FreeArea map size nr a q → next ≤ q)
      → FoundArea map size nr a next r
      → FoundArea map size nr a start r
  later start next r le none (inl (above, free, least)) =
      inl (omega arith, free, λ q h f. least q (none q h f) f)
  later start next r le none (inr (above, free)) = inr (above, λ q h f. free q (none q h f) f)

  -- A round, where the first clear bit and the first set bit behind it are known.
  ends :
      (rounds start first index : ℕ)
      → find_next_zero_bit map size start ≡ some first
      → align_mask first (2 ^ a - 1) ≡ index
      → index + nr < 2 ^ 64
      → size < index + nr
      → zero_area (suc rounds) map size nr (2 ^ a - 1) start ≡ some (index + nr)
  unfolding zero_area
  ends rounds start first index run e small behind =
      let no_wrap : (index + nr) % 2 ^ 64 ≡ index + nr = omega (arith, small) in
      rw (zero_area, run, ◌>>=◌, e, no_wrap, lt→ltb size (index + nr) behind, e, no_wrap) refl

  again :
      (rounds start first index i : ℕ)
      → find_next_zero_bit map size start ≡ some first
      → align_mask first (2 ^ a - 1) ≡ index
      → index + nr < 2 ^ 64
      → index + nr ≤ size
      → find_next_bit map (index + nr) index ≡ some i
      → i < index + nr
      → zero_area (suc rounds) map size nr (2 ^ a - 1) start
        ≡ zero_area rounds map size nr (2 ^ a - 1) (i + 1)
  unfolding zero_area
  again rounds start first index i run e small inside seek h =
      let no_wrap : (index + nr) % 2 ^ 64 ≡ index + nr = omega (arith, small) in
      rw
        (
          zero_area,
          run,
          ◌>>=◌,
          e,
          no_wrap,
          le→ltb size (index + nr) inside,
          e,
          no_wrap,
          seek,
          ◌>>=◌,
          lt→ltb i (index + nr) h,
        )
        refl

  found :
      (rounds start first index i : ℕ)
      → find_next_zero_bit map size start ≡ some first
      → align_mask first (2 ^ a - 1) ≡ index
      → index + nr < 2 ^ 64
      → index + nr ≤ size
      → find_next_bit map (index + nr) index ≡ some i
      → index + nr ≤ i
      → zero_area (suc rounds) map size nr (2 ^ a - 1) start ≡ some index
  unfolding zero_area
  found rounds start first index i run e small inside seek h =
      let no_wrap : (index + nr) % 2 ^ 64 ≡ index + nr = omega (arith, small) in
      rw
        (
          zero_area,
          run,
          ◌>>=◌,
          e,
          no_wrap,
          le→ltb size (index + nr) inside,
          e,
          no_wrap,
          seek,
          ◌>>=◌,
          le→ltb i (index + nr) h,
        )
        (ap some e)

  -- The indices that the round reaches, none of them above the words' range.
  first-le :
      (start first : ℕ)
      → IsFirst (λ k. not (bit_at map k)) (min start size) size first
      → first ≤ size
  first-le start first f = elim f.stop [ inl e ↦ omega (arith, e) | inr lt ↦ omega (arith, lt.0) ]

  -- One round, where the rounds behind it find what they should.
  round :
      (rounds start : ℕ)
      → ((s : ℕ)
          → start < s
          → s ≤ size
          → (r : ℕ) × (zero_area rounds map size nr (2 ^ a - 1) s ≡ some r)
            × FoundArea map size nr a s r)
      → (r : ℕ) × (zero_area (suc rounds) map size nr (2 ^ a - 1) start ≡ some r)
        × FoundArea map size nr a start r
  round rounds start rest =
      let (first, run, f) = find_next_zero_bit-FindsFirst map size start am long in
      let below = first-le start first f in
      let index = align_mask first (2 ^ a - 1) in
      let up : AlignsUp a first index = align_mask-AlignsUp a first (omega (arith, below, fits)) in
      let small : index + nr < 2 ^ 64 = omega (arith, below, fits, up.near) in
      elim (le_or_lt (index + nr) size) [
        | inr behind ↦ (
          index + nr,
          ends rounds start first index run refl small behind,
          inr (
            behind,
            λ q h free.
                absurd (omega (arith, behind, reach start first index q f up h free, free.1)),
          ),
        )
        | inl inside ↦
            let (i, seek, g) =
              find_next_bit-FindsFirst map (index + nr) index am (omega (arith, long, inside)) in
            let at_index : min index (index + nr) ≡ index = omega arith in
            let from : start ≤ first = ground (arith, f.above, up.above, inside, more) in
            elim (le_or_lt (index + nr) i) [
              | inl clear ↦ (
                index,
                found rounds start first index i run refl small inside seek clear,
                inl (
                  omega (arith, from, up.above),
                  (
                    up.aligned,
                    inside,
                    λ k lo hi. g.none_before k (omega (arith, lo)) (omega (arith, hi, clear)),
                  ),
                  λ q h free. reach start first index q f up h free,
                ),
              )
              | inr taken ↦
                  let set : bit_at map i ≡ true = elim g.stop [
                    | inl e ↦ absurd (omega (arith, e, taken))
                    | inr lt ↦ lt.1
                  ] in
                  let le : index ≤ i = omega (arith, g.above, at_index) in
                  let (r, runs, result) =
                    rest (i + 1) (omega (arith, from, up.above, le))
                      (omega (arith, taken, inside)) in
                  (
                    r,
                    again rounds start first index i run refl small inside seek taken ∙ runs,
                    later start (i + 1) r (omega (arith, from, up.above, le))
                        (λ q h free.
                          skip index i q set le taken (reach start first index q f up h free) free)
                        result,
                  )
            ]
      ]

  zero_area-FoundArea :
      (rounds start : ℕ)
      → size ≤ rounds + start
      → (r : ℕ) × (zero_area (suc rounds) map size nr (2 ^ a - 1) start ≡ some r)
        × FoundArea map size nr a start r
  zero_area-FoundArea zero start enough =
      round zero start λ s lt le. absurd (omega (arith, enough, lt, le))
  zero_area-FoundArea (suc rounds) start enough =
      round (suc rounds) start λ s lt le. zero_area-FoundArea rounds s (omega (arith, enough, lt))

-- In a bitmap of words that holds `size` bits, for the mask one below a power of 2 and a positive number
-- of bits, and sums below `2 ^ 64`, the search ends, reads inside the bitmap, and gives the least
-- multiple of that power from `start` on from which `nr` bits inside the size are clear, or a number
-- above the size, and then there is none.
pub bitmap_find_next_zero_area-FoundArea :
    (map : List ℕ) (size start nr a : ℕ)
    → All IsWord map
    → size ≤ 64 * length map
    → 0 < nr
    → size + 2 ^ a + nr ≤ 2 ^ 64
    → (r : ℕ) × (bitmap_find_next_zero_area map size start nr (2 ^ a - 1) ≡ some r)
      × FoundArea map size nr a start r
unfolding bitmap_find_next_zero_area
bitmap_find_next_zero_area-FoundArea map size start nr a am long more fits =
    zero_area-FoundArea map size nr a am long more fits size start (omega arith)

-- ===== src/Bitmap/Range.antt =====
-- `bitmap_set` and `bitmap_clear`.
use mathlib.Core.Option
use libls.Prelude.{
  ℕ, zero, suc, ◌+◌, ◌-◌, ◌*◌, ◌/◌, ◌%◌, ◌<◌, ◌≤◌, ◌≡◌, refl, ap, ◌∙◌, Bool, true, false, ◌&&◌,
  some, List, [], ◌∷◌, ◌++◌, length, length-drop, take, drop, All, bit_and, bit_or, ◌==◌, ==→eq,
  ltb, leb, lt→ltb, le→ltb, le→leb, lt→leb, le_or_lt, arith, Bool-cases, inl, inr, if◌then◌else◌,
}
use libls.Prelude.Bits.{bit, bit-and, bit-or, bit-ones, bit_and-lt, bit_or-lt}
use libls.Bitops.{IsWord, all_ones, not64}
use libls.Bitops.Word.{bit-high_mask}
use libls.Bitops.First.{bit_at}
use libls.Bitops.Next.{bit_at-drop, All-drop}
use libls.Bitops.Zero.{bit-not64}
use libls.Bitmap.{
  last_word_mask, first_word_mask, range_loop, bitmap_range, bitmap_set, bitmap_clear,
}
use libls.Bitmap.Compare.{bit-last_word_mask}

-- The operation makes the bits of the mask `v`, and leaves the others.
record Makes (op : ℕ → ℕ → ℕ) (v : Bool) : Type 0 where
  keeps : (w m : ℕ) → IsWord w → IsWord m → IsWord (op w m)
  digit :
      (w m k : ℕ) → IsWord w → IsWord m → k < 64 → bit (op w m) k ≡ (if bit m k then v else bit w k)

-- The bits from `lo` on, `nr` of them, have become `v`.
abbrev pub Ranged : Bool → ℕ → ℕ → List ℕ → List ℕ → Type 0
Ranged v lo nr ws out =
    All IsWord out
    × ((i : ℕ) → bit_at out i ≡ (if leb lo i && ltb i (lo + nr) then v else bit_at ws i))

-- The mask of the bits from `lo` on.
abbrev From : ℕ → ℕ → Type 0
From lo mask = IsWord mask × ((k : ℕ) → k < 64 → bit mask k ≡ leb lo k)

last_mask :
    (size r k : ℕ) → size % 64 ≡ r → (r == 0) ≡ false → bit (last_word_mask size) k ≡ ltb k r
last_mask size r k e nz =
    let m : r % 64 ≡ r = omega (arith, e) in
    let same : last_word_mask size ≡ last_word_mask r = rw (e, m) refl in
    ap (λ w. bit w k) same ∙ bit-last_word_mask r k (omega (arith, e)) nz

module _ (op : ℕ → ℕ → ℕ) (v : Bool) (makes : Makes op v) (size : ℕ) where
  -- A word of the range, and the words behind it.
  whole_word :
      (w : ℕ) (ws out : List ℕ) (lo mask nr : ℕ)
      → lo < 64
      → 64 - lo ≤ nr
      → From lo mask
      → All IsWord (w ∷ ws)
      → Ranged v 0 (nr - (64 - lo)) ws out
      → Ranged v lo nr (w ∷ ws) (op w mask ∷ out)
  unfolding bit_at
  whole_word w ws out lo mask nr small le from aw (ao, bits) = (
    (makes.keeps w mask aw.0 from.0, ao),
    λ i. elim (le_or_lt 64 i) [
      | inl far ↦
          rw (bit_at, le→ltb i 64 far)
            (bits (i - 64) ∙ ap (λ q. if q then v else bit_at ws (i - 64)) (ground arith))
      | inr near ↦
          rw (bit_at, lt→ltb i 64 near)
            (makes.digit w mask i aw.0 from.0 near
              ∙ ap (λ q. if q then v else bit w i) (ground (arith, from.1 i near)))
    ],
  )

  -- The last word of the range.
  last_word :
      (w : ℕ) (ws : List ℕ) (lo mask nr : ℕ)
      → nr < 64 - lo
      → (nr == 0) ≡ false
      → From lo mask
      → size % 64 ≡ (lo + nr) % 64
      → All IsWord (w ∷ ws)
      → Ranged v lo nr (w ∷ ws) (op w (bit_and mask (last_word_mask size)) ∷ ws)
  unfolding bit_at
  last_word w ws lo mask nr lt nz from e aw =
      let m = bit_and mask (last_word_mask size) in
      let hm : IsWord m = bit_and-lt 64 mask (last_word_mask size) from.0 in
      (
        (makes.keeps w m aw.0 hm, aw.1),
        λ i. elim (le_or_lt 64 i) [
          | inl far ↦ rw (bit_at, le→ltb i 64 far) (ground arith)
          | inr near ↦
              let masked = bit-and mask (last_word_mask size) i in
              let low = last_mask size (lo + nr) i (omega (arith, e)) (ground (arith, nz)) in
              rw (bit_at, lt→ltb i 64 near)
                (makes.digit w m i aw.0 hm near
                  ∙ ap (λ q. if q then v else bit w i) (ground (arith, from.1 i near, masked, low)))
        ],
      )

  all_ones-From : From 0 all_ones
  all_ones-From = (omega arith, λ k lt. ground (arith, bit-ones 64 k))

  range_loop-Ranged :
      (ws : List ℕ) (lo mask nr : ℕ)
      → lo < 64
      → From lo mask
      → size % 64 ≡ (lo + nr) % 64
      → All IsWord ws
      → lo + nr ≤ 64 * length ws
      → (out : List ℕ) × (range_loop op size ws mask (64 - lo) nr ≡ some out)
        × Ranged v lo nr ws out
  unfolding range_loop bit_at
  range_loop-Ranged [] lo mask nr small from e aw l = ([], ground arith, (tt, λ i. ground arith))
  range_loop-Ranged (w ∷ ws) lo mask nr small from e aw l = elim (le_or_lt (64 - lo) nr) [
    | inl le ↦
        let (out, run, r) =
          range_loop-Ranged ws 0 all_ones (nr - (64 - lo)) (omega arith) all_ones-From
            (omega (arith, e)) aw.1 (omega arith) in
        (
          op w mask ∷ out,
          rw (le→leb (64 - lo) nr le, range_loop) (ap (Option.map (λ t. op w mask ∷ t)) run),
          whole_word w ws out lo mask nr small le from aw r,
        )
    | inr lt ↦ elim (Bool-cases (nr == 0)) [
      | inl z ↦ (
        w ∷ ws,
        rw (lt→leb (64 - lo) nr lt, z, range_loop) refl,
        (aw, λ i. ground (arith, ==→eq nr 0 z)),
      )
      | inr nz ↦ (
        op w (bit_and mask (last_word_mask size)) ∷ ws,
        rw (lt→leb (64 - lo) nr lt, nz, range_loop) refl,
        last_word w ws lo mask nr lt nz from e aw,
      )
    ]
  ]

-- The words before the range stay in place.
bit_at-after :
    (k : ℕ) (map out : List ℕ) (i : ℕ)
    → k ≤ length map
    → bit_at (take k map ++ out) i
      ≡ (if ltb i (64 * k) then bit_at map i else bit_at out (i - 64 * k))
unfolding bit_at
bit_at-after zero map out i le =
    rw (le→ltb i (64 * zero) (omega arith)) (ap (bit_at out) (omega arith))
bit_at-after (suc k) [] out i le = absurd (omega arith)
bit_at-after (suc k) (w ∷ map) out i le = elim (le_or_lt 64 i) [
  | inl far ↦
      rw (bit_at, le→ltb i 64 far)
        (bit_at-after k map out (i - 64) (omega arith)
          ∙ ground (arith, ap (bit_at out) (index far)))
  | inr near ↦ rw (bit_at, lt→ltb i 64 near, lt→ltb i (64 * suc k) (omega arith)) refl
]
  where
    index : 64 ≤ i → i - 64 - 64 * k ≡ i - 64 * suc k
    index far = omega arith

All-around :
    (k : ℕ) (map out : List ℕ) → All IsWord map → All IsWord out → All IsWord (take k map ++ out)
All-around zero map out am ao = ao
All-around (suc k) [] out am ao = ao
All-around (suc k) (w ∷ map) out am ao = (am.0, All-around k map out am.1 ao)

first_mask-From : (start : ℕ) → From (start % 64) (first_word_mask start)
first_mask-From start =
    (omega arith, λ k lt. ground (arith, bit-high_mask (start % 64) k (omega arith)))

bitmap_range-Ranged :
    (op : ℕ → ℕ → ℕ) (v : Bool) (map : List ℕ) (start nr : ℕ)
    → Makes op v
    → All IsWord map
    → start + nr ≤ 64 * length map
    → (out : List ℕ) × (bitmap_range op map start nr ≡ some out) × Ranged v start nr map out
unfolding bitmap_range
bitmap_range-Ranged op v map start nr makes am l =
    let k = start / 64 in
    let inside : k ≤ length map = omega arith in
    let long = length-drop k map in
    let (out, run, (ao, bits)) =
      range_loop-Ranged op v makes (start + nr) (drop k map) (start % 64) (first_word_mask start) nr
        (omega arith) (first_mask-From start) (omega arith) (All-drop k map am)
        (omega (arith, long)) in
    (
      take k map ++ out,
      ap (Option.map (λ p. take k map ++ p)) run,
      (
        All-around k map out am ao,
        λ i. elim (le_or_lt (64 * k) i) [
          | inr lt ↦ bit_at-after k map out i inside ∙ ground arith
          | inl le ↦
              let index : k * 64 + (i - 64 * k) ≡ i = omega arith in
              bit_at-after k map out i inside
              ∙ ground
                  (arith, bits (i - 64 * k), bit_at-drop k map (i - 64 * k), ap (bit_at map) index)
        ],
      ),
    )

set-Makes : Makes (λ p mask. bit_or p mask) true
set-Makes = record {
  keeps = λ w m hw hm. bit_or-lt 64 w m hw hm;
  digit = λ w m k hw hm lt. ground (arith, bit-or w m k);
}

clear-Makes : Makes (λ p mask. bit_and p (not64 mask)) false
clear-Makes = record {
  keeps = λ w m hw hm. bit_and-lt 64 w (not64 m) hw;
  digit = λ w m k hw hm lt. ground (arith, bit-and w (not64 m) k, bit-not64 m k hm);
}

-- For a range inside the bitmap, `bitmap_set` and `bitmap_clear` access nothing behind its end, end, set
-- and clear the `nr` bits from `start` on, and leave the others as they are.
pub bitmap_set-Ranged :
    (map : List ℕ) (start nr : ℕ)
    → All IsWord map
    → start + nr ≤ 64 * length map
    → ((out : List ℕ) × (bitmap_set map start nr ≡ some out) × Ranged true start nr map out)
      × ((out : List ℕ) × (bitmap_clear map start nr ≡ some out) × Ranged false start nr map out)
unfolding bitmap_set bitmap_clear
bitmap_set-Ranged map start nr am l = (
  bitmap_range-Ranged (λ p mask. bit_or p mask) true map start nr set-Makes am l,
  bitmap_range-Ranged (λ p mask. bit_and p (not64 mask)) false map start nr clear-Makes am l,
)

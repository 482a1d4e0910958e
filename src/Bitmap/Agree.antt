-- ===== src/Bitmap/Agree.antt =====
-- `__bitmap_empty`, `__bitmap_full`, `__bitmap_equal`, `__bitmap_intersects` and `__bitmap_subset`.
use mathlib.Core.Bool.{not, xor}
use libls.Prelude.{
  ℕ, ◌*◌, ◌≤◌, ◌≡◌, refl, ap, sym, ◌∙◌, Bool, true, false, ◌&&◌, some, List, length, All, all_below,
  bit_and, bit_xor, ◌==◌, ==→eq, arith, Bool-cases, inl, inr,
}
use libls.Prelude.Bits.{
  bit, bit-zero, bit-and, bit-xor, bit_ext, bit_and-lt, bit_xor-lt, bit_xor_cancel,
}
use libls.Bitops.{IsWord, not64}
use libls.Bitops.First.{bit_at}
use libls.Bitops.Zero.{bit-not64}
use libls.Bitmap.{
  not_zero, __bitmap_empty, __bitmap_full, __bitmap_equal, __bitmap_intersects, __bitmap_subset,
}
use libls.Bitmap.Compare.{Computes, not-any_word, any_word-not}

empty-Computes : Computes (not_zero (λ x y. x)) (λ x y. x) (λ a b. a)
empty-Computes = record {
  hits = λ x y. refl;
  keeps = λ x y hx hy. hx;
  digit = λ x y k hx hy lt. refl;
}

full-Computes : Computes (not_zero (λ x y. not64 x)) (λ x y. not64 x) (λ a b. not a)
full-Computes = record {
  hits = λ x y. refl;
  keeps = λ x y hx hy. omega arith;
  digit = λ x y k hx hy lt. ground (arith, bit-not64 x k hx);
}

intersects-Computes : Computes (not_zero bit_and) bit_and (λ a b. a && b)
intersects-Computes = record {
  hits = λ x y. refl;
  keeps = λ x y hx hy. bit_and-lt 64 x y hx;
  digit = λ x y k hx hy lt. bit-and x y k;
}

subset-Computes :
    Computes
      (not_zero (λ x y. bit_and x (not64 y)))
      (λ x y. bit_and x (not64 y))
      (λ a b. a && not b)
subset-Computes = record {
  hits = λ x y. refl;
  keeps = λ x y hx hy. bit_and-lt 64 x (not64 y) hx;
  digit = λ x y k hx hy lt. ground (arith, bit-and x (not64 y) k, bit-not64 y k hy);
}

bit_xor-zero : (y : ℕ) → bit_xor 0 y ≡ y
unfolding xor
bit_xor-zero y = bit_ext (bit_xor 0 y) y λ k. ground (arith, bit-xor 0 y k, bit-zero k)

bit_xor-same : (x : ℕ) → bit_xor x x ≡ 0
unfolding xor
bit_xor-same x = bit_ext (bit_xor x x) 0 λ k. bit-xor x x k ∙ same (bit x k) ∙ sym (bit-zero k)
  where
    same : (b : Bool) → xor b b ≡ false
    same true = refl
    same false = refl

bit_xor-eq : (x y : ℕ) → not (x == y) ≡ not (bit_xor x y == 0)
bit_xor-eq x y = elim (Bool-cases (bit_xor x y == 0)) [
  | inl e ↦
      let same : y ≡ x =
        sym (bit_xor-zero y)
        ∙ ap (λ w. bit_xor w y) (sym (==→eq (bit_xor x y) 0 e))
        ∙ bit_xor_cancel x y in
      ground (arith, same, e)
  | inr e ↦ elim (Bool-cases (x == y)) [
    | inl q ↦
        let z : bit_xor x y ≡ 0 = ap (bit_xor x) (sym (==→eq x y q)) ∙ bit_xor-same x in
        ground (arith, e, z)
    | inr q ↦ rw (q, e) refl
  ]
]

equal-Computes : Computes (λ x y. not (x == y)) bit_xor xor
equal-Computes = record {
  hits = bit_xor-eq;
  keeps = λ x y hx hy. bit_xor-lt 64 x y hx hy;
  digit = λ x y k hx hy lt. bit-xor x y k;
}

-- On bitmaps that hold `bits` bits, the five tests read inside them, and tell of the bits below `bits`
-- alone whether none is set, whether all are, whether they are the same in both, whether one is set in
-- both, and whether those of the first are set in the second.
pub __bitmap_equal-all_below :
    (xs ys : List ℕ) (bits : ℕ)
    → All IsWord xs
    → All IsWord ys
    → bits ≤ 64 * length xs
    → bits ≤ 64 * length ys
    → (__bitmap_empty xs bits ≡ some (all_below bits (λ i. not (bit_at xs i))))
      × (__bitmap_full xs bits ≡ some (all_below bits (λ i. not (not (bit_at xs i)))))
      × (__bitmap_equal xs ys bits
          ≡ some (all_below bits (λ i. not (xor (bit_at xs i) (bit_at ys i)))))
      × (__bitmap_intersects xs ys bits
          ≡ some (not (all_below bits (λ i. not (bit_at xs i && bit_at ys i)))))
      × (__bitmap_subset xs ys bits
          ≡ some (all_below bits (λ i. not (bit_at xs i && not (bit_at ys i)))))
unfolding __bitmap_empty __bitmap_full __bitmap_equal __bitmap_intersects __bitmap_subset
__bitmap_equal-all_below xs ys bits ax ay lx ly = (
  not-any_word _ _ _ empty-Computes xs xs bits ax ax lx lx,
  not-any_word _ _ _ full-Computes xs xs bits ax ax lx lx,
  not-any_word _ _ _ equal-Computes xs ys bits ax ay lx ly,
  any_word-not _ _ _ intersects-Computes xs ys bits ax ay lx ly,
  not-any_word _ _ _ subset-Computes xs ys bits ax ay lx ly,
)

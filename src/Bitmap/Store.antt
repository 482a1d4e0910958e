-- ===== src/Bitmap/Store.antt =====
-- `__bitmap_and`, `__bitmap_andnot`, `__bitmap_or` and `__bitmap_xor`, with `__bitmap_complement`.
use mathlib.Core.Bool.{not, xor}
use libls.Prelude.{
  ℕ, ◌*◌, ◌≤◌, ◌≡◌, ◌&&◌, ◌||◌, some, List, length, All, bit_and, bit_or, bit_xor, arith,
}
use libls.Prelude.Bits.{bit-and, bit-or, bit-xor, bit_and-lt, bit_or-lt, bit_xor-lt}
use libls.Bitops.{IsWord, not64}
use libls.Bitops.Zero.{bit-not64}
use libls.Bitmap.{__bitmap_and, __bitmap_andnot, __bitmap_or, __bitmap_xor, __bitmap_complement}
use libls.Bitmap.Complement.{Complemented, __bitmap_complement-Complemented}
use libls.Bitmap.Combine.{Bitwise, Stores, some_bit, with_flag, without_flag}

and-Bitwise : Bitwise bit_and (λ a b. a && b)
and-Bitwise = record {
  keeps = λ x y hx hy. bit_and-lt 64 x y hx;
  digit = λ x y k hx hy lt. bit-and x y k;
}

andnot-Bitwise : Bitwise (λ x y. bit_and x (not64 y)) (λ a b. a && not b)
andnot-Bitwise = record {
  keeps = λ x y hx hy. bit_and-lt 64 x (not64 y) hx;
  digit = λ x y k hx hy lt. ground (arith, bit-and x (not64 y) k, bit-not64 y k hy);
}

or-Bitwise : Bitwise bit_or (λ a b. a || b)
or-Bitwise = record {
  keeps = λ x y hx hy. bit_or-lt 64 x y hx hy;
  digit = λ x y k hx hy lt. bit-or x y k;
}

xor-Bitwise : Bitwise bit_xor xor
xor-Bitwise = record {
  keeps = λ x y hx hy. bit_xor-lt 64 x y hx hy;
  digit = λ x y k hx hy lt. bit-xor x y k;
}

-- On bitmaps that hold `bits` bits, the five operations access nothing behind their ends and store the
-- intersection, the difference, the union, the symmetric difference and the complement in the words that
-- hold those bits, and leave the words behind them. The complement clears its bits from `bits` up to the
-- next multiple of 64; the first two return whether one of the bits of these words is set, those from
-- `bits` up to that multiple among them.
pub __bitmap_and-Stores :
    (ds xs ys : List ℕ) (bits : ℕ)
    → All IsWord ds
    → All IsWord xs
    → All IsWord ys
    → bits ≤ 64 * length ds
    → bits ≤ 64 * length xs
    → bits ≤ 64 * length ys
    → ((out : List ℕ) × (__bitmap_and ds xs ys bits
          ≡ some (some_bit (λ a b. a && b) xs ys bits, out))
        × Stores (λ a b. a && b) ds xs ys bits out)
      × ((out : List ℕ) × (__bitmap_andnot ds xs ys bits
            ≡ some (some_bit (λ a b. a && not b) xs ys bits, out))
          × Stores (λ a b. a && not b) ds xs ys bits out)
      × ((out : List ℕ) × (__bitmap_or ds xs ys bits ≡ some out)
          × Stores (λ a b. a || b) ds xs ys bits out)
      × ((out : List ℕ) × (__bitmap_xor ds xs ys bits ≡ some out) × Stores xor ds xs ys bits out)
      × ((out : List ℕ) × (__bitmap_complement ds xs bits ≡ some out) × Complemented ds xs bits out)
unfolding __bitmap_and __bitmap_andnot __bitmap_or __bitmap_xor
__bitmap_and-Stores ds xs ys bits ad ax ay ld lx ly = (
  with_flag _ _ and-Bitwise ds xs ys bits ad ax ay ld lx ly,
  with_flag _ _ andnot-Bitwise ds xs ys bits ad ax ay ld lx ly,
  without_flag _ _ or-Bitwise ds xs ys bits ad ax ay ld lx ly,
  without_flag _ _ xor-Bitwise ds xs ys bits ad ax ay ld lx ly,
  __bitmap_complement-Complemented ds xs bits ad ax ld lx,
)

-- ===== src/Bitmap/Tests.antt =====
-- Runs of the bitmap operations on two words.
use mathlib.Core.Bool.{not, xor}
use libls.Prelude.{
  ℕ, ◌-◌, ◌^◌, ◌≡◌, refl, true, false, ◌&&◌, ◌||◌, some, List, [], ◌∷◌, All, all_below, arith,
}
use libls.Bitops.{ctz, find_next_zero_bit, find_next_bit, IsWord}
use libls.Bitops.First.{bit_at}
use libls.Bitops.Weight.{__sw_hweight64}
use libls.Bitmap.Weight.{count, __bitmap_weight-count}
use libls.Bitmap.{
  __bitmap_weight, zero_area, bitmap_find_next_zero_area, bitmap_range, range_loop, __bitmap_empty,
  __bitmap_full, __bitmap_equal, __bitmap_intersects, __bitmap_subset, __bitmap_and,
  __bitmap_andnot, __bitmap_or, __bitmap_xor, __bitmap_complement, bitmap_set, bitmap_clear,
}
use libls.Bitmap.Area.{FoundArea, bitmap_find_next_zero_area-FoundArea}
use libls.Bitmap.Agree.{__bitmap_equal-all_below}
use libls.Bitmap.Complement.{Complemented}
use libls.Bitmap.Combine.{Stores, some_bit}
use libls.Bitmap.Store.{__bitmap_and-Stores}
use libls.Bitmap.Range.{Ranged, bitmap_set-Ranged}

-- The bits 0, 2 and 64, and the bits 1, 2 and 65.
abbrev left_bits : List ℕ
left_bits = 5 ∷ 1 ∷ []

abbrev right_bits : List ℕ
right_bits = 6 ∷ 2 ∷ []

left_bits-IsWord : All IsWord left_bits
left_bits-IsWord = (omega arith, (omega arith, tt))

right_bits-IsWord : All IsWord right_bits
right_bits-IsWord = (omega arith, (omega arith, tt))

set_across_words : bitmap_set left_bits 62 4 ≡ some (13835058055282163717 ∷ 3 ∷ [])
unfolding bitmap_set bitmap_range range_loop
set_across_words = refl

complement_of_70 :
    __bitmap_complement right_bits left_bits 70 ≡ some (18446744073709551610 ∷ 62 ∷ [])
unfolding __bitmap_complement
complement_of_70 = refl

__bitmap_equal-all_below_example :
    (__bitmap_empty left_bits 70 ≡ some (all_below 70 (λ i. not (bit_at left_bits i))))
    × (__bitmap_full left_bits 70 ≡ some (all_below 70 (λ i. not (not (bit_at left_bits i)))))
    × (__bitmap_equal left_bits right_bits 70
        ≡ some (all_below 70 (λ i. not (xor (bit_at left_bits i) (bit_at right_bits i)))))
    × (__bitmap_intersects left_bits right_bits 70
        ≡ some (not (all_below 70 (λ i. not (bit_at left_bits i && bit_at right_bits i)))))
    × (__bitmap_subset left_bits right_bits 70
        ≡ some (all_below 70 (λ i. not (bit_at left_bits i && not (bit_at right_bits i)))))
__bitmap_equal-all_below_example =
    __bitmap_equal-all_below left_bits right_bits 70 left_bits-IsWord right_bits-IsWord
      (omega arith) (omega arith)

__bitmap_and-Stores_example :
    ((out : List ℕ) × (__bitmap_and left_bits left_bits right_bits 70
        ≡ some (some_bit (λ a b. a && b) left_bits right_bits 70, out))
      × Stores (λ a b. a && b) left_bits left_bits right_bits 70 out)
    × ((out : List ℕ) × (__bitmap_andnot left_bits left_bits right_bits 70
          ≡ some (some_bit (λ a b. a && not b) left_bits right_bits 70, out))
        × Stores (λ a b. a && not b) left_bits left_bits right_bits 70 out)
    × ((out : List ℕ) × (__bitmap_or left_bits left_bits right_bits 70 ≡ some out)
        × Stores (λ a b. a || b) left_bits left_bits right_bits 70 out)
    × ((out : List ℕ) × (__bitmap_xor left_bits left_bits right_bits 70 ≡ some out)
        × Stores xor left_bits left_bits right_bits 70 out)
    × ((out : List ℕ) × (__bitmap_complement left_bits left_bits 70 ≡ some out)
        × Complemented left_bits left_bits 70 out)
__bitmap_and-Stores_example =
    __bitmap_and-Stores left_bits left_bits right_bits 70 left_bits-IsWord left_bits-IsWord
      right_bits-IsWord (omega arith) (omega arith) (omega arith)

bitmap_set-Ranged_example :
    ((out : List ℕ) × (bitmap_set left_bits 62 4 ≡ some out) × Ranged true 62 4 left_bits out)
    × ((out : List ℕ) × (bitmap_clear left_bits 62 4 ≡ some out) × Ranged false 62 4 left_bits out)
bitmap_set-Ranged_example = bitmap_set-Ranged left_bits 62 4 left_bits-IsWord (omega arith)

-- Five clear bits from a multiple of 4 on.
bitmap_find_next_zero_area-FoundArea_example :
    (r : ℕ) × (bitmap_find_next_zero_area left_bits 128 1 5 (2 ^ 2 - 1) ≡ some r)
    × FoundArea left_bits 128 5 2 1 r
bitmap_find_next_zero_area-FoundArea_example =
    bitmap_find_next_zero_area-FoundArea left_bits 128 1 5 2 left_bits-IsWord (omega arith)
      (omega arith) (omega arith)

area_from_4 : bitmap_find_next_zero_area left_bits 128 1 5 3 ≡ some 4
unfolding bitmap_find_next_zero_area zero_area find_next_zero_bit find_next_bit ctz
area_from_4 = refl

-- The bits 0, 2 and 64.
weight_of_70 : __bitmap_weight left_bits 70 ≡ some 3
unfolding __bitmap_weight __sw_hweight64
weight_of_70 = refl

__bitmap_weight-count_example : __bitmap_weight left_bits 70 ≡ some (count 70 (bit_at left_bits))
__bitmap_weight-count_example = __bitmap_weight-count left_bits 70 left_bits-IsWord (omega arith)

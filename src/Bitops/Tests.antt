-- ===== src/Bitops/Tests.antt =====
-- Runs of the searches.
use mathlib.Core.Bool.{not}
use libls.Prelude.{ℕ, ◌≡◌, refl, some, List, [], ◌∷◌, arith, min, All, true, false, if◌then◌else◌}
use libls.Bitops.{
  IsWord, find_first_bit, find_next_bit, find_next_zero_bit, find_last_bit, find_loop, next_word,
  found_first, find_zero_loop, next_zero_word, found_first_zero, ctz, last_loop, clz,
}
use libls.Prelude.Bits.{bit}
use libls.Bitops.Weight.{__sw_hweight8, __sw_hweight16, __sw_hweight32, __sw_hweight64, ones}
use libls.Bitops.Weight.Words.{__sw_hweight64-ones}
use libls.Bitops.Rotate.{
  rol64, ror64, rol32, ror32, rol16, ror16, rol8, ror8, sign_extend32, ror64-rol64,
  bit-sign_extend32,
}
use libls.Bitops.First.{bit_at}
use libls.Bitops.Next.{FindsFirst, find_next_bit-FindsFirst}
use libls.Bitops.Zero.{find_next_zero_bit-FindsFirst}
use libls.Bitops.Store.{
  __set_bit, __clear_bit, __change_bit, __test_and_set_bit, __test_and_clear_bit,
  __test_and_change_bit, test_bit,
}
use libls.Bitops.Store.Region.{Stores, TestsAndStores, __set_bit-TestsAndStores}
use libls.Bitops.Last.{FindsLast, find_last_bit-FindsLast}

-- Bits 4 and 66 are set.
abbrev region : List ℕ
region = 16 ∷ 4 ∷ []

region-IsWord : All IsWord region
region-IsWord = (omega arith, (omega arith, tt))

next_crosses : find_next_bit region 100 5 ≡ some 66
unfolding find_next_bit next_word ctz find_loop found_first
next_crosses = refl

next_cut : find_next_bit region 66 5 ≡ some 66
unfolding find_next_bit next_word ctz find_loop found_first
next_cut = refl

last_run : find_last_bit region 66 ≡ some 4
unfolding find_last_bit last_loop clz
last_run = refl

next_zero_run : find_next_zero_bit region 100 66 ≡ some 67
unfolding find_next_zero_bit next_zero_word find_zero_loop found_first_zero ctz
next_zero_run = refl

first_run : find_first_bit region 200 ≡ some 4
unfolding find_first_bit find_loop ctz
first_run = refl

find_next_bit-FindsFirst_example :
    FindsFirst (bit_at region) (min 5 100) 100 (find_next_bit region 100 5)
find_next_bit-FindsFirst_example = find_next_bit-FindsFirst region 100 5 region-IsWord (omega arith)

find_next_zero_bit-FindsFirst_example :
    FindsFirst (λ k. not (bit_at region k)) (min 4 100) 100 (find_next_zero_bit region 100 4)
find_next_zero_bit-FindsFirst_example =
    find_next_zero_bit-FindsFirst region 100 4 region-IsWord (omega arith)

find_last_bit-FindsLast_example : FindsLast (bit_at region) 66 (find_last_bit region 66)
find_last_bit-FindsLast_example = find_last_bit-FindsLast region 66 region-IsWord (omega arith)

__set_bit-TestsAndStores_example :
    (Stores 66 true region (__set_bit 66 region)
      × Stores 66 false region (__clear_bit 66 region)
      × Stores 66 (not (bit_at region 66)) region (__change_bit 66 region))
    × (test_bit 66 region ≡ some (if bit_at region 66 then 1 else 0))
    × TestsAndStores 66 true region (__test_and_set_bit 66 region)
    × TestsAndStores 66 false region (__test_and_clear_bit 66 region)
    × TestsAndStores 66 (not (bit_at region 66)) region (__test_and_change_bit 66 region)
__set_bit-TestsAndStores_example = __set_bit-TestsAndStores region 66 region-IsWord (omega arith)

ror64-rol64_example :
    (ror64 (rol64 0x8000000000000001 63) 63 ≡ 0x8000000000000001)
    × (ror32 (rol32 0x80000001 31) 31 ≡ 0x80000001)
    × (ror16 (rol16 0x8001 15) 15 ≡ 0x8001)
    × (ror8 (rol8 0x81 7) 7 ≡ 0x81)
ror64-rol64_example =
    ror64-rol64 0x8000000000000001 63 0x80000001 31 0x8001 15 0x81 7
      (omega arith, omega arith, omega arith) (omega arith, omega arith, omega arith)
      (omega arith, omega arith, omega arith) (omega arith, omega arith, omega arith)

bit-sign_extend32_example : bit (sign_extend32 0x80 7) 20 ≡ bit 0x80 (min 20 7)
bit-sign_extend32_example = bit-sign_extend32 0x80 7 20 (omega arith) (omega arith) (omega arith)

__sw_hweight64-ones_example :
    (__sw_hweight8 0xb5 ≡ ones 8 0xb5)
    × (__sw_hweight16 0xf0b5 ≡ ones 16 0xf0b5)
    × (__sw_hweight32 0xffffffff ≡ ones 32 0xffffffff)
    × (__sw_hweight64 0xf0b5000000000001 ≡ ones 64 0xf0b5000000000001)
__sw_hweight64-ones_example =
    __sw_hweight64-ones 0xb5 0xf0b5 0xffffffff 0xf0b5000000000001 (omega arith) (omega arith)
      (omega arith) (omega arith)

-- ===== src/Bitmap.antt =====
-- src/bitmap.c and include/ls/bitmap.h. A bitmap is the list of its words, bit `i` is bit `i % 64` of
-- word `i / 64`; `none` is an access behind its end.
pub mod Compare
pub mod Agree
pub mod Combine
pub mod Store
pub mod Range
pub mod Align
pub mod Complement
pub mod Weight
pub mod Area
mod Tests
use mathlib.Core.Option
use libls.Prelude.{
  ℕ, zero, suc, ◌+◌, ◌-◌, ◌*◌, ◌/◌, ◌%◌, ◌^◌, Bool, true, false, not, Option, none, some, List, [],
  ◌∷◌, ◌++◌, take, drop, bit_and, bit_or, bit_xor, ◌==◌, leb, ltb, if◌then◌else◌,
}
use libls.Bitops.Weight.{__sw_hweight64}
use libls.Bitops.{all_ones, not64, shl64, find_next_bit, find_next_zero_bit}

infixl 5 ◌>>=◌
abbrev pub ◌>>=◌ : {A B : Type 0} → Option A → (A → Option B) → Option B
none >>= f = none
some a >>= f = f a

-- `BITMAP_LAST_WORD_MASK` and `BITMAP_FIRST_WORD_MASK`.
abbrev pub last_word_mask : ℕ → ℕ
last_word_mask bits = if bits % 64 == 0 then all_ones else shl64 1 (bits % 64) - 1

abbrev pub first_word_mask : ℕ → ℕ
first_word_mask start = shl64 all_ones (start % 64)

-- The loop that the tests share: whether `hit` is true of a pair of whole words, or `f` of the last pair
-- has a bit below the number of bits.
unfoldable pub any_word : (ℕ → ℕ → Bool) → (ℕ → ℕ → ℕ) → List ℕ → List ℕ → ℕ → Option Bool
any_word hit f [] ys bits = if bits == 0 then some false else none
any_word hit f (x ∷ xs) [] bits = if bits == 0 then some false else none
any_word hit f (x ∷ xs) (y ∷ ys) bits =
    let rest = any_word hit f xs ys (bits - 64) in
    if leb 64 bits
    then if hit x y then some true else rest
    else if bits == 0
    then some false
    else some (not (bit_and (f x y) (last_word_mask bits) == 0))

-- `if (f(x, y))`.
abbrev pub not_zero : (ℕ → ℕ → ℕ) → ℕ → ℕ → Bool
not_zero f x y = not (f x y == 0)

unfoldable pub __bitmap_empty : List ℕ → ℕ → Option Bool
unfolding any_word
__bitmap_empty bitmap bits =
    Option.map not (any_word (not_zero (λ x y. x)) (λ x y. x) bitmap bitmap bits)

unfoldable pub __bitmap_full : List ℕ → ℕ → Option Bool
unfolding any_word
__bitmap_full bitmap bits =
    Option.map not (any_word (not_zero (λ x y. not64 x)) (λ x y. not64 x) bitmap bitmap bits)

unfoldable pub __bitmap_equal : List ℕ → List ℕ → ℕ → Option Bool
unfolding any_word
__bitmap_equal bitmap1 bitmap2 bits =
    Option.map not (any_word (λ x y. not (x == y)) bit_xor bitmap1 bitmap2 bits)

unfoldable pub __bitmap_intersects : List ℕ → List ℕ → ℕ → Option Bool
unfolding any_word
__bitmap_intersects bitmap1 bitmap2 bits = any_word (not_zero bit_and) bit_and bitmap1 bitmap2 bits

unfoldable pub __bitmap_subset : List ℕ → List ℕ → ℕ → Option Bool
unfolding any_word
__bitmap_subset bitmap1 bitmap2 bits = Option.map not (
    any_word (not_zero (λ x y. bit_and x (not64 y))) (λ x y. bit_and x (not64 y)) bitmap1 bitmap2
      bits)

-- `BITS_TO_LONGS`.
abbrev pub bits_to_longs : ℕ → ℕ
bits_to_longs bits = (bits + 63) / 64

-- The loop of the operations on two bitmaps, for `n` words from here on: `result` is the disjunction of
-- the stored words, which the operations without a return value do not keep.
unfoldable pub combine : (ℕ → ℕ → ℕ) → ℕ → List ℕ → List ℕ → List ℕ → ℕ → Option (ℕ × List ℕ)
combine f result ds xs ys zero = some (result, ds)
combine f result [] xs ys (suc n) = none
combine f result (d ∷ ds) [] ys (suc n) = none
combine f result (d ∷ ds) (x ∷ xs) [] (suc n) = none
combine f result (d ∷ ds) (x ∷ xs) (y ∷ ys) (suc n) =
    Option.map (λ r. (r.0, f x y ∷ r.1)) (combine f (bit_or result (f x y)) ds xs ys n)

-- `return result != 0`.
abbrev pub some_set : ℕ × List ℕ → Bool × List ℕ
some_set (result, ds) = (not (result == 0), ds)

abbrev pub stored : ℕ × List ℕ → List ℕ
stored (result, ds) = ds

unfoldable pub __bitmap_and : List ℕ → List ℕ → List ℕ → ℕ → Option (Bool × List ℕ)
unfolding combine
__bitmap_and dst bitmap1 bitmap2 bits =
    Option.map some_set (combine bit_and 0 dst bitmap1 bitmap2 (bits_to_longs bits))

unfoldable pub __bitmap_andnot : List ℕ → List ℕ → List ℕ → ℕ → Option (Bool × List ℕ)
unfolding combine
__bitmap_andnot dst bitmap1 bitmap2 bits =
    Option.map some_set
      (combine (λ x y. bit_and x (not64 y)) 0 dst bitmap1 bitmap2 (bits_to_longs bits))

unfoldable pub __bitmap_or : List ℕ → List ℕ → List ℕ → ℕ → Option (List ℕ)
unfolding combine
__bitmap_or dst bitmap1 bitmap2 bits =
    Option.map stored (combine bit_or 0 dst bitmap1 bitmap2 (bits_to_longs bits))

unfoldable pub __bitmap_xor : List ℕ → List ℕ → List ℕ → ℕ → Option (List ℕ)
unfolding combine
__bitmap_xor dst bitmap1 bitmap2 bits =
    Option.map stored (combine bit_xor 0 dst bitmap1 bitmap2 (bits_to_longs bits))

unfoldable pub __bitmap_complement : List ℕ → List ℕ → ℕ → Option (List ℕ)
__bitmap_complement [] src bits = if bits == 0 then some [] else none
__bitmap_complement (d ∷ dst) [] bits = if bits == 0 then some (d ∷ dst) else none
__bitmap_complement (d ∷ dst) (x ∷ src) bits =
    let rest = __bitmap_complement dst src (bits - 64) in
    if leb 64 bits
    then Option.map (λ r. not64 x ∷ r) rest
    else if bits == 0
    then some (d ∷ dst)
    else some (bit_and (not64 x) (last_word_mask bits) ∷ dst)

unfoldable pub __bitmap_weight : List ℕ → ℕ → Option ℕ
unfolding __sw_hweight64
__bitmap_weight [] bits = if bits == 0 then some 0 else none
__bitmap_weight (x ∷ bitmap) bits =
    let rest = __bitmap_weight bitmap (bits - 64) in
    if leb 64 bits
    then Option.map (λ w. __sw_hweight64 x + w) rest
    else if bits == 0
    then some 0
    else some (__sw_hweight64 (bit_and x (last_word_mask bits)))

-- The loop of `bitmap_set` and `bitmap_clear` from the word that `p` points to: `op` on a word and a
-- mask, the mask and the number of its bits, and the number of bits left. The sum `start + nr` is that of
-- `int`, which the source does not let overflow.
unfoldable pub range_loop : (ℕ → ℕ → ℕ) → ℕ → List ℕ → ℕ → ℕ → ℕ → Option (List ℕ)
range_loop op size [] mask count nr = if nr == 0 then some [] else none
range_loop op size (w ∷ p) mask count nr =
    let rest = range_loop op size p all_ones 64 (nr - count) in
    if leb count nr
    then Option.map (λ r. op w mask ∷ r) rest
    else if nr == 0
    then some (w ∷ p)
    else some (op w (bit_and mask (last_word_mask size)) ∷ p)

-- `map + BIT_WORD(start)`, with the words before it.
unfoldable pub bitmap_range : (ℕ → ℕ → ℕ) → List ℕ → ℕ → ℕ → Option (List ℕ)
unfolding range_loop
bitmap_range op map start nr =
    Option.map (λ p. take (start / 64) map ++ p)
      (range_loop op (start + nr) (drop (start / 64) map) (first_word_mask start) (64 - start % 64)
        nr)

unfoldable pub bitmap_set : List ℕ → ℕ → ℕ → Option (List ℕ)
unfolding bitmap_range
bitmap_set map start nr = bitmap_range (λ p mask. bit_or p mask) map start nr

unfoldable pub bitmap_clear : List ℕ → ℕ → ℕ → Option (List ℕ)
unfolding bitmap_range
bitmap_clear map start nr = bitmap_range (λ p mask. bit_and p (not64 mask)) map start nr

-- `__ALIGN_MASK(x, mask)`.
abbrev pub align_mask : ℕ → ℕ → ℕ
align_mask x mask = bit_and ((x + mask) % 2 ^ 64) (not64 mask)

-- `bitmap_find_next_zero_area`, for at most the given number of rounds from `again` on.
unfoldable pub zero_area : ℕ → List ℕ → ℕ → ℕ → ℕ → ℕ → Option ℕ
unfolding find_next_zero_bit find_next_bit
zero_area zero map size nr mask start = none
zero_area (suc rounds) map size nr mask start = do
  first ← find_next_zero_bit map size start
  let index = align_mask first mask
  let end = (index + nr) % 2 ^ 64
  elim (ltb size end) [
    | true ↦ some end
    | false ↦ do
      i ← find_next_bit map end index
      elim (ltb i end) [ true ↦ zero_area rounds map size nr mask (i + 1) | false ↦ some index ]
  ]

-- The search goes on behind a set bit, so that no more rounds than bits are needed.
unfoldable pub bitmap_find_next_zero_area : List ℕ → ℕ → ℕ → ℕ → ℕ → Option ℕ
unfolding zero_area
bitmap_find_next_zero_area map size start nr mask = zero_area (suc size) map size nr mask start

-- ===== src/Bitops/Zero.antt =====
-- `find_first_zero_bit` and `find_next_zero_bit` do on a region what the searches for ones do on its
-- complement.
use mathlib.Core.Bool.{not}
use native.Mathlib.Nat.{pow-suc}
use libls.Prelude.{
  ℕ, zero, suc, ◌+◌, ◌-◌, ◌*◌, ◌/◌, ◌%◌, ◌^◌, ◌<◌, ◌≤◌, ◌≡◌, refl, ap, sym, ◌∙◌, true, ◌&&◌, min,
  map, Option, List, [], ◌∷◌, length, drop, All, bit_and, bit_or, ◌==◌, leb, ltb, arith, Bool-cases,
  inl, inr, ◌⊎◌,
}
use libls.Prelude.Bits.{bit, bit-zero, bit-and, bit-or, bit_ext, bit_or-lt, half-lt}
use libls.Bitops.{
  IsWord, all_ones, not64, shl64, found_first, find_loop, find_first_bit, next_word, find_next_bit,
  found_first_zero, find_zero_loop, find_first_zero_bit, next_zero_word, find_next_zero_bit,
}
use libls.Bitops.Word.{bit-high_mask, bit-low_mask}
use libls.Bitops.First.{bit_at}
use libls.Bitops.Next.{FindsFirst, find_next_bit-FindsFirst, find_first_bit-FindsFirst}

bit-complement : (n w i : ℕ) → w < 2 ^ n → bit (2 ^ n - 1 - w) i ≡ (ltb i n && not (bit w i))
unfolding bit
bit-complement zero w i h = ground (arith, bit-zero i)
bit-complement (suc n) w zero h = ground (arith, pow-suc 2 n)
bit-complement (suc n) w (suc i) h =
    let e : (2 ^ suc n - 1 - w) / 2 ≡ 2 ^ n - 1 - w / 2 = omega (arith, pow-suc 2 n) in
    rw e (ground (arith, bit-complement n (w / 2) i (half-lt n w h)))

pub bit-not64 : (w i : ℕ) → IsWord w → bit (not64 w) i ≡ (ltb i 64 && not (bit w i))
bit-not64 w i h = bit-complement 64 w i h

shl64-lt : (offset : ℕ) → shl64 all_ones offset < 2 ^ 64
shl64-lt offset = omega arith

low_mask-lt : (size : ℕ) → all_ones / 2 ^ (64 - size) < 2 ^ 64
low_mask-lt size = omega arith

high_set :
    (w size : ℕ)
    → IsWord w
    → size ≤ 64
    → not64 (bit_or w (shl64 all_ones size)) ≡ bit_and (not64 w) (all_ones / 2 ^ (64 - size))
high_set w size h s = bit_ext _ _ λ i. ground (
  arith,
  bit-not64 (bit_or w (shl64 all_ones size)) i
      (bit_or-lt 64 w (shl64 all_ones size) h (shl64-lt size)),
  bit-or w (shl64 all_ones size) i,
  bit-high_mask size i s,
  bit-and (not64 w) (all_ones / 2 ^ (64 - size)) i,
  bit-not64 w i h,
  bit-low_mask size i s,
)

low_set :
    (w offset : ℕ)
    → IsWord w
    → offset ≤ 64
    → not64 (bit_or w (all_ones / 2 ^ (64 - offset))) ≡ bit_and (not64 w) (shl64 all_ones offset)
low_set w offset h s = bit_ext _ _ λ i. ground (
  arith,
  bit-not64 (bit_or w (all_ones / 2 ^ (64 - offset))) i
      (bit_or-lt 64 w (all_ones / 2 ^ (64 - offset)) h (low_mask-lt offset)),
  bit-or w (all_ones / 2 ^ (64 - offset)) i,
  bit-high_mask offset i s,
  bit-and (not64 w) (shl64 all_ones offset) i,
  bit-not64 w i h,
  bit-low_mask offset i s,
)

found_first_zero-not64 :
    (result size w : ℕ)
    → IsWord w
    → size ≤ 64
    → found_first_zero result size w ≡ found_first result size (not64 w)
unfolding found_first_zero found_first
found_first_zero-not64 result size w h s =
    let tmp = bit_or w (shl64 all_ones size) in
    let fits : tmp < 2 ^ 64 = bit_or-lt 64 w (shl64 all_ones size) h (shl64-lt size) in
    let same = high_set w size h s in
    let test : (tmp == all_ones) ≡ (bit_and (not64 w) (all_ones / 2 ^ (64 - size)) == 0) =
      ground (arith, same) in
    rw (test, same) refl

find_zero_loop-not64 :
    (result size : ℕ) (ws : List ℕ)
    → All IsWord ws
    → find_zero_loop result size ws ≡ find_loop result size (map not64 ws)
unfolding find_zero_loop find_loop
find_zero_loop-not64 result size [] ok = refl
find_zero_loop-not64 result size (w ∷ ws) ok = elim (Bool-cases (leb 64 size)) [
  | inl whole ↦ rw (whole, find_zero_loop-not64 (result + 64) (size - 64) ws ok.1) refl
  | inr last ↦ rw (last, found_first_zero-not64 result size w ok.0 (ground arith)) refl
]

next_zero_word-not64 :
    (result size offset : ℕ) (ws : List ℕ)
    → All IsWord ws
    → offset ≤ 64
    → next_zero_word result size offset ws ≡ next_word result size offset (map not64 ws)
unfolding next_zero_word next_word
next_zero_word-not64 result size offset [] ok s = refl
next_zero_word-not64 result size offset (w ∷ ws) ok s =
    let tmp = bit_or w (all_ones / 2 ^ (64 - offset)) in
    let fits : tmp < 2 ^ 64 =
      bit_or-lt 64 w (all_ones / 2 ^ (64 - offset)) ok.0 (low_mask-lt offset) in
    let same = low_set w offset ok.0 s in
    elim (Bool-cases (ltb size 64)) [
      | inl last ↦ rw (last, found_first_zero-not64 result size tmp fits (ground arith), same) refl
      | inr long ↦ rw (long, same, find_zero_loop-not64 (result + 64) (size - 64) ws ok.1) refl
    ]

drop-map : (n : ℕ) (ws : List ℕ) → drop n (map not64 ws) ≡ map not64 (drop n ws)
drop-map zero ws = refl
drop-map (suc n) [] = refl
drop-map (suc n) (w ∷ ws) = drop-map n ws

All-drop_words : (n : ℕ) (ws : List ℕ) → All IsWord ws → All IsWord (drop n ws)
All-drop_words zero ws ok = ok
All-drop_words (suc n) [] ok = tt
All-drop_words (suc n) (w ∷ ws) ok = All-drop_words n ws ok.1

find_next_zero_bit-not64 :
    (addr : List ℕ) (size offset : ℕ)
    → All IsWord addr
    → find_next_zero_bit addr size offset ≡ find_next_bit (map not64 addr) size offset
unfolding find_next_zero_bit find_next_bit
find_next_zero_bit-not64 addr size offset ok =
    let p = drop (offset / 64) addr in
    let words = All-drop_words (offset / 64) addr ok in
    let result = offset / 64 * 64 in
    rw
      (
        drop-map (offset / 64) addr,
        find_zero_loop-not64 result (size - result) p words,
        next_zero_word-not64 result (size - result) (offset % 64) p words (omega arith),
      )
      refl

bit_at-not64 :
    (addr : List ℕ) (k : ℕ)
    → All IsWord addr
    → k < 64 * length addr
    → bit_at (map not64 addr) k ≡ not (bit_at addr k)
unfolding bit_at
bit_at-not64 [] k ok h = absurd (omega arith)
bit_at-not64 (w ∷ ws) k ok h = ground (arith, bit-not64 w k ok.0, bit_at-not64 ws (k - 64) ok.1)

length-map-not64 : (ws : List ℕ) → length (map not64 ws) ≡ length ws
length-map-not64 [] = refl
length-map-not64 (w ∷ ws) = ap suc (length-map-not64 ws)

All-map-not64 : (ws : List ℕ) → All IsWord (map not64 ws)
All-map-not64 [] = tt
All-map-not64 (w ∷ ws) = (omega arith, All-map-not64 ws)

FindsFirst-not64 :
    (addr : List ℕ) (low size : ℕ) (found : Option ℕ)
    → All IsWord addr
    → size ≤ 64 * length addr
    → FindsFirst (bit_at (map not64 addr)) low size found
    → FindsFirst (λ k. not (bit_at addr k)) low size found
FindsFirst-not64 addr low size found ok long (r, run, first) = (
  r,
  run,
  record {
    above = first.above;
    none_before =
        λ k a b. sym (bit_at-not64 addr k ok (inside k b first.stop)) ∙ first.none_before k a b;
    stop = elim first.stop [
      | inl e ↦ inl e
      | inr (lt, e) ↦ inr (lt, sym (bit_at-not64 addr r ok (omega arith)) ∙ e)
    ];
  },
)
  where
    inside :
        (k : ℕ)
        → k < r
        → (r ≡ size) ⊎ ((r < size) × (bit_at (map not64 addr) r ≡ true))
        → k < 64 * length addr
    inside k b (inl e) = omega arith
    inside k b (inr e) = omega (arith, e.0)

-- In a region of words that holds `size` bits, `find_next_zero_bit` reads inside the region and gives
-- the first index from the offset on whose bit is clear, and `size` where there is none or the offset
-- is not below `size`.
pub find_next_zero_bit-FindsFirst :
    (addr : List ℕ) (size offset : ℕ)
    → All IsWord addr
    → size ≤ 64 * length addr
    → FindsFirst
        (λ k. not (bit_at addr k))
        (min offset size)
        size
        (find_next_zero_bit addr size offset)
find_next_zero_bit-FindsFirst addr size offset ok long =
    rw (find_next_zero_bit-not64 addr size offset ok) (
      FindsFirst-not64 addr (min offset size) size (find_next_bit (map not64 addr) size offset) ok
        long
        (find_next_bit-FindsFirst (map not64 addr) size offset (All-map-not64 addr)
          (omega (arith, length-map-not64 addr))))

-- In a region of words that holds `size` bits, `find_first_zero_bit` reads inside the region and gives
-- the first index whose bit is clear, and `size` where there is none.
pub find_first_zero_bit-FindsFirst :
    (addr : List ℕ) (size : ℕ)
    → All IsWord addr
    → size ≤ 64 * length addr
    → FindsFirst (λ k. not (bit_at addr k)) 0 size (find_first_zero_bit addr size)
unfolding find_first_zero_bit
find_first_zero_bit-FindsFirst addr size ok long = rw (find_zero_loop-not64 0 size addr ok) (
    FindsFirst-not64 addr 0 size (find_loop 0 size (map not64 addr)) ok long (
      unfold find_first_bit in
      find_first_bit-FindsFirst (map not64 addr) size (All-map-not64 addr)
        (omega (arith, length-map-not64 addr))))

-- ===== src/Bitops/Word.antt =====
-- The bits of one word: masks, and the lowest one.
use libls.Prelude.{
  ℕ, zero, suc, ◌+◌, ◌-◌, ◌*◌, ◌/◌, ◌%◌, ◌^◌, ◌<◌, ◌≤◌, ◌≡◌, Bool, true, false, ◌&&◌, ◌==◌, leb,
  ltb, arith, Bool-cases, inl, inr, ◌⊎◌,
}
use libls.Prelude.Bits.{bit, bit-mod, bit-div, bit-mul, bit-ones, half-lt}
use libls.Bitops.{all_ones, shl64, ctz}

-- `r` is the first index from `low` on at which `f` is true, or `size` where there is none before it.
pub record IsFirst (f : ℕ → Bool) (low size r : ℕ) : Type 0 where
  pub above : low ≤ r
  pub none_before : (k : ℕ) → low ≤ k → k < r → f k ≡ false
  pub stop : (r ≡ size) ⊎ ((r < size) × (f r ≡ true))

-- The lowest one of a number of `n` digits.
pub ctz-lt : (n w : ℕ) → (w == 0) ≡ false → w < 2 ^ n → ctz n w < n
unfolding ctz
ctz-lt zero w p h = absurd (ground arith)
ctz-lt (suc n) w p h = ground (arith, ctz-lt n (w / 2), half-lt n w h)

pub ctz-bit : (n w : ℕ) → (w == 0) ≡ false → w < 2 ^ n → bit w (ctz n w) ≡ true
unfolding ctz bit
ctz-bit zero w p h = absurd (ground arith)
ctz-bit (suc n) w p h = elim (Bool-cases (w % 2 == 1)) [
  | inl odd ↦ rw odd odd
  | inr even ↦ rw even (ctz-bit n (w / 2) (ground arith) (half-lt n w h))
]

pub bit-below_ctz : (n w k : ℕ) → w < 2 ^ n → k < ctz n w → bit w k ≡ false
unfolding ctz bit
bit-below_ctz zero w k h lt = absurd (omega arith)
bit-below_ctz (suc n) w zero h lt = ground arith
bit-below_ctz (suc n) w (suc k) h lt = bit-below_ctz n (w / 2) k (half-lt n w h) (ground arith)

-- The masks `~0UL >> (64 - size)` and `~0UL << offset`, and the complement.
pub bit-low_mask : (size i : ℕ) → size ≤ 64 → bit (all_ones / 2 ^ (64 - size)) i ≡ ltb i size
bit-low_mask size i h =
    ground (arith, bit-div (64 - size) all_ones i, bit-ones 64 (i + (64 - size)))

pub bit-high_mask :
    (offset i : ℕ) → offset ≤ 64 → bit (shl64 all_ones offset) i ≡ (leb offset i && ltb i 64)
bit-high_mask offset i h = ground (
  arith,
  bit-mod 64 (all_ones * 2 ^ offset) i,
  bit-mul offset all_ones i,
  bit-ones 64 (i - offset),
)

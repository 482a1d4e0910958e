-- ===== src/Bitops/Weight.antt =====
-- src/hweight.c. `unsigned int` has 32 bits; no sum here reaches them, and no difference falls below 0;
-- the products of the two widest counts wrap. Those are the variants for a fast multiplier, which the
-- source chooses on x86.
pub mod Stages
pub mod Words
use libls.Prelude.{
  ℕ, zero, suc, ◌+◌, ◌-◌, ◌/◌, ◌%◌, ◌^◌, ◌<◌, ◌≡◌, refl, bit_and, true, ◌==◌, ==→eq, all_below,
  all_below_sound, arith, ◌*◌, ap, sym, ◌∙◌,
}

unfoldable pub __sw_hweight8 : ℕ → ℕ
__sw_hweight8 w =
    let res1 = w - bit_and (w / 2 ^ 1) 0x55 in
    let res2 = bit_and res1 0x33 + bit_and (res1 / 2 ^ 2) 0x33 in bit_and (res2 + res2 / 2 ^ 4) 0x0F

pub __sw_hweight16 : ℕ → ℕ
__sw_hweight16 w =
    let res1 = w - bit_and (w / 2 ^ 1) 0x5555 in
    let res2 = bit_and res1 0x3333 + bit_and (res1 / 2 ^ 2) 0x3333 in
    let res3 = bit_and (res2 + res2 / 2 ^ 4) 0x0F0F in bit_and (res3 + res3 / 2 ^ 8) 0x00FF

unfoldable pub __sw_hweight32 : ℕ → ℕ
__sw_hweight32 w =
    let w1 = w - bit_and (w / 2 ^ 1) 0x55555555 in
    let w2 = bit_and w1 0x33333333 + bit_and (w1 / 2 ^ 2) 0x33333333 in
    let w3 = bit_and (w2 + w2 / 2 ^ 4) 0x0f0f0f0f in w3 * 0x01010101 % 2 ^ 32 / 2 ^ 24

unfoldable pub __sw_hweight64 : ℕ → ℕ
__sw_hweight64 w =
    let w1 = w - bit_and (w / 2 ^ 1) 0x5555555555555555 in
    let w2 = bit_and w1 0x3333333333333333 + bit_and (w1 / 2 ^ 2) 0x3333333333333333 in
    let w3 = bit_and (w2 + w2 / 2 ^ 4) 0x0f0f0f0f0f0f0f0f in
    w3 * 0x0101010101010101 % 2 ^ 64 / 2 ^ 56

-- The number of ones among the lowest `n` digits.
unfoldable pub ones : ℕ → ℕ → ℕ
ones zero w = 0
ones (suc n) w = w % 2 + ones n (w / 2)

weight8_table : all_below 256 (λ w. __sw_hweight8 w == ones 8 w) ≡ true
unfolding all_below __sw_hweight8 ones
weight8_table = refl

weight16_table :
    all_below 256
      (λ h. all_below 256 (λ l. __sw_hweight16 (h * 2 ^ 8 + l) == ones 16 (h * 2 ^ 8 + l)))
    ≡ true
unfolding all_below __sw_hweight16 ones
weight16_table = refl

-- For every 8-bit and every 16-bit number the shifts, masks and sums of `__sw_hweight8` and
-- `__sw_hweight16` give the number of its ones.
pub __sw_hweight8-ones :
    (w8 w16 : ℕ)
    → w8 < 2 ^ 8
    → w16 < 2 ^ 16
    → (__sw_hweight8 w8 ≡ ones 8 w8) × (__sw_hweight16 w16 ≡ ones 16 w16)
__sw_hweight8-ones w8 w16 h8 h16 =
    let e : w16 / 2 ^ 8 * 2 ^ 8 + w16 % 2 ^ 8 ≡ w16 = omega arith in
    (
      ==→eq _ _ (all_below_sound 256 (λ w. __sw_hweight8 w == ones 8 w) w8 weight8_table h8),
      ==→eq _ _ (
          ap (λ w. __sw_hweight16 w == ones 16 w) (sym e)
          ∙ all_below_sound 256
              (λ l. __sw_hweight16 (w16 / 2 ^ 8 * 2 ^ 8 + l) == ones 16 (w16 / 2 ^ 8 * 2 ^ 8 + l))
              (w16 % 2 ^ 8)
              (all_below_sound 256
                (λ h.
                  all_below 256 (λ l. __sw_hweight16 (h * 2 ^ 8 + l) == ones 16 (h * 2 ^ 8 + l)))
                (w16 / 2 ^ 8) weight16_table (omega arith))
              (omega arith)),
    )

-- ===== src/Bitops/Weight/Words.antt =====
-- `__sw_hweight32` and `__sw_hweight64`.
use libls.Prelude.{ℕ, zero, suc, ◌+◌, ◌*◌, ◌/◌, ◌%◌, ◌^◌, ◌<◌, ◌≤◌, ◌≡◌, refl, ap, sym, ◌∙◌, arith}
use libls.Prelude.Bits.{half-lt, mul-two-pow}
use libls.Bitops.Weight.{
  __sw_hweight8, __sw_hweight16, __sw_hweight32, __sw_hweight64, ones, __sw_hweight8-ones,
}
use libls.Bitops.Weight.Stages.{weigh, rep, pairs, quads, nibbles, weigh-zero, weigh-bytes}

-- The ones of the lowest `k` digits and of those above them.
ones_add : (k n h l : ℕ) → l < 2 ^ k → ones (k + n) (h * 2 ^ k + l) ≡ ones k l + ones n h
unfolding ones
ones_add zero n h l small =
    let e : h * 2 ^ 0 + l ≡ h = omega (arith, small) in
    let f : 0 + n ≡ n = omega arith in rw (e, f) (omega arith)
ones_add (suc k) n h l small =
    let two = mul-two-pow h k in
    let first : (h * 2 ^ suc k + l) % 2 ≡ l % 2 = omega (arith, two) in
    let half : (h * 2 ^ suc k + l) / 2 ≡ h * 2 ^ k + l / 2 = omega (arith, two) in
    let more : suc k + n ≡ suc (k + n) = omega arith in
    let rest = ones_add k n h (l / 2) (half-lt k l small) in
    rw (more, ones, first, half, rest) (omega arith)

ones-le : (k w : ℕ) → ones k w ≤ k
unfolding ones
ones-le zero w = omega arith
ones-le (suc k) w = omega (arith, ones-le k (w / 2))

-- The stages leave in each byte the number of its ones.
weigh-ones :
    (n w : ℕ) → w < 2 ^ 64 → weigh (suc n) w ≡ weigh n (w / 2 ^ 8) * 2 ^ 8 + ones 8 (w % 2 ^ 8)
weigh-ones n w big =
    let whole : w / 2 ^ 8 * 2 ^ 8 + w % 2 ^ 8 ≡ w = omega arith in
    ap (weigh (suc n)) (sym whole)
    ∙ weigh-bytes n (w / 2 ^ 8) (w % 2 ^ 8) (omega arith) (omega (arith, big))
    ∙ ap (λ x. weigh n (w / 2 ^ 8) * 2 ^ 8 + x)
        (__sw_hweight8-ones (w % 2 ^ 8) 0 (omega arith) (omega arith)).0

ones-bytes : (n w : ℕ) → ones (8 + n) w ≡ ones 8 (w % 2 ^ 8) + ones n (w / 2 ^ 8)
ones-bytes n w =
    let whole : w / 2 ^ 8 * 2 ^ 8 + w % 2 ^ 8 ≡ w = omega arith in
    ap (ones (8 + n)) (sym whole) ∙ ones_add 8 n (w / 2 ^ 8) (w % 2 ^ 8) (omega arith)

-- The first four bytes, and the bytes behind them.
weigh-four :
    (n w : ℕ)
    → w < 2 ^ 64
    → (b : ℕ × ℕ × ℕ × ℕ) × ((b.0 ≤ 8) × (b.1 ≤ 8) × (b.2 ≤ 8) × (b.3 ≤ 8))
      × (weigh (suc (suc (suc (suc n)))) w
          ≡ weigh n (w / 2 ^ 32) * 2 ^ 32 + b.3 * 2 ^ 24 + b.2 * 2 ^ 16 + b.1 * 2 ^ 8 + b.0)
      × (ones (8 + (8 + (8 + (8 + n * 8)))) w ≡ b.0 + b.1 + b.2 + b.3 + ones (n * 8) (w / 2 ^ 32))
weigh-four n w big =
    let w1 = w / 2 ^ 8 in
    let w2 = w1 / 2 ^ 8 in
    let w3 = w2 / 2 ^ 8 in
    let last : w3 / 2 ^ 8 ≡ w / 2 ^ 32 = omega arith in
    let b0 = ones 8 (w % 2 ^ 8) in
    let b1 = ones 8 (w1 % 2 ^ 8) in
    let b2 = ones 8 (w2 % 2 ^ 8) in
    let b3 = ones 8 (w3 % 2 ^ 8) in
    (
      (b0, b1, b2, b3),
      (
        ones-le 8 (w % 2 ^ 8),
        ones-le 8 (w1 % 2 ^ 8),
        ones-le 8 (w2 % 2 ^ 8),
        ones-le 8 (w3 % 2 ^ 8),
      ),
      omega (
        arith,
        weigh-ones (suc (suc (suc n))) w big,
        weigh-ones (suc (suc n)) w1 (omega (arith, big)),
        weigh-ones (suc n) w2 (omega (arith, big)),
        weigh-ones n w3 (omega (arith, big)),
        ap (weigh n) last,
      ),
      omega (
        arith,
        ones-bytes (8 + (8 + (8 + n * 8))) w,
        ones-bytes (8 + (8 + n * 8)) w1,
        ones-bytes (8 + n * 8) w2,
        ones-bytes (n * 8) w3,
        ap (ones (n * 8)) last,
      ),
    )

hweight32-ones : (w : ℕ) → w < 2 ^ 32 → __sw_hweight32 w ≡ ones 32 w
unfolding __sw_hweight32 weigh rep pairs quads nibbles ones
hweight32-ones w h =
    let (b, le, stages, sum) = weigh-four 0 w (omega (arith, h)) in
    let result : __sw_hweight32 w ≡ weigh 4 w * 0x01010101 % 2 ^ 32 / 2 ^ 24 = refl in
    omega (arith, result, stages, sum, le.0, le.1, le.2, le.3, weigh-zero (w / 2 ^ 32))

-- The product adds the bytes up in the highest one.
spread :
    (b0 b1 b2 b3 b4 b5 b6 b7 : ℕ)
    → b0 + b1 + b2 + b3 ≤ 32
    → b4 + b5 + b6 + b7 ≤ 32
    → ((b7 * 2 ^ 24 + b6 * 2 ^ 16 + b5 * 2 ^ 8 + b4) * 2 ^ 32
          + b3 * 2 ^ 24
          + b2 * 2 ^ 16
          + b1 * 2 ^ 8
          + b0)
        * 0x0101010101010101
        % 2 ^ 64
        / 2 ^ 56
      ≡ b0 + b1 + b2 + b3 + (b4 + b5 + b6 + b7)
spread b0 b1 b2 b3 b4 b5 b6 b7 low high = omega arith

hweight64-ones : (w : ℕ) → w < 2 ^ 64 → __sw_hweight64 w ≡ ones 64 w
unfolding __sw_hweight64 weigh rep pairs quads nibbles ones
hweight64-ones w h =
    let (b, le, stages, sum) = weigh-four 4 w h in
    let (c, lc, stages4, sum4) = weigh-four 0 (w / 2 ^ 32) (omega (arith, h)) in
    let none_left = weigh-zero (w / 2 ^ 32 / 2 ^ 32) in
    let result : __sw_hweight64 w ≡ weigh 8 w * 0x0101010101010101 % 2 ^ 64 / 2 ^ 56 = refl in
    let high : weigh 4 (w / 2 ^ 32) ≡ c.3 * 2 ^ 24 + c.2 * 2 ^ 16 + c.1 * 2 ^ 8 + c.0 =
      omega (arith, stages4, none_left) in
    let whole =
      stages ∙ ap (λ t. t * 2 ^ 32 + b.3 * 2 ^ 24 + b.2 * 2 ^ 16 + b.1 * 2 ^ 8 + b.0) high in
    result
    ∙ ap (λ t. t * 0x0101010101010101 % 2 ^ 64 / 2 ^ 56) whole
    ∙ spread b.0 b.1 b.2 b.3 c.0 c.1 c.2 c.3 (omega (arith, le.0, le.1, le.2, le.3))
        (omega (arith, lc.0, lc.1, lc.2, lc.3))
    ∙ sym (sum ∙ ap (λ t. b.0 + b.1 + b.2 + b.3 + t) (sum4 ∙ omega arith))

-- On every number of their width the shifts, masks, sums and products of the four counts give the number
-- of its ones.
pub __sw_hweight64-ones :
    (w8 w16 w32 w64 : ℕ)
    → w8 < 2 ^ 8
    → w16 < 2 ^ 16
    → w32 < 2 ^ 32
    → w64 < 2 ^ 64
    → (__sw_hweight8 w8 ≡ ones 8 w8)
      × (__sw_hweight16 w16 ≡ ones 16 w16)
      × (__sw_hweight32 w32 ≡ ones 32 w32)
      × (__sw_hweight64 w64 ≡ ones 64 w64)
__sw_hweight64-ones w8 w16 w32 w64 h8 h16 h32 h64 =
    let narrow = __sw_hweight8-ones w8 w16 h8 h16 in
    (narrow.0, narrow.1, hweight32-ones w32 h32, hweight64-ones w64 h64)

-- ===== src/Bitops/Weight/Stages.antt =====
-- The three masked stages that the counts of src/hweight.c share, byte by byte.
use libls.Prelude.{
  ℕ, zero, suc, ◌+◌, ◌-◌, ◌*◌, ◌/◌, ◌%◌, ◌^◌, ◌<◌, ◌≤◌, ◌≡◌, refl, ap, sym, ◌∙◌, Bool, true,
  bit_and, ◌==◌, ◌&&◌, leb, all_below, all_below_sound, arith,
}
use libls.Prelude.Bits.{bit-zero, bit-and, bit-fields, bit_and-lt, bit_and-le, bit_ext}
use libls.Bitops.Weight.{__sw_hweight8}

-- `&` goes by fields.
bit_and-fields :
    (k h l m n : ℕ)
    → l < 2 ^ k
    → n < 2 ^ k
    → bit_and (h * 2 ^ k + l) (m * 2 ^ k + n) ≡ bit_and h m * 2 ^ k + bit_and l n
bit_and-fields k h l m n sl sn =
    bit_ext (bit_and (h * 2 ^ k + l) (m * 2 ^ k + n)) (bit_and h m * 2 ^ k + bit_and l n) λ i.
      ground (
        arith,
        bit-and (h * 2 ^ k + l) (m * 2 ^ k + n) i,
        bit-fields k h l i sl,
        bit-fields k m n i sn,
        bit-fields k (bit_and h m) (bit_and l n) i (bit_and-lt k l n sl),
        bit-and l n i,
        bit-and h m (i - k),
      )

-- A byte `n` times.
unfoldable pub rep : ℕ → ℕ → ℕ
rep c zero = 0
rep c (suc n) = rep c n * 2 ^ 8 + c

unfoldable pub pairs : ℕ → ℕ → ℕ
pairs m w = w - bit_and (w / 2 ^ 1) m

unfoldable pub quads : ℕ → ℕ → ℕ
quads m w = bit_and w m + bit_and (w / 2 ^ 2) m

unfoldable pub nibbles : ℕ → ℕ → ℕ
nibbles m w = bit_and (w + w / 2 ^ 4) m

bit_and-zero_right : (b : ℕ) → bit_and b 0 ≡ 0
bit_and-zero_right b = bit_ext (bit_and b 0) 0 λ i. ground (arith, bit-and b 0 i, bit-zero i)

-- What the stages do to a byte `l`, whatever the bits `t` are that the shift brings in.
abbrev pairs_test : ℕ → ℕ → Bool
pairs_test l t =
    (bit_and (t * 128 + l / 2) 0x55 == bit_and (l / 2) 0x55) && leb (bit_and (l / 2) 0x55) l

abbrev quads_test : ℕ → ℕ → Bool
quads_test l t =
    (bit_and (t * 64 + l / 4) 0x33 == bit_and (l / 4) 0x33)
    && leb (bit_and l 0x33 + bit_and (l / 4) 0x33) 102
    && leb ((bit_and l 0x33 + bit_and (l / 4) 0x33) % 16) 6

abbrev nibbles_test : ℕ → ℕ → Bool
nibbles_test l t = bit_and (l + (t * 16 + l / 16)) 0x0f == bit_and (l + l / 16) 0x0f

tables :
    (all_below 256 (λ l. all_below 2 (pairs_test l)) ≡ true)
    × (all_below 256 (λ l. all_below 4 (quads_test l)) ≡ true)
    × (all_below 103 (λ l. all_below 7 (nibbles_test l)) ≡ true)
unfolding all_below
tables = (refl, refl, refl)

at_table :
    (n m : ℕ) (test : ℕ → ℕ → Bool) (l t : ℕ)
    → all_below n (λ x. all_below m (test x)) ≡ true
    → l < n
    → t < m
    → test l t ≡ true
at_table n m test l t table hl ht =
    all_below_sound m (test l) t (all_below_sound n (λ x. all_below m (test x)) l table hl) ht

pairs-bytes :
    (n h l : ℕ)
    → l < 2 ^ 8
    → h < 2 ^ 64
    → pairs (rep 0x55 (suc n)) (h * 2 ^ 8 + l) ≡ pairs (rep 0x55 n) h * 2 ^ 8 + pairs 0x55 l
unfolding pairs rep
pairs-bytes n h l small big =
    let shift : (h * 2 ^ 8 + l) / 2 ^ 1 ≡ h / 2 ^ 1 * 2 ^ 8 + (h % 2 * 128 + l / 2) =
      omega (arith, small) in
    let fields =
      bit_and-fields 8 (h / 2 ^ 1) (h % 2 * 128 + l / 2) (rep 0x55 n) 0x55 (omega (arith, small))
        (omega arith) in
    let less = bit_and-le 64 (h / 2 ^ 1) (rep 0x55 n) (omega (arith, big)) in
    let table = at_table 256 2 pairs_test l (h % 2) tables.0 small (omega arith) in
    rw (shift, fields) (ground (arith, less, table))

quads-bytes :
    (n h l : ℕ)
    → l < 2 ^ 8
    → quads (rep 0x33 (suc n)) (h * 2 ^ 8 + l) ≡ quads (rep 0x33 n) h * 2 ^ 8 + quads 0x33 l
unfolding quads rep
quads-bytes n h l small =
    let shift : (h * 2 ^ 8 + l) / 2 ^ 2 ≡ h / 2 ^ 2 * 2 ^ 8 + (h % 4 * 64 + l / 4) =
      omega (arith, small) in
    let low = bit_and-fields 8 h l (rep 0x33 n) 0x33 small (omega arith) in
    let fields =
      bit_and-fields 8 (h / 2 ^ 2) (h % 4 * 64 + l / 4) (rep 0x33 n) 0x33 (omega (arith, small))
        (omega arith) in
    let table = at_table 256 4 quads_test l (h % 4) tables.1 small (omega arith) in
    rw (shift, fields, low) (ground (arith, table))

nibbles-bytes :
    (n h l : ℕ)
    → l ≤ 102
    → h % 16 ≤ 6
    → nibbles (rep 0x0f (suc n)) (h * 2 ^ 8 + l) ≡ nibbles (rep 0x0f n) h * 2 ^ 8 + nibbles 0x0f l
unfolding nibbles rep
nibbles-bytes n h l small low =
    let sum : h * 2 ^ 8 + l + (h * 2 ^ 8 + l) / 2 ^ 4
        ≡ (h + h / 2 ^ 4) * 2 ^ 8 + (l + (h % 16 * 16 + l / 16)) =
      omega (arith, small) in
    let fields =
      bit_and-fields 8 (h + h / 2 ^ 4) (l + (h % 16 * 16 + l / 16)) (rep 0x0f n) 0x0f
        (omega (arith, small, low)) (omega arith) in
    let table =
      at_table 103 7 nibbles_test l (h % 16) tables.2 (omega (arith, small)) (omega (arith, low)) in
    rw (sum, fields) (ground (arith, table))

-- The low nibble of every byte stays small enough for the sum of the last stage.
quads-low : (n x : ℕ) → quads (rep 0x33 n) x % 16 ≤ 6
unfolding quads rep
quads-low zero x = rw (bit_and-zero_right x, bit_and-zero_right (x / 2 ^ 2)) (omega arith)
quads-low (suc n) x =
    let l = x % 2 ^ 8 in
    let whole : x / 2 ^ 8 * 2 ^ 8 + l ≡ x = omega arith in
    let table = at_table 256 4 quads_test l 0 tables.1 (omega arith) (omega arith) in
    let bytes =
      ap (λ y. quads (rep 0x33 (suc n)) y) (sym whole)
      ∙ quads-bytes n (x / 2 ^ 8) l (omega arith) in
    ground (arith, bytes, table)

-- The three stages on `n` bytes.
unfoldable pub weigh : ℕ → ℕ → ℕ
unfolding pairs quads nibbles rep
weigh n w = nibbles (rep 0x0f n) (quads (rep 0x33 n) (pairs (rep 0x55 n) w))

pub weigh-zero : (w : ℕ) → weigh 0 w ≡ 0
unfolding weigh nibbles rep
weigh-zero w = bit_and-zero_right _

pub weigh-bytes :
    (n h l : ℕ)
    → l < 2 ^ 8
    → h < 2 ^ 64
    → weigh (suc n) (h * 2 ^ 8 + l) ≡ weigh n h * 2 ^ 8 + __sw_hweight8 l
unfolding weigh __sw_hweight8
weigh-bytes n h l small big =
    let l1 = pairs 0x55 l in
    let small1 : l1 < 2 ^ 8 = unfold pairs in omega (arith, small) in
    let table = at_table 256 4 quads_test l1 0 tables.1 small1 (omega arith) in
    let small2 : quads 0x33 l1 ≤ 102 = unfold quads in ground (arith, table) in
    ap (λ w. nibbles (rep 0x0f (suc n)) (quads (rep 0x33 (suc n)) w)) (pairs-bytes n h l small big)
    ∙ ap (nibbles (rep 0x0f (suc n))) (quads-bytes n (pairs (rep 0x55 n) h) l1 small1)
    ∙ nibbles-bytes n (quads (rep 0x33 n) (pairs (rep 0x55 n) h)) (quads 0x33 l1) small2
        (quads-low n (pairs (rep 0x55 n) h))
    ∙ unfold pairs quads nibbles in refl

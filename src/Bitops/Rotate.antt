-- ===== src/Bitops/Rotate.antt =====
-- include/ls/bitops.h: rotations and the extension of the sign. Words are unsigned; a rotation by 0 or
-- by the whole width would shift by the width, which is undefined behaviour.
use native.Mathlib.Nat.{div-lt_iff_lt-mul}
use libls.Bitops.Last.{bit-digit}
use libls.Prelude.{
  ℕ, ◌+◌, ◌-◌, ◌*◌, ◌/◌, ◌%◌, ◌^◌, ◌<◌, ◌≡◌, refl, ap, sym, ◌∙◌, true, ◌&&◌, min, bit_or, ◌==◌,
  ==→eq, ltb, leb, if◌then◌else◌, arith, all_below, all_below_sound, subst, Bool-cases, inl, inr,
}
use libls.Prelude.Bits.{
  bit, bit-or, bit-high, bit-mod, bit-mul, bit-div, bit-ones, bit_ext, bit-fields, bit_or-lt,
  mod-lt-pow, pow-pos,
}

-- `(word << shift) | (word >> (width - shift))` in a type of `width` bits, and the other way round.
abbrev pub rol : ℕ → ℕ → ℕ → ℕ
rol width word shift = bit_or (word * 2 ^ shift % 2 ^ width) (word / 2 ^ (width - shift))

abbrev ror : ℕ → ℕ → ℕ → ℕ
ror width word shift = bit_or (word / 2 ^ shift) (word * 2 ^ (width - shift) % 2 ^ width)

pub rol64 : ℕ → ℕ → ℕ
rol64 word shift = rol 64 word shift

pub ror64 : ℕ → ℕ → ℕ
ror64 word shift = ror 64 word shift

unfoldable pub rol32 : ℕ → ℕ → ℕ
rol32 word shift = rol 32 word shift

pub ror32 : ℕ → ℕ → ℕ
ror32 word shift = ror 32 word shift

pub rol16 : ℕ → ℕ → ℕ
rol16 word shift = rol 16 word shift

pub ror16 : ℕ → ℕ → ℕ
ror16 word shift = ror 16 word shift

pub rol8 : ℕ → ℕ → ℕ
rol8 word shift = rol 8 word shift

pub ror8 : ℕ → ℕ → ℕ
ror8 word shift = ror 8 word shift

-- `(__s32)x >> n`, as 32 bits: the sign comes in from the left.
abbrev asr32 : ℕ → ℕ → ℕ
asr32 x n = if leb (2 ^ 31) x then x / 2 ^ n + (2 ^ n - 1) * 2 ^ (32 - n) else x / 2 ^ n

pub sign_extend32 : ℕ → ℕ → ℕ
sign_extend32 value index =
    let shift = (31 - index) % 2 ^ 8 in asr32 (value * 2 ^ shift % 2 ^ 32) shift

module _ (width word shift : ℕ) (small : word < 2 ^ width) (pos : 0 < shift)
    (less : shift < width) where
  bit-rol :
      (i : ℕ)
      → bit (rol width word shift) i
        ≡ (ltb i width && bit word (if ltb i shift then i + width - shift else i - shift))
  bit-rol i = ground (
    arith,
    bit-or (word * 2 ^ shift % 2 ^ width) (word / 2 ^ (width - shift)) i,
    bit-mod width (word * 2 ^ shift) i,
    bit-mul shift word i,
    bit-div (width - shift) word i,
    bit-high width word (i + (width - shift)) small,
  )

  bit-ror :
      (i : ℕ)
      → bit (ror width word shift) i
        ≡ (ltb i width && bit word (if ltb i (width - shift) then i + shift else i + shift - width))
  bit-ror i =
      let same : i - (width - shift) ≡ i + shift - width = omega arith in
      ground (
        arith,
        bit-or (word / 2 ^ shift) (word * 2 ^ (width - shift) % 2 ^ width) i,
        bit-mod width (word * 2 ^ (width - shift)) i,
        bit-mul (width - shift) word i,
        bit-div shift word i,
        bit-high width word (i + shift) small,
        ap (bit word) same,
      )

div-lt : (width k word : ℕ) → word < 2 ^ width → word / 2 ^ k < 2 ^ width
div-lt width k word h = grind (arith, pow-pos k)

pub rol-lt : (width word shift : ℕ) → word < 2 ^ width → rol width word shift < 2 ^ width
rol-lt width word shift h =
    bit_or-lt width (word * 2 ^ shift % 2 ^ width) (word / 2 ^ (width - shift)) (mod-lt-pow width _)
      (div-lt width (width - shift) word h)

ror-rol :
    (width word shift : ℕ)
    → word < 2 ^ width
    → 0 < shift
    → shift < width
    → ror width (rol width word shift) shift ≡ word
ror-rol width word shift small pos less = bit_ext _ _ λ i.
    let turned = rol width word shift in
    let a = bit-ror width turned shift (rol-lt width word shift small) pos less i in
    let b = bit-rol width word shift small pos less (i + shift) in
    let c = bit-rol width word shift small pos less (i + shift - width) in
    let back : i + shift - shift ≡ i = omega arith in
    elim (Bool-cases (ltb i (width - shift))) [
      | inl near ↦ ground (arith, a, b, ap (bit word) back)
      | inr far ↦ elim (Bool-cases (ltb i width)) [
        | inl inside ↦
            let round : i + shift - width + width - shift ≡ i = ground arith in
            ground (arith, a, c, ap (bit word) round)
        | inr out ↦ ground (arith, a, bit-high width word i small)
      ]
    ]

-- A word of a type and a shift of at least one, below the width of the type.
abbrev pub IsTurn : ℕ → ℕ → ℕ → Type 0
IsTurn width word shift = (word < 2 ^ width) × (0 < shift) × (shift < width)

-- For a shift of at least one and below the width, the rotation to the right undoes the rotation to
-- the left by as much, in each of the four widths.
pub ror64-rol64 :
    (w64 s64 w32 s32 w16 s16 w8 s8 : ℕ)
    → IsTurn 64 w64 s64
    → IsTurn 32 w32 s32
    → IsTurn 16 w16 s16
    → IsTurn 8 w8 s8
    → (ror64 (rol64 w64 s64) s64 ≡ w64)
      × (ror32 (rol32 w32 s32) s32 ≡ w32)
      × (ror16 (rol16 w16 s16) s16 ≡ w16)
      × (ror8 (rol8 w8 s8) s8 ≡ w8)
unfolding ror64 rol64 ror32 rol32 ror16 rol16 ror8 rol8
ror64-rol64 w64 s64 w32 s32 w16 s16 w8 s8 a b c d = (
  ror-rol 64 w64 s64 a.0 a.1 a.2,
  ror-rol 32 w32 s32 b.0 b.1 b.2,
  ror-rol 16 w16 s16 c.0 c.1 c.2,
  ror-rol 8 w8 s8 d.0 d.1 d.2,
)

power_table : all_below 32 (λ n. 2 ^ (32 - n) * 2 ^ n == 2 ^ 32) ≡ true
unfolding all_below
power_table = refl

shifted-lt : (x n : ℕ) → x < 2 ^ 32 → n < 32 → x / 2 ^ n < 2 ^ (32 - n)
shifted-lt x n h s =
    let e : 2 ^ (32 - n) * 2 ^ n ≡ 2 ^ 32 =
      ==→eq _ _ (all_below_sound 32 (λ m. 2 ^ (32 - m) * 2 ^ m == 2 ^ 32) n power_table s) in
    (div-lt_iff_lt-mul (pow-pos n)).1 (subst (λ t. x < t) (sym e) h)

sign_bit : (x : ℕ) → x < 2 ^ 32 → leb (2 ^ 31) x ≡ bit x 31
sign_bit x h = ground (arith, bit-digit 31 x)

bit-asr32 : (x n i : ℕ) → x < 2 ^ 32 → n < 32 → i < 32 → bit (asr32 x n) i ≡ bit x (min (i + n) 31)
bit-asr32 x n i h s l =
    let k = 32 - n in
    let r = x / 2 ^ n in
    let sign = sign_bit x h in
    let low = bit-div n x i in
    let swap : r + (2 ^ n - 1) * 2 ^ k ≡ (2 ^ n - 1) * 2 ^ k + r = omega arith in
    elim (Bool-cases (ltb (i + n) 31)) [
      | inl inside ↦
          let e : min (i + n) 31 ≡ i + n = ground arith in
          ground (
            arith,
            low,
            bit-fields k (2 ^ n - 1) r i (shifted-lt x n h s),
            ap (λ t. bit t i) swap,
            ap (bit x) e,
          )
      | inr out ↦
          let e : min (i + n) 31 ≡ 31 = ground arith in
          let fields = bit-fields k (2 ^ n - 1) r i (shifted-lt x n h s) in
          let ones = bit-ones n (i - k) in
          elim (Bool-cases (i + n == 31)) [
            | inl top ↦
                let f = ap (bit x) (==→eq (i + n) 31 top) in
                ground (arith, low, fields, ones, ap (λ t. bit t i) swap, ap (bit x) e, f)
            | inr above ↦ ground (
              arith,
              low,
              fields,
              ones,
              ap (λ t. bit t i) swap,
              ap (bit x) e,
              bit-high 32 x (i + n) h,
            )
          ]
    ]

-- For a 32-bit value and the index of its sign bit, `sign_extend32` keeps the bits up to that index and
-- repeats that bit in all the bits above.
pub bit-sign_extend32 :
    (value index i : ℕ)
    → value < 2 ^ 32
    → index < 32
    → i < 32
    → bit (sign_extend32 value index) i ≡ bit value (min i index)
unfolding sign_extend32
bit-sign_extend32 value index i h s l =
    let e : (31 - index) % 2 ^ 8 ≡ 31 - index = omega arith in
    let j = min (i + (31 - index)) 31 in
    let back : j - (31 - index) ≡ min i index = omega arith in
    rw e (
      bit-asr32 (value * 2 ^ (31 - index) % 2 ^ 32) (31 - index) i (omega arith) (omega arith) l
      ∙ ground (
        arith,
        bit-mod 32 (value * 2 ^ (31 - index)) j,
        bit-mul (31 - index) value j,
        ap (bit value) back,
      ))

pub rol32-lt : (word shift : ℕ) → word < 2 ^ 32 → rol32 word shift < 2 ^ 32
unfolding rol32
rol32-lt word shift h = rol-lt 32 word shift h

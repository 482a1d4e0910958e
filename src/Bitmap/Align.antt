-- ===== src/Bitmap/Align.antt =====
-- `__ALIGN_MASK`.
use native.Mathlib.Nat.{div-add-mod', mod-lt, mul-le-mul_right, suc-mul}
use libls.Prelude.{
  ℕ, suc, ◌+◌, ◌-◌, ◌*◌, ◌/◌, ◌%◌, ◌^◌, ◌<◌, ◌≤◌, ◌≡◌, refl, ap, sym, ◌∙◌, subst, bit_and, le_or_lt,
  arith, inl, inr,
}
use libls.Prelude.Bits.{bit, bit-and, bit-div, bit-mul, bit-ones, bit-high, bit_ext, pow-pos}
use libls.Bitops.{IsWord, not64}
use libls.Bitops.Zero.{bit-not64}
use libls.Bitmap.{align_mask}

-- The mask `2 ^ a - 1` clears the low `a` bits.
clear_low :
    (a y : ℕ) → y < 2 ^ 64 → 2 ^ a ≤ 2 ^ 64 → bit_and y (not64 (2 ^ a - 1)) ≡ y / 2 ^ a * 2 ^ a
clear_low a y h small = bit_ext (bit_and y (not64 (2 ^ a - 1))) (y / 2 ^ a * 2 ^ a) λ k.
    let m : IsWord (2 ^ a - 1) = omega (arith, small) in
    let masked = bit-and y (not64 (2 ^ a - 1)) k in
    let inverse = bit-not64 (2 ^ a - 1) k m in
    let mul = bit-mul a (y / 2 ^ a) k in
    elim (le_or_lt a k) [
      | inl le ↦
          let back : k - a + a ≡ k = omega (arith, le) in
          ground (
            arith,
            masked,
            inverse,
            mul,
            bit-ones a k,
            bit-div a y (k - a),
            ap (bit y) back,
            bit-high 64 y k h,
          )
      | inr lt ↦ ground (arith, masked, inverse, mul, bit-ones a k)
    ]

-- The multiples of `2 ^ a`.
abbrev pub Aligned : ℕ → ℕ → Type 0
Aligned a q = (k : ℕ) × (q ≡ k * 2 ^ a)

-- `up` is the least multiple of `2 ^ a` from `x` on.
pub record AlignsUp (a x up : ℕ) : Type 0 where
  pub aligned : Aligned a up
  pub above : x ≤ up
  pub near : up < x + 2 ^ a
  pub least : (q : ℕ) → x ≤ q → Aligned a q → up ≤ q

align_up : (a x : ℕ) → AlignsUp a x ((x + (2 ^ a - 1)) / 2 ^ a * 2 ^ a)
align_up a x =
    let n = x + (2 ^ a - 1) in
    let p = pow-pos a in
    let division = div-add-mod' n (2 ^ a) in
    let rest = mod-lt n p in
    record {
      aligned = (n / 2 ^ a, refl);
      above = omega (arith, p, division, rest);
      near = omega (arith, p, division, rest);
      least = λ q h al. elim (le_or_lt (n / 2 ^ a) al.0) [
        | inl le ↦ omega (arith, al.1, mul-le-mul_right (2 ^ a) le)
        | inr lt ↦
            let more : suc al.0 ≤ n / 2 ^ a = omega (arith, lt) in
            absurd (
              omega (
                arith,
                p,
                h,
                division,
                rest,
                al.1,
                mul-le-mul_right (2 ^ a) more,
                suc-mul al.0 (2 ^ a),
              ))
      ];
    }

pub align_mask-AlignsUp : (a x : ℕ) → x + 2 ^ a ≤ 2 ^ 64 → AlignsUp a x (align_mask x (2 ^ a - 1))
align_mask-AlignsUp a x h =
    let p = pow-pos a in
    let whole : (x + (2 ^ a - 1)) % 2 ^ 64 ≡ x + (2 ^ a - 1) = omega (arith, h, p) in
    let cleared = clear_low a (x + (2 ^ a - 1)) (omega (arith, h, p)) (omega (arith, h)) in
    subst (AlignsUp a x) (sym (ap (λ y. bit_and y (not64 (2 ^ a - 1))) whole ∙ cleared))
      (align_up a x)

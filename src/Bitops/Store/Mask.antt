-- ===== src/Bitops/Store/Mask.antt =====
-- The three operations on a word, by their bits.
use mathlib.Core.Bool.{not, xor}
use libls.Prelude.{
  ℕ, zero, suc, ◌-◌, ◌*◌, ◌%◌, ◌^◌, ◌<◌, ◌≡◌, ap, Bool, true, false, ◌&&◌, bit_and, bit_or, bit_xor,
  ◌==◌, ==→eq, if◌then◌else◌, arith, Bool-cases, inl, inr,
}
use libls.Prelude.Bits.{
  bit, bit-zero, bit-and, bit-or, bit-xor, bit-mod, bit-mul, bit-ones, bit_ext, bit_and-lt,
  bit_or-lt, bit_xor-lt,
}
use libls.Bitops.{IsWord, not64}
use libls.Bitops.Zero.{bit-not64}
use libls.Bitops.Store.{bit_mask}

bit-one : (i : ℕ) → bit 1 i ≡ (i == 0)
bit-one i = ground (arith, bit-ones 1 i)

pub bit-mask : (nr k : ℕ) → bit (bit_mask nr) k ≡ (k == nr % 64)
bit-mask nr k =
    ground (arith, bit-mod 64 (1 * 2 ^ (nr % 64)) k, bit-mul (nr % 64) 1 k, bit-one (k - nr % 64))

pub bit_and-one : (x : ℕ) → bit_and 1 x ≡ (if bit x 0 then 1 else 0)
bit_and-one x = elim (Bool-cases (bit x 0)) [
  | inl e ↦ rw e (bit_ext _ _ λ k. low k (bit-and 1 x k) (bit-one k) e)
  | inr e ↦ rw e (bit_ext _ _ λ k. none_set k (bit-and 1 x k) (bit-one k) e)
]
  where
    low :
        (k : ℕ)
        → bit (bit_and 1 x) k ≡ (bit 1 k && bit x k)
        → bit 1 k ≡ (k == 0)
        → bit x 0 ≡ true
        → bit (bit_and 1 x) k ≡ bit 1 k
    low zero e f g = ground arith
    low (suc k) e f g = ground arith

    none_set :
        (k : ℕ)
        → bit (bit_and 1 x) k ≡ (bit 1 k && bit x k)
        → bit 1 k ≡ (k == 0)
        → bit x 0 ≡ false
        → bit (bit_and 1 x) k ≡ bit 0 k
    none_set zero e f g = ground (arith, bit-zero 0)
    none_set (suc k) e f g = ground (arith, bit-zero (suc k))

mask-IsWord : (nr : ℕ) → IsWord (bit_mask nr)
mask-IsWord nr = omega arith

-- The operation on the word changes its bit `i` by `g`, and no other.
pub record Changes (op : ℕ → ℕ) (g : Bool → Bool) (i : ℕ) : Type 0 where
  pub keeps : (w : ℕ) → IsWord w → IsWord (op w)
  pub at : (w k : ℕ) → IsWord w → k < 64 → bit (op w) k ≡ (if k == i then g (bit w i) else bit w k)

pub set-Changes : (nr : ℕ) → Changes (λ p. bit_or p (bit_mask nr)) (λ b. true) (nr % 64)
set-Changes nr = record {
  keeps = λ w h. bit_or-lt 64 w (bit_mask nr) h (mask-IsWord nr);
  at = λ w k h s. ground (arith, bit-or w (bit_mask nr) k, bit-mask nr k);
}

pub clear-Changes : (nr : ℕ) → Changes (λ p. bit_and p (not64 (bit_mask nr))) (λ b. false) (nr % 64)
clear-Changes nr = record {
  keeps = λ w h. bit_and-lt 64 w (not64 (bit_mask nr)) h;
  at = λ w k h s. ground (
    arith,
    bit-and w (not64 (bit_mask nr)) k,
    bit-not64 (bit_mask nr) k (mask-IsWord nr),
    bit-mask nr k,
  );
}

pub change-Changes : (nr : ℕ) → Changes (λ p. bit_xor p (bit_mask nr)) not (nr % 64)
unfolding xor
change-Changes nr = record {
  keeps = λ w h. bit_xor-lt 64 w (bit_mask nr) h (mask-IsWord nr);
  at = λ w k h s. changed w k (bit-xor w (bit_mask nr) k) (bit-mask nr k);
}
  where
    changed :
        (w k : ℕ)
        → bit (bit_xor w (bit_mask nr)) k ≡ xor (bit w k) (bit (bit_mask nr) k)
        → bit (bit_mask nr) k ≡ (k == nr % 64)
        → bit (bit_xor w (bit_mask nr)) k
          ≡ (if k == nr % 64 then not (bit w (nr % 64)) else bit w k)
    changed w k e m = elim (Bool-cases (k == nr % 64)) [
      | inl same ↦ ground (arith, ap (bit w) (==→eq k (nr % 64) same))
      | inr other ↦ ground arith
    ]

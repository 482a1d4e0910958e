-- ===== src/Bitops/Store.antt =====
-- include/ls/bitops/non-atomic.h: one bit of a region is set, cleared, changed or tested.
pub mod Mask
pub mod Region
use mathlib.Core.Bool.{not, xor}
use mathlib.Core.Option
use libls.Prelude.{
  ℕ, zero, suc, ◌+◌, ◌-◌, ◌*◌, ◌/◌, ◌%◌, ◌^◌, ◌<◌, ◌≤◌, ◌≡◌, refl, ap, sym, subst, ◌∙◌, Bool, true,
  false, ◌&&◌, ◌||◌, Option, none, some, List, [], ◌∷◌, length, get_elem?, set, All, bit_and,
  bit_or, bit_xor, ◌==◌, ==→eq, ltb, leb, if◌then◌else◌, arith, Bool-cases, inl, inr, ◌⊎◌,
}
use libls.Prelude.Bits.{
  bit, bit-zero, bit-and, bit-or, bit-xor, bit-high, bit-mod, bit-mul, bit-ones, bit_ext, bit-div,
  bit_and-lt, bit_or-lt, bit_xor-lt,
}
use libls.Bitops.{IsWord, all_ones, not64, shl64}
use libls.Bitops.First.{bit_at}
use libls.Bitops.Zero.{bit-not64}
use libls.Bitops.Last.{bit_at-get, get-some}

abbrev pub bit_mask : ℕ → ℕ
bit_mask nr = shl64 1 (nr % 64)

-- `*p = ...` at the word of bit `nr`.
abbrev pub store : (ℕ → ℕ) → ℕ → List ℕ → Option (List ℕ)
store op nr addr = Option.map (λ old. set addr (nr / 64) (op old)) (get_elem? addr (nr / 64))

pub __set_bit : ℕ → List ℕ → Option (List ℕ)
__set_bit nr addr = store (λ p. bit_or p (bit_mask nr)) nr addr

pub __clear_bit : ℕ → List ℕ → Option (List ℕ)
__clear_bit nr addr = store (λ p. bit_and p (not64 (bit_mask nr))) nr addr

pub __change_bit : ℕ → List ℕ → Option (List ℕ)
__change_bit nr addr = store (λ p. bit_xor p (bit_mask nr)) nr addr

-- With `(old & mask) != 0`.
abbrev pub test_and : (ℕ → ℕ) → ℕ → List ℕ → Option (List ℕ × Bool)
test_and op nr addr =
    Option.map (λ old. (set addr (nr / 64) (op old), not (bit_and old (bit_mask nr) == 0)))
      (get_elem? addr (nr / 64))

pub __test_and_set_bit : ℕ → List ℕ → Option (List ℕ × Bool)
__test_and_set_bit nr addr = test_and (λ old. bit_or old (bit_mask nr)) nr addr

pub __test_and_clear_bit : ℕ → List ℕ → Option (List ℕ × Bool)
__test_and_clear_bit nr addr = test_and (λ old. bit_and old (not64 (bit_mask nr))) nr addr

pub __test_and_change_bit : ℕ → List ℕ → Option (List ℕ × Bool)
__test_and_change_bit nr addr = test_and (λ old. bit_xor old (bit_mask nr)) nr addr

pub test_bit : ℕ → List ℕ → Option ℕ
test_bit nr addr = Option.map (λ w. bit_and 1 (w / 2 ^ (nr % 64))) (get_elem? addr (nr / 64))

-- ===== src/Prelude/Bits.antt =====
-- Binary digits of machine words, and the laws of `&`, `|` and `^` at variables.
mod Step
use Step.{bit_and_step, bit_or_step, bit_xor_step}
use Prim.Native.Nat.{ℕ, zero, suc, ◌+◌, ◌-◌, ◌*◌, ◌/◌, ◌%◌, ◌^◌, ◌≤◌, ◌<◌, bit_and, bit_or}
use Prim.Native.Nat.{bit_xor, min, max, differ}
use native.Mathlib.Nat.{pow-suc, one-le-pow}
use mathlib.Core.Path.{◌≡◌, refl, ◌∙◌, sym, ap}
use mathlib.Core.Bool.{Bool, true, false, not, ◌&&◌, ◌||◌, xor}
use mathlib.Core.Logic.{◌⊎◌, inl, inr}
use native.Mathlib.Omega.{arith}
use libls.Prelude.Tests.{◌==◌, ltb, if◌then◌else◌}

-- Digit `i` of `x` is one.
unfoldable pub bit : ℕ → ℕ → Bool
bit x zero = x % 2 == 1
bit x (suc i) = bit (x / 2) i

pub bit-zero : (i : ℕ) → bit 0 i ≡ false
unfolding bit
bit-zero zero = refl
bit-zero (suc i) = bit-zero i

pub bit-and : (a b i : ℕ) → bit (bit_and a b) i ≡ (bit a i && bit b i)
unfolding bit
bit-and a b zero = ground (arith, bit_and_step a b)
bit-and a b (suc i) =
    let e : bit_and a b / 2 ≡ bit_and (a / 2) (b / 2) = omega (arith, bit_and_step a b) in
    rw e (bit-and (a / 2) (b / 2) i)

pub bit-or : (a b i : ℕ) → bit (bit_or a b) i ≡ (bit a i || bit b i)
unfolding bit
bit-or a b zero = ground (arith, bit_or_step a b)
bit-or a b (suc i) =
    let e : bit_or a b / 2 ≡ bit_or (a / 2) (b / 2) = omega (arith, bit_or_step a b) in
    rw e (bit-or (a / 2) (b / 2) i)

digit_cases : (n : ℕ) → (n % 2 ≡ 0) ⊎ (n % 2 ≡ 1)
digit_cases n = omega arith

differ_digit : (a b : ℕ) → differ (a % 2) (b % 2) ≡ (a + b) % 2
differ_digit a b = elim (digit_cases a) [
  | inl p ↦ elim (digit_cases b) [
    | inl q ↦ rw (p, q) (omega arith)
    | inr q ↦ rw (p, q) (omega arith)
  ]
  | inr p ↦ elim (digit_cases b) [
    | inl q ↦ rw (p, q) (omega arith)
    | inr q ↦ rw (p, q) (omega arith)
  ]
]

pub bit-xor : (a b i : ℕ) → bit (bit_xor a b) i ≡ xor (bit a i) (bit b i)
unfolding bit xor
bit-xor a b zero = ground (arith, bit_xor_step a b, differ_digit a b)
bit-xor a b (suc i) =
    let e : bit_xor a b / 2 ≡ bit_xor (a / 2) (b / 2) =
      omega (arith, bit_xor_step a b, differ_digit a b) in
    rw e (bit-xor (a / 2) (b / 2) i)

-- A number is given by its digits.
bit_ext_fuel : (n a b : ℕ) → a ≤ n → b ≤ n → ((i : ℕ) → bit a i ≡ bit b i) → a ≡ b
unfolding bit
bit_ext_fuel zero a b p q h = omega arith
bit_ext_fuel (suc n) a b p q h =
    ground (arith, h 0, bit_ext_fuel n (a / 2) (b / 2) (omega arith) (omega arith) (λ i. h (suc i)))

pub bit_ext : (a b : ℕ) → ((i : ℕ) → bit a i ≡ bit b i) → a ≡ b
bit_ext a b h = bit_ext_fuel (a + b) a b (omega arith) (omega arith) h

bit_and-zero : (b : ℕ) → bit_and 0 b ≡ 0
bit_and-zero b = bit_ext (bit_and 0 b) 0 (λ i. bit-and 0 b i ∙ rw bit-zero)

-- Bounds at every width.
pub half-lt : (k x : ℕ) → x < 2 ^ suc k → x / 2 < 2 ^ k
half-lt k x h = omega (arith, pow-suc 2 k)

pub bit_and-lt : (k a b : ℕ) → a < 2 ^ k → bit_and a b < 2 ^ k
bit_and-lt zero a b h = let e : a ≡ 0 = omega arith in rw (e, bit_and-zero) (omega arith)
bit_and-lt (suc k) a b h =
    omega (arith, pow-suc 2 k, bit_and_step a b, bit_and-lt k (a / 2) (b / 2) (half-lt k a h))

pub bit_and-le : (k a b : ℕ) → a < 2 ^ k → bit_and a b ≤ a
bit_and-le zero a b h = let e : a ≡ 0 = omega arith in rw (e, bit_and-zero) (omega arith)
bit_and-le (suc k) a b h =
    omega (arith, bit_and_step a b, bit_and-le k (a / 2) (b / 2) (half-lt k a h))

pub bit_or-lt : (k a b : ℕ) → a < 2 ^ k → b < 2 ^ k → bit_or a b < 2 ^ k
bit_or-lt zero a b h g =
    let e : a ≡ 0 = omega arith in let f : b ≡ 0 = omega arith in rw (e, f) (omega arith)
bit_or-lt (suc k) a b h g = omega (
  arith,
  pow-suc 2 k,
  bit_or_step a b,
  bit_or-lt k (a / 2) (b / 2) (half-lt k a h) (half-lt k b g),
)

pub bit_xor-lt : (k a b : ℕ) → a < 2 ^ k → b < 2 ^ k → bit_xor a b < 2 ^ k
bit_xor-lt zero a b h g =
    let e : a ≡ 0 = omega arith in let f : b ≡ 0 = omega arith in rw (e, f) (omega arith)
bit_xor-lt (suc k) a b h g = omega (
  arith,
  pow-suc 2 k,
  bit_xor_step a b,
  differ_digit a b,
  bit_xor-lt k (a / 2) (b / 2) (half-lt k a h) (half-lt k b g),
)

-- A word of a high field `q` above `k` digits of a low field `r`.
pub mul-two-pow : (q k : ℕ) → q * 2 ^ suc k ≡ q * 2 ^ k * 2
mul-two-pow q k = rw (pow-suc 2 k) (omega arith)

pub bit-fields :
    (k q r i : ℕ) → r < 2 ^ k → bit (q * 2 ^ k + r) i ≡ (if ltb i k then bit r i else bit q (i - k))
unfolding bit
bit-fields zero q r i h =
    let e : q * 2 ^ 0 + r ≡ q = omega arith in
    let f : i - 0 ≡ i = omega arith in rw (e, f) (ground arith)
bit-fields (suc k) q r zero h = ground (arith, mul-two-pow q k)
bit-fields (suc k) q r (suc i) h =
    let e : (q * 2 ^ suc k + r) / 2 ≡ q * 2 ^ k + r / 2 = omega (arith, mul-two-pow q k) in
    let f : suc i - suc k ≡ i - k = omega arith in
    rw (e, f) (ground (arith, bit-fields k q (r / 2) i (half-lt k r h)))

pub pow-pos : (k : ℕ) → 0 < 2 ^ k
pow-pos k = one-le-pow k 2 (omega arith)

pub mod-lt-pow : (k x : ℕ) → x % 2 ^ k < 2 ^ k
mod-lt-pow k x = omega (arith, pow-pos k)

bit-split : (k x i : ℕ) → bit x i ≡ (if ltb i k then bit (x % 2 ^ k) i else bit (x / 2 ^ k) (i - k))
bit-split k x i =
    let e : x / 2 ^ k * 2 ^ k + x % 2 ^ k ≡ x = omega arith in
    ap (λ t. bit t i) (sym e) ∙ bit-fields k (x / 2 ^ k) (x % 2 ^ k) i (mod-lt-pow k x)

-- A number below `2 ^ k` has no digit from `k` on.
pub bit-high : (k r i : ℕ) → r < 2 ^ k → k ≤ i → bit r i ≡ false
bit-high k r i h p =
    let e : 0 * 2 ^ k + r ≡ r = omega arith in
    ap (λ t. bit t i) (sym e) ∙ bit-fields k 0 r i h ∙ ground (arith, bit-zero (i - k))

pub bit-mod : (k x i : ℕ) → bit (x % 2 ^ k) i ≡ (ltb i k && bit x i)
bit-mod k x i = ground (arith, bit-split k x i, bit-high k (x % 2 ^ k) i (mod-lt-pow k x))

pub bit-div : (k x i : ℕ) → bit (x / 2 ^ k) i ≡ bit x (i + k)
bit-div k x i =
    let e : i + k - k ≡ i = omega arith in
    ap (λ t. bit (x / 2 ^ k) t) (sym e) ∙ ground (arith, bit-split k x (i + k))

pub bit-mul : (k x i : ℕ) → bit (x * 2 ^ k) i ≡ (if ltb i k then false else bit x (i - k))
bit-mul k x i =
    let e : x * 2 ^ k + 0 ≡ x * 2 ^ k = omega arith in
    ap (λ t. bit t i) (sym e) ∙ ground (arith, bit-fields k x 0 i (pow-pos k), bit-zero i)

pub bit-ones : (k i : ℕ) → bit (2 ^ k - 1) i ≡ ltb i k
unfolding bit
bit-ones zero i = ground (arith, bit-zero i)
bit-ones (suc k) zero = ground (arith, pow-suc 2 k, pow-pos k)
bit-ones (suc k) (suc i) =
    let e : (2 ^ suc k - 1) / 2 ≡ 2 ^ k - 1 = omega (arith, pow-suc 2 k, pow-pos k) in
    rw e (ground (arith, bit-ones k i))

-- `x & (2 ^ k - 1)` is a remainder, and `|` of fields that do not overlap is a sum.
pub bit_and-ones : (k x : ℕ) → bit_and x (2 ^ k - 1) ≡ x % 2 ^ k
bit_and-ones k x =
    bit_ext _ _ λ i. ground (arith, bit-and x (2 ^ k - 1) i, bit-ones k i, bit-mod k x i)

pub bit_or-add : (k q r : ℕ) → r < 2 ^ k → bit_or (q * 2 ^ k) r ≡ q * 2 ^ k + r
bit_or-add k q r h = bit_ext _ _ λ i.
    ground (arith, bit-or (q * 2 ^ k) r i, bit-mul k q i, bit-fields k q r i h, bit-high k r i h)

pub bit_xor_cancel : (a b : ℕ) → bit_xor (bit_xor a b) b ≡ a
unfolding xor
bit_xor_cancel a b = bit_ext _ _ λ i. ground (arith, bit-xor (bit_xor a b) b i, bit-xor a b i)

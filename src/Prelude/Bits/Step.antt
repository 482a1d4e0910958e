-- ===== src/Prelude/Bits/Step.antt =====
-- One equation for the lowest digit of `&`, `|` and `^`: the native operations stand for a digit
-- recursion with fuel, and here the fuel is dropped.
use Prim.Native.Nat.{ℕ, zero, suc, ◌+◌, ◌*◌, ◌/◌, ◌%◌, ◌≤◌, min, max, digits, differ}
use Prim.Native.Nat.{bit_and, bit_or, bit_xor, bit_and-bitwise, bit_or-bitwise, bit_xor-bitwise}
use mathlib.Core.Path.{◌≡◌, refl}
use native.Mathlib.Omega.{arith}

module _ (last : ℕ → ℕ) (one : ℕ → ℕ → ℕ) where
  abbrev go : ℕ → ℕ → ℕ → ℕ
  go fuel x y = digits last one fuel x y

  -- Fuel of at least the first number is as good as any other.
  go_fuel : (fuel more x y : ℕ) → x ≤ more → x ≤ fuel → go fuel x y ≡ go more x y
  go_fuel (suc fuel) (suc more) (suc x) y small low =
      omega (arith, go_fuel fuel more (suc x / 2) (y / 2) (omega arith) (omega arith))
  go_fuel (suc fuel) (suc more) zero y small low = refl
  go_fuel zero (suc more) zero y small low = refl
  go_fuel (suc fuel) zero zero y small low = refl
  go_fuel zero zero zero y small low = refl
  go_fuel zero more (suc x) y small low = absurd (omega arith)
  go_fuel (suc fuel) zero (suc x) y small low = absurd (omega arith)

  go_step :
      (x y : ℕ)
      → go (suc x) (suc x) y ≡ one (suc x % 2) (y % 2) + 2 * go (suc x / 2) (suc x / 2) (y / 2)
  go_step x y = omega (arith, go_fuel x (suc x / 2) (suc x / 2) (y / 2) (omega arith) (omega arith))

pub bit_xor_step : (x z : ℕ) → bit_xor x z ≡ differ (x % 2) (z % 2) + 2 * bit_xor (x / 2) (z / 2)
bit_xor_step zero z = simp bit_xor-bitwise (omega arith)
bit_xor_step (suc x) z = simp bit_xor-bitwise (go_step (λ d. d) differ x z)

pub bit_and_step : (x z : ℕ) → bit_and x z ≡ min (x % 2) (z % 2) + 2 * bit_and (x / 2) (z / 2)
bit_and_step zero z = simp bit_and-bitwise (omega arith)
bit_and_step (suc x) z = simp bit_and-bitwise (go_step (λ d. 0) min x z)

pub bit_or_step : (x z : ℕ) → bit_or x z ≡ max (x % 2) (z % 2) + 2 * bit_or (x / 2) (z / 2)
bit_or_step zero z = simp bit_or-bitwise (omega arith)
bit_or_step (suc x) z = simp bit_or-bitwise (go_step (λ d. d) max x z)

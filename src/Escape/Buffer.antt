-- ===== src/Escape/Buffer.antt =====
-- A buffer that is written behind the place where it is read.
use libls.Prelude.{
  ℕ, zero, suc, ◌<◌, ◌≡◌, refl, ap, some, List, [], ◌∷◌, ◌++◌, arith, length, get_elem?, set, take,
  drop,
}

module _ {ℓ} {A : Type ℓ} where
  pub get_elem?-drop :
      (xs : List A) (i : ℕ) {c : A} {r : List A} → drop i xs ≡ c ∷ r → get_elem? xs i ≡ some c
  get_elem?-drop [] zero h = cc
  get_elem?-drop [] (suc i) h = cc
  get_elem?-drop (x ∷ xs) zero h = cc
  get_elem?-drop (x ∷ xs) (suc i) h = get_elem?-drop xs i h

  pub drop-suc :
      (xs : List A) (i : ℕ) {c : A} {r : List A} → drop i xs ≡ c ∷ r → drop (suc i) xs ≡ r
  drop-suc [] zero h = cc
  drop-suc [] (suc i) h = cc
  drop-suc (x ∷ xs) zero h = cc
  drop-suc (x ∷ xs) (suc i) h = drop-suc xs i h

  pub lt_of_drop : (xs : List A) (i : ℕ) {c : A} {r : List A} → drop i xs ≡ c ∷ r → i < length xs
  lt_of_drop [] zero h = cc
  lt_of_drop [] (suc i) h = cc
  lt_of_drop (x ∷ xs) zero h = omega arith
  lt_of_drop (x ∷ xs) (suc i) h = omega (arith, lt_of_drop xs i h)

  -- What is read later is not touched by a write before it.
  pub drop-set : (xs : List A) (i j : ℕ) (v : A) → i < j → drop j (set xs i v) ≡ drop j xs
  drop-set [] i j v h = refl
  drop-set (x ∷ xs) zero zero v h = absurd (omega arith)
  drop-set (x ∷ xs) zero (suc j) v h = refl
  drop-set (x ∷ xs) (suc i) zero v h = absurd (omega arith)
  drop-set (x ∷ xs) (suc i) (suc j) v h = drop-set xs i j v (omega arith)

  pub take-set :
      (xs : List A) (i : ℕ) (v : A)
      → i < length xs
      → take (suc i) (set xs i v) ≡ take i xs ++ v ∷ []
  take-set [] i v h = absurd (omega arith)
  take-set (x ∷ xs) zero v h = refl
  take-set (x ∷ xs) (suc i) v h = ap (λ t. x ∷ t) (take-set xs i v (omega arith))

  pub set_same : (xs : List A) (i : ℕ) {v : A} → get_elem? xs i ≡ some v → set xs i v ≡ xs
  set_same [] i h = refl
  set_same (x ∷ xs) zero h = cc
  set_same (x ∷ xs) (suc i) h = ap (λ t. x ∷ t) (set_same xs i h)

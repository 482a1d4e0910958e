-- ===== src/Rbtree/Search/Sorted.antt =====
-- Addresses in the order of their keys, and the dictionary that the search tree stands for: the keys are
-- distinct, a new address goes to the place of its key.
use libls.Prelude.{
  ℕ, ◌<◌, ◌≤◌, ◌⊎◌, ◌≡◌, refl, Option, none, some, List, [], ◌∷◌, ◌++◌, All, All-append, All-split,
  arith, ltb, ◌==◌, if◌then◌else◌,
}
use Prim.Native.Nat.{Ordering, compare}

module _ (key_of : ℕ → ℕ) where
  abbrev pub Less : ℕ → List ℕ → Type 0
  Less key xs = All (λ y. key_of y < key) xs

  abbrev pub Greater : ℕ → List ℕ → Type 0
  Greater key xs = All (λ y. key < key_of y) xs

  abbrev pub Sorted : List ℕ → Type 0
  Sorted [] = Unit
  Sorted (y ∷ ys) = Greater (key_of y) ys × Sorted ys

  abbrev pub find_key : ℕ → List ℕ → Option ℕ
  find_key key [] = none
  find_key key (y ∷ ys) = let rest = find_key key ys in if key_of y == key then some y else rest

  abbrev pub insert_sorted : ℕ → List ℕ → List ℕ
  insert_sorted x [] = x ∷ []
  insert_sorted x (y ∷ ys) =
      let rest = insert_sorted x ys in if ltb (key_of x) (key_of y) then x ∷ y ∷ ys else y ∷ rest

  -- Around an address of a sorted list.
  pub Sorted-middle :
      (xs : List ℕ) (y : ℕ) (ys : List ℕ)
      → Sorted (xs ++ y ∷ ys)
      → Sorted xs × Less (key_of y) xs × Greater (key_of y) ys × Sorted ys
  Sorted-middle [] y ys (a, s) = (tt, tt, a, s)
  Sorted-middle (x ∷ xs) y ys (a, s) =
      let (b, c) = All-split (λ z. key_of x < key_of z) xs (y ∷ ys) a in
      let (d, e, f, g) = Sorted-middle xs y ys s in ((b, d), (c.0, e), f, g)

  pub middle-Sorted :
      (xs : List ℕ) (y : ℕ) (ys : List ℕ)
      → Sorted (xs ++ ys)
      → Less (key_of y) xs
      → Greater (key_of y) ys
      → Sorted (xs ++ y ∷ ys)
  middle-Sorted [] y ys s a b = (b, s)
  middle-Sorted (x ∷ xs) y ys (d, s) (a, as') b =
      let (p, q) = All-split (λ z. key_of x < key_of z) xs ys d in
      (All-append (λ z. key_of x < key_of z) xs (y ∷ ys) p (a, q), middle-Sorted xs y ys s as' b)

  pub insert_sorted-middle :
      (xs : List ℕ) (x : ℕ) (ys : List ℕ)
      → Less (key_of x) xs
      → Greater (key_of x) ys
      → insert_sorted x (xs ++ ys) ≡ xs ++ x ∷ ys
  insert_sorted-middle [] x [] a b = refl
  insert_sorted-middle [] x (y ∷ ys) a b = ground (arith, b.0)
  insert_sorted-middle (z ∷ xs) x ys a b = ground (arith, a.0, insert_sorted-middle xs x ys a.1 b)

  -- A search passes over lesser and greater keys.
  pub find_key-Greater : (key : ℕ) (xs : List ℕ) → Greater key xs → find_key key xs ≡ none
  find_key-Greater key [] a = refl
  find_key-Greater key (y ∷ ys) a = ground (arith, a.0, find_key-Greater key ys a.1)

  pub find_key-Less :
      (key : ℕ) (xs ys : List ℕ) → Less key xs → find_key key (xs ++ ys) ≡ find_key key ys
  find_key-Less key [] ys a = refl
  find_key-Less key (x ∷ xs) ys a = ground (arith, a.0, find_key-Less key xs ys a.1)

  pub find_key-before :
      (key : ℕ) (xs ys : List ℕ) → Greater key ys → find_key key (xs ++ ys) ≡ find_key key xs
  find_key-before key [] ys a = find_key-Greater key ys a
  find_key-before key (x ∷ xs) ys a = ground (arith, find_key-before key xs ys a)

  pub Less-le : (j k : ℕ) (xs : List ℕ) → j ≤ k → Less j xs → Less k xs
  Less-le j k [] h a = tt
  Less-le j k (x ∷ xs) h (b, a) = (omega arith, Less-le j k xs h a)

  pub Greater-le : (j k : ℕ) (xs : List ℕ) → j ≤ k → Greater k xs → Greater j xs
  Greater-le j k [] h a = tt
  Greater-le j k (x ∷ xs) h (b, a) = (omega arith, Greater-le j k xs h a)

-- The three outcomes of a comparison.
pub compare-cases :
    (a b : ℕ)
    → ((a < b) × (compare a b ≡ Ordering.lt))
      ⊎ ((a ≡ b) × (compare a b ≡ Ordering.eq))
      ⊎ ((b < a) × (compare a b ≡ Ordering.gt))
compare-cases a b = ground arith

-- ===== src/Bitmap/Compare.antt =====
-- The tests on bitmaps look at the bits below the number of bits, and at no other.
use mathlib.Core.Bool.{not}
use mathlib.Core.Option
use libls.Prelude.{
  ℕ, zero, suc, ◌+◌, ◌-◌, ◌*◌, ◌%◌, ◌^◌, ◌<◌, ◌≤◌, ◌≡◌, refl, ap, sym, ◌∙◌, subst, Bool, true,
  false, Option, some, List, [], ◌∷◌, length, All, all_below, all_below_sound, bit_and, ◌==◌, ==→eq,
  ltb, lt→ltb, le→ltb, le→leb, lt→leb, le_or_lt, arith, Bool-cases, inl, inr,
}
use libls.Prelude.Bits.{bit, bit-zero, bit-and, bit-ones, bit_and-lt}
use libls.Bitops.{IsWord, shl64, __ffs}
use libls.Bitops.Word.{ctz-lt, ctz-bit}
use libls.Bitops.First.{bit_at}
use libls.Bitmap.{last_word_mask, any_word}

shl64-table : all_below 64 (λ b. shl64 1 b == 2 ^ b) ≡ true
unfolding all_below
shl64-table = refl

pub bit-last_word_mask :
    (bits i : ℕ) → bits < 64 → (bits == 0) ≡ false → bit (last_word_mask bits) i ≡ ltb i bits
bit-last_word_mask bits i lt ne =
    let m : bits % 64 ≡ bits = omega arith in
    let t =
      ==→eq (shl64 1 bits) (2 ^ bits)
        (all_below_sound 64 (λ b. shl64 1 b == 2 ^ b) bits shl64-table lt) in
    let e : last_word_mask bits ≡ 2 ^ bits - 1 = rw (m, ne, t) refl in
    ap (λ w. bit w i) e ∙ bit-ones bits i

-- The test finds an index at which `p` is true, or there is none.
abbrev pub Finds : ℕ → (ℕ → Bool) → Bool → Type 0
Finds n p true = (i : ℕ) × (i < n) × (p i ≡ true)
Finds n p false = (i : ℕ) → i < n → p i ≡ false

pub word-Finds : (w : ℕ) → IsWord w → Finds 64 (λ k. bit w k) (not (w == 0))
word-Finds w h = elim (Bool-cases (w == 0)) [
  | inl e ↦ rw e (λ i b. ap (λ v. bit v i) (==→eq w 0 e) ∙ bit-zero i)
  | inr e ↦ rw e (__ffs w, ctz-lt 64 w e h, ctz-bit 64 w e h)
]

-- The word function computes `g` on every bit, and `hit` tells whether it gives a one.
pub record Computes (hit : ℕ → ℕ → Bool) (f : ℕ → ℕ → ℕ) (g : Bool → Bool → Bool) : Type 0 where
  pub hits : (x y : ℕ) → hit x y ≡ not (f x y == 0)
  pub keeps : (x y : ℕ) → IsWord x → IsWord y → IsWord (f x y)
  pub digit : (x y k : ℕ) → IsWord x → IsWord y → k < 64 → bit (f x y) k ≡ g (bit x k) (bit y k)

module _ (hit : ℕ → ℕ → Bool) (f : ℕ → ℕ → ℕ) (g : Bool → Bool → Bool) (c : Computes hit f g) where
  abbrev Answers : ℕ → List ℕ → List ℕ → Option Bool → Type 0
  Answers n xs ys r = (b : Bool) × (r ≡ some b) × Finds n (λ i. g (bit_at xs i) (bit_at ys i)) b

  -- The bits of two regions together, in the first word and behind it.
  abbrev both : List ℕ → List ℕ → ℕ → Bool
  both xs ys i = g (bit_at xs i) (bit_at ys i)

  both-near :
      (x y : ℕ) (xs ys : List ℕ) (i : ℕ)
      → IsWord x
      → IsWord y
      → i < 64
      → both (x ∷ xs) (y ∷ ys) i ≡ bit (f x y) i
  unfolding bit_at
  both-near x y xs ys i hx hy lt = rw (bit_at, lt→ltb i 64 lt) (sym (c.digit x y i hx hy lt))

  both-far :
      (x y : ℕ) (xs ys : List ℕ) (i : ℕ) → 64 ≤ i → both (x ∷ xs) (y ∷ ys) i ≡ both xs ys (i - 64)
  unfolding bit_at
  both-far x y xs ys i le = rw (bit_at, le→ltb i 64 le) refl

  -- A whole word, and the words behind it.
  near-Finds :
      (x y : ℕ) (xs ys : List ℕ) (bits : ℕ)
      → IsWord x
      → IsWord y
      → 64 ≤ bits
      → Finds 64 (λ k. bit (f x y) k) true
      → Finds bits (both (x ∷ xs) (y ∷ ys)) true
  near-Finds x y xs ys bits hx hy le (i, b, e) = (i, omega arith, both-near x y xs ys i hx hy b ∙ e)

  far-Finds :
      (x y : ℕ) (xs ys : List ℕ) (bits : ℕ) (r : Bool)
      → IsWord x
      → IsWord y
      → 64 ≤ bits
      → Finds 64 (λ k. bit (f x y) k) false
      → Finds (bits - 64) (both xs ys) r
      → Finds bits (both (x ∷ xs) (y ∷ ys)) r
  far-Finds x y xs ys bits true hx hy le n (i, b, e) = (
    i + 64,
    omega arith,
    both-far x y xs ys (i + 64) (omega arith) ∙ subst (λ j. both xs ys j ≡ true) (omega arith) e,
  )
  far-Finds x y xs ys bits false hx hy le n m = λ i b. elim (le_or_lt 64 i) [
    | inl far ↦ both-far x y xs ys i far ∙ m (i - 64) (omega arith)
    | inr near ↦ both-near x y xs ys i hx hy near ∙ n i near
  ]

  -- The last word.
  last-Finds :
      (x y : ℕ) (xs ys : List ℕ) (bits : ℕ) (r : Bool)
      → IsWord x
      → IsWord y
      → bits < 64
      → (bits == 0) ≡ false
      → Finds 64 (λ k. bit (bit_and (f x y) (last_word_mask bits)) k) r
      → Finds bits (both (x ∷ xs) (y ∷ ys)) r
  last-Finds x y xs ys bits true hx hy lt nz (i, b, e) =
      let masked = bit-and (f x y) (last_word_mask bits) i in
      let m = bit-last_word_mask bits i lt nz in
      (
        i,
        ground (arith, e, masked, m),
        both-near x y xs ys i hx hy b ∙ ground (arith, e, masked, m),
      )
  last-Finds x y xs ys bits false hx hy lt nz n = λ i b.
      both-near x y xs ys i hx hy (omega arith)
      ∙ ground (
        arith,
        n i (omega arith),
        bit-and (f x y) (last_word_mask bits) i,
        bit-last_word_mask bits i lt nz,
      )

  any_word-Answers :
      (xs ys : List ℕ) (bits : ℕ)
      → All IsWord xs
      → All IsWord ys
      → bits ≤ 64 * length xs
      → bits ≤ 64 * length ys
      → Answers bits xs ys (any_word hit f xs ys bits)
  unfolding any_word
  any_word-Answers [] ys bits ax ay lx ly = (false, ground arith, λ i b. absurd (omega arith))
  any_word-Answers (x ∷ xs) [] bits ax ay lx ly = (false, ground arith, λ i b. absurd (omega arith))
  any_word-Answers (x ∷ xs) (y ∷ ys) bits ax ay lx ly =
      let w = c.keeps x y ax.0 ay.0 in
      elim (le_or_lt 64 bits) [
        | inl le ↦ elim (Bool-cases (f x y == 0)) [
          | inl z ↦
              let (r, run, finds) =
                any_word-Answers xs ys (bits - 64) ax.1 ay.1 (omega arith) (omega arith) in
              (
                r,
                rw (le→leb 64 bits le, c.hits x y, z, any_word) run,
                far-Finds x y xs ys bits r ax.0 ay.0 le
                    (subst (λ q. Finds 64 (λ k. bit (f x y) k) (not q)) z (word-Finds (f x y) w))
                    finds,
              )
          | inr nz ↦ (
            true,
            rw (le→leb 64 bits le, c.hits x y, nz, any_word) refl,
            near-Finds x y xs ys bits ax.0 ay.0 le
                (subst (λ q. Finds 64 (λ k. bit (f x y) k) (not q)) nz (word-Finds (f x y) w)),
          )
        ]
        | inr lt ↦ elim (Bool-cases (bits == 0)) [
          | inl z ↦ (
            false,
            rw (lt→leb 64 bits lt, z, any_word) refl,
            λ i b. absurd (omega (arith, ==→eq bits 0 z)),
          )
          | inr nz ↦ (
            not (bit_and (f x y) (last_word_mask bits) == 0),
            rw (lt→leb 64 bits lt, nz, any_word) refl,
            last-Finds x y xs ys bits _ ax.0 ay.0 lt nz (
                word-Finds (bit_and (f x y) (last_word_mask bits))
                  (bit_and-lt 64 (f x y) (last_word_mask bits) w)),
          )
        ]
      ]

-- A conjunction over the numbers below a bound.
all_below-true : (n : ℕ) (p : ℕ → Bool) → ((i : ℕ) → i < n → p i ≡ true) → all_below n p ≡ true
unfolding all_below
all_below-true zero p a = refl
all_below-true (suc n) p a =
    ground (arith, a n (omega arith), all_below-true n p (λ i b. a i (omega arith)))

all_below-false : (n i : ℕ) (p : ℕ → Bool) → i < n → p i ≡ false → all_below n p ≡ false
unfolding all_below
all_below-false zero i p b e = absurd (omega arith)
all_below-false (suc n) i p b e = elim (Bool-cases (p n)) [
  | inr f ↦ rw (f, all_below) refl
  | inl t ↦ rw (t, all_below) (all_below-false n i p (ground (arith, e, t)) e)
]

pub Finds-all_below :
    (n : ℕ) (p : ℕ → Bool) (b : Bool) → Finds n p b → all_below n (λ i. not (p i)) ≡ not b
Finds-all_below n p true (i, b, e) = all_below-false n i (λ k. not (p k)) b (ap not e)
Finds-all_below n p false a = all_below-true n (λ k. not (p k)) (λ i b. ap not (a i b))

-- The two ways that a test uses the loop.
module _ (hit : ℕ → ℕ → Bool) (f : ℕ → ℕ → ℕ) (g : Bool → Bool → Bool) (c : Computes hit f g)
    (xs ys : List ℕ) (bits : ℕ) (ax : All IsWord xs) (ay : All IsWord ys)
    (lx : bits ≤ 64 * length xs) (ly : bits ≤ 64 * length ys) where
  pub not-any_word :
      Option.map not (any_word hit f xs ys bits)
      ≡ some (all_below bits (λ i. not (g (bit_at xs i) (bit_at ys i))))
  not-any_word =
      let (b, run, finds) = any_word-Answers hit f g c xs ys bits ax ay lx ly in
      ap (Option.map not) run
      ∙ ap some (sym (Finds-all_below bits (λ i. g (bit_at xs i) (bit_at ys i)) b finds))

  pub any_word-not :
      any_word hit f xs ys bits
      ≡ some (not (all_below bits (λ i. not (g (bit_at xs i) (bit_at ys i)))))
  any_word-not =
      let (b, run, finds) = any_word-Answers hit f g c xs ys bits ax ay lx ly in
      run
      ∙ ap some (
          sym (not-not b)
          ∙ ap not (sym (Finds-all_below bits (λ i. g (bit_at xs i) (bit_at ys i)) b finds)))
    where
      not-not : (b : Bool) → not (not b) ≡ b
      not-not true = refl
      not-not false = refl

-- ===== src/Bitmap/Weight.antt =====
-- `__bitmap_weight`.
use libls.Prelude.{
  ℕ, zero, suc, ◌+◌, ◌-◌, ◌*◌, ◌/◌, ◌<◌, ◌≤◌, ◌≡◌, refl, ap, sym, ◌∙◌, Bool, false, ◌&&◌, some,
  List, [], ◌∷◌, length, All, bit_and, ◌==◌, ==→eq, ltb, lt→ltb, le→ltb, le→leb, lt→leb, le_or_lt,
  Bool-cases, arith, inl, inr, if◌then◌else◌,
}
use libls.Prelude.Bits.{bit, bit-and, bit_and-lt}
use libls.Bitops.{IsWord}
use libls.Bitops.First.{bit_at}
use libls.Bitops.Weight.{ones, __sw_hweight64}
use libls.Bitops.Weight.Words.{__sw_hweight64-ones}
use libls.Bitmap.{last_word_mask, __bitmap_weight}
use libls.Bitmap.Compare.{bit-last_word_mask}

-- How many of the indices below `n` pass the test.
pub count : ℕ → (ℕ → Bool) → ℕ
count zero f = 0
count (suc n) f = (if f 0 then 1 else 0) + count n (λ i. f (suc i))

count-ext : (n : ℕ) (f g : ℕ → Bool) → ((i : ℕ) → i < n → f i ≡ g i) → count n f ≡ count n g
unfolding count
count-ext zero f g e = refl
count-ext (suc n) f g e =
    rw
      (
        e 0 (omega arith),
        count-ext n (λ i. f (suc i)) (λ i. g (suc i)) (λ i lt. e (suc i) (omega arith)),
      )
      refl

count-none : (n : ℕ) (f : ℕ → Bool) → ((i : ℕ) → i < n → f i ≡ false) → count n f ≡ 0
unfolding count
count-none zero f e = refl
count-none (suc n) f e =
    rw (e 0 (omega arith), count-none n (λ i. f (suc i)) (λ i lt. e (suc i) (omega arith)))
      (omega arith)

count_add : (k n : ℕ) (f : ℕ → Bool) → count (k + n) f ≡ count k f + count n (λ i. f (k + i))
unfolding count
count_add zero n f =
    let e : 0 + n ≡ n = omega arith in
    rw e (count-ext n f (λ i. f (0 + i)) (λ i lt. ap f (omega arith)) ∙ omega arith)
count_add (suc k) n f =
    let e : suc k + n ≡ suc (k + n) = omega arith in
    let rest = count_add k n (λ i. f (suc i)) in
    let same =
      count-ext n (λ i. f (suc (k + i))) (λ i. f (suc k + i)) (λ i lt. ap f (omega arith)) in
    rw (e, count) (omega (arith, rest, same))

ones-count : (n w : ℕ) → ones n w ≡ count n (bit w)
unfolding ones count bit
ones-count zero w = refl
ones-count (suc n) w = ground (arith, ones-count n (w / 2))

weight-count : (x : ℕ) → IsWord x → __sw_hweight64 x ≡ count 64 (bit x)
weight-count x h =
    (__sw_hweight64-ones 0 0 0 x (omega arith) (omega arith) (omega arith) h).3 ∙ ones-count 64 x

-- The bits of a first word, whole or cut.
count-whole :
    (x : ℕ) (xs : List ℕ) (bits : ℕ)
    → IsWord x
    → 64 ≤ bits
    → count bits (bit_at (x ∷ xs)) ≡ __sw_hweight64 x + count (bits - 64) (bit_at xs)
unfolding bit_at
count-whole x xs bits h le =
    let e : 64 + (bits - 64) ≡ bits = omega (arith, le) in
    ap (λ n. count n (bit_at (x ∷ xs))) (sym e)
    ∙ count_add 64 (bits - 64) (bit_at (x ∷ xs))
    ∙ ap (λ n. n + count (bits - 64) (λ i. bit_at (x ∷ xs) (64 + i)))
        (count-ext 64 (bit_at (x ∷ xs)) (bit x) (λ i lt. rw (bit_at, lt→ltb i 64 lt) refl)
          ∙ sym (weight-count x h))
    ∙ ap (λ n. __sw_hweight64 x + n)
        (count-ext (bits - 64) (λ i. bit_at (x ∷ xs) (64 + i)) (bit_at xs)
          (λ i lt. rw (bit_at, le→ltb (64 + i) 64 (omega arith)) (ap (bit_at xs) (omega arith))))

count-cut :
    (x : ℕ) (xs : List ℕ) (bits : ℕ)
    → IsWord x
    → bits < 64
    → (bits == 0) ≡ false
    → count bits (bit_at (x ∷ xs)) ≡ __sw_hweight64 (bit_and x (last_word_mask bits))
unfolding bit_at
count-cut x xs bits h lt nz =
    let w = bit_and x (last_word_mask bits) in
    let small : IsWord w = bit_and-lt 64 x (last_word_mask bits) h in
    let e : bits + (64 - bits) ≡ 64 = omega (arith, lt) in
    let digit : (i : ℕ) → bit w i ≡ (bit x i && ltb i bits) =
      λ i. ground (arith, bit-and x (last_word_mask bits) i, bit-last_word_mask bits i lt nz) in
    let low : count bits (bit w) ≡ count bits (bit_at (x ∷ xs)) =
      count-ext bits (bit w) (bit_at (x ∷ xs))
        λ i b. rw (bit_at, lt→ltb i 64 (omega (arith, b, lt))) (ground (arith, digit i, b)) in
    let high : count (64 - bits) (λ i. bit w (bits + i)) ≡ 0 =
      count-none (64 - bits) (λ i. bit w (bits + i)) λ i b. ground (arith, digit (bits + i)) in
    let whole = ap (λ n. count n (bit w)) (sym e) ∙ count_add bits (64 - bits) (bit w) in
    omega (arith, weight-count w small, whole, low, high)

-- In a bitmap that holds `bits` bits, `__bitmap_weight` reads inside it and counts the bits that are set
-- below `bits`.
pub __bitmap_weight-count :
    (bitmap : List ℕ) (bits : ℕ)
    → All IsWord bitmap
    → bits ≤ 64 * length bitmap
    → __bitmap_weight bitmap bits ≡ some (count bits (bit_at bitmap))
unfolding __bitmap_weight count
__bitmap_weight-count [] bits aw l = let e : bits ≡ 0 = omega (arith, l) in rw e refl
__bitmap_weight-count (x ∷ xs) bits aw l = elim (le_or_lt 64 bits) [
  | inl le ↦
      rw (le→leb 64 bits le, __bitmap_weight-count xs (bits - 64) aw.1 (omega (arith, l)))
        (ap some (sym (count-whole x xs bits aw.0 le)))
  | inr lt ↦ elim (Bool-cases (bits == 0)) [
    | inl z ↦ rw (lt→leb 64 bits lt, z, ==→eq bits 0 z) refl
    | inr nz ↦ rw (lt→leb 64 bits lt, nz) (ap some (sym (count-cut x xs bits aw.0 lt nz)))
  ]
]

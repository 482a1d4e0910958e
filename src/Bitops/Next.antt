-- ===== src/Bitops/Next.antt =====
-- `find_next_bit` finds the first bit that is set, from an offset on.
use libls.Prelude.{
  ℕ, zero, suc, ◌+◌, ◌-◌, ◌*◌, ◌/◌, ◌%◌, ◌^◌, ◌<◌, ◌≤◌, ◌≡◌, refl, ap, sym, subst, ◌∙◌, Bool, false,
  ◌&&◌, min, Option, some, List, [], ◌∷◌, length, length-drop, drop, All, bit_and, ◌==◌, ==→eq, leb,
  ltb, arith, Bool-cases, inl, inr,
}
use libls.Prelude.Bits.{bit, bit-zero, bit-and, bit_and-lt}
use libls.Bitops.{
  IsWord, all_ones, shl64, __ffs, find_loop, find_first_bit, next_word, find_next_bit,
}
use libls.Bitops.Word.{IsFirst, bit-high_mask}
use libls.Bitops.First.{
  bit_at, Finds, IsFirst-of_word, found_first-Finds, Finds-next, find_loop-Finds,
}

next_word-Finds :
    (result size offset : ℕ) (p : List ℕ)
    → All IsWord p
    → size ≤ 64 * length p
    → offset < 64
    → offset < size
    → Finds result (bit_at p) offset size (next_word result size offset p)
unfolding next_word bit_at
next_word-Finds result size offset [] ok long inside small = absurd (omega arith)
next_word-Finds result size offset (w ∷ ws) ok long inside small =
    let mask = shl64 all_ones offset in
    let t = bit_and w mask in
    let fits : t < 2 ^ 64 = bit_and-lt 64 w mask ok.0 in
    let digit : (k : ℕ) → bit t k ≡ (bit w k && (leb offset k && ltb k 64)) =
      λ k. ground (arith, bit-and w mask k, bit-high_mask offset k (omega arith)) in
    elim (Bool-cases (ltb size 64)) [
      | inl last ↦ rw last (
          found_first-Finds result size offset t (bit_at (w ∷ ws)) (omega arith) (ground arith) fits
            (λ k a b. ground (arith, digit k)) (λ k e. ground (arith, digit k)))
      | inr long_enough ↦ elim (Bool-cases (t == 0)) [
        | inl none_set ↦
            let clear : (k : ℕ) → bit t k ≡ false =
              λ k. ap (λ x. bit x k) (==→eq t 0 none_set) ∙ bit-zero k in
            rw (long_enough, none_set)
              (Finds-next result size offset w ws (find_loop (result + 64) (size - 64) ws) inside
                (ground arith) (λ k a b. ground (arith, digit k, clear k))
                (find_loop-Finds (result + 64) (size - 64) ws ok.1 (omega arith)))
        | inr set ↦
            rw (long_enough, set)
              (
                __ffs t,
                refl,
                IsFirst-of_word (bit_at (w ∷ ws)) offset size t fits set
                    (λ k a b c. ground (arith, digit k))
                    (λ k e. (ground (arith, digit k), ground (arith, digit k))),
              )
      ]
    ]

-- The row from the `n`-th word on.
pub bit_at-drop :
    (n : ℕ) (addr : List ℕ) (k : ℕ) → bit_at (drop n addr) k ≡ bit_at addr (n * 64 + k)
unfolding bit_at
bit_at-drop zero addr k = ap (bit_at addr) (omega arith)
bit_at-drop (suc n) [] k = refl
bit_at-drop (suc n) (w ∷ ws) k =
    let e : suc n * 64 + k - 64 ≡ n * 64 + k = omega arith in
    ground (arith, bit_at-drop n ws k, ap (bit_at ws) e)

pub All-drop : (n : ℕ) (addr : List ℕ) → All IsWord addr → All IsWord (drop n addr)
All-drop zero addr ok = ok
All-drop (suc n) [] ok = tt
All-drop (suc n) (w ∷ ws) ok = All-drop n ws ok.1

-- What is found is `found`, the first one from `low` on.
abbrev pub FindsFirst : (ℕ → Bool) → ℕ → ℕ → Option ℕ → Type 0
FindsFirst f low size found = (r : ℕ) × (found ≡ some r) × IsFirst f low size r

FindsFirst-drop :
    (n : ℕ) (addr : List ℕ) (low size : ℕ) (found : Option ℕ)
    → n * 64 ≤ size
    → Finds (n * 64) (bit_at (drop n addr)) low (size - n * 64) found
    → FindsFirst (bit_at addr) (n * 64 + low) size found
FindsFirst-drop n addr low size found h (r, run, first) = (
  n * 64 + r,
  run,
  record {
    above = omega (arith, first.above);
    none_before = λ k a b.
        let e : n * 64 + (k - n * 64) ≡ k = omega arith in
        ap (bit_at addr) (sym e)
        ∙ sym (bit_at-drop n addr (k - n * 64))
        ∙ first.none_before (k - n * 64) (omega arith) (omega arith);
    stop = elim first.stop [
      | inl e ↦ inl (omega arith)
      | inr (lt, e) ↦ inr (omega arith, sym (bit_at-drop n addr r) ∙ e)
    ];
  },
)

FindsFirst-low :
    (f : ℕ → Bool) (low m size : ℕ) (found : Option ℕ)
    → low ≡ m
    → FindsFirst f low size found
    → FindsFirst f m size found
FindsFirst-low f low m size found e x = subst (λ t. FindsFirst f t size found) e x

-- In a region of words that holds `size` bits, `find_next_bit` reads inside the region and gives the
-- first index from the offset on whose bit is set, and `size` where there is none or the offset is
-- not below `size`.
pub find_next_bit-FindsFirst :
    (addr : List ℕ) (size offset : ℕ)
    → All IsWord addr
    → size ≤ 64 * length addr
    → FindsFirst (bit_at addr) (min offset size) size (find_next_bit addr size offset)
unfolding find_next_bit
find_next_bit-FindsFirst addr size offset ok long =
    let n = offset / 64 in
    elim (Bool-cases (leb size offset)) [
      | inl behind ↦ rw behind (
        size,
        refl,
        record {
          above = omega arith;
          none_before = λ k a b. absurd (ground arith);
          stop = inl refl;
        },
      )
      | inr before ↦ elim (Bool-cases (offset % 64 == 0)) [
        | inl aligned ↦
            rw (before, aligned)
              (FindsFirst-low (bit_at addr) (n * 64 + 0) (min offset size) size _ (ground arith) (
                FindsFirst-drop n addr 0 size (find_loop (n * 64) (size - n * 64) (drop n addr))
                  (ground arith)
                  (find_loop-Finds (n * 64) (size - n * 64) (drop n addr) (All-drop n addr ok)
                    (omega (arith, length-drop n addr)))))
        | inr middle ↦
            rw (before, middle)
              (FindsFirst-low (bit_at addr) (n * 64 + offset % 64) (min offset size) size _
                (ground arith)
                (FindsFirst-drop n addr (offset % 64) size
                  (next_word (n * 64) (size - n * 64) (offset % 64) (drop n addr)) (ground arith)
                  (next_word-Finds (n * 64) (size - n * 64) (offset % 64) (drop n addr)
                    (All-drop n addr ok) (omega (arith, length-drop n addr)) (omega arith)
                    (ground arith))))
      ]
    ]

-- In a region of words that holds `size` bits, `find_first_bit` reads inside the region and gives the
-- first index whose bit is set, and `size` where there is none.
pub find_first_bit-FindsFirst :
    (addr : List ℕ) (size : ℕ)
    → All IsWord addr
    → size ≤ 64 * length addr
    → FindsFirst (bit_at addr) 0 size (find_first_bit addr size)
unfolding find_first_bit
find_first_bit-FindsFirst addr size ok long =
    let (r, run, first) = find_loop-Finds 0 size addr ok long in
    (r, run ∙ ap some (omega arith), first)

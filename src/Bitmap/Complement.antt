-- ===== src/Bitmap/Complement.antt =====
-- `__bitmap_complement`.
use mathlib.Core.Bool.{not}
use mathlib.Core.Option
use libls.Prelude.{
  ℕ, ◌-◌, ◌*◌, ◌<◌, ◌≤◌, ◌≡◌, refl, ap, false, some, List, [], ◌∷◌, length, All, bit_and, ◌==◌,
  ==→eq, ltb, lt→ltb, le→ltb, le→leb, lt→leb, le_or_lt, Bool-cases, arith, inl, inr, if◌then◌else◌,
}
use libls.Prelude.Bits.{bit-and, bit_and-lt}
use libls.Bitops.{IsWord, not64}
use libls.Bitops.First.{bit_at}
use libls.Bitops.Zero.{bit-not64}
use libls.Bitmap.{last_word_mask, bits_to_longs, __bitmap_complement}
use libls.Bitmap.Compare.{bit-last_word_mask}

-- The bits below `bits` are the opposite ones, those up to the end of the last word are clear, and the
-- others are left.
abbrev pub Complemented : List ℕ → List ℕ → ℕ → List ℕ → Type 0
Complemented ds xs bits out =
    All IsWord out
    × ((i : ℕ)
        → bit_at out i ≡ (
            if ltb i bits
            then not (bit_at xs i)
            else if ltb i (64 * bits_to_longs bits)
            then false
            else bit_at ds i))

not64-lt : (x : ℕ) → IsWord (not64 x)
not64-lt x = omega arith

whole_word :
    (d x : ℕ) (ds xs out : List ℕ) (bits : ℕ)
    → IsWord x
    → 64 ≤ bits
    → Complemented ds xs (bits - 64) out
    → Complemented (d ∷ ds) (x ∷ xs) bits (not64 x ∷ out)
unfolding bit_at
whole_word d x ds xs out bits h le (ao, digits) = (
  (not64-lt x, ao),
  λ i. elim (le_or_lt 64 i) [
    | inl far ↦ rw (bit_at, le→ltb i 64 far) (ground (arith, digits (i - 64), le))
    | inr near ↦ rw (bit_at, lt→ltb i 64 near) (ground (arith, bit-not64 x i h, le))
  ],
)

last_word :
    (d x : ℕ) (ds xs : List ℕ) (bits : ℕ)
    → IsWord x
    → All IsWord ds
    → bits < 64
    → (bits == 0) ≡ false
    → Complemented (d ∷ ds) (x ∷ xs) bits (bit_and (not64 x) (last_word_mask bits) ∷ ds)
unfolding bit_at
last_word d x ds xs bits h ad lt nz =
    let w = bit_and (not64 x) (last_word_mask bits) in
    (
      (bit_and-lt 64 (not64 x) (last_word_mask bits) (not64-lt x), ad),
      λ i. elim (le_or_lt 64 i) [
        | inl far ↦ rw (bit_at, le→ltb i 64 far) (ground (arith, lt, nz))
        | inr near ↦
            let masked = bit-and (not64 x) (last_word_mask bits) i in
            let mask = bit-last_word_mask bits i lt nz in
            rw (bit_at, lt→ltb i 64 near) (ground (arith, masked, mask, bit-not64 x i h, nz, lt))
      ],
    )

-- On bitmaps that hold `bits` bits, `__bitmap_complement` accesses nothing behind their ends, stores the
-- opposite bits below `bits`, clears those behind them in the last word, and leaves the words behind.
pub __bitmap_complement-Complemented :
    (ds xs : List ℕ) (bits : ℕ)
    → All IsWord ds
    → All IsWord xs
    → bits ≤ 64 * length ds
    → bits ≤ 64 * length xs
    → (out : List ℕ) × (__bitmap_complement ds xs bits ≡ some out) × Complemented ds xs bits out
unfolding __bitmap_complement bit_at
__bitmap_complement-Complemented [] xs bits ad ax ld lx =
    let e : bits ≡ 0 = omega (arith, ld) in ([], rw e refl, (tt, λ i. rw e (ground arith)))
__bitmap_complement-Complemented (d ∷ ds) [] bits ad ax ld lx =
    let e : bits ≡ 0 = omega (arith, lx) in (d ∷ ds, rw e refl, (ad, λ i. rw e (ground arith)))
__bitmap_complement-Complemented (d ∷ ds) (x ∷ xs) bits ad ax ld lx = elim (le_or_lt 64 bits) [
  | inl le ↦
      let (out, run, done) =
        __bitmap_complement-Complemented ds xs (bits - 64) ad.1 ax.1 (omega (arith, ld))
          (omega (arith, lx)) in
      (
        not64 x ∷ out,
        rw (le→leb 64 bits le) (ap (Option.map (λ r. not64 x ∷ r)) run),
        whole_word d x ds xs out bits ax.0 le done,
      )
  | inr lt ↦ elim (Bool-cases (bits == 0)) [
    | inl z ↦ (d ∷ ds, rw (lt→leb 64 bits lt, z) refl, (ad, λ i. ground (arith, ==→eq bits 0 z)))
    | inr nz ↦ (
      bit_and (not64 x) (last_word_mask bits) ∷ ds,
      rw (lt→leb 64 bits lt, nz) refl,
      last_word d x ds xs bits ax.0 ad.1 lt nz,
    )
  ]
]

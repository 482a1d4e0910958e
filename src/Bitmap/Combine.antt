-- ===== src/Bitmap/Combine.antt =====
-- The operations on two bitmaps, bit by bit.
use mathlib.Core.Bool.{not}
use mathlib.Core.Option
use libls.Prelude.{
  ℕ, zero, suc, ◌+◌, ◌-◌, ◌*◌, ◌<◌, ◌≤◌, ◌≡◌, refl, ap, sym, ◌∙◌, subst, Bool, true, false, some,
  List, [], ◌∷◌, ◌⊎◌, length, All, all_below, bit_or, ◌==◌, ==→eq, ltb, lt→ltb, le→ltb, le_or_lt,
  arith, Bool-cases, inl, inr, if◌then◌else◌,
}
use libls.Prelude.Bits.{bit, bit-zero, bit-or, bit_ext, bit_or-lt}
use libls.Bitops.{IsWord}
use libls.Bitops.First.{bit_at}
use libls.Bitmap.{combine, some_set, stored, bits_to_longs}
use libls.Bitmap.Compare.{Finds, word-Finds, Finds-all_below}

-- A word function that computes `g` on every bit.
pub record Bitwise (f : ℕ → ℕ → ℕ) (g : Bool → Bool → Bool) : Type 0 where
  pub keeps : (x y : ℕ) → IsWord x → IsWord y → IsWord (f x y)
  pub digit : (x y k : ℕ) → IsWord x → IsWord y → k < 64 → bit (f x y) k ≡ g (bit x k) (bit y k)

-- The first `n` words of the result have the bits that `g` computes, the others are as they were; and
-- `result` has a one exactly where it had one or one was stored.
record Combined (g : Bool → Bool → Bool) (n result : ℕ) (ds xs ys out : List ℕ) (end : ℕ)
    : Type 0 where
  words : All IsWord out
  fits : IsWord end
  bits :
      (i : ℕ)
      → bit_at out i ≡ (if ltb i (64 * n) then g (bit_at xs i) (bit_at ys i) else bit_at ds i)
  clear :
      (end == 0) ≡ true
      → ((result == 0) ≡ true) × ((i : ℕ) → i < 64 * n → g (bit_at xs i) (bit_at ys i) ≡ false)
  set :
      (end == 0) ≡ false
      → ((result == 0) ≡ false) ⊎ ((i : ℕ) × (i < 64 * n) × (g (bit_at xs i) (bit_at ys i) ≡ true))

bit_or-left : (a b : ℕ) → (bit_or a b == 0) ≡ true → (a == 0) ≡ true
bit_or-left a b e =
    let z : a ≡ 0 =
      bit_ext a 0
        λ k. ground (arith, bit-or a b k, ap (λ w. bit w k) (==→eq (bit_or a b) 0 e), bit-zero k) in
    ground (arith, z)

bit_or-right : (a b : ℕ) → (bit_or a b == 0) ≡ true → (b == 0) ≡ true
bit_or-right a b e =
    let z : b ≡ 0 =
      bit_ext b 0
        λ k. ground (arith, bit-or a b k, ap (λ w. bit w k) (==→eq (bit_or a b) 0 e), bit-zero k) in
    ground (arith, z)

bit_or-zero : (a b : ℕ) → (a == 0) ≡ true → (b == 0) ≡ true → (bit_or a b == 0) ≡ true
bit_or-zero a b e e' =
    let z : bit_or a b ≡ 0 = bit_ext (bit_or a b) 0 λ k. ground (
      arith,
      bit-or a b k,
      ap (λ w. bit w k) (==→eq a 0 e),
      ap (λ w. bit w k) (==→eq b 0 e'),
      bit-zero k,
    ) in
    ground (arith, z)

-- What an operation stores in the words that hold the bits.
abbrev pub Stores : (Bool → Bool → Bool) → List ℕ → List ℕ → List ℕ → ℕ → List ℕ → Type 0
Stores g ds xs ys bits out =
    All IsWord out
    × ((i : ℕ)
        → bit_at out i ≡ (
            if ltb i (64 * bits_to_longs bits) then g (bit_at xs i) (bit_at ys i) else bit_at ds i))

-- Whether one of the bits of those words is set.
abbrev pub some_bit : (Bool → Bool → Bool) → List ℕ → List ℕ → ℕ → Bool
some_bit g xs ys bits =
    not (all_below (64 * bits_to_longs bits) (λ i. not (g (bit_at xs i) (bit_at ys i))))

module _ (f : ℕ → ℕ → ℕ) (g : Bool → Bool → Bool) (b : Bitwise f g) where
  -- The bits of two regions together, in the first word and behind it.
  abbrev both : List ℕ → List ℕ → ℕ → Bool
  both xs ys i = g (bit_at xs i) (bit_at ys i)

  module _ (x y : ℕ) (xs ys : List ℕ) (hx : IsWord x) (hy : IsWord y) where
    both-near : (i : ℕ) → i < 64 → both (x ∷ xs) (y ∷ ys) i ≡ bit (f x y) i
    unfolding bit_at
    both-near i lt = rw (bit_at, lt→ltb i 64 lt) (sym (b.digit x y i hx hy lt))

    both-far : (i : ℕ) → 64 ≤ i → both (x ∷ xs) (y ∷ ys) i ≡ both xs ys (i - 64)
    unfolding bit_at
    both-far i le = rw (bit_at, le→ltb i 64 le) refl

    clear_cons :
        (n : ℕ)
        → (f x y == 0) ≡ true
        → ((i : ℕ) → i < 64 * n → both xs ys i ≡ false)
        → (i : ℕ) → i < 64 * suc n
        → both (x ∷ xs) (y ∷ ys) i ≡ false
    clear_cons n z c i lt = elim (le_or_lt 64 i) [
      | inl far ↦ both-far i far ∙ c (i - 64) (omega arith)
      | inr near ↦ both-near i near ∙ ap (λ w. bit w i) (==→eq (f x y) 0 z) ∙ bit-zero i
    ]

    set_here :
        (n : ℕ)
        → (f x y == 0) ≡ false
        → (i : ℕ) × (i < 64 * suc n) × (both (x ∷ xs) (y ∷ ys) i ≡ true)
    set_here n nz =
        let (i, lt, e) =
          subst (λ q. Finds 64 (λ k. bit (f x y) k) (not q)) nz
            (word-Finds (f x y) (b.keeps x y hx hy)) in
        (i, omega arith, both-near i lt ∙ e)

    set_cons :
        (n result : ℕ)
        → ((bit_or result (f x y) == 0) ≡ false) ⊎ ((i : ℕ) × (i < 64 * n) × (both xs ys i ≡ true))
        → ((result == 0) ≡ false) ⊎ ((i : ℕ) × (i < 64 * suc n) × (both (x ∷ xs) (y ∷ ys) i ≡ true))
    set_cons n result (inr (i, lt, e)) = inr (
      i + 64,
      omega arith,
      both-far (i + 64) (omega arith) ∙ subst (λ j. both xs ys j ≡ true) (omega arith) e,
    )
    set_cons n result (inl nz) = elim (Bool-cases (result == 0)) [
      | inr e ↦ inl e
      | inl e ↦ elim (Bool-cases (f x y == 0)) [
        | inr e' ↦ inr (set_here n e')
        | inl e' ↦ absurd (ground (arith, bit_or-zero result (f x y) e e', nz))
      ]
    ]

  combine-Combined :
      (n result : ℕ) (ds xs ys : List ℕ)
      → IsWord result
      → All IsWord ds
      → All IsWord xs
      → All IsWord ys
      → n ≤ length ds
      → n ≤ length xs
      → n ≤ length ys
      → (end : ℕ) × (out : List ℕ) × (combine f result ds xs ys n ≡ some (end, out))
        × Combined g n result ds xs ys out end
  unfolding combine bit_at
  combine-Combined zero result ds xs ys hr ad ax ay ld lx ly = (
    result,
    ds,
    refl,
    record {
      words = ad;
      fits = hr;
      bits = λ i. rw (le→ltb i (64 * zero) (omega arith)) refl;
      clear = λ e. (e, λ i b. absurd (omega arith));
      set = λ e. inl e;
    },
  )
  combine-Combined (suc n) result [] xs ys hr ad ax ay ld lx ly = absurd (omega arith)
  combine-Combined (suc n) result (d ∷ ds) [] ys hr ad ax ay ld lx ly = absurd (omega arith)
  combine-Combined (suc n) result (d ∷ ds) (x ∷ xs) [] hr ad ax ay ld lx ly = absurd (omega arith)
  combine-Combined (suc n) result (d ∷ ds) (x ∷ xs) (y ∷ ys) hr ad ax ay ld lx ly =
      let w = b.keeps x y ax.0 ay.0 in
      let (end, out, run, c) =
        combine-Combined n (bit_or result (f x y)) ds xs ys (bit_or-lt 64 result (f x y) hr w) ad.1
          ax.1 ay.1 (omega arith) (omega arith) (omega arith) in
      (
        end,
        f x y ∷ out,
        ap (Option.map (λ r. (r.0, f x y ∷ r.1))) run,
        record {
          words = (w, c.words);
          fits = c.fits;
          bits = λ i. elim (le_or_lt 64 i) [
            | inl far ↦
                rw (bit_at, le→ltb i 64 far)
                  (c.bits (i - 64)
                    ∙ ap (λ q. if q then both xs ys (i - 64) else bit_at ds (i - 64))
                        (ground arith))
            | inr near ↦
                rw (bit_at, lt→ltb i 64 near, lt→ltb i (64 * suc n) (omega arith))
                  (b.digit x y i ax.0 ay.0 near)
          ];
          clear = λ e.
              let (z, none_set) = c.clear e in
              (
                bit_or-left result (f x y) z,
                clear_cons x y xs ys ax.0 ay.0 n (bit_or-right result (f x y) z) none_set,
              );
          set = λ e. set_cons x y xs ys ax.0 ay.0 n result (c.set e);
        },
      )

  -- As many words as hold the bits are stored.
  module _ (ds xs ys : List ℕ) (bits : ℕ) (ad : All IsWord ds) (ax : All IsWord xs)
      (ay : All IsWord ys) (ld : bits ≤ 64 * length ds) (lx : bits ≤ 64 * length xs)
      (ly : bits ≤ 64 * length ys) where
    abbrev n : ℕ
    n = bits_to_longs bits

    combined :
        (end : ℕ) × (out : List ℕ) × (combine f 0 ds xs ys n ≡ some (end, out))
        × Combined g n 0 ds xs ys out end
    combined =
        combine-Combined n 0 ds xs ys (omega arith) ad ax ay (omega arith) (omega arith)
          (omega arith)

    flag :
        (end : ℕ) (out : List ℕ)
        → Combined g n 0 ds xs ys out end
        → not (end == 0) ≡ not (all_below (64 * n) (λ i. not (both xs ys i)))
    flag end out c = elim (Bool-cases (end == 0)) [
      | inl e ↦ rw e (sym (ap not (Finds-all_below (64 * n) (both xs ys) false (c.clear e).1)))
      | inr e ↦ rw e (sym (ap not (Finds-all_below (64 * n) (both xs ys) true (one (c.set e)))))
    ]
      where
        one :
            ((0 == 0) ≡ false) ⊎ ((i : ℕ) × (i < 64 * n) × (both xs ys i ≡ true))
            → (i : ℕ) × (i < 64 * n) × (both xs ys i ≡ true)
        one (inl e) = absurd (ground (arith, e))
        one (inr t) = t

    pub with_flag :
        (out : List ℕ) × (Option.map some_set (combine f 0 ds xs ys n)
          ≡ some (some_bit g xs ys bits, out))
        × Stores g ds xs ys bits out
    with_flag =
        let (end, out, run, c) = combined in
        (
          out,
          ap (Option.map some_set) run ∙ ap (λ q. some (q, out)) (flag end out c),
          (c.words, c.bits),
        )

    pub without_flag :
        (out : List ℕ) × (Option.map stored (combine f 0 ds xs ys n) ≡ some out)
        × Stores g ds xs ys bits out
    without_flag =
        let (end, out, run, c) = combined in (out, ap (Option.map stored) run, (c.words, c.bits))

-- ===== src/Bitops/First.antt =====
-- `find_first_bit` finds the first bit that is set.
use libls.Prelude.{
  ℕ, ◌+◌, ◌-◌, ◌*◌, ◌/◌, ◌^◌, ◌<◌, ◌≤◌, ◌≡◌, refl, ap, ◌∙◌, Bool, true, false, ◌&&◌, Option, some,
  List, [], ◌∷◌, length, All, bit_and, ◌==◌, ==→eq, leb, ltb, if◌then◌else◌, arith, Bool-cases, inl,
  inr,
}
use libls.Prelude.Bits.{bit, bit-zero, bit-and, bit-high, bit_and-lt}
use libls.Bitops.{IsWord, all_ones, __ffs, found_first, find_loop}
use libls.Bitops.Word.{IsFirst, ctz-lt, ctz-bit, bit-below_ctz, bit-low_mask}

-- The bits of a region of memory, in one row.
unfoldable pub bit_at : List ℕ → ℕ → Bool
bit_at [] k = false
bit_at (w ∷ ws) k = if ltb k 64 then bit w k else bit_at ws (k - 64)

-- A search from `result` on gives an index `r` behind it that is the first of its row.
abbrev pub Finds : ℕ → (ℕ → Bool) → ℕ → ℕ → Option ℕ → Type 0
Finds result f low size found = (r : ℕ) × (found ≡ some (result + r)) × IsFirst f low size r

-- The lowest one of a word that is the row from `low` up to `size`.
pub IsFirst-of_word :
    (f : ℕ → Bool) (low size w : ℕ)
    → IsWord w
    → (w == 0) ≡ false
    → ((k : ℕ) → low ≤ k → k < 64 → (k < size) → f k ≡ bit w k)
    → ((k : ℕ) → bit w k ≡ true → (low ≤ k) × (k < size))
    → IsFirst f low size (__ffs w)
IsFirst-of_word f low size w h p same inside =
    let t = inside (__ffs w) (ctz-bit 64 w p h) in
    let below = ctz-lt 64 w p h in
    record {
      above = t.0;
      none_before = λ k a b. same k a (omega arith) (omega arith) ∙ bit-below_ctz 64 w k h b;
      stop = inr (t.1, same (__ffs w) t.0 below t.1 ∙ ctz-bit 64 w p h);
    }

-- The last word, from `low` on.
pub found_first-Finds :
    (result size low w : ℕ) (f : ℕ → Bool)
    → low ≤ size
    → size < 64
    → IsWord w
    → ((k : ℕ) → low ≤ k → k < size → f k ≡ bit w k)
    → ((k : ℕ) → bit w k ≡ true → low ≤ k)
    → Finds result f low size (some (found_first result size w))
unfolding found_first
found_first-Finds result size low w f small last h same high =
    let t = bit_and w (all_ones / 2 ^ (64 - size)) in
    let fits : t < 2 ^ 64 = bit_and-lt 64 w (all_ones / 2 ^ (64 - size)) h in
    let digit : (k : ℕ) → bit t k ≡ (bit w k && ltb k size) = λ k.
      ground (arith, bit-and w (all_ones / 2 ^ (64 - size)) k, bit-low_mask size k (omega arith)) in
    elim (Bool-cases (t == 0)) [
      | inl zero_word ↦
          let none_set : (k : ℕ) → bit t k ≡ false =
            λ k. ap (λ x. bit x k) (==→eq t 0 zero_word) ∙ bit-zero k in
          (
            size,
            rw zero_word refl,
            record {
              above = small;
              none_before = λ k a b. ground (arith, same k a b, digit k, none_set k);
              stop = inl refl;
            },
          )
      | inr found ↦ (
        __ffs t,
        rw found refl,
        IsFirst-of_word f low size t fits found (λ k a b c. ground (arith, same k a c, digit k))
            (λ k e. (high k (ground (arith, digit k)), ground (arith, digit k))),
      )
    ]

-- A search that goes on in the next word.
pub Finds-next :
    (result size low w : ℕ) (ws : List ℕ) (found : Option ℕ)
    → low < 64
    → 64 ≤ size
    → ((k : ℕ) → low ≤ k → k < 64 → bit w k ≡ false)
    → Finds (result + 64) (bit_at ws) 0 (size - 64) found
    → Finds result (bit_at (w ∷ ws)) low size found
unfolding bit_at
Finds-next result size low w ws found small long clear (r, run, first) = (
  64 + r,
  run ∙ ap some (omega arith),
  record {
    above = omega arith;
    none_before = λ k a b. ground (arith, clear k a, first.none_before (k - 64));
    stop = elim first.stop [
      | inl e ↦ inl (omega arith)
      | inr (lt, e) ↦ inr (omega arith, shifted lt e)
    ];
  },
)
  where
    shifted : r < size - 64 → bit_at ws r ≡ true → bit_at (w ∷ ws) (64 + r) ≡ true
    shifted lt e =
        let back : 64 + r - 64 ≡ r = omega arith in ground (arith, ap (bit_at ws) back, e)

pub find_loop-Finds :
    (result size : ℕ) (ws : List ℕ)
    → All IsWord ws
    → size ≤ 64 * length ws
    → Finds result (bit_at ws) 0 size (find_loop result size ws)
unfolding find_loop bit_at
find_loop-Finds result size [] ok long = (
  0,
  ground arith,
  record { above = omega arith; none_before = λ k a b. refl; stop = inl (omega arith) },
)
find_loop-Finds result size (w ∷ ws) ok long = elim (Bool-cases (leb 64 size)) [
  | inl whole ↦ elim (Bool-cases (w == 0)) [
    | inl none_set ↦
        rw (whole, none_set)
          (Finds-next result size 0 w ws (find_loop (result + 64) (size - 64) ws) (omega arith)
            (ground arith) (λ k a b. ap (λ x. bit x k) (==→eq w 0 none_set) ∙ bit-zero k)
            (find_loop-Finds (result + 64) (size - 64) ws ok.1 (omega arith)))
    | inr set ↦
        rw (whole, set)
          (
            __ffs w,
            refl,
            IsFirst-of_word (bit_at (w ∷ ws)) 0 size w ok.0 set (λ k a b c. ground arith)
                (λ k e. (omega arith, ground (arith, bit-high 64 w k ok.0))),
          )
  ]
  | inr last ↦ elim (Bool-cases (size == 0)) [
    | inl done ↦
        rw (last, done)
          (
            0,
            ap some (omega arith),
            record {
              above = omega arith;
              none_before = λ k a b. absurd (omega arith);
              stop = inl (ground arith);
            },
          )
    | inr part ↦
        rw (last, part)
          (found_first-Finds result size 0 w (bit_at (w ∷ ws)) (omega arith) (ground arith) ok.0
            (λ k a b. ground arith) (λ k e. omega arith))
  ]
]

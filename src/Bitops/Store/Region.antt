-- ===== src/Bitops/Store/Region.antt =====
-- The operations on a region, by its bits.
use mathlib.Core.Bool.{not}
use mathlib.Core.Option
use libls.Prelude.{
  ℕ, zero, suc, ◌+◌, ◌-◌, ◌*◌, ◌/◌, ◌%◌, ◌^◌, ◌<◌, ◌≡◌, refl, ap, sym, subst, ◌∙◌, Bool, true,
  false, ◌&&◌, Option, some, List, [], ◌∷◌, length, get_elem?, set, All, bit_and, bit_or, bit_xor,
  ◌==◌, ==→eq, ltb, if◌then◌else◌, arith, Bool-cases, inl, inr,
}
use libls.Prelude.Bits.{bit, bit-zero, bit-and, bit_ext, bit-div}
use libls.Bitops.{IsWord, not64}
use libls.Bitops.First.{bit_at}
use libls.Bitops.Last.{bit_at-get, get-some}
use libls.Bitops.Store.{
  bit_mask, store, test_and, __set_bit, __clear_bit, __change_bit, __test_and_set_bit,
  __test_and_clear_bit, __test_and_change_bit, test_bit,
}
use libls.Bitops.Store.Mask.{
  bit-mask, bit_and-one, Changes, set-Changes, clear-Changes, change-Changes,
}

-- A region of as many words, in which bit `nr` has become `b`, the others are as they were.
pub record BitBecomes (nr : ℕ) (b : Bool) (addr stored : List ℕ) : Type 0 where
  pub words : All IsWord stored
  pub bits : (k : ℕ) → bit_at stored k ≡ (if k == nr then b else bit_at addr k)

set-words :
    (op : ℕ → ℕ) (g : Bool → Bool) (i : ℕ) (addr : List ℕ) (n w : ℕ)
    → Changes op g i
    → All IsWord addr
    → get_elem? addr n ≡ some w
    → All IsWord (set addr n (op w))
set-words op g i [] n w c ok e = tt
set-words op g i (v ∷ vs) zero w c ok e = (c.keeps w (subst IsWord (ground arith) ok.0), ok.1)
set-words op g i (v ∷ vs) (suc n) w c ok e = (ok.0, set-words op g i vs n w c ok.1 e)

set-bits :
    (op : ℕ → ℕ) (g : Bool → Bool) (i : ℕ) (addr : List ℕ) (n w k : ℕ)
    → Changes op g i
    → i < 64
    → All IsWord addr
    → get_elem? addr n ≡ some w
    → bit_at (set addr n (op w)) k
      ≡ (if k == n * 64 + i then g (bit_at addr (n * 64 + i)) else bit_at addr k)
unfolding bit_at
set-bits op g i [] n w k c h ok e = absurd (ground arith)
set-bits op g i (v ∷ vs) zero w k c h ok e =
    let same : v ≡ w = ground arith in
    let f : 0 * 64 + i ≡ i = omega arith in
    let inside : ltb i 64 ≡ true = ground arith in
    elim (Bool-cases (ltb k 64)) [
      | inl near ↦ rw (f, sym same, inside, near) (c.at v k ok.0 (ground arith))
      | inr far ↦
          let other : (k == i) ≡ false = ground arith in rw (f, sym same, inside, far, other) refl
    ]
set-bits op g i (v ∷ vs) (suc n) w k c h ok e =
    let f : suc n * 64 + i - 64 ≡ n * 64 + i = omega arith in
    ground (arith, ap (bit_at vs) f, set-bits op g i vs n w (k - 64) c h ok.1 e)

module _ (addr : List ℕ) (nr : ℕ) (ok : All IsWord addr) (inside : nr < 64 * length addr) where
  found : (w : ℕ) × (get_elem? addr (nr / 64) ≡ some w)
  found = get-some addr (nr / 64) (omega arith)

  index : nr / 64 * 64 + nr % 64 ≡ nr
  index = omega arith

  BitBecomes-set :
      (op : ℕ → ℕ) (g : Bool → Bool)
      → Changes op g (nr % 64)
      → BitBecomes nr (g (bit_at addr nr)) addr (set addr (nr / 64) (op found.0))
  BitBecomes-set op g c = record {
    words = set-words op g (nr % 64) addr (nr / 64) found.0 c ok found.1;
    bits = λ k.
        subst
          (λ t.
            bit_at (set addr (nr / 64) (op found.0)) k
            ≡ (if k == t then g (bit_at addr t) else bit_at addr k))
          index (set-bits op g (nr % 64) addr (nr / 64) found.0 k c (omega arith) ok found.1);
  }

  store-run : (op : ℕ → ℕ) → store op nr addr ≡ some (set addr (nr / 64) (op found.0))
  store-run op = ap (Option.map (λ old. set addr (nr / 64) (op old))) found.1

  -- The word of bit `nr`, by the bit alone.
  bit_at-found : bit_at addr nr ≡ bit found.0 (nr % 64)
  bit_at-found =
      ap (bit_at addr) (sym index)
      ∙ bit_at-get addr (nr / 64) (nr % 64) found.0 found.1 (omega arith)

  tested : not (bit_and found.0 (bit_mask nr) == 0) ≡ bit_at addr nr
  tested =
      let masked = bit_and found.0 (bit_mask nr) in
      let digit : (k : ℕ) → bit masked k ≡ (bit found.0 k && (k == nr % 64)) =
        λ k. ground (arith, bit-and found.0 (bit_mask nr) k, bit-mask nr k) in
      elim (Bool-cases (bit found.0 (nr % 64))) [
        | inl one ↦ elim (Bool-cases (masked == 0)) [
          | inl gone ↦
              let clear = ap (λ x. bit x (nr % 64)) (==→eq masked 0 gone) in
              absurd (ground (arith, clear, digit (nr % 64), bit-zero (nr % 64)))
          | inr kept ↦ rw kept (sym (bit_at-found ∙ one))
        ]
        | inr off ↦
            let gone : masked ≡ 0 = bit_ext masked 0 λ k. elim (Bool-cases (k == nr % 64)) [
              | inl e ↦
                  let f = ap (bit found.0) (==→eq k (nr % 64) e) in
                  ground (arith, digit k, f, bit-zero k)
              | inr e ↦ ground (arith, digit k, bit-zero k)
            ] in
            rw gone (sym (bit_at-found ∙ off))
      ]

  test_and-run :
      (op : ℕ → ℕ) → test_and op nr addr ≡ some (set addr (nr / 64) (op found.0), bit_at addr nr)
  test_and-run op =
      ap (Option.map (λ old. (set addr (nr / 64) (op old), not (bit_and old (bit_mask nr) == 0))))
        found.1
      ∙ ap (λ b. some (set addr (nr / 64) (op found.0), b)) tested

-- The bit `nr` becomes `b`: what is left is a region.
abbrev pub Stores : ℕ → Bool → List ℕ → Option (List ℕ) → Type 0
Stores nr b addr found = (stored : List ℕ) × (found ≡ some stored) × BitBecomes nr b addr stored

-- In a region of words that holds bit `nr`, `__set_bit`, `__clear_bit` and `__change_bit` write inside
-- the region: the bit becomes one, zero, or the other one, and all others stay.
__set_bit-Stores :
    (addr : List ℕ) (nr : ℕ)
    → All IsWord addr
    → nr < 64 * length addr
    → Stores nr true addr (__set_bit nr addr)
      × Stores nr false addr (__clear_bit nr addr)
      × Stores nr (not (bit_at addr nr)) addr (__change_bit nr addr)
unfolding __set_bit __clear_bit __change_bit
__set_bit-Stores addr nr ok inside =
    let w = (found addr nr ok inside).0 in
    let run = store-run addr nr ok inside in
    let become = BitBecomes-set addr nr ok inside in
    (
      (
        set addr (nr / 64) (bit_or w (bit_mask nr)),
        run (λ p. bit_or p (bit_mask nr)),
        become (λ p. bit_or p (bit_mask nr)) (λ b. true) (set-Changes nr),
      ),
      (
        set addr (nr / 64) (bit_and w (not64 (bit_mask nr))),
        run (λ p. bit_and p (not64 (bit_mask nr))),
        become (λ p. bit_and p (not64 (bit_mask nr))) (λ b. false) (clear-Changes nr),
      ),
      (
        set addr (nr / 64) (bit_xor w (bit_mask nr)),
        run (λ p. bit_xor p (bit_mask nr)),
        become (λ p. bit_xor p (bit_mask nr)) not (change-Changes nr),
      ),
    )

-- The same, with the old value of the bit beside the region.
abbrev pub TestsAndStores : ℕ → Bool → List ℕ → Option (List ℕ × Bool) → Type 0
TestsAndStores nr b addr found =
    (stored : List ℕ) × (found ≡ some (stored, bit_at addr nr)) × BitBecomes nr b addr stored

-- In a region of words that holds bit `nr`, `test_bit` gives the bit as 0 or 1, and `__test_and_set_bit`,
-- `__test_and_clear_bit` and `__test_and_change_bit` give the bit that was there, make it one, zero, or
-- the other one, and leave all others as they are.
__test_and_set_bit-TestsAndStores :
    (addr : List ℕ) (nr : ℕ)
    → All IsWord addr
    → nr < 64 * length addr
    → (test_bit nr addr ≡ some (if bit_at addr nr then 1 else 0))
      × TestsAndStores nr true addr (__test_and_set_bit nr addr)
      × TestsAndStores nr false addr (__test_and_clear_bit nr addr)
      × TestsAndStores nr (not (bit_at addr nr)) addr (__test_and_change_bit nr addr)
unfolding test_bit __test_and_set_bit __test_and_clear_bit __test_and_change_bit
__test_and_set_bit-TestsAndStores addr nr ok inside =
    let w = (found addr nr ok inside).0 in
    let run = test_and-run addr nr ok inside in
    let zero_plus : 0 + nr % 64 ≡ nr % 64 = omega arith in
    let become = BitBecomes-set addr nr ok inside in
    (
      ap (Option.map (λ x. bit_and 1 (x / 2 ^ (nr % 64)))) (found addr nr ok inside).1
          ∙ ap some (
              bit_and-one (w / 2 ^ (nr % 64))
              ∙ ap (λ b. if b then 1 else 0)
                  (bit-div (nr % 64) w 0
                    ∙ ap (bit w) zero_plus
                    ∙ sym (bit_at-found addr nr ok inside))),
      (
        set addr (nr / 64) (bit_or w (bit_mask nr)),
        run (λ p. bit_or p (bit_mask nr)),
        become (λ p. bit_or p (bit_mask nr)) (λ b. true) (set-Changes nr),
      ),
      (
        set addr (nr / 64) (bit_and w (not64 (bit_mask nr))),
        run (λ p. bit_and p (not64 (bit_mask nr))),
        become (λ p. bit_and p (not64 (bit_mask nr))) (λ b. false) (clear-Changes nr),
      ),
      (
        set addr (nr / 64) (bit_xor w (bit_mask nr)),
        run (λ p. bit_xor p (bit_mask nr)),
        become (λ p. bit_xor p (bit_mask nr)) not (change-Changes nr),
      ),
    )

-- In a region of words that holds bit `nr`, the seven operations access nothing behind its
-- end: `__set_bit`, `__clear_bit` and `__change_bit` make the bit one, zero, or the other one, `test_bit`
-- gives the bit as 0 or 1, and `__test_and_set_bit`, `__test_and_clear_bit` and `__test_and_change_bit`
-- give the bit that was there and make it one, zero, or the other one. All other bits stay.
pub __set_bit-TestsAndStores :
    (addr : List ℕ) (nr : ℕ)
    → All IsWord addr
    → nr < 64 * length addr
    → (Stores nr true addr (__set_bit nr addr)
        × Stores nr false addr (__clear_bit nr addr)
        × Stores nr (not (bit_at addr nr)) addr (__change_bit nr addr))
      × (test_bit nr addr ≡ some (if bit_at addr nr then 1 else 0))
      × TestsAndStores nr true addr (__test_and_set_bit nr addr)
      × TestsAndStores nr false addr (__test_and_clear_bit nr addr)
      × TestsAndStores nr (not (bit_at addr nr)) addr (__test_and_change_bit nr addr)
__set_bit-TestsAndStores addr nr ok inside =
    let tests = __test_and_set_bit-TestsAndStores addr nr ok inside in
    (__set_bit-Stores addr nr ok inside, tests.0, tests.1, tests.2, tests.3)

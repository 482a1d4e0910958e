-- ===== src/Bitops/Last.antt =====
-- `find_last_bit` finds the last bit that is set.
use libls.Prelude.{
  ℕ, zero, suc, ◌+◌, ◌-◌, ◌*◌, ◌/◌, ◌%◌, ◌^◌, ◌<◌, ◌≤◌, ◌≡◌, refl, ap, sym, ◌∙◌, Bool, true, false,
  ◌&&◌, Option, some, List, [], ◌∷◌, length, get_elem?, All, bit_and, ◌==◌, ==→eq, ltb,
  if◌then◌else◌, arith, Bool-cases, inl, inr, ◌⊎◌,
}
use libls.Prelude.Bits.{bit, bit-zero, bit-and, bit-high, bit-div, bit_and-lt, bit_ext}
use libls.Bitops.{IsWord, all_ones, clz, __fls, last_loop, find_last_bit}
use libls.Bitops.Word.{bit-low_mask}
use libls.Bitops.First.{bit_at}

-- `r` is the last index below `size` at which `f` is true, or `size` where there is none.
pub record IsLast (f : ℕ → Bool) (size r : ℕ) : Type 0 where
  pub none_behind : (k : ℕ) → r < k → k < size → f k ≡ false
  pub stop : ((r ≡ size) × ((k : ℕ) → k < size → f k ≡ false)) ⊎ ((r < size) × (f r ≡ true))

pub bit-digit : (n w : ℕ) → bit w n ≡ (w / 2 ^ n % 2 == 1)
unfolding bit
bit-digit n w = let e : n ≡ 0 + n = omega arith in ap (bit w) e ∙ sym (bit-div n w 0)

-- The highest one of a number of `n` digits.
record Highest (n w : ℕ) : Type 0 where
  inside : clz n w < n
  set : bit w (n - 1 - clz n w) ≡ true
  clear : (k : ℕ) → n - 1 - clz n w < k → bit w k ≡ false

highest : (n w : ℕ) → (w == 0) ≡ false → ((k : ℕ) → n ≤ k → bit w k ≡ false) → Highest n w
unfolding clz
highest zero w p h =
    absurd (ground (arith, bit_ext w 0 (λ i. h i (omega arith) ∙ sym (bit-zero i))))
highest (suc n) w p h = elim (Bool-cases (w / 2 ^ n % 2 == 1)) [
  | inl one ↦
      let top : suc n - 1 - 0 ≡ n = omega arith in
      record {
        inside = rw one (omega arith);
        set = rw (one, top) (bit-digit n w ∙ one);
        clear = rw one (λ k b. h k (omega arith));
      }
  | inr off ↦
      let below : (k : ℕ) → n ≤ k → bit w k ≡ false = λ k a. elim (Bool-cases (k == n)) [
        | inl e ↦ ap (bit w) (==→eq k n e) ∙ bit-digit n w ∙ off
        | inr e ↦ h k (ground arith)
      ] in
      let ih = highest n w p below in
      let top : suc n - 1 - suc (clz n w) ≡ n - 1 - clz n w = omega arith in
      record {
        inside = rw off (omega (arith, ih.inside));
        set = rw (off, top) ih.set;
        clear = rw (off, top) ih.clear;
      }
]

pub bit_at-get :
    (addr : List ℕ) (n k w : ℕ)
    → get_elem? addr n ≡ some w
    → k < 64
    → bit_at addr (n * 64 + k) ≡ bit w k
unfolding bit_at
bit_at-get [] n k w e h = absurd (ground arith)
bit_at-get (v ∷ vs) zero k w e h =
    let f : 0 * 64 + k ≡ k = omega arith in ap (bit_at (v ∷ vs)) f ∙ ground arith
bit_at-get (v ∷ vs) (suc n) k w e h =
    let f : suc n * 64 + k - 64 ≡ n * 64 + k = omega arith in
    ground (arith, ap (bit_at vs) f, bit_at-get vs n k w e h)

get-IsWord : (addr : List ℕ) (n w : ℕ) → All IsWord addr → get_elem? addr n ≡ some w → IsWord w
get-IsWord [] n w ok e = absurd (ground arith)
get-IsWord (v ∷ vs) zero w ok e = ground arith
get-IsWord (v ∷ vs) (suc n) w ok e = get-IsWord vs n w ok.1 e

pub get-some : (addr : List ℕ) (n : ℕ) → n < length addr → (w : ℕ) × (get_elem? addr n ≡ some w)
get-some [] n h = absurd (omega arith)
get-some (v ∷ vs) zero h = (v, refl)
get-some (v ∷ vs) (suc n) h = get-some vs n (omega arith)

abbrev pub FindsLast : (ℕ → Bool) → ℕ → Option ℕ → Type 0
FindsLast f size found = (r : ℕ) × (found ≡ some r) × IsLast f size r

-- The word at `n` of a search from above, where `tmp` are its bits that count.
last_word :
    (addr : List ℕ) (size n tmp : ℕ) (rest : Option ℕ)
    → IsWord tmp
    → ((k : ℕ) → k < 64 → n * 64 + k < size → bit_at addr (n * 64 + k) ≡ bit tmp k)
    → ((k : ℕ) → bit tmp k ≡ true → n * 64 + k < size)
    → ((k : ℕ) → n * 64 + 64 ≤ k → k < size → bit_at addr k ≡ false)
    → (((k : ℕ) → n * 64 ≤ k → k < size → bit_at addr k ≡ false)
        → FindsLast (bit_at addr) size rest)
    → FindsLast (bit_at addr) size (if tmp == 0 then rest else some (n * 64 + __fls tmp))
last_word addr size n tmp rest h same inside behind more =
    let at : (k : ℕ) → n * 64 ≤ k → n * 64 + (k - n * 64) ≡ k = λ k a. omega arith in
    elim (Bool-cases (tmp == 0)) [
      | inl no_bit ↦ rw no_bit (
          more λ k a b. elim (Bool-cases (ltb (k - n * 64) 64)) [
            | inl near ↦
                ap (bit_at addr) (sym (at k a))
                ∙ same (k - n * 64) (ground arith) (omega arith)
                ∙ ap (λ x. bit x (k - n * 64)) (==→eq tmp 0 no_bit)
                ∙ bit-zero (k - n * 64)
            | inr far ↦ behind k (ground arith) b
          ])
      | inr some_set ↦
          let top = highest 64 tmp some_set (λ k a. bit-high 64 tmp k h a) in
          rw some_set (
            n * 64 + __fls tmp,
            refl,
            record {
              none_behind = λ k a b. elim (Bool-cases (ltb (k - n * 64) 64)) [
                | inl near ↦
                    ap (bit_at addr) (sym (at k (omega arith)))
                    ∙ same (k - n * 64) (ground arith) (omega arith)
                    ∙ top.clear (k - n * 64) (omega arith)
                | inr far ↦ behind k (ground arith) b
              ];
              stop = inr (
                inside (__fls tmp) top.set,
                same (__fls tmp) (omega (arith, top.inside)) (inside (__fls tmp) top.set) ∙ top.set,
              );
            },
          )
    ]

last_loop-FindsLast :
    (addr : List ℕ) (n size : ℕ)
    → All IsWord addr
    → n ≤ length addr
    → n * 64 ≤ size
    → ((k : ℕ) → n * 64 ≤ k → k < size → bit_at addr k ≡ false)
    → FindsLast (bit_at addr) size (last_loop addr n size)
unfolding last_loop
last_loop-FindsLast addr zero size ok h fits clear = (
  size,
  refl,
  record {
    none_behind = λ k a b. absurd (omega arith);
    stop = inl (refl, λ k b. clear k (omega arith) b);
  },
)
last_loop-FindsLast addr (suc n) size ok h fits clear =
    let (w, e) = get-some addr n (omega arith) in
    let small = get-IsWord addr n w ok e in
    rw (e, last_loop)
      (last_word addr size n w (last_loop addr n size) small (λ k a b. bit_at-get addr n k w e a)
        (λ k d. ground (arith, bit-high 64 w k small)) (λ k a b. clear k (omega arith) b)
        (last_loop-FindsLast addr n size ok (omega arith) (omega arith)))

-- In a region of words that holds `size` bits, `find_last_bit` reads inside the region and gives the
-- last index below `size` whose bit is set, and `size` where there is none.
pub find_last_bit-FindsLast :
    (addr : List ℕ) (size : ℕ)
    → All IsWord addr
    → size ≤ 64 * length addr
    → FindsLast (bit_at addr) size (find_last_bit addr size)
unfolding find_last_bit
find_last_bit-FindsLast addr size ok long = elim (Bool-cases (size % 64 == 0)) [
  | inl whole ↦ rw whole (
      last_loop-FindsLast addr (size / 64) size ok (omega arith) (omega arith)
        (λ k a b. absurd (ground arith)))
  | inr part ↦
      let n = size / 64 in
      let (w, e) = get-some addr n (ground arith) in
      let mask = all_ones / 2 ^ (64 - size % 64) in
      let fits : bit_and w mask < 2 ^ 64 = bit_and-lt 64 w mask (get-IsWord addr n w ok e) in
      let digit : (k : ℕ) → bit (bit_and w mask) k ≡ (bit w k && ltb k (size % 64)) =
        λ k. ground (arith, bit-and w mask k, bit-low_mask (size % 64) k (omega arith)) in
      rw (part, e)
        (last_word addr size n (bit_and w mask) (last_loop addr n size) fits
          (λ k a b. bit_at-get addr n k w e a ∙ ground (arith, digit k))
          (λ k d. ground (arith, digit k)) (λ k a b. absurd (omega arith))
          (last_loop-FindsLast addr n size ok (ground arith) (omega arith)))
]

-- ===== src/Jhash/Words.antt =====
-- `jhash` on the bytes of words is `jhash2` on the words.
use libls.Prelude.{
  ℕ, ◌+◌, ◌*◌, ◌/◌, ◌%◌, ◌^◌, ◌<◌, ◌≤◌, ◌≡◌, refl, ap, ◌∙◌, List, [], ◌∷◌, length, All, arith,
}
use libls.Jhash.{
  State, u32, initial, add_words, load32, __jhash_mix, jhash_last, jhash_loop, jhash, jhash2_last,
  jhash2_loop, jhash2,
}

abbrev pub IsU32 : ℕ → Type 0
IsU32 w = w < 2 ^ 32

-- The bytes of words, the lowest first.
pub bytes_of : List ℕ → List ℕ
bytes_of [] = []
bytes_of (w ∷ ws) =
    w % 2 ^ 8 ∷ w / 2 ^ 8 % 2 ^ 8 ∷ w / 2 ^ 16 % 2 ^ 8 ∷ w / 2 ^ 24 % 2 ^ 8 ∷ bytes_of ws

load32-bytes :
    (w : ℕ)
    → IsU32 w
    → load32 (w % 2 ^ 8) (w / 2 ^ 8 % 2 ^ 8) (w / 2 ^ 16 % 2 ^ 8) (w / 2 ^ 24 % 2 ^ 8) ≡ w
load32-bytes w h = omega arith

-- The four cases that a word is added by.
four_cases :
    (x w : ℕ)
    → IsU32 w
    → u32 (
        u32 (
          u32 (u32 (x + w / 2 ^ 24 % 2 ^ 8 * 2 ^ 24) + w / 2 ^ 16 % 2 ^ 8 * 2 ^ 16)
          + w / 2 ^ 8 % 2 ^ 8 * 2 ^ 8)
        + w % 2 ^ 8 * 2 ^ 0)
      ≡ u32 (x + w)
four_cases x w h = omega arith

-- The last block, for each number of words.
last_words :
    (ws : List ℕ) (s : State)
    → All IsU32 ws
    → length ws ≤ 3
    → jhash_last (bytes_of ws) s ≡ jhash2_last ws s
unfolding jhash_last jhash2_last bytes_of
last_words [] s ok h = refl
last_words (x ∷ []) s ok h = rw (four_cases s.a x ok.0) refl
last_words (x ∷ y ∷ []) s ok h = rw (four_cases s.a x ok.0, four_cases s.b y ok.1.0) refl
last_words (x ∷ y ∷ z ∷ []) s ok h =
    rw (four_cases s.a x ok.0, four_cases s.b y ok.1.0, four_cases s.c z ok.1.1.0) refl
last_words (x ∷ y ∷ z ∷ w ∷ rest) s ok h = absurd (omega arith)

loop_words :
    (ws : List ℕ) (s : State) → All IsU32 ws → jhash_loop (bytes_of ws) s ≡ jhash2_loop ws s
unfolding jhash_loop jhash2_loop bytes_of
loop_words [] s ok = last_words [] s ok (omega arith)
loop_words (x ∷ []) s ok = last_words (x ∷ []) s ok (omega arith)
loop_words (x ∷ y ∷ []) s ok = last_words (x ∷ y ∷ []) s ok (omega arith)
loop_words (x ∷ y ∷ z ∷ []) s ok = last_words (x ∷ y ∷ z ∷ []) s ok (omega arith)
loop_words (x ∷ y ∷ z ∷ w ∷ rest) s ok =
    rw (load32-bytes x ok.0, load32-bytes y ok.1.0, load32-bytes z ok.1.1.0)
      (loop_words (w ∷ rest) (__jhash_mix (add_words s x y z)) ok.1.1.1)

length-bytes_of : (ws : List ℕ) → length (bytes_of ws) ≡ length ws * 4
unfolding bytes_of
length-bytes_of [] = omega arith
length-bytes_of (w ∷ ws) = omega (arith, length-bytes_of ws)

-- For a key of words whose bytes are fewer than 2 ^ 32, `jhash` of its bytes, the lowest of each word
-- first, is `jhash2` of its words, whatever the initial value.
pub jhash-bytes_of :
    (ws : List ℕ) (initval : ℕ)
    → All IsU32 ws
    → length ws * 4 < 2 ^ 32
    → jhash (bytes_of ws) initval ≡ jhash2 ws initval
unfolding jhash jhash2
jhash-bytes_of ws initval ok h =
    let e : length (bytes_of ws) ≡ u32 (length ws * 2 ^ 2) = omega (arith, length-bytes_of ws) in
    ap (λ n. jhash_loop (bytes_of ws) (initial (u32 (0xdeadbeef + n + initval)))) e
    ∙ loop_words ws (initial (u32 (0xdeadbeef + u32 (length ws * 2 ^ 2) + initval))) ok

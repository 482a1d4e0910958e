-- ===== src/Jhash.antt =====
-- include/ls/jhash.h. A key of bytes is the list of its `u8`s, a key of words the list of its `u32`s; a
-- `u32` that is read from bytes is little-endian, as on x86.
pub mod Mix
pub mod Words
mod Tests
use libls.Prelude.{
  ℕ, zero, suc, ◌+◌, ◌-◌, ◌*◌, ◌/◌, ◌%◌, ◌^◌, bit_xor, List, [], ◌∷◌, length, get_or, leb, ◌==◌,
  if◌then◌else◌,
}
use libls.Bitops.Rotate.{rol32}

abbrev pub u32 : ℕ → ℕ
u32 x = x % 2 ^ 32

abbrev pub sub32 : ℕ → ℕ → ℕ
sub32 x y = (x + 2 ^ 32 - y) % 2 ^ 32

-- The three words of the internal state.
pub record State : Type 0 where
  pub a : ℕ
  pub b : ℕ
  pub c : ℕ

-- `x -= z; x ^= rol32(z, k);`, the start of a line of `__jhash_mix`.
abbrev pub stir : ℕ → ℕ → ℕ → ℕ
stir x z k = bit_xor (sub32 x z) (rol32 z k)

-- The lines of `__jhash_mix`, by the word that they stir.
pub mix_a : ℕ → State → State
mix_a k s = record { a = stir s.a s.c k; b = s.b; c = u32 (s.c + s.b) }

pub mix_b : ℕ → State → State
mix_b k s = record { a = u32 (s.a + s.c); b = stir s.b s.a k; c = s.c }

pub mix_c : ℕ → State → State
mix_c k s = record { a = s.a; b = u32 (s.b + s.a); c = stir s.c s.b k }

pub __jhash_mix : State → State
__jhash_mix s = mix_c 4 (mix_b 19 (mix_a 16 (mix_c 8 (mix_b 6 (mix_a 4 s)))))

-- `x ^= z; x -= rol32(z, k);`.
abbrev pub settle : ℕ → ℕ → ℕ → ℕ
settle x z k = sub32 (bit_xor x z) (rol32 z k)

-- `__jhash_final`, and the `c` that it leaves.
pub __jhash_final : State → ℕ
__jhash_final s =
    let c1 = settle s.c s.b 14 in
    let a1 = settle s.a c1 11 in
    let b1 = settle s.b a1 25 in
    let c2 = settle c1 b1 16 in
    let a2 = settle a1 c2 4 in let b2 = settle b1 a2 14 in settle c2 b2 24

abbrev pub initial : ℕ → State
initial x = record { a = x; b = x; c = x }

-- `*(u32 *)k` at four bytes.
abbrev pub load32 : ℕ → ℕ → ℕ → ℕ → ℕ
load32 k0 k1 k2 k3 = k0 + k1 * 2 ^ 8 + k2 * 2 ^ 16 + k3 * 2 ^ 24

abbrev pub add_words : State → ℕ → ℕ → ℕ → State
add_words s x y z = record { a = u32 (s.a + x); b = u32 (s.b + y); c = u32 (s.c + z) }

-- `case n: x += (u32)k[n - 1] << shift`, reached by all lengths from `n` on.
abbrev pub case_byte : List ℕ → ℕ → ℕ → ℕ → ℕ
case_byte k n shift x = if leb n (length k) then u32 (x + get_or k (n - 1) 0 * 2 ^ shift) else x

-- The `switch` on the 12 bytes at most that are left.
pub jhash_last : List ℕ → State → ℕ
jhash_last k s =
    let c = case_byte k 9 0 (case_byte k 10 8 (case_byte k 11 16 (case_byte k 12 24 s.c))) in
    let b = case_byte k 5 0 (case_byte k 6 8 (case_byte k 7 16 (case_byte k 8 24 s.b))) in
    let a = case_byte k 1 0 (case_byte k 2 8 (case_byte k 3 16 (case_byte k 4 24 s.a))) in
    if length k == 0 then c else __jhash_final (record { a = a; b = b; c = c })

-- `while (length > 12)`.
pub jhash_loop : List ℕ → State → ℕ
jhash_loop (k0 ∷ k1 ∷ k2 ∷ k3 ∷ k4 ∷ k5 ∷ k6 ∷ k7 ∷ k8 ∷ k9 ∷ k10 ∷ k11 ∷ k12 ∷ k) s =
    jhash_loop (k12 ∷ k)
      (__jhash_mix (add_words s (load32 k0 k1 k2 k3) (load32 k4 k5 k6 k7) (load32 k8 k9 k10 k11)))
jhash_loop k s = jhash_last k s

pub jhash : List ℕ → ℕ → ℕ
jhash key initval = jhash_loop key (initial (u32 (0xdeadbeef + length key + initval)))

pub jhash2_last : List ℕ → State → ℕ
jhash2_last [] s = s.c
jhash2_last (x ∷ []) s = __jhash_final (record { a = u32 (s.a + x); b = s.b; c = s.c })
jhash2_last (x ∷ y ∷ []) s =
    __jhash_final (record { a = u32 (s.a + x); b = u32 (s.b + y); c = s.c })
jhash2_last (x ∷ y ∷ z ∷ rest) s = __jhash_final (add_words s x y z)

pub jhash2_loop : List ℕ → State → ℕ
jhash2_loop (x ∷ y ∷ z ∷ w ∷ k) s = jhash2_loop (w ∷ k) (__jhash_mix (add_words s x y z))
jhash2_loop k s = jhash2_last k s

pub jhash2 : List ℕ → ℕ → ℕ
jhash2 k initval = jhash2_loop k (initial (u32 (0xdeadbeef + u32 (length k * 2 ^ 2) + initval)))

pub jhash_3words : ℕ → ℕ → ℕ → ℕ → ℕ
jhash_3words a b c initval =
    __jhash_final
      (record { a = u32 (a + 0xdeadbeef); b = u32 (b + 0xdeadbeef); c = u32 (c + initval) })

pub jhash_2words : ℕ → ℕ → ℕ → ℕ
jhash_2words a b initval = jhash_3words a b 0 initval

pub jhash_1word : ℕ → ℕ → ℕ
jhash_1word a initval = jhash_3words a 0 0 initval

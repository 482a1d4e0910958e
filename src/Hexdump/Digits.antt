-- ===== src/Hexdump/Digits.antt =====
-- `hex_to_bin` and `hex2bin` against the digit tables and <ctype.h>.
use mathlib.Core.List.{append_assoc, append-nil}
use libls.Prelude.{
  ℕ, ◌*◌, ◌/◌, ◌%◌, ◌^◌, ◌<◌, bit_or, ◌≡◌, refl, sym, ap, Bool, true, false, ◌&&◌, Option, none,
  some, List, [], ◌∷◌, ◌++◌, arith, length, All, IsByte, ◌==◌, ==→eq, all_below, all_below_sound,
}
use libls.Hexdump.{
  hex_asc_hi, hex_asc_lo, hex_asc_upper_hi, hex_asc_upper_lo, hex_byte_pack, hex_byte_pack_upper,
  hex_to_bin, done, hex2bin_byte, hex2bin_loop, hex2bin,
}

abbrev is_digit : Option ℕ → ℕ → Bool
is_digit none v = false
is_digit (some d) v = d == v

eq_of_digit : (d : Option ℕ) (v : ℕ) → is_digit d v ≡ true → d ≡ some v
eq_of_digit d v h = ground arith

digit_table :
    (hi lo : ℕ → ℕ)
    → all_below 256
        (λ b. is_digit (hex_to_bin (hi b)) (b / 16) && is_digit (hex_to_bin (lo b)) (b % 16))
      ≡ true
    → (b : ℕ) → b < 256
    → (hex_to_bin (hi b) ≡ some (b / 16)) × (hex_to_bin (lo b) ≡ some (b % 16))
digit_table hi lo t b h =
    let both = all_below_sound 256 _ b t h in
    (eq_of_digit _ _ (ground arith), eq_of_digit _ _ (ground arith))

pub lower_digits :
    (b : ℕ)
    → b < 256
    → (hex_to_bin (hex_asc_hi b) ≡ some (b / 16)) × (hex_to_bin (hex_asc_lo b) ≡ some (b % 16))
lower_digits =
    digit_table hex_asc_hi hex_asc_lo (unfold all_below hex_to_bin hex_asc_hi hex_asc_lo in refl)

pub upper_digits :
    (b : ℕ)
    → b < 256
    → (hex_to_bin (hex_asc_upper_hi b) ≡ some (b / 16))
      × (hex_to_bin (hex_asc_upper_lo b) ≡ some (b % 16))
upper_digits =
    digit_table hex_asc_upper_hi hex_asc_upper_lo
      (unfold all_below hex_to_bin hex_asc_upper_hi hex_asc_upper_lo in refl)

pub hex_value_byte : (b : ℕ) → b < 256 → bit_or (b / 16 * 2 ^ 4) (b % 16) % 2 ^ 8 ≡ b
hex_value_byte b h = ==→eq _ _ (
    all_below_sound 256 (λ x. bit_or (x / 16 * 2 ^ 4) (x % 16) % 2 ^ 8 == x) b
      (unfold all_below in refl) h)

-- The digits of every byte, two by two.
abbrev pub pack_all : (ℕ → List ℕ) → List ℕ → List ℕ
pack_all pack [] = []
pack_all pack (b ∷ bs) = pack b ++ pack_all pack bs

module _ (hi lo : ℕ → ℕ)
    (digits : (b : ℕ)
      → b < 256
      → (hex_to_bin (hi b) ≡ some (b / 16)) × (hex_to_bin (lo b) ≡ some (b % 16))) where
  hex2bin_loop-pack :
      (bs : List ℕ) (dst rest : List ℕ)
      → All IsByte bs
      → hex2bin_loop (length bs) dst (pack_all (λ b. hi b ∷ lo b ∷ []) bs ++ rest)
        ≡ done (dst ++ bs)
  unfolding hex2bin_loop hex2bin_byte
  hex2bin_loop-pack [] dst rest ok = ap done (sym (append-nil dst))
  hex2bin_loop-pack (b ∷ bs) dst rest ok =
      rw
        (
          (digits b ok.0).0,
          (digits b ok.0).1,
          hex_value_byte b ok.0,
          hex2bin_loop-pack bs (dst ++ (b ∷ [])) rest ok.1,
        )
        (ap done (append_assoc dst (b ∷ []) bs))

-- `hex2bin` gives back every string of bytes from the digits that `hex_byte_pack` stores for it,
-- whatever follows them, and from those of `hex_byte_pack_upper`.
pub hex2bin-pack :
    (bs rest : List ℕ)
    → All IsByte bs
    → (hex2bin (pack_all hex_byte_pack bs ++ rest) (length bs) ≡ done bs)
      × (hex2bin (pack_all hex_byte_pack_upper bs ++ rest) (length bs) ≡ done bs)
unfolding hex2bin hex_byte_pack hex_byte_pack_upper
hex2bin-pack bs rest ok = (
  hex2bin_loop-pack hex_asc_hi hex_asc_lo lower_digits bs [] rest ok,
  hex2bin_loop-pack hex_asc_upper_hi hex_asc_upper_lo upper_digits bs [] rest ok,
)

-- ===== src/Base64/Sextet.antt =====
-- The bit operations of one group, as arithmetic, and the two tables as inverses.
use libls.Prelude.{
  ℕ, ◌+◌, ◌*◌, ◌/◌, ◌%◌, ◌^◌, ◌<◌, bit_and, bit_or, ◌≡◌, refl, Bool, true, false, arith, ◌==◌,
  all_below, all_below_sound,
}
use libls.Prelude.Bits.{bit_and-ones, bit_or-add}
use libls.Base64.{u8, encode_char, decode_char, Digit, minus_two, minus_one, value}

abbrev is_value : Digit → ℕ → Bool
is_value minus_two v = false
is_value minus_one v = false
is_value (value c) v = c == v

is_value_lem : (d : Digit) (v : ℕ) → is_value d v ≡ true → d ≡ value v
is_value_lem d v h = ground arith

-- Every one of the 64 characters is decoded to its index.
digits_table : all_below 64 (λ v. is_value (decode_char (encode_char v)) v) ≡ true
unfolding all_below encode_char decode_char
digits_table = refl

pub decode_char-encode_char : (v : ℕ) → v < 64 → decode_char (encode_char v) ≡ value v
decode_char-encode_char v h = is_value_lem _ v (all_below_sound 64 _ v digits_table h)

pub decode_char-pad : decode_char b'=' ≡ minus_one
unfolding decode_char
decode_char-pad = refl

-- The fields that the encoder cuts.
pub second_sextet :
    (a b : ℕ) → b < 256 → bit_or (bit_and a 0x03 * 2 ^ 4) (b / 2 ^ 4) ≡ a % 4 * 16 + b / 16
second_sextet a b h =
    omega (arith, bit_and-ones 2 a, bit_or-add 4 (bit_and a 0x03) (b / 2 ^ 4) (omega arith))

pub third_sextet :
    (b c : ℕ) → c < 256 → bit_or (bit_and b 0x0f * 2 ^ 2) (c / 2 ^ 6) ≡ b % 16 * 4 + c / 64
third_sextet b c h =
    omega (arith, bit_and-ones 4 b, bit_or-add 2 (bit_and b 0x0f) (c / 2 ^ 6) (omega arith))

pub last_sextet : (c : ℕ) → bit_and c 0x3f ≡ c % 64
last_sextet c = bit_and-ones 6 c

pub low_two : (a : ℕ) → bit_and a 0x03 ≡ a % 4
low_two a = bit_and-ones 2 a

pub low_four : (a : ℕ) → bit_and a 0x0f ≡ a % 16
low_four a = bit_and-ones 4 a

-- The bytes that the decoder puts together from digits s, t below 64.
pub first_byte :
    (s t : ℕ) → s < 64 → t < 64 → u8 (bit_or (u8 (s * 2 ^ 2)) (t / 2 ^ 4)) ≡ s * 4 + t / 16
first_byte s t p q =
    let e : u8 (s * 2 ^ 2) ≡ s * 2 ^ 2 = omega arith in
    rw e (omega (arith, bit_or-add 2 s (t / 2 ^ 4) (omega arith)))

pub second_byte :
    (s t : ℕ) → s < 64 → t < 64 → u8 (bit_or (u8 (s * 2 ^ 4)) (t / 2 ^ 2)) ≡ s % 16 * 16 + t / 4
second_byte s t p q =
    let e : u8 (s * 2 ^ 4) ≡ s % 16 * 2 ^ 4 = omega arith in
    rw e (omega (arith, bit_or-add 4 (s % 16) (t / 2 ^ 2) (omega arith)))

pub third_byte : (s t : ℕ) → s < 64 → t < 64 → u8 (bit_or (u8 (s * 2 ^ 6)) t) ≡ s % 4 * 64 + t
third_byte s t p q =
    let e : u8 (s * 2 ^ 6) ≡ s % 4 * 2 ^ 6 = omega arith in
    rw e (omega (arith, bit_or-add 6 (s % 4) t (omega arith)))

-- ===== src/Base64.antt =====
-- src/base64.c: `base64_encode` and `base64_decode` of RFC 3548. A buffer is the list of the bytes
-- that have been stored into it, in order; `malloc` is a parameter that says whether a request of
-- that many bytes is met. `unsigned int` arithmetic wraps at 2 ^ 32.
pub mod Sextet
pub mod Encode
pub mod Decode
pub mod RoundTrip
pub mod Grammar
mod Tests
use libls.Prelude.{
  ℕ, zero, suc, ◌+◌, ◌-◌, ◌*◌, ◌/◌, ◌%◌, ◌^◌, bit_and, bit_or, Bool, true, false, Option, none,
  some, List, [], ◌∷◌, ◌++◌, ◌==◌, if◌then◌else◌, length, get_or, take, replicate, codes,
}

abbrev pub u32 : ℕ → ℕ
u32 n = n % 2 ^ 32

abbrev pub u8 : ℕ → ℕ
u8 n = n % 2 ^ 8

pub base64_encode_table : List ℕ
base64_encode_table = codes "ABCDEFGHIJKLMNOPQRSTUVWXYZabcdefghijklmnopqrstuvwxyz0123456789+/"

-- `base64_encode_table[i]`.
unfoldable pub encode_char : ℕ → ℕ
unfolding base64_encode_table
encode_char i = get_or base64_encode_table i 0

-- What a successful call hands back: the bytes of the buffer and `*res_len`.
pub record Coded : Type 0 where
  pub bytes : List ℕ
  pub res_len : ℕ

-- The argument of `malloc`.
unfoldable pub encode_size : ℕ → ℕ
encode_size len = u32 (u32 (u32 (len + 2) / 3 * 4) + 1)

-- The four characters of the group at `i * 3`.
unfoldable pub encode_group : ℕ → ℕ → ℕ → List ℕ
encode_group a b c =
    encode_char (a / 2 ^ 2)
    ∷ encode_char (bit_or (bit_and a 0x03 * 2 ^ 4) (b / 2 ^ 4))
    ∷ encode_char (bit_or (bit_and b 0x0f * 2 ^ 2) (c / 2 ^ 6))
    ∷ encode_char (bit_and c 0x3f)
    ∷ []

-- The loop over the rounds, and the `switch` on the one or two bytes that are left.
unfoldable pub encode_loop : List ℕ → List ℕ
encode_loop [] = []
encode_loop (a ∷ []) =
    encode_char (a / 2 ^ 2) ∷ encode_char (bit_and a 0x03 * 2 ^ 4) ∷ b'=' ∷ b'=' ∷ []
encode_loop (a ∷ b ∷ []) =
    encode_char (a / 2 ^ 2)
    ∷ encode_char (bit_or (bit_and a 0x03 * 2 ^ 4) (b / 2 ^ 4))
    ∷ encode_char (bit_and b 0x0f * 2 ^ 2)
    ∷ b'='
    ∷ []
encode_loop (a ∷ b ∷ c ∷ rest) = encode_group a b c ++ encode_loop rest

-- `*res_len`: `i * 4` after whole groups only, else `i * 4 + 4`.
unfoldable pub encode_res_len : ℕ → ℕ
encode_res_len len =
    let round = len / 3 in
    if len - round * 3 == 0 then u32 (round * 4) else u32 (u32 (round * 4) + 4)

unfoldable pub base64_encode : (ℕ → Bool) → List ℕ → Option Coded
unfolding encode_size encode_char encode_group encode_loop encode_res_len
base64_encode malloc input =
    if malloc (encode_size (length input))
    then some
        (record { bytes = encode_loop input ++ 0 ∷ []; res_len = encode_res_len (length input) })
    else none

-- `signed char`: -2 is no character of the alphabet, -1 is the padding.
pub data Digit : Type 0 where
  minus_two minus_one : Digit
  value : ℕ → Digit

unfoldable pub from : ℕ → ℕ → List Digit
from zero n = []
from (suc k) n = value n ∷ from k (n + 1)

-- The table of 256 entries, run by run: `from k n` is the k entries n, n + 1, ….
unfoldable pub base64_decode_table : List Digit
unfolding from
base64_decode_table =
    replicate 43 minus_two
    ++ (value 62 ∷ replicate 3 minus_two)
    ++ (value 63 ∷ from 10 52)
    ++ (replicate 3 minus_two ++ minus_one ∷ replicate 3 minus_two)
    ++ (from 26 0 ++ replicate 6 minus_two)
    ++ (from 26 26 ++ replicate 133 minus_two)

unfoldable pub decode_char : ℕ → Digit
unfolding base64_decode_table
decode_char c = get_or base64_decode_table c minus_two

-- One round of the loop: an error, a `break` at padding with the bytes stored so far and the number
-- of bytes short of `round * 3`, or three bytes.
pub data Round : Type 0 where
  err2 : Round
  break : List ℕ → ℕ → Round
  next : List ℕ → Round

-- The last character of a round; d0, d1 and d2 are the bytes of the group as the first three
-- characters have left them.
unfoldable pub decode_last : ℕ → ℕ → ℕ → Digit → Round
decode_last d0 d1 d2 minus_two = err2
decode_last d0 d1 d2 minus_one = break (d0 ∷ d1 ∷ d2 ∷ []) 1
decode_last d0 d1 d2 (value c) = next (d0 ∷ d1 ∷ u8 (bit_or d2 c) ∷ [])

unfoldable pub decode_third : ℕ → ℕ → Digit → Digit → Round
decode_third d0 d1 minus_two z = err2
decode_third d0 d1 minus_one z = break (d0 ∷ d1 ∷ []) 2
decode_third d0 d1 (value c) z = decode_last d0 (u8 (bit_or d1 (c / 2 ^ 2))) (u8 (c * 2 ^ 6)) z

unfoldable pub decode_second : ℕ → Digit → Digit → Digit → Round
decode_second d0 (value c) y z = decode_third (u8 (bit_or d0 (c / 2 ^ 4))) (u8 (c * 2 ^ 4)) y z
decode_second d0 minus_two y z = err2
decode_second d0 minus_one y z = err2

unfoldable pub decode_round : Digit → Digit → Digit → Digit → Round
unfolding decode_last decode_third decode_second
decode_round (value c) x y z = decode_second (u8 (c * 2 ^ 2)) x y z
decode_round minus_two x y z = err2
decode_round minus_one x y z = err2

-- The locals when the loop is left: `i`, the bytes stored, and `decoded_len` where a `break` set it.
pub record Exit : Type 0 where
  pub i : ℕ
  pub decoded : List ℕ
  pub decoded_len : ℕ

unfoldable pub decode_loop : ℕ → ℕ → List ℕ → List ℕ → Option Exit
decode_loop round i out (w ∷ x ∷ y ∷ z ∷ rest) =
    elim (decode_round (decode_char w) (decode_char x) (decode_char y) (decode_char z)) [
      | err2 ↦ none
      | break group short ↦
          some (record { i = i; decoded = out ++ group; decoded_len = round * 3 - short })
      | next group ↦ decode_loop round (i + 1) (out ++ group) rest
    ]
decode_loop round i out rest = some (record { i = i; decoded = out; decoded_len = 0 })

-- The code after the loop: a `break` before the last round is an error.
unfoldable pub decode_finish : ℕ → Exit → Option Coded
decode_finish round e =
    if e.i == round
    then some (record { bytes = take (round * 3) e.decoded ++ 0 ∷ []; res_len = round * 3 })
    else if e.i == round - 1
    then some (record { bytes = take e.decoded_len e.decoded ++ 0 ∷ []; res_len = e.decoded_len })
    else none

unfoldable pub decode_end : ℕ → Option Exit → Option Coded
unfolding decode_finish
decode_end round none = none
decode_end round (some e) = decode_finish round e

unfoldable pub base64_decode : (ℕ → Bool) → List ℕ → Option Coded
unfolding decode_char decode_round decode_loop decode_end
base64_decode malloc input =
    if length input % 4 == 0
    then (let round = length input / 4 in
        if malloc (round * 3 + 1) then decode_end round (decode_loop round 0 [] input) else none)
    else none

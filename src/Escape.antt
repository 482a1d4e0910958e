-- ===== src/Escape.antt =====
-- src/percent_encode.c (RFC 3986) and src/url_encode.c. The two files differ in the bytes that are
-- left alone and in the blank, which the second writes as `+`. `malloc` is a parameter that says
-- whether a request is met; `size_t` wraps at 2 ^ 64.
pub mod Buffer
pub mod Encode
pub mod Reference
pub mod Steps
pub mod Decode
pub mod RoundTrip
mod Tests
use libls.Prelude.{
  ℕ, zero, suc, ◌+◌, ◌-◌, ◌*◌, ◌/◌, ◌%◌, ◌^◌, bit_or, Bool, true, false, Option, none, some, List,
  [], ◌∷◌, ◌++◌, ◌==◌, ltb, leb, if◌then◌else◌, length, get_elem?, set, ◌&&◌, ◌||◌, not, isdigit,
  isupper, islower, isxdigit,
}
use libls.Hexdump.{hex_asc_upper_hi, hex_asc_upper_lo, hex_to_bin}

unfoldable pub is_rfc3986_unreserved : ℕ → Bool
is_rfc3986_unreserved c =
    islower c || isupper c || isdigit c || c == b'-' || c == b'_' || c == b'.' || c == b'~'

unfoldable pub is_url_unreserved : ℕ → Bool
is_url_unreserved c = islower c || isupper c || isdigit c || c == b'-' || c == b'_' || c == b'.'

-- `%` and two digits.
abbrev pub escaped : ℕ → List ℕ
escaped c = b'%' ∷ hex_asc_upper_hi c ∷ hex_asc_upper_lo c ∷ []

-- The loop that measures the result of `percent_encode`, and the one that stores it.
unfoldable pub percent_len : ℕ → List ℕ → ℕ
percent_len len [] = len
percent_len len (c ∷ cs) =
    percent_len ((len + (if is_rfc3986_unreserved c then 1 else 3)) % 2 ^ 64) cs

unfoldable pub percent_loop : List ℕ → List ℕ
percent_loop [] = []
percent_loop (c ∷ cs) = (if is_rfc3986_unreserved c then c ∷ [] else escaped c) ++ percent_loop cs

unfoldable pub percent_encode : (ℕ → Bool) → List ℕ → Option (List ℕ)
unfolding percent_len percent_loop
percent_encode malloc raw =
    if malloc ((percent_len 0 raw + 1) % 2 ^ 64) then some (percent_loop raw ++ 0 ∷ []) else none

unfoldable pub url_len : ℕ → List ℕ → ℕ
url_len len [] = len
url_len len (c ∷ cs) =
    url_len ((len + (if is_url_unreserved c then 1 else if c == b' ' then 1 else 3)) % 2 ^ 64) cs

unfoldable pub url_loop : List ℕ → List ℕ
url_loop [] = []
url_loop (c ∷ cs) =
    (if is_url_unreserved c then c ∷ [] else if c == b' ' then b'+' ∷ [] else escaped c)
    ++ url_loop cs

unfoldable pub url_encode : (ℕ → Bool) → List ℕ → Option (List ℕ)
unfolding url_len url_loop
url_encode malloc raw =
    if malloc ((url_len 0 raw + 1) % 2 ^ 64) then some (url_loop raw ++ 0 ∷ []) else none

-- The buffer and the number of decoded bytes, -1 with the buffer as it was left, a read or a store behind
-- the end of the buffer, or too few rounds.
pub data Decoded : Type 0 where
  decoded : List ℕ → ℕ → Decoded
  malformed : List ℕ → Decoded
  fault out_of_fuel : Decoded

-- Reads of one byte and of two.
abbrev pub read : Option ℕ → (ℕ → Decoded) → Decoded
read none k = fault
read (some c) k = k c

-- A store of one byte.
abbrev pub put_byte : List ℕ → ℕ → ℕ → (List ℕ → Decoded) → Decoded
put_byte buf to v k = elim (ltb to (length buf)) [ true ↦ k (set buf to v) | false ↦ fault ]

-- `hex_to_bin` as an operand of `<<` and `|`; -1 does not occur behind `isxdigit`.
abbrev pub nibble : ℕ → ℕ
nibble c = elim (hex_to_bin c) [ none ↦ 0 | some v ↦ v ]

-- The loop of the two decoders, at the offsets `to` and `from`. `plain c` is what a byte other than
-- `%` becomes: itself, but for the `+` of `url_decode_in_place`.
module _ (plain : ℕ → ℕ) (len : ℕ) where
  unfoldable pub decode_loop : ℕ → List ℕ → ℕ → ℕ → Decoded
  decode_loop zero buf to from = out_of_fuel
  decode_loop (suc fuel) buf to from = elim (ltb from len) [
    | false ↦ decoded buf to
    | true ↦ read (get_elem? buf from) λ c. elim (c == b'%') [
      | true ↦ elim (leb len (from + 2)) [
        | true ↦ malformed buf
        | false ↦ read (get_elem? buf (from + 1)) λ h. read (get_elem? buf (from + 2)) λ l.
            elim (isxdigit h && isxdigit l) [
              | true ↦
                  put_byte buf to (bit_or (nibble h * 2 ^ 4) (nibble l) % 2 ^ 8)
                    λ b. decode_loop fuel b (to + 1) (from + 3)
              | false ↦ malformed buf
            ]
      ]
      | false ↦ elim (to == from && plain c == c) [
        | true ↦ decode_loop fuel buf (to + 1) (from + 1)
        | false ↦ put_byte buf to (plain c) λ b. decode_loop fuel b (to + 1) (from + 1)
      ]
    ]
  ]

-- Each round moves `from` on, so `len + 1` rounds are enough.
unfoldable pub percent_decode_in_place : List ℕ → ℕ → Decoded
unfolding decode_loop hex_to_bin
percent_decode_in_place enc len = decode_loop (λ c. c) len (len + 1) enc 0 0

abbrev pub url_plain : ℕ → ℕ
url_plain c = if c == b'+' then b' ' else c

unfoldable pub url_decode_in_place : List ℕ → ℕ → Decoded
unfolding decode_loop hex_to_bin
url_decode_in_place enc len = decode_loop url_plain len (len + 1) enc 0 0

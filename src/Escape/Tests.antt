-- ===== src/Escape/Tests.antt =====
-- Runs of the encoders and decoders, among them the unit tests of the two files.
use libls.Prelude.{
  ◌==◌, if◌then◌else◌, none, ℕ, ◌+◌, List, arith, length, All, IsByte, ◌≡◌, refl, true, some, [],
  ◌∷◌, ◌++◌, codes,
}
use libls.Hexdump.{hex_asc_upper_hi, hex_asc_upper_lo}
use libls.Escape.{
  percent_encode, percent_decode_in_place, url_encode, url_decode_in_place, is_rfc3986_unreserved,
  is_url_unreserved, decoded, malformed, percent_loop, url_loop, url_plain,
}
use libls.Escape.Encode.{encode_sizes, percent_loop-IsUriByte, IsUriByte, IsFormByte}
use libls.Escape.Reference.{Meets, unescape, unescaped}
use libls.Escape.Decode.{percent_decode_in_place-Meets, url_decode_in_place-Meets}
use libls.Escape.RoundTrip.{DecodesTo, percent_decode-encode, url_decode-encode}

percent_encode_test :
    percent_encode (λ n. true) (codes "I love you") ≡ some (codes "I%20love%20you" ++ 0 ∷ [])
unfolding percent_encode is_rfc3986_unreserved hex_asc_upper_hi hex_asc_upper_lo
percent_encode_test = refl

percent_decode_test :
    percent_decode_in_place (codes "I%20love%20you") 14 ≡ decoded (codes "I love you0you") 10
unfolding percent_decode_in_place
percent_decode_test = refl

url_encode_test :
    url_encode (λ n. true) (codes "I love you!") ≡ some (codes "I+love+you%21" ++ 0 ∷ [])
unfolding url_encode is_url_unreserved hex_asc_upper_hi hex_asc_upper_lo
url_encode_test = refl

url_decode_test :
    url_decode_in_place (codes "I+love+you%21") 13 ≡ decoded (codes "I love you!21") 11
unfolding url_decode_in_place
url_decode_test = refl

percent_cut_short : percent_decode_in_place (codes "a%2") 3 ≡ malformed (codes "a%2")
unfolding percent_decode_in_place
percent_cut_short = refl

-- The bytes "a " and what the encoders make of them.
abbrev blank_last : List ℕ
blank_last = 97 ∷ 32 ∷ []

blank_last-IsByte : All IsByte blank_last
blank_last-IsByte = (omega arith, (omega arith, tt))

percent_encode_blank : percent_encode (λ n. true) blank_last ≡ some (97 ∷ 37 ∷ 50 ∷ 48 ∷ 0 ∷ [])
unfolding percent_encode is_rfc3986_unreserved hex_asc_upper_hi hex_asc_upper_lo
percent_encode_blank = refl

url_encode_blank : url_encode (λ n. true) blank_last ≡ some (97 ∷ 43 ∷ 0 ∷ [])
unfolding url_encode is_url_unreserved hex_asc_upper_hi hex_asc_upper_lo
url_encode_blank = refl

percent_decode-encode_example :
    DecodesTo blank_last (percent_decode_in_place (97 ∷ 37 ∷ 50 ∷ 48 ∷ 0 ∷ []) 4)
percent_decode-encode_example =
    percent_decode-encode (λ n. true) blank_last (97 ∷ 37 ∷ 50 ∷ 48 ∷ 0 ∷ []) blank_last-IsByte
      percent_encode_blank

url_decode-encode_example : DecodesTo blank_last (url_decode_in_place (97 ∷ 43 ∷ 0 ∷ []) 2)
url_decode-encode_example =
    url_decode-encode (λ n. true) blank_last (97 ∷ 43 ∷ 0 ∷ []) blank_last-IsByte url_encode_blank

encode_sizes_example :
    (percent_encode (λ n. n == 5) blank_last ≡ (
      if length (percent_loop blank_last) + 1 == 5
      then some (percent_loop blank_last ++ 0 ∷ [])
      else none))
    × (url_encode (λ n. n == 5) blank_last ≡ (
        if length (url_loop blank_last) + 1 == 5
        then some (url_loop blank_last ++ 0 ∷ [])
        else none))
encode_sizes_example = encode_sizes (λ n. n == 5) blank_last (omega arith)

percent_loop-IsUriByte_example :
    All IsUriByte (percent_loop blank_last) × All IsFormByte (url_loop blank_last)
percent_loop-IsUriByte_example = percent_loop-IsUriByte blank_last blank_last-IsByte

percent_decode_in_place-Meets_example :
    Meets 3
      (codes "a%2" ++ codes "0b")
      0
      (unescape (λ c. c) (codes "a%2"))
      (unescaped (λ c. c) (codes "a%2"))
      (percent_decode_in_place (codes "a%2" ++ codes "0b") 3)
percent_decode_in_place-Meets_example = percent_decode_in_place-Meets (codes "a%2") (codes "0b")

url_decode_in_place-Meets_example :
    Meets 5
      (codes "a%2b+" ++ codes "z")
      0
      (unescape url_plain (codes "a%2b+"))
      (unescaped url_plain (codes "a%2b+"))
      (url_decode_in_place (codes "a%2b+" ++ codes "z") 5)
url_decode_in_place-Meets_example = url_decode_in_place-Meets (codes "a%2b+") (codes "z")

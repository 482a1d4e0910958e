-- ===== src/Escape/RoundTrip.antt =====
-- Decoding what the encoders store gives the data back.
use libls.Prelude.{
  ℕ, ◌+◌, ◌-◌, ◌/◌, ◌%◌, ◌<◌, ◌≡◌, refl, sym, ap, ◌∙◌, Bool, true, false, Option, none, some, List,
  [], ◌∷◌, ◌++◌, arith, length, take, All, IsByte, length-append, ◌==◌, ◌&&◌, isxdigit, Bool-cases,
  inl, inr, all_below, all_below_sound,
}
use libls.Hexdump.{hex_asc_upper_hi, hex_asc_upper_lo, hex_to_bin}
use libls.Hexdump.Digits.{upper_digits, hex_value_byte}
use libls.Escape.{
  is_rfc3986_unreserved, is_url_unreserved, escaped, percent_loop, url_loop, percent_encode,
  url_encode, Decoded, decoded, nibble, url_plain, percent_decode_in_place, url_decode_in_place,
}
use libls.Escape.Reference.{byte_of, cons_byte, unescape, Meets}
use libls.Escape.Decode.{percent_decode_in_place-Meets, url_decode_in_place-Meets}

unescape-plain :
    (plain : ℕ → ℕ) (c : ℕ) (rest : List ℕ)
    → (c == b'%') ≡ false
    → unescape plain (c ∷ rest) ≡ cons_byte (plain c) (unescape plain rest)
unfolding unescape
unescape-plain plain c [] h = rw (h, unescape)
unescape-plain plain c (d ∷ []) h = rw (h, unescape)
unescape-plain plain c (d ∷ e ∷ rest) h = rw (h, unescape)

xdigit_table :
    all_below 256 (λ c. isxdigit (hex_asc_upper_hi c) && isxdigit (hex_asc_upper_lo c)) ≡ true
unfolding all_below hex_asc_upper_hi hex_asc_upper_lo
xdigit_table = refl

nibble_of : (c v : ℕ) → hex_to_bin c ≡ some v → nibble c ≡ v
nibble_of c v h = rw (h, nibble)

byte_of-upper : (c : ℕ) → c < 256 → byte_of (hex_asc_upper_hi c) (hex_asc_upper_lo c) ≡ c
byte_of-upper c h =
    rw
      (
        nibble_of (hex_asc_upper_hi c) (c / 16) (upper_digits c h).0,
        nibble_of (hex_asc_upper_lo c) (c % 16) (upper_digits c h).1,
      )
      (hex_value_byte c h)

unescape-escaped :
    (plain : ℕ → ℕ) (c : ℕ) (rest : List ℕ)
    → c < 256
    → unescape plain (escaped c ++ rest) ≡ cons_byte c (unescape plain rest)
unfolding unescape
unescape-escaped plain c rest h =
    rw (all_below_sound 256 _ c xdigit_table h, unescape)
      (ap (λ b. cons_byte b (unescape plain rest)) (byte_of-upper c h))

not_percent : (c : ℕ) → is_rfc3986_unreserved c ≡ true → (c == b'%') ≡ false
unfolding is_rfc3986_unreserved
not_percent c h = ground arith

url_not_special : (c : ℕ) → is_url_unreserved c ≡ true → ((c == b'%') ≡ false) × (url_plain c ≡ c)
unfolding is_url_unreserved
url_not_special c h = ground arith

pub unescape-percent_loop :
    (raw : List ℕ) → All IsByte raw → unescape (λ c. c) (percent_loop raw) ≡ some raw
unfolding percent_loop
unescape-percent_loop [] ok = unfold unescape in refl
unescape-percent_loop (c ∷ cs) ok = elim (Bool-cases (is_rfc3986_unreserved c)) [
  | inl safe ↦ rw (
    safe,
    unescape-plain (λ b. b) c (percent_loop cs) (not_percent c safe),
    unescape-percent_loop cs ok.1,
  )
  | inr other ↦
      rw (other, unescape-escaped (λ b. b) c (percent_loop cs) ok.0, unescape-percent_loop cs ok.1)
]

pub unescape-url_loop :
    (raw : List ℕ) → All IsByte raw → unescape url_plain (url_loop raw) ≡ some raw
unfolding url_loop
unescape-url_loop [] ok = unfold unescape in refl
unescape-url_loop (c ∷ cs) ok = elim (Bool-cases (is_url_unreserved c)) [
  | inl safe ↦
      rw
        (
          safe,
          unescape-plain url_plain c (url_loop cs) (url_not_special c safe).0,
          unescape-url_loop cs ok.1,
        )
        (ap (λ b. some (b ∷ cs)) (url_not_special c safe).1)
  | inr other ↦ elim (Bool-cases (c == b' ')) [
    | inl blank ↦
        rw
          (
            other,
            blank,
            unescape-plain url_plain b'+' (url_loop cs) refl,
            unescape-url_loop cs ok.1,
          )
          (ground arith)
    | inr rest ↦
        rw (other, rest, unescape-escaped url_plain c (url_loop cs) ok.0, unescape-url_loop cs ok.1)
  ]
]

-- A run that meets a successful reference, from the start of the buffer.
abbrev pub DecodesTo : List ℕ → Decoded → Type 0
DecodesTo raw r = (b : List ℕ) × (r ≡ decoded b (length raw)) × (take (length raw) b ≡ raw)

Meets-some :
    (len : ℕ) (buf : List ℕ) (o : Option (List ℕ)) (front : List ℕ) (r : Decoded) (raw : List ℕ)
    → o ≡ some raw
    → Meets len buf 0 o front r
    → DecodesTo raw r
Meets-some len buf none front r raw e m = cc
Meets-some len buf (some out) front r raw e (b, run, (text, rest, back)) =
    let same : out ≡ raw = cc in
    let n : 0 + length out ≡ length raw = omega (arith, ap length same) in
    (b, run ∙ ap (decoded b) n, ap (λ k. take k b) (sym n) ∙ text ∙ same)

encoded_length : (text : List ℕ) → length (text ++ 0 ∷ []) - 1 ≡ length text
encoded_length text = omega (arith, length-append text (0 ∷ []))

-- What `percent_encode` returns for a string of bytes, decoded in place up to its NUL, gives the bytes
-- back: their number is returned, and they stand at the front of the buffer.
pub percent_decode-encode :
    (malloc : ℕ → Bool) (raw enc : List ℕ)
    → All IsByte raw
    → percent_encode malloc raw ≡ some enc
    → DecodesTo raw (percent_decode_in_place enc (length enc - 1))
unfolding percent_encode
percent_decode-encode malloc raw enc ok e =
    let text = percent_loop raw in
    let e' : enc ≡ text ++ 0 ∷ [] = ground arith in
    rw (e', encoded_length text)
      (Meets-some _ _ _ _ _ raw (unescape-percent_loop raw ok)
        (percent_decode_in_place-Meets text (0 ∷ [])))

-- What `url_encode` returns for a string of bytes, decoded in place by `url_decode_in_place` up to its
-- NUL, gives the bytes back: their number is returned, and they stand at the front of the buffer.
pub url_decode-encode :
    (malloc : ℕ → Bool) (raw enc : List ℕ)
    → All IsByte raw
    → url_encode malloc raw ≡ some enc
    → DecodesTo raw (url_decode_in_place enc (length enc - 1))
unfolding url_encode
url_decode-encode malloc raw enc ok e =
    let text = url_loop raw in
    let e' : enc ≡ text ++ 0 ∷ [] = ground arith in
    rw (e', encoded_length text)
      (Meets-some _ _ _ _ _ raw (unescape-url_loop raw ok)
        (url_decode_in_place-Meets text (0 ∷ [])))

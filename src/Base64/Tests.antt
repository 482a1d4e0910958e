-- ===== src/Base64/Tests.antt =====
-- Runs of the encoder and the decoder.
use libls.Prelude.{
  ℕ, ◌≡◌, refl, ◌<◌, ◌↔◌, true, some, List, [], ◌∷◌, ◌++◌, arith, length, All, codes, IsByte,
}
use libls.Base64.{Coded, base64_encode, base64_decode, encode_size, encode_loop}
use libls.Base64.Encode.{encode_size_iff, whole}
use libls.Base64.RoundTrip.{decode-encode}
use libls.Base64.Grammar.{base64_decode-is_base64, is_base64, is_some}

encode_foob :
    base64_encode (λ n. true) (codes "foob")
    ≡ some (record { bytes = codes "Zm9vYg==" ++ 0 ∷ []; res_len = 8 })
unfolding base64_encode
encode_foob = refl

decode_foob :
    base64_decode (λ n. true) (codes "Zm9vYg==")
    ≡ some (record { bytes = codes "foob" ++ 0 ∷ []; res_len = 4 })
unfolding base64_decode
decode_foob = refl

-- The bytes of "fo", their code and a text of the two codes that nobody encodes.
abbrev two_bytes : List ℕ
two_bytes = 102 ∷ 111 ∷ []

abbrev two_encoded : Coded
two_encoded = record { bytes = 90 ∷ 109 ∷ 56 ∷ 61 ∷ 0 ∷ []; res_len = 4 }

encode_two : base64_encode (λ n. true) two_bytes ≡ some two_encoded
unfolding base64_encode
encode_two = refl

two_bytes-IsByte : All IsByte two_bytes
two_bytes-IsByte = (omega arith, (omega arith, tt))

decode-encode_example : base64_decode (λ n. true) (90 ∷ 109 ∷ 56 ∷ 61 ∷ []) ≡ some (whole two_bytes)
decode-encode_example =
    decode-encode (λ n. true) two_bytes two_encoded two_bytes-IsByte (omega arith) encode_two refl

encode_size_iff_example :
    (encode_size 2 ≡ length (encode_loop two_bytes ++ 0 ∷ [])) ↔ (2 < 3221225470)
encode_size_iff_example = encode_size_iff two_bytes (omega arith)

-- `QQ=A`, which RFC 3548 does not allow.
abbrev wrong_end : List ℕ
wrong_end = 81 ∷ 81 ∷ 61 ∷ 65 ∷ []

wrong_end-IsByte : All IsByte wrong_end
wrong_end-IsByte = (omega arith, (omega arith, (omega arith, (omega arith, tt))))

base64_decode-is_base64_example :
    is_some (base64_decode (λ n. true) wrong_end) ≡ is_base64 wrong_end
base64_decode-is_base64_example =
    base64_decode-is_base64 (λ n. true) wrong_end wrong_end-IsByte refl

wrong_end_accepted : is_base64 wrong_end ≡ true
unfolding is_base64
wrong_end_accepted = refl

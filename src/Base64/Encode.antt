-- ===== src/Base64/Encode.antt =====
-- Sizes, alphabet and results of the encoder.
use libls.Prelude.{
  ℕ, suc, ◌+◌, ◌*◌, ◌/◌, ◌^◌, ◌<◌, ◌≡◌, ◌↔◌, Bool, some, List, [], ◌∷◌, ◌++◌, arith, length,
  length-append,
}
use libls.Base64.{Coded, encode_group, encode_loop, encode_size, encode_res_len, base64_encode}

-- A buffer that holds `bs` and its terminating NUL, and reports their number.
abbrev pub whole : List ℕ → Coded
whole bs = record { bytes = bs ++ 0 ∷ []; res_len = length bs }

-- The number of groups that the encoder stores.
abbrev pub groups : List ℕ → ℕ
groups [] = 0
groups (a ∷ []) = 1
groups (a ∷ b ∷ []) = 1
groups (a ∷ b ∷ c ∷ rest) = suc (groups rest)

pub groups_eq : (bs : List ℕ) → groups bs ≡ (length bs + 2) / 3
groups_eq [] = omega arith
groups_eq (a ∷ []) = omega arith
groups_eq (a ∷ b ∷ []) = omega arith
groups_eq (a ∷ b ∷ c ∷ rest) = omega (arith, groups_eq rest)

pub length-encode_loop : (bs : List ℕ) → length (encode_loop bs) ≡ groups bs * 4
unfolding encode_loop encode_group
length-encode_loop [] = omega arith
length-encode_loop (a ∷ []) = omega arith
length-encode_loop (a ∷ b ∷ []) = omega arith
length-encode_loop (a ∷ b ∷ c ∷ rest) = omega (arith, length-encode_loop rest)

pub encode_res_len_lem : (len : ℕ) → len < 3221225470 → encode_res_len len ≡ (len + 2) / 3 * 4
unfolding encode_res_len
encode_res_len_lem len h = ground arith

-- A successful encoding of a buffer below the 32-bit limit is the text of the loop.
pub encode-whole :
    (malloc : ℕ → Bool) (bs : List ℕ) (e : Coded)
    → length bs < 3221225470
    → base64_encode malloc bs ≡ some e
    → e ≡ whole (encode_loop bs)
unfolding base64_encode
encode-whole malloc bs e h enc =
    ground (arith, encode_res_len_lem (length bs), length-encode_loop bs, groups_eq bs)

-- For a length that fits 32 bits, `base64_encode` asks `malloc` for as many bytes as it stores
-- exactly when the length is below 3221225470.
pub encode_size_iff :
    (bs : List ℕ)
    → length bs < 2 ^ 32
    → (encode_size (length bs) ≡ length (encode_loop bs ++ 0 ∷ [])) ↔ (length bs < 3221225470)
unfolding encode_size
encode_size_iff bs h = (
  λ e. omega (arith, length-append (encode_loop bs) (0 ∷ []), length-encode_loop bs, groups_eq bs),
  λ l. omega (arith, length-append (encode_loop bs) (0 ∷ []), length-encode_loop bs, groups_eq bs),
)

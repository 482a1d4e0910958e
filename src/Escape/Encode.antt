-- ===== src/Escape/Encode.antt =====
-- The encoders ask for as much memory as they use, and store only harmless bytes.
use libls.Prelude.{
  Bool, not, false, some, none, codes, ap, if◌then◌else◌, ℕ, ◌+◌, ◌*◌, ◌%◌, ◌^◌, ◌≤◌, ◌<◌, ◌≡◌,
  refl, true, List, [], ◌∷◌, ◌++◌, arith, length, All, IsByte, ◌==◌, ◌||◌, ◌&&◌, Bool-cases, inl,
  inr, all_below, all_below_sound,
}
use libls.Hexdump.{hex_asc_upper_hi, hex_asc_upper_lo}
use libls.Escape.{
  is_rfc3986_unreserved, is_url_unreserved, percent_len, percent_loop, url_len, url_loop,
  percent_encode, url_encode,
}

-- The bytes that the encoder stores are counted exactly, from any start.
percent_len_from :
    (raw : List ℕ) (len : ℕ)
    → len + 3 * length raw < 2 ^ 64
    → percent_len len raw ≡ len + length (percent_loop raw)
unfolding percent_len percent_loop
percent_len_from [] len h = omega arith
percent_len_from (c ∷ cs) len h = elim (Bool-cases (is_rfc3986_unreserved c)) [
  | inl plain ↦ rw (plain, percent_len_from cs ((len + 1) % 2 ^ 64) (omega arith)) (omega arith)
  | inr other ↦ rw (other, percent_len_from cs ((len + 3) % 2 ^ 64) (omega arith)) (omega arith)
]

url_len_from :
    (raw : List ℕ) (len : ℕ)
    → len + 3 * length raw < 2 ^ 64
    → url_len len raw ≡ len + length (url_loop raw)
unfolding url_len url_loop
url_len_from [] len h = omega arith
url_len_from (c ∷ cs) len h = elim (Bool-cases (is_url_unreserved c)) [
  | inl plain ↦ rw (plain, url_len_from cs ((len + 1) % 2 ^ 64) (omega arith)) (omega arith)
  | inr other ↦ elim (Bool-cases (c == b' ')) [
    | inl blank ↦
        rw (other, blank, url_len_from cs ((len + 1) % 2 ^ 64) (omega arith)) (omega arith)
    | inr rest ↦ rw (other, rest, url_len_from cs ((len + 3) % 2 ^ 64) (omega arith)) (omega arith)
  ]
]

length-percent_loop : (raw : List ℕ) → length (percent_loop raw) ≤ 3 * length raw
unfolding percent_loop
length-percent_loop [] = omega arith
length-percent_loop (c ∷ cs) = ground (arith, length-percent_loop cs)

length-url_loop : (raw : List ℕ) → length (url_loop raw) ≤ 3 * length raw
unfolding url_loop
length-url_loop [] = omega arith
length-url_loop (c ∷ cs) = ground (arith, length-url_loop cs)

percent_size :
    (raw : List ℕ)
    → 3 * length raw + 1 < 2 ^ 64
    → (percent_len 0 raw + 1) % 2 ^ 64 ≡ length (percent_loop raw) + 1
percent_size raw h = omega (arith, percent_len_from raw 0 (omega arith), length-percent_loop raw)

url_size :
    (raw : List ℕ)
    → 3 * length raw + 1 < 2 ^ 64
    → (url_len 0 raw + 1) % 2 ^ 64 ≡ length (url_loop raw) + 1
url_size raw h = omega (arith, url_len_from raw 0 (omega arith), length-url_loop raw)

-- For data of less than a third of the address space and any `malloc`, each encoder asks it once, for
-- exactly the bytes that it stores, the NUL included: it returns them where this request is met, and the
-- null pointer where it is not.
pub encode_sizes :
    (malloc : ℕ → Bool) (raw : List ℕ)
    → 3 * length raw + 1 < 2 ^ 64
    → (percent_encode malloc raw ≡ (
        if malloc (length (percent_loop raw) + 1) then some (percent_loop raw ++ 0 ∷ []) else none))
      × (url_encode malloc raw
          ≡ (if malloc (length (url_loop raw) + 1) then some (url_loop raw ++ 0 ∷ []) else none))
unfolding percent_encode url_encode
encode_sizes malloc raw h = (
  ap (λ n. if malloc n then some (percent_loop raw ++ 0 ∷ []) else none) (percent_size raw h),
  ap (λ n. if malloc n then some (url_loop raw ++ 0 ∷ []) else none) (url_size raw h),
)

-- The characters of RFC 3986, section 2.3, and `%`.
unfoldable pub uri_characters : List ℕ
uri_characters = codes "ABCDEFGHIJKLMNOPQRSTUVWXYZabcdefghijklmnopqrstuvwxyz0123456789-._~%"

-- Those that a form of the type application/x-www-form-urlencoded may hold without harm.
unfoldable pub form_characters : List ℕ
form_characters = codes "ABCDEFGHIJKLMNOPQRSTUVWXYZabcdefghijklmnopqrstuvwxyz0123456789-._+%"

unfoldable pub one_of : List ℕ → ℕ → Bool
one_of [] c = false
one_of (d ∷ ds) c = c == d || one_of ds c

abbrev pub IsUriByte : ℕ → Type 0
IsUriByte c = one_of uri_characters c ≡ true

abbrev pub IsFormByte : ℕ → Type 0
IsFormByte c = one_of form_characters c ≡ true

-- What the encoders leave alone, and the digits that they write, are such characters.
abbrev harmless_test : ℕ → Bool
harmless_test c =
    (not (is_rfc3986_unreserved c) || one_of uri_characters c)
    && (not (is_url_unreserved c) || one_of form_characters c)
    && one_of uri_characters (hex_asc_upper_hi c)
    && one_of uri_characters (hex_asc_upper_lo c)
    && one_of form_characters (hex_asc_upper_hi c)
    && one_of form_characters (hex_asc_upper_lo c)

harmless_table : all_below 256 harmless_test ≡ true
unfolding all_below is_rfc3986_unreserved is_url_unreserved hex_asc_upper_hi hex_asc_upper_lo one_of
    uri_characters form_characters
harmless_table = refl

percents : IsUriByte b'%' × IsFormByte b'%' × IsFormByte b'+'
unfolding one_of uri_characters form_characters
percents = (refl, refl, refl)

harmless : (c : ℕ) → IsByte c → harmless_test c ≡ true
harmless c h = all_below_sound 256 harmless_test c harmless_table h

percent_loop-All : (raw : List ℕ) → All IsByte raw → All IsUriByte (percent_loop raw)
unfolding percent_loop
percent_loop-All [] ok = tt
percent_loop-All (c ∷ cs) ok =
    let rest = percent_loop-All cs ok.1 in
    let table = harmless c ok.0 in
    elim (Bool-cases (is_rfc3986_unreserved c)) [
      | inl plain ↦ rw plain (ground (arith, table, plain), rest)
      | inr other ↦ rw other (percents.0, (ground (arith, table), (ground (arith, table), rest)))
    ]

url_loop-All : (raw : List ℕ) → All IsByte raw → All IsFormByte (url_loop raw)
unfolding url_loop
url_loop-All [] ok = tt
url_loop-All (c ∷ cs) ok =
    let rest = url_loop-All cs ok.1 in
    let table = harmless c ok.0 in
    elim (Bool-cases (is_url_unreserved c)) [
      | inl plain ↦ rw plain (ground (arith, table, plain), rest)
      | inr other ↦ elim (Bool-cases (c == b' ')) [
        | inl blank ↦ rw (other, blank) (percents.2, rest)
        | inr more ↦
            rw (other, more) (percents.1, (ground (arith, table), (ground (arith, table), rest)))
      ]
    ]

-- Whatever the bytes, the text that `percent_encode` stores is made of letters, digits, `-`, `.`, `_`, `~`
-- and `%`, and that of `url_encode` of letters, digits, `-`, `.`, `_`, `+` and `%`.
pub percent_loop-IsUriByte :
    (raw : List ℕ)
    → All IsByte raw
    → All IsUriByte (percent_loop raw) × All IsFormByte (url_loop raw)
percent_loop-IsUriByte raw ok = (percent_loop-All raw ok, url_loop-All raw ok)

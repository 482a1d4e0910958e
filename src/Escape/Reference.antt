-- ===== src/Escape/Reference.antt =====
-- A decoder of lists, and what it is for a decoder in place to meet it.
use libls.Prelude.{
  ℕ, ◌+◌, ◌*◌, ◌%◌, ◌^◌, bit_or, ◌≡◌, true, false, Option, none, some, List, [], ◌∷◌, ◌++◌, length,
  take, drop, ◌==◌, ◌&&◌, isxdigit,
}
use libls.Escape.{Decoded, decoded, malformed, nibble}

abbrev pub byte_of : ℕ → ℕ → ℕ
byte_of h l = bit_or (nibble h * 2 ^ 4) (nibble l) % 2 ^ 8

abbrev pub cons_byte : ℕ → Option (List ℕ) → Option (List ℕ)
cons_byte b none = none
cons_byte b (some bs) = some (b ∷ bs)

-- The reference: `%` and two digits are a byte, any other byte is `plain` of itself, and `%` with
-- anything else behind it is an error.
unfoldable pub unescape : (ℕ → ℕ) → List ℕ → Option (List ℕ)
unescape plain [] = some []
unescape plain (c ∷ []) = elim (c == b'%') [ true ↦ none | false ↦ some (plain c ∷ []) ]
unescape plain (c ∷ h ∷ []) = elim (c == b'%') [
  | true ↦ none
  | false ↦ cons_byte (plain c) (unescape plain (h ∷ []))
]
unescape plain (c ∷ h ∷ l ∷ rest) = elim (c == b'%') [
  | true ↦ elim (isxdigit h && isxdigit l) [
    | true ↦ cons_byte (byte_of h l) (unescape plain rest)
    | false ↦ none
  ]
  | false ↦ cons_byte (plain c) (unescape plain (h ∷ l ∷ rest))
]

-- The bytes of the reference before an error, or all of them.
unfoldable pub unescaped : (ℕ → ℕ) → List ℕ → List ℕ
unescaped plain [] = []
unescaped plain (c ∷ []) = elim (c == b'%') [ true ↦ [] | false ↦ plain c ∷ [] ]
unescaped plain (c ∷ h ∷ []) = elim (c == b'%') [
  | true ↦ []
  | false ↦ plain c ∷ unescaped plain (h ∷ [])
]
unescaped plain (c ∷ h ∷ l ∷ rest) = elim (c == b'%') [
  | true ↦ elim (isxdigit h && isxdigit l) [
    | true ↦ byte_of h l ∷ unescaped plain rest
    | false ↦ []
  ]
  | false ↦ plain c ∷ unescaped plain (h ∷ l ∷ rest)
]

-- The buffer `b` is `buf` with `out` written from `to` on: the bytes before and behind are those of `buf`,
-- and so are those from `len` on.
abbrev pub Written : ℕ → List ℕ → ℕ → List ℕ → List ℕ → Type 0
Written len buf to out b =
    (take (to + length out) b ≡ take to buf ++ out)
    × (drop (to + length out) b ≡ drop (to + length out) buf)
    × (drop len b ≡ drop len buf)

-- The outcome of the loop from `to` on `buf`, for a result of the reference, and the bytes that it gives
-- before an error.
abbrev pub Meets : ℕ → List ℕ → ℕ → Option (List ℕ) → List ℕ → Decoded → Type 0
Meets len buf to none front r = (b : List ℕ) × (r ≡ malformed b) × Written len buf to front b
Meets len buf to (some out) front r =
    (b : List ℕ) × (r ≡ decoded b (to + length out)) × Written len buf to out b

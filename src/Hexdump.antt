-- ===== src/Hexdump.antt =====
-- src/hexdump.c and include/ls/hexdump.h. The buffer `linebuf` is the list of the bytes stored so
-- far, whose length is `lx`; a store at or behind its end `linebuflen` is undefined behaviour, and
-- `none` here. `size_t` wraps at 2 ^ 64. Words are read as on a little-endian host.
pub mod Digits
pub mod Line
pub mod Columns
pub mod Rows
mod Tests
use mathlib.Core.Option
use libls.Prelude.{
  ℕ, zero, suc, ◌+◌, ◌-◌, ◌*◌, ◌/◌, ◌%◌, ◌^◌, bit_and, bit_or, Bool, true, false, Option, none,
  some, List, [], ◌∷◌, ◌++◌, ◌==◌, ltb, leb, if◌then◌else◌, length, get_or, get_elem?, take, drop,
  codes, ◌&&◌, ◌||◌, not, min, isascii, isprint, tolower,
}

unfoldable pub hex_asc : List ℕ
hex_asc = codes "0123456789abcdef"

unfoldable pub hex_asc_upper : List ℕ
hex_asc_upper = codes "0123456789ABCDEF"

unfoldable pub hex_asc_lo : ℕ → ℕ
unfolding hex_asc
hex_asc_lo x = get_or hex_asc (bit_and x 0x0f) 0

unfoldable pub hex_asc_hi : ℕ → ℕ
unfolding hex_asc
hex_asc_hi x = get_or hex_asc (bit_and x 0xf0 / 2 ^ 4) 0

unfoldable pub hex_asc_upper_lo : ℕ → ℕ
unfolding hex_asc_upper
hex_asc_upper_lo x = get_or hex_asc_upper (bit_and x 0x0f) 0

unfoldable pub hex_asc_upper_hi : ℕ → ℕ
unfolding hex_asc_upper
hex_asc_upper_hi x = get_or hex_asc_upper (bit_and x 0xf0 / 2 ^ 4) 0

-- What is stored at `buf`; the pointer behind it is returned.
pub hex_byte_pack : ℕ → List ℕ
hex_byte_pack byte = hex_asc_hi byte ∷ hex_asc_lo byte ∷ []

pub hex_byte_pack_upper : ℕ → List ℕ
hex_byte_pack_upper byte = hex_asc_upper_hi byte ∷ hex_asc_upper_lo byte ∷ []

-- `none` is -1.
unfoldable pub hex_to_bin : ℕ → Option ℕ
hex_to_bin ch =
    if leb b'0' ch && leb ch b'9'
    then some (ch - b'0')
    else (let ch' = tolower ch in
        if leb b'a' ch' && leb ch' b'f' then some (ch' - b'a' + 10) else none)

-- 0 with the bytes stored at `dst`, -1 with those stored before the bad digit, or a read behind the
-- end of `src`.
pub data Converted : Type 0 where
  done : List ℕ → Converted
  bad : List ℕ → Converted
  fault : Converted

-- The store of one byte and the rest of the loop.
pub hex2bin_byte : Option ℕ → Option ℕ → (ℕ → Converted) → List ℕ → Converted
hex2bin_byte (some hi) (some lo) rest dst = rest (bit_or (hi * 2 ^ 4) lo % 2 ^ 8)
hex2bin_byte none lo rest dst = bad dst
hex2bin_byte (some hi) none rest dst = bad dst

pub hex2bin_loop : ℕ → List ℕ → List ℕ → Converted
hex2bin_loop zero dst src = done dst
hex2bin_loop (suc count) dst (h ∷ l ∷ src) =
    hex2bin_byte (hex_to_bin h) (hex_to_bin l) (λ byte. hex2bin_loop count (dst ++ (byte ∷ [])) src)
      dst
hex2bin_loop (suc count) dst (h ∷ []) = fault
hex2bin_loop (suc count) dst [] = fault

pub hex2bin : List ℕ → ℕ → Converted
unfolding hex2bin_loop hex2bin_byte hex_to_bin
hex2bin src count = hex2bin_loop count [] src

-- `linebuf[lx++] = c`.
abbrev pub put : ℕ → List ℕ → ℕ → Option (List ℕ)
put linebuflen out c = if ltb (length out) linebuflen then some (out ++ (c ∷ [])) else none

infixl 5 ◌>>=◌
abbrev pub ◌>>=◌ : Option (List ℕ) → (List ℕ → Option (List ℕ)) → Option (List ℕ)
none >>= f = none
some out >>= f = f out

-- `a - b` of `size_t`.
abbrev pub sub64 : ℕ → ℕ → ℕ
sub64 a b = (a + 2 ^ 64 - b) % 2 ^ 64

-- The default branch of the `switch`: three characters a byte, while they fit.
unfoldable pub dump_bytes : ℕ → List ℕ → List ℕ → Option (List ℕ)
dump_bytes linebuflen out [] = some out
dump_bytes linebuflen out (ch ∷ rest) = elim (leb (length out + 3) linebuflen) [
  | true ↦ do
    a ← put linebuflen out (hex_asc_hi ch)
    b ← put linebuflen a (hex_asc_lo ch)
    c ← put linebuflen b b' '
    dump_bytes linebuflen c rest
  | false ↦ some out
]

-- `if (j) lx--`: `lx` is 0 exactly when no byte was stored.
unfoldable pub drop_last : List ℕ → List ℕ
drop_last [] = []
drop_last (x ∷ []) = []
drop_last (x ∷ y ∷ xs) = x ∷ drop_last (y ∷ xs)

-- The padding up to the column of the text; each round stores one space, so `ascii_column` rounds
-- are enough.
unfoldable pub pad_loop : ℕ → ℕ → ℕ → List ℕ → Option (List ℕ)
pad_loop zero linebuflen ascii_column out = some out
pad_loop (suc fuel) linebuflen ascii_column out =
    elim (ltb (length out) (sub64 linebuflen 1) && ltb (length out) (ascii_column - 1)) [
      | true ↦ put linebuflen out b' ' >>= pad_loop fuel linebuflen ascii_column
      | false ↦ some out
    ]

unfoldable pub ascii_char : ℕ → ℕ
ascii_char ch = if isascii ch && isprint ch then ch else b'.'

unfoldable pub ascii_loop : ℕ → List ℕ → List ℕ → Option (List ℕ)
ascii_loop linebuflen out [] = some out
ascii_loop linebuflen out (ch ∷ rest) = elim (ltb (length out + 2) linebuflen) [
  | true ↦ put linebuflen out (ascii_char ch) >>= λ next. ascii_loop linebuflen next rest
  | false ↦ some out
]

-- The return value of `vscnprintf` where `vsnprintf` returns `i`.
unfoldable pub vscnprintf : ℕ → ℕ → ℕ
vscnprintf i size = if ltb i size then i else if size == 0 then 0 else size - 1

-- `lx += scnprintf(linebuf + lx, linebuflen - lx, …)` for a formatted `text`: `vsnprintf` stores as
-- much of it as leaves room for the NUL, which the next store overwrites.
unfoldable pub scnprintf : ℕ → List ℕ → List ℕ → Option (List ℕ)
unfolding vscnprintf
scnprintf linebuflen out text =
    if leb (length out) linebuflen
    then some (out ++ take (vscnprintf (length text) (linebuflen - length out)) text)
    else none

-- The little-endian word at the head of the data, and `%n.nx` of a number.
unfoldable pub le_word : List ℕ → ℕ
le_word [] = 0
le_word (b ∷ bs) = b + 256 * le_word bs

unfoldable pub hex_field : ℕ → ℕ → List ℕ
hex_field zero n = []
hex_field (suc k) n = hex_field k (n / 16) ++ (get_or hex_asc (n % 16) 0 ∷ [])

-- The branches for groups of 8, 4 and 2 bytes, with `ngroups` rounds left; `sep` is `j ? " " : ""`.
unfoldable pub dump_groups : ℕ → ℕ → List ℕ → ℕ → List ℕ → List ℕ → Option (List ℕ)
dump_groups zero groupsize sep linebuflen input out = some out
dump_groups (suc n) groupsize sep linebuflen input out = do
  next ←
      scnprintf linebuflen out (sep ++ hex_field (2 * groupsize) (le_word (take groupsize input)))
  dump_groups n groupsize (b' ' ∷ []) linebuflen (drop groupsize input) next

-- The `switch` on the group size.
unfoldable pub dump_hex : ℕ → ℕ → List ℕ → Option (List ℕ)
unfolding dump_groups dump_bytes drop_last
dump_hex groupsize linebuflen input =
    if groupsize == 8 || groupsize == 4 || groupsize == 2
    then dump_groups (length input / groupsize) groupsize [] linebuflen input []
    else Option.map drop_last (dump_bytes linebuflen [] input)

unfoldable pub ascii_column : ℕ → ℕ → ℕ → ℕ
ascii_column rowsize groupsize len =
    if groupsize == 8 || groupsize == 4 || groupsize == 2
    then (2 * groupsize + 1) * (len / groupsize) + 2
    else 3 * rowsize + 2

-- The text column, if it is asked for.
unfoldable pub dump_ascii : Bool → ℕ → ℕ → List ℕ → List ℕ → Option (List ℕ)
unfolding pad_loop ascii_loop
dump_ascii false column linebuflen input out = some out
dump_ascii true column linebuflen input out = do
  padded ← pad_loop column linebuflen column out
  ascii_loop linebuflen padded input

abbrev pub row_of : ℕ → ℕ
row_of rowsize = if rowsize == 16 || rowsize == 32 then rowsize else 16

-- One line: the `switch`, the text column, and the NUL at the label `nil`.
unfoldable pub dump_line : ℕ → ℕ → ℕ → Bool → List ℕ → Option (List ℕ)
dump_line row groupsize linebuflen ascii line = do
  hex ← dump_hex groupsize linebuflen line
  out ← dump_ascii ascii (ascii_column row groupsize (length line)) linebuflen line hex
  put linebuflen out 0

-- Sizes are non-negative; a `groupsize` of 0 divides by zero.
unfoldable pub hex_dump_to_buffer : List ℕ → ℕ → ℕ → ℕ → Bool → Option (List ℕ)
unfolding dump_hex ascii_column dump_ascii dump_line
hex_dump_to_buffer buf rowsize groupsize linebuflen ascii =
    if length buf == 0
    then put linebuflen [] 0
    else if groupsize == 0
    then none
    else (let row = row_of rowsize in
        let line = take row buf in
        let group = if length line % groupsize == 0 then groupsize else 1 in
        dump_line row group linebuflen ascii line)

-- `MIN(remaining, rowsize)` of two `int`, as the `size_t` that `hex_dump_to_buffer` takes. An `int` that may
-- be negative is its 32 digits.
abbrev pub min_linelen : ℕ → ℕ → ℕ
min_linelen remaining rowsize =
    if leb (2 ^ 31) remaining then remaining + (2 ^ 64 - 2 ^ 32) else min remaining rowsize

-- Whether `i += rowsize` or `remaining -= rowsize` overflows `int`.
abbrev pub overflows : ℕ → ℕ → ℕ → Bool
overflows i remaining rowsize =
    leb (2 ^ 31) (i + rowsize) || (leb (2 ^ 31) remaining && ltb remaining (2 ^ 31 + rowsize))

-- The loop of `print_hex_dump` without the prefixes that `pr` prints: the lines in order, each with its
-- offset `i`. `buf` is the data from `ptr + i` on, `linebuf` has 32 * 3 + 2 + 32 + 1 bytes. `none` is a read
-- behind the data, an `int` that overflows, or a loop that has used up its rounds.
unfoldable pub print_rows :
    ℕ → ℕ → ℕ → ℕ → Bool → ℕ → ℕ → List ℕ → Option (List (ℕ × Option (List ℕ)))
print_rows zero len rowsize groupsize ascii i remaining buf = none
print_rows (suc fuel) len rowsize groupsize ascii i remaining buf = elim (ltb i len) [
  | false ↦ some []
  | true ↦
      let linelen = min_linelen remaining rowsize in
      elim (ltb (length buf) (min linelen rowsize) || overflows i remaining rowsize) [
        | true ↦ none
        | false ↦
            Option.map
              (λ rows.
                (i, hex_dump_to_buffer (take linelen buf) rowsize groupsize 131 ascii) ∷ rows)
              (print_rows fuel len rowsize groupsize ascii (i + rowsize)
                ((remaining + (2 ^ 32 - rowsize)) % 2 ^ 32) (drop rowsize buf))
      ]
]

-- `remaining = len` keeps 32 digits. A round takes a byte at least.
unfoldable pub print_hex_dump : ℕ → ℕ → List ℕ → Bool → Option (List (ℕ × Option (List ℕ)))
unfolding print_rows
print_hex_dump rowsize groupsize buf ascii =
    print_rows (suc (length buf)) (length buf) (row_of rowsize) groupsize ascii 0
      (length buf % 2 ^ 32) buf

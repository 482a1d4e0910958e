-- ===== src/Bitops.antt =====
-- src/find_next_bit.c, src/find_last_bit.c and include/ls/bitops. A region of memory is the list of its
-- `unsigned long`s of 64 bits; `none` is a read behind its end.
pub mod Word
pub mod First
pub mod Next
pub mod Zero
pub mod Last
pub mod Store
pub mod Rotate
pub mod Weight
mod Tests
use libls.Prelude.{
  ℕ, zero, suc, ◌+◌, ◌-◌, ◌*◌, ◌/◌, ◌%◌, ◌^◌, ◌<◌, Bool, true, false, Option, none, some, List, [],
  ◌∷◌, bit_and, bit_or, ◌==◌, leb, ltb, drop, take, length, get_elem?, if◌then◌else◌,
}

abbrev pub IsWord : ℕ → Type 0
IsWord w = w < 2 ^ 64

-- `~0UL`, `~x` and `x << n`.
abbrev pub all_ones : ℕ
all_ones = 2 ^ 64 - 1

abbrev pub not64 : ℕ → ℕ
not64 x = all_ones - x

abbrev pub shl64 : ℕ → ℕ → ℕ
shl64 x n = x * 2 ^ n % 2 ^ 64

-- The number of zeros below the lowest one, for a number of `n` digits other than 0.
unfoldable pub ctz : ℕ → ℕ → ℕ
ctz zero w = 0
ctz (suc n) w = if w % 2 == 1 then 0 else suc (ctz n (w / 2))

-- `__builtin_ctzl`.
abbrev pub __ffs : ℕ → ℕ
__ffs w = ctz 64 w

abbrev pub ffz : ℕ → ℕ
ffz w = __ffs (not64 w)

-- `found_first`: the last word, of which `size` bits count.
unfoldable pub found_first : ℕ → ℕ → ℕ → ℕ
found_first result size word =
    let tmp = bit_and word (all_ones / 2 ^ (64 - size)) in
    if tmp == 0 then result + size else result + __ffs tmp

-- The loop over whole words, and the word behind them.
unfoldable pub find_loop : ℕ → ℕ → List ℕ → Option ℕ
unfolding found_first
find_loop result size [] = if size == 0 then some result else none
find_loop result size (w ∷ ws) =
    let rest = find_loop (result + 64) (size - 64) ws in
    if leb 64 size
    then if w == 0 then rest else some (result + __ffs w)
    else if size == 0
    then some result
    else some (found_first result size w)

unfoldable pub find_first_bit : List ℕ → ℕ → Option ℕ
unfolding find_loop
find_first_bit addr size = find_loop 0 size addr

-- The first word of `find_next_bit` where the offset is inside it.
unfoldable pub next_word : ℕ → ℕ → ℕ → List ℕ → Option ℕ
unfolding find_loop found_first
next_word result size offset [] = none
next_word result size offset (w ∷ ws) =
    let tmp = bit_and w (shl64 all_ones offset) in
    if ltb size 64
    then some (found_first result size tmp)
    else if tmp == 0
    then find_loop (result + 64) (size - 64) ws
    else some (result + __ffs tmp)

unfoldable pub find_next_bit : List ℕ → ℕ → ℕ → Option ℕ
unfolding next_word find_loop
find_next_bit addr size offset =
    let p = drop (offset / 64) addr in
    let result = offset / 64 * 64 in
    if leb size offset
    then some size
    else if offset % 64 == 0
    then find_loop result (size - result) p
    else next_word result (size - result) (offset % 64) p

unfoldable pub found_first_zero : ℕ → ℕ → ℕ → ℕ
found_first_zero result size word =
    let tmp = bit_or word (shl64 all_ones size) in
    if tmp == all_ones then result + size else result + ffz tmp

unfoldable pub find_zero_loop : ℕ → ℕ → List ℕ → Option ℕ
unfolding found_first_zero
find_zero_loop result size [] = if size == 0 then some result else none
find_zero_loop result size (w ∷ ws) =
    let rest = find_zero_loop (result + 64) (size - 64) ws in
    if leb 64 size
    then if not64 w == 0 then rest else some (result + ffz w)
    else if size == 0
    then some result
    else some (found_first_zero result size w)

unfoldable pub find_first_zero_bit : List ℕ → ℕ → Option ℕ
unfolding find_zero_loop
find_first_zero_bit addr size = find_zero_loop 0 size addr

unfoldable pub next_zero_word : ℕ → ℕ → ℕ → List ℕ → Option ℕ
unfolding find_zero_loop found_first_zero
next_zero_word result size offset [] = none
next_zero_word result size offset (w ∷ ws) =
    let tmp = bit_or w (all_ones / 2 ^ (64 - offset)) in
    if ltb size 64
    then some (found_first_zero result size tmp)
    else if not64 tmp == 0
    then find_zero_loop (result + 64) (size - 64) ws
    else some (result + ffz tmp)

unfoldable pub find_next_zero_bit : List ℕ → ℕ → ℕ → Option ℕ
unfolding next_zero_word find_zero_loop
find_next_zero_bit addr size offset =
    let p = drop (offset / 64) addr in
    let result = offset / 64 * 64 in
    if leb size offset
    then some size
    else if offset % 64 == 0
    then find_zero_loop result (size - result) p
    else next_zero_word result (size - result) (offset % 64) p

-- The number of zeros above the highest one, for a number of `n` digits other than 0.
unfoldable pub clz : ℕ → ℕ → ℕ
clz zero w = 0
clz (suc n) w = if w / 2 ^ n % 2 == 1 then 0 else suc (clz n w)

-- `__fls`, with `__builtin_clzl`.
abbrev pub __fls : ℕ → ℕ
__fls w = 64 - 1 - clz 64 w

-- `while (words)` of `find_last_bit`.
unfoldable pub last_loop : List ℕ → ℕ → ℕ → Option ℕ
last_loop addr zero size = some size
last_loop addr (suc words) size =
    let rest = last_loop addr words size in
    elim (get_elem? addr words) [
      | none ↦ none
      | some tmp ↦ if tmp == 0 then rest else some (words * 64 + __fls tmp)
    ]

unfoldable pub find_last_bit : List ℕ → ℕ → Option ℕ
unfolding last_loop
find_last_bit addr size =
    let words = size / 64 in
    if size % 64 == 0 then last_loop addr words size else elim (get_elem? addr words) [
      | none ↦ none
      | some w ↦
          let tmp = bit_and w (all_ones / 2 ^ (64 - size % 64)) in
          if tmp == 0 then last_loop addr words size else some (words * 64 + __fls tmp)
    ]

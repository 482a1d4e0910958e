-- ===== src/Strings.antt =====
-- src/string.c and include/ls/string.h, but for `scnprintf`, which Hexdump has. A string is the list of
-- its bytes before the NUL. `room` says whether an allocation succeeds.
pub mod Strip
pub mod Vector
mod Tests
use libls.Prelude.{
  ℕ, zero, suc, ◌+◌, ◌*◌, ◌%◌, ◌^◌, Bool, true, false, Option, none, some, List, [], ◌∷◌, ◌++◌,
  length, get_or, take, isspace, ◌==◌, leb, ltb, not, ◌&&◌, if◌then◌else◌,
}

unfoldable pub strlstrip : List ℕ → List ℕ
strlstrip [] = []
strlstrip (c ∷ str) = if isspace c then strlstrip str else c ∷ str

-- The loop of `strrstrip` with `end` at offset `n - 1`: what is left before the NULs that it writes.
unfoldable pub strrstrip_loop : List ℕ → ℕ → List ℕ
strrstrip_loop str zero = []
strrstrip_loop str (suc n) =
    let rest = strrstrip_loop str n in if isspace (get_or str n 0) then rest else take (suc n) str

unfoldable pub strrstrip : List ℕ → List ℕ
unfolding strrstrip_loop
strrstrip str = strrstrip_loop str (length str)

pub strstrip : List ℕ → List ℕ
strstrip str = strrstrip (strlstrip str)

-- `dest ? strlen(dest) : 0`, with the bytes counted.
abbrev pub dest_bytes : Option (List ℕ) → List ℕ
dest_bytes none = []
dest_bytes (some dest) = dest

-- `dest` is `none` where it is the null pointer, and `src` the bytes that can be read there. The result is
-- `none` for a fault (a read behind `src`, or a store behind the block, whose size is computed in 32 bits)
-- and `some none` for the null pointer where `realloc` fails.
pub astrncat : Bool → Option (List ℕ) → List ℕ → ℕ → Option (Option (List ℕ))
astrncat room dest src src_len =
    let old = dest_bytes dest in
    let size = (length old + src_len + 1) % 2 ^ 32 in
    if not room
    then some none
    else if leb (length old + src_len + 1) size && leb src_len (length src)
    then some (some (old ++ take src_len src))
    else none

pub astrcat : Bool → Option (List ℕ) → List ℕ → Option (Option (List ℕ))
astrcat room dest src = astrncat room dest src (length src % 2 ^ 32)

-- `struct strv`: the strings, `len` of them, the field `size`, and the number of entries that are allocated
-- behind the pointer, 0 for the null pointer. An entry is `none` where `strndup` has failed.
pub record Strv : Type 0 where
  pub strv : List (Option (List ℕ))
  pub size : ℕ
  pub allocated : ℕ

abbrev pub strv_init : Strv
strv_init = record { strv = []; size = 0; allocated = 0 }

-- `new_size = sv->size * 2; if (!new_size) new_size = 1;` in 32 bits.
pub new_size : ℕ → ℕ
new_size size = if size * 2 % 2 ^ 32 == 0 then 1 else size * 2 % 2 ^ 32

-- `realloc`: the number of entries behind the new pointer, or `none` for the null pointer.
abbrev pub realloc : Bool → ℕ → Option ℕ
realloc true entries = some entries
realloc false entries = none

-- What becomes of the two fields behind `realloc`, where the null pointer has room for no entry; `none` is
-- the jump to `err`.
abbrev pub regrown : Strv → ℕ → Option ℕ → Option Strv
regrown sv entries none = none
regrown sv entries (some n) = some (record { strv = sv.strv; size = entries; allocated = n })

-- Where `len` has reached `size`: the vector with more room, unless `realloc` fails.
pub grow : Bool → Strv → Option Strv
grow room sv =
    if leb sv.size (length sv.strv)
    then regrown sv (new_size sv.size) (realloc room (new_size sv.size))
    else some sv

-- `strv[len++] = strndup(str, len)`, then `return 0` unless the copy is the null pointer.
abbrev pub strndup : Bool → List ℕ → Option (List ℕ)
strndup true str = some str
strndup false str = none

abbrev pub is_some : Option (List ℕ) → Bool
is_some none = false
is_some (some str) = true

-- The vector and whether 0 is returned; `none` is a store behind the allocated entries.
pub put_copy : Option (List ℕ) → Strv → Option Strv → Option (Strv × Bool)
put_copy copy sv none = some (sv, false)
put_copy copy sv (some big) =
    if ltb (length big.strv) big.allocated
    then some (
      record { strv = big.strv ++ (copy ∷ []); size = big.size; allocated = big.allocated },
      is_some copy,
    )
    else none

-- `strndup` copies `len` bytes at most. `room` says whether `realloc` finds memory, `copied` whether
-- `strndup` does.
pub strv_append3 : Bool → Bool → Strv → List ℕ → ℕ → Option (Strv × Bool)
strv_append3 room copied sv str len = put_copy (strndup copied (take len str)) sv (grow room sv)

pub strv_append : Bool → Bool → Strv → List ℕ → Option (Strv × Bool)
strv_append room copied sv str = strv_append3 room copied sv str (length str)

-- ===== src/Strings/Vector.antt =====
-- The vector of strings keeps within its room.
use mathlib.Core.List.{append-nil}
use libls.Prelude.{
  ℕ, ◌^◌, ◌<◌, ◌≤◌, ◌≡◌, refl, sym, ap, inl, inr, Bool, true, false, Option, none, some, List, [],
  ◌∷◌, ◌++◌, length, length-append, take, ltb, ◌&&◌, ◌||◌, lt→ltb, le→ltb, le→leb, lt→leb, le_or_lt,
  arith,
}
use libls.Strings.{Strv, new_size, realloc, regrown, grow, strndup, put_copy, strv_append3}

-- There are as many entries as `size` says, and `len` is not above it.
abbrev pub IsStrv : Strv → Type 0
IsStrv sv = (length sv.strv ≤ sv.size) × (sv.size ≤ sv.allocated)

-- What is behind the old entries then: the copy of the string, a null pointer where there is no memory for
-- it, and nothing where there is none for the entries.
abbrev pub added : Bool → Bool → List ℕ → List (Option (List ℕ))
added false copied new = []
added true true new = some new ∷ []
added true false new = none ∷ []

-- Whether there is an entry left, or memory for more.
abbrev pub has_entry : Bool → Strv → Bool
has_entry room sv = ltb (length sv.strv) sv.size || room

abbrev pub Appended : Bool → Bool → Strv → List ℕ → Strv → Type 0
Appended fits copied sv new big = IsStrv big × (big.strv ≡ sv.strv ++ added fits copied new)

put_copy-Appended :
    (copied : Bool) (sv big : Strv) (new : List ℕ)
    → length big.strv < big.size
    → big.size ≤ big.allocated
    → big.strv ≡ sv.strv
    → (g : Strv) × (put_copy (strndup copied new) sv (some big) ≡ some (g, copied))
      × Appended true copied sv new g
unfolding put_copy
put_copy-Appended true sv big new h a e = (
  record { strv = big.strv ++ (some new ∷ []); size = big.size; allocated = big.allocated },
  rw (lt→ltb (length big.strv) big.allocated (omega arith)) refl,
  ((omega (arith, length-append big.strv (some new ∷ [])), a), ap (λ l. l ++ (some new ∷ [])) e),
)
put_copy-Appended false sv big new h a e = (
  record { strv = big.strv ++ (none ∷ []); size = big.size; allocated = big.allocated },
  rw (lt→ltb (length big.strv) big.allocated (omega arith)) refl,
  ((omega (arith, length-append big.strv (none ∷ [])), a), ap (λ l. l ++ (none ∷ [])) e),
)

new_size-lt : (size : ℕ) → size < 2 ^ 31 → size < new_size size
unfolding new_size
new_size-lt size h = ground arith

-- While `size` is below 2 ^ 31, `strv_append3` stores inside the allocated entries, whichever allocation
-- fails. It returns 0 exactly where there is an entry left or `realloc` finds memory, and `strndup` does
-- too: the string, cut to `len`, is then behind the others. Where only `strndup` fails a null pointer is put
-- behind them, and where there is no entry they stay as they are.
pub strv_append3-IsStrv :
    (room copied : Bool) (sv : Strv) (str : List ℕ) (len : ℕ)
    → IsStrv sv
    → sv.size < 2 ^ 31
    → (big : Strv) × (strv_append3 room copied sv str len ≡ some (big, has_entry room sv && copied))
      × Appended (has_entry room sv) copied sv (take len str) big
unfolding strv_append3 grow
strv_append3-IsStrv room copied sv str len ok small = elim (le_or_lt sv.size (length sv.strv)) [
  | inr lt ↦
      rw (lt→ltb (length sv.strv) sv.size lt, lt→leb sv.size (length sv.strv) lt)
        (put_copy-Appended copied sv sv (take len str) lt ok.1 refl)
  | inl le ↦ rw (le→ltb (length sv.strv) sv.size le, le→leb sv.size (length sv.strv) le) (full room)
]
  where
    full :
        (room : Bool)
        → (big : Strv) × (put_copy
              (strndup copied (take len str))
              sv
              (regrown sv (new_size sv.size) (realloc room (new_size sv.size)))
            ≡ some (big, room && copied))
          × Appended room copied sv (take len str) big
    full true =
        put_copy-Appended copied sv
          (record { strv = sv.strv; size = new_size sv.size; allocated = new_size sv.size })
          (take len str) (omega (arith, ok, new_size-lt sv.size small)) (omega arith) refl
    full false = unfold put_copy in (sv, refl, (ok, sym (append-nil sv.strv)))

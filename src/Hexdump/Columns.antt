-- ===== src/Hexdump/Columns.antt =====
-- With room enough, a line of `hex_dump_to_buffer` is its bytes in hex, blanks up to the text column, and
-- its text.
use mathlib.Core.List.{append_assoc, append-nil}
use libls.Prelude.{
  ℕ, zero, suc, ◌+◌, ◌-◌, ◌*◌, ◌^◌, ◌≤◌, ◌<◌, min, ◌≡◌, refl, ◌∙◌, sym, ap, true, some, List, [],
  ◌∷◌, ◌++◌, map, arith, length, take, replicate, length-append, length-replicate, length-map,
}
use libls.Hexdump.{
  hex_asc_hi, hex_asc_lo, dump_bytes, drop_last, ascii_char, dump_hex, dump_ascii, dump_line,
  ascii_column,
}
use libls.Hexdump.Line.{pad_loop_lem, ascii_loop_lem, dump_bytes-cons, put_lem}

-- The digits of each byte, with a blank behind every byte and with blanks between the bytes.
abbrev spaced : List ℕ → List ℕ
spaced [] = []
spaced (b ∷ bs) = hex_asc_hi b ∷ hex_asc_lo b ∷ b' ' ∷ spaced bs

abbrev pub hex_column : List ℕ → List ℕ
hex_column [] = []
hex_column (b ∷ []) = hex_asc_hi b ∷ hex_asc_lo b ∷ []
hex_column (b ∷ c ∷ bs) = hex_asc_hi b ∷ hex_asc_lo b ∷ b' ' ∷ hex_column (c ∷ bs)

drop_last-spaced : (bs : List ℕ) → drop_last (spaced bs) ≡ hex_column bs
unfolding drop_last
drop_last-spaced [] = refl
drop_last-spaced (b ∷ []) = refl
drop_last-spaced (b ∷ c ∷ bs) =
    ap (λ t. hex_asc_hi b ∷ hex_asc_lo b ∷ b' ' ∷ t) (drop_last-spaced (c ∷ bs))

length-hex_column : (bs : List ℕ) → length (hex_column bs) ≡ 3 * length bs - 1
length-hex_column [] = omega arith
length-hex_column (b ∷ []) = omega arith
length-hex_column (b ∷ c ∷ bs) = omega (arith, length-hex_column (c ∷ bs))

dump_bytes-spaced :
    (cap : ℕ) (bs out : List ℕ)
    → length out + 3 * length bs ≤ cap
    → dump_bytes cap out bs ≡ some (out ++ spaced bs)
dump_bytes-spaced cap [] out h = unfold dump_bytes in ap some (sym (append-nil out))
dump_bytes-spaced cap (b ∷ bs) out h =
    let three = hex_asc_hi b ∷ hex_asc_lo b ∷ b' ' ∷ [] in
    dump_bytes-cons cap b bs out (omega arith)
    ∙ dump_bytes-spaced cap bs (out ++ three) (omega (arith, length-append out three))
    ∙ ap some (append_assoc out three (spaced bs))

-- A whole line of single bytes, without its NUL.
abbrev pub line_of : ℕ → List ℕ → List ℕ
line_of row bs =
    hex_column bs ++ (replicate (3 * row + 1 - (3 * length bs - 1)) b' ' ++ map ascii_char bs)

pub take_all {ℓ} : {A : Type ℓ} (n : ℕ) (xs : List A) → length xs ≤ n → take n xs ≡ xs
take_all zero [] h = refl
take_all zero (x ∷ xs) h = absurd (omega arith)
take_all (suc n) [] h = refl
take_all (suc n) (x ∷ xs) h = ap (λ t. x ∷ t) (take_all n xs (omega arith))

pub dump_line-line_of :
    (row cap : ℕ) (bs : List ℕ)
    → 0 < length bs
    → length bs ≤ row
    → 3 * row + length bs + 2 < cap
    → cap < 2 ^ 64
    → dump_line row 1 cap true bs ≡ some (line_of row bs ++ 0 ∷ [])
unfolding dump_line dump_hex dump_ascii ascii_column
dump_line-line_of row cap bs pos fits room small =
    let k = 3 * row + 1 - (3 * length bs - 1) in
    let padded = hex_column bs ++ replicate k b' ' in
    let text = map ascii_char bs in
    let blanks : min (3 * row + 2) (min (cap - 1) (3 * row + 2 - 1) - length (hex_column bs)) ≡ k =
      omega (arith, length-hex_column bs) in
    let width : length padded ≡ 3 * row + 1 = omega (
      arith,
      length-append (hex_column bs) (replicate k b' '),
      length-replicate {A = ℕ} k b' ',
      length-hex_column bs,
    ) in
    rw
      (
        dump_bytes-spaced cap bs [] (omega arith),
        drop_last-spaced bs,
        pad_loop_lem cap (omega arith) (3 * row + 2) (3 * row + 2) (hex_column bs) small,
        blanks,
        ascii_loop_lem cap (omega arith) bs padded,
        take_all (cap - 2 - length padded) bs (omega arith),
        put_lem cap (padded ++ text) 0
            (omega (arith, length-append padded text, length-map bs ascii_char)),
      )
      (ap (λ t. some (t ++ 0 ∷ [])) (append_assoc (hex_column bs) (replicate k b' ') text))

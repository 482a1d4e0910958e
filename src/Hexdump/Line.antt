-- ===== src/Hexdump/Line.antt =====
-- The stores of `hex_dump_to_buffer` stay inside `linebuf`, and with room enough the line is whole.
use mathlib.Core.Option
use mathlib.Core.List.{append_assoc, append-nil}
use libls.Prelude.{
  ℕ, zero, suc, ◌+◌, ◌-◌, ◌*◌, ◌/◌, ◌%◌, ◌^◌, ◌≤◌, ◌<◌, min, ◌≡◌, refl, ◌∙◌, sym, ap, Bool, true,
  false, ◌&&◌, ◌||◌, Option, none, some, List, [], ◌∷◌, ◌++◌, map, arith, length, take, drop,
  length-append, length-take, replicate, length-replicate, length-map, ◌==◌, ltb, leb,
  if◌then◌else◌, Bool-cases, inl, inr,
}
use libls.Hexdump.{
  hex_asc_hi, hex_asc_lo, put, ◌>>=◌, sub64, dump_bytes, drop_last, pad_loop, ascii_char,
  ascii_loop, vscnprintf, scnprintf, dump_groups, dump_hex, dump_ascii, dump_line,
  hex_dump_to_buffer, hex_field, le_word, ascii_column, row_of,
}

pub take-nil {ℓ} : {A : Type ℓ} (n : ℕ) → take {A = A} n [] ≡ []
take-nil zero = refl
take-nil (suc n) = refl

-- A run that stored nothing out of bounds and left room for one more byte.
abbrev Fits : ℕ → Option (List ℕ) → Type 0
Fits cap none = ⊥
Fits cap (some out) = length out < cap

module _ (cap : ℕ) where
  Fits-bind :
      (m : Option (List ℕ)) (f : List ℕ → Option (List ℕ))
      → Fits cap m
      → ((out : List ℕ) → length out < cap → Fits cap (f out))
      → Fits cap (m >>= f)
  Fits-bind none f h k = absurd h
  Fits-bind (some out) f h k = k out h

  scnprintf-Fits : (out text : List ℕ) → length out < cap → Fits cap (scnprintf cap out text)
  unfolding scnprintf
  scnprintf-Fits out text h = ground (
    arith,
    length-append out (take (vscnprintf (length text) (cap - length out)) text),
    length-take (vscnprintf (length text) (cap - length out)) text,
  )

  dump_groups-Fits :
      (n g : ℕ) (sep input out : List ℕ)
      → length out < cap
      → Fits cap (dump_groups n g sep cap input out)
  unfolding dump_groups
  dump_groups-Fits zero g sep input out h = h
  dump_groups-Fits (suc n) g sep input out h =
      Fits-bind _ _ (scnprintf-Fits out (sep ++ hex_field (2 * g) (le_word (take g input))) h)
        (λ next k. dump_groups-Fits n g (b' ' ∷ []) (drop g input) next k)

  pub put_lem : (out : List ℕ) (c : ℕ) → length out < cap → put cap out c ≡ some (out ++ (c ∷ []))
  put_lem out c h = ground arith

  -- One round of the default branch.
  pub dump_bytes-cons :
      (ch : ℕ) (rest out : List ℕ)
      → length out + 3 ≤ cap
      → dump_bytes cap out (ch ∷ rest)
        ≡ dump_bytes cap (out ++ (hex_asc_hi ch ∷ hex_asc_lo ch ∷ b' ' ∷ [])) rest
  unfolding dump_bytes
  dump_bytes-cons ch rest out h =
      let a = out ++ (hex_asc_hi ch ∷ []) in
      let b = a ++ (hex_asc_lo ch ∷ []) in
      let test : leb (length out + 3) cap ≡ true = ground arith in
      let la = length-append out (hex_asc_hi ch ∷ []) in
      let lb = length-append a (hex_asc_lo ch ∷ []) in
      rw
        (
          test,
          dump_bytes,
          put_lem out (hex_asc_hi ch) (omega arith),
          put_lem a (hex_asc_lo ch) (omega arith),
          put_lem b b' ' (omega arith),
        )
        (ap (λ t. dump_bytes cap t rest)
          (append_assoc a (hex_asc_lo ch ∷ []) (b' ' ∷ [])
            ∙ append_assoc out (hex_asc_hi ch ∷ []) (hex_asc_lo ch ∷ b' ' ∷ [])))

  dump_bytes-stop :
      (ch : ℕ) (rest out : List ℕ)
      → cap < length out + 3
      → dump_bytes cap out (ch ∷ rest) ≡ some out
  unfolding dump_bytes
  dump_bytes-stop ch rest out h =
      let test : leb (length out + 3) cap ≡ false = ground arith in rw (test, dump_bytes)

  -- The default branch may use up the buffer; the last blank is then given back.
  dump_bytes-Fits :
      (input out : List ℕ) → length out ≤ cap → Fits (suc cap) (dump_bytes cap out input)
  dump_bytes-Fits [] out h = unfold dump_bytes in omega arith
  dump_bytes-Fits (ch ∷ rest) out h = elim (Bool-cases (leb (length out + 3) cap)) [
    | inl room ↦ rw (dump_bytes-cons ch rest out (ground arith)) (
        dump_bytes-Fits rest (out ++ (hex_asc_hi ch ∷ hex_asc_lo ch ∷ b' ' ∷ []))
          (ground (arith, length-append out (hex_asc_hi ch ∷ hex_asc_lo ch ∷ b' ' ∷ []))))
    | inr full ↦ rw (dump_bytes-stop ch rest out (ground arith)) (omega arith)
  ]

length-drop_last : (xs : List ℕ) → length (drop_last xs) ≡ length xs - 1
unfolding drop_last
length-drop_last [] = omega arith
length-drop_last (x ∷ []) = omega arith
length-drop_last (x ∷ y ∷ xs) = omega (arith, length-drop_last (y ∷ xs))

module _ (cap : ℕ) (pos : 0 < cap) where
  drop_last-Fits : (m : Option (List ℕ)) → Fits (suc cap) m → Fits cap (Option.map drop_last m)
  drop_last-Fits none h = h
  drop_last-Fits (some out) h = omega (arith, length-drop_last out)

  dump_hex-Fits : (g : ℕ) (input : List ℕ) → Fits cap (dump_hex g cap input)
  unfolding dump_hex
  dump_hex-Fits g input = elim (Bool-cases (g == 8 || g == 4 || g == 2)) [
    | inl t ↦ rw t (dump_groups-Fits cap (length input / g) g [] input [] pos)
    | inr t ↦ rw t (drop_last-Fits _ (dump_bytes-Fits cap input [] (omega arith)))
  ]

  -- The padding, as many blanks as the column and the buffer leave room for.
  pub pad_loop_lem :
      (fuel column : ℕ) (out : List ℕ)
      → cap < 2 ^ 64
      → pad_loop fuel cap column out
        ≡ some (out ++ replicate (min fuel (min (cap - 1) (column - 1) - length out)) b' ')
  unfolding pad_loop
  pad_loop_lem zero column out small =
      let e : min 0 (min (cap - 1) (column - 1) - length out) ≡ 0 = omega arith in
      rw e (ap some (sym (append-nil out)))
  pad_loop_lem (suc fuel) column out small =
      elim (Bool-cases (ltb (length out) (sub64 cap 1) && ltb (length out) (column - 1))) [
        | inl more ↦
            let n = min (cap - 1) (column - 1) - length (out ++ (b' ' ∷ [])) in
            let room : length out < cap = ground arith in
            let e : min (suc fuel) (min (cap - 1) (column - 1) - length out) ≡ suc (min fuel n) =
              ground (arith, length-append out (b' ' ∷ [])) in
            rw
              (
                more,
                pad_loop,
                put_lem cap out b' ' room,
                pad_loop_lem fuel column (out ++ (b' ' ∷ [])) small,
                e,
              )
              (ap some (append_assoc out (b' ' ∷ []) (replicate (min fuel n) b' ')))
        | inr full ↦
            let e : min (suc fuel) (min (cap - 1) (column - 1) - length out) ≡ 0 = ground arith in
            rw (full, pad_loop, e) (ap some (sym (append-nil out)))
      ]

  pub ascii_loop_lem :
      (input out : List ℕ)
      → ascii_loop cap out input ≡ some (out ++ map ascii_char (take (cap - 2 - length out) input))
  unfolding ascii_loop
  ascii_loop_lem [] out = rw take-nil (ap some (sym (append-nil out)))
  ascii_loop_lem (ch ∷ rest) out = elim (Bool-cases (ltb (length out + 2) cap)) [
    | inl more ↦
        let e : cap - 2 - length out ≡ suc (cap - 2 - length (out ++ (ascii_char ch ∷ []))) =
          ground (arith, length-append out (ascii_char ch ∷ [])) in
        rw
          (
            more,
            ascii_loop,
            put_lem cap out (ascii_char ch) (ground arith),
            ascii_loop_lem rest (out ++ (ascii_char ch ∷ [])),
            e,
          )
          (ap some (append_assoc out (ascii_char ch ∷ []) _))
    | inr full ↦
        let e : cap - 2 - length out ≡ 0 = ground arith in
        rw (full, ascii_loop, e) (ap some (sym (append-nil out)))
  ]

  dump_ascii-Fits :
      (ascii : Bool) (column : ℕ) (input out : List ℕ)
      → cap < 2 ^ 64
      → length out < cap
      → Fits cap (dump_ascii ascii column cap input out)
  unfolding dump_ascii
  dump_ascii-Fits false column input out small h = h
  dump_ascii-Fits true column input out small h =
      let k = min column (min (cap - 1) (column - 1) - length out) in
      let blanks = replicate k b' ' in
      let padded = out ++ blanks in
      let text = take (cap - 2 - length padded) input in
      rw (pad_loop_lem column column out small, ascii_loop_lem input padded)
        (omega (
          arith,
          length-append out blanks,
          length-replicate {A = ℕ} k b' ',
          length-append padded (map ascii_char text),
          length-map text ascii_char,
          length-take (cap - 2 - length padded) input,
        ))

abbrev pub Terminated : ℕ → Option (List ℕ) → Type 0
Terminated cap r = (line : List ℕ) × (r ≡ some (line ++ 0 ∷ [])) × (length line < cap)

Terminated-put :
    (cap : ℕ) (m : Option (List ℕ)) → Fits cap m → Terminated cap (m >>= λ out. put cap out 0)
Terminated-put cap none h = absurd h
Terminated-put cap (some out) h = (out, put_lem cap out 0 h, h)

Terminated-bind :
    (cap : ℕ) (m : Option (List ℕ)) (f : List ℕ → Option (List ℕ))
    → Fits cap m
    → ((out : List ℕ) → length out < cap → Terminated cap (f out))
    → Terminated cap (m >>= f)
Terminated-bind cap none f h k = absurd h
Terminated-bind cap (some out) f h k = k out h

dump_line-Terminated :
    (row g cap : ℕ) (ascii : Bool) (line : List ℕ)
    → 0 < cap
    → cap < 2 ^ 64
    → Terminated cap (dump_line row g cap ascii line)
unfolding dump_line
dump_line-Terminated row g cap ascii line pos small =
    let column = ascii_column row g (length line) in
    Terminated-bind cap (dump_hex g cap line)
      (λ hex. dump_ascii ascii column cap line hex >>= λ out. put cap out 0)
      (dump_hex-Fits cap pos g line)
      (λ hex h.
        Terminated-put cap (dump_ascii ascii column cap line hex)
          (dump_ascii-Fits cap pos ascii column line hex small h))

-- With a buffer of at least one byte and fewer than 2 ^ 64, and a group size other than 0,
-- `hex_dump_to_buffer` stores
-- nothing out of bounds, whatever the data, and ends the line by a NUL inside the buffer.
pub hex_dump_to_buffer-Terminated :
    (buf : List ℕ) (rowsize groupsize linebuflen : ℕ) (ascii : Bool)
    → 0 < groupsize
    → 0 < linebuflen
    → linebuflen < 2 ^ 64
    → Terminated linebuflen (hex_dump_to_buffer buf rowsize groupsize linebuflen ascii)
unfolding hex_dump_to_buffer
hex_dump_to_buffer-Terminated buf rowsize groupsize linebuflen ascii g pos small =
    elim (Bool-cases (length buf == 0)) [
      | inl empty ↦ rw empty ([], put_lem linebuflen [] 0 pos, pos)
      | inr some_bytes ↦
          let positive : (groupsize == 0) ≡ false = ground arith in
          rw (some_bytes, positive)
            (dump_line-Terminated (row_of rowsize)
              (if length (take (row_of rowsize) buf) % groupsize == 0 then groupsize else 1)
              linebuflen ascii (take (row_of rowsize) buf) pos small)
    ]

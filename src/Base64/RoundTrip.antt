-- ===== src/Base64/RoundTrip.antt =====
-- Decoding what `base64_encode` stores gives the input back.
use mathlib.Core.List.{append_assoc, append-nil}
use libls.Prelude.{
  IsByte, ℕ, suc, ◌+◌, ◌-◌, ◌*◌, ◌/◌, ◌%◌, ◌^◌, ◌<◌, ◌≡◌, refl, ap, ◌∙◌, sym, Bool, true, false,
  some, List, [], ◌∷◌, ◌++◌, arith, length, take, All, length-append, take-append_left, ◌==◌,
  ==_refl,
}
use libls.Base64.{
  Coded, base64_encode, base64_decode, encode_char, encode_group, encode_loop, decode_char,
  decode_round, next, break, Digit, value, minus_one, u8, decode_loop, decode_finish, decode_end,
}
use libls.Base64.Encode.{groups, whole, length-encode_loop, groups_eq, encode-whole}
use libls.Base64.Decode.{decode_loop-next, decode_loop-break}
use libls.Base64.Sextet.{
  decode_char-encode_char, decode_char-pad, second_sextet, third_sextet, last_sextet, low_two,
  low_four, first_byte, second_byte, third_byte,
}

-- Four digits in range are three bytes.
round_values :
    (s t u v : ℕ)
    → s < 64
    → t < 64
    → u < 64
    → v < 64
    → decode_round (value s) (value t) (value u) (value v)
      ≡ next ((s * 4 + t / 16) ∷ (t % 16 * 16 + u / 4) ∷ (u % 4 * 64 + v) ∷ [])
unfolding decode_round
round_values s t u v p q r w = rw (first_byte s t p q, second_byte t u q r, third_byte u v r w)

round_pad_last :
    (s t u : ℕ)
    → s < 64
    → t < 64
    → u < 64
    → decode_round (value s) (value t) (value u) minus_one
      ≡ break ((s * 4 + t / 16) ∷ (t % 16 * 16 + u / 4) ∷ u8 (u * 2 ^ 6) ∷ []) 1
unfolding decode_round
round_pad_last s t u p q r = rw (first_byte s t p q, second_byte t u q r)

round_pad_third :
    (s t : ℕ) (z : Digit)
    → s < 64
    → t < 64
    → decode_round (value s) (value t) minus_one z
      ≡ break ((s * 4 + t / 16) ∷ u8 (t * 2 ^ 4) ∷ []) 2
unfolding decode_round
round_pad_third s t z p q = rw (first_byte s t p q)

group_round :
    (a b c : ℕ)
    → a < 256
    → b < 256
    → c < 256
    → decode_round
        (decode_char (encode_char (a / 4)))
        (decode_char (encode_char (a % 4 * 16 + b / 16)))
        (decode_char (encode_char (b % 16 * 4 + c / 64)))
        (decode_char (encode_char (c % 64)))
      ≡ next (a ∷ b ∷ c ∷ [])
group_round a b c p q r =
    rw
      (
        decode_char-encode_char (a / 4) (omega arith),
        decode_char-encode_char (a % 4 * 16 + b / 16) (omega arith),
        decode_char-encode_char (b % 16 * 4 + c / 64) (omega arith),
        decode_char-encode_char (c % 64) (omega arith),
        round_values (a / 4) (a % 4 * 16 + b / 16) (b % 16 * 4 + c / 64) (c % 64) (omega arith)
            (omega arith) (omega arith) (omega arith),
      )
      (ground arith)

one_round :
    (a : ℕ)
    → a < 256
    → decode_round
        (decode_char (encode_char (a / 4)))
        (decode_char (encode_char (a % 4 * 16)))
        (decode_char b'=')
        (decode_char b'=')
      ≡ break (a ∷ 0 ∷ []) 2
one_round a p =
    rw
      (
        decode_char-encode_char (a / 4) (omega arith),
        decode_char-encode_char (a % 4 * 16) (omega arith),
        decode_char-pad,
        round_pad_third (a / 4) (a % 4 * 16) minus_one (omega arith) (omega arith),
      )
      (ground arith)

two_round :
    (a b : ℕ)
    → a < 256
    → b < 256
    → decode_round
        (decode_char (encode_char (a / 4)))
        (decode_char (encode_char (a % 4 * 16 + b / 16)))
        (decode_char (encode_char (b % 16 * 4)))
        (decode_char b'=')
      ≡ break (a ∷ b ∷ 0 ∷ []) 1
two_round a b p q =
    rw
      (
        decode_char-encode_char (a / 4) (omega arith),
        decode_char-encode_char (a % 4 * 16 + b / 16) (omega arith),
        decode_char-encode_char (b % 16 * 4) (omega arith),
        decode_char-pad,
        round_pad_last (a / 4) (a % 4 * 16 + b / 16) (b % 16 * 4) (omega arith) (omega arith)
            (omega arith),
      )
      (ground arith)

take-prefix :
    (out bs rest : List ℕ) (n : ℕ)
    → n ≡ length out + length bs
    → take n (out ++ (bs ++ rest)) ≡ out ++ bs
take-prefix out bs rest n h =
    ap (λ t. take n t) (sym (append_assoc out bs rest))
    ∙ take-append_left (out ++ bs) rest n (omega (arith, length-append out bs))

-- The exit by `i == round`, and the exit by a `break` in the last round.
finish_full :
    (round : ℕ) (out : List ℕ)
    → length out ≡ round * 3
    → decode_finish round (record { i = round; decoded = out; decoded_len = 0 }) ≡ some (whole out)
unfolding decode_finish
finish_full round out h =
    let e : take (round * 3) out ≡ out =
      ap (λ t. take (round * 3) t) (sym (append-nil out))
      ∙ take-append_left out [] (round * 3) (omega arith) in
    rw (==_refl round, e) (ground arith)

finish_break :
    (i : ℕ) (out bs rest : List ℕ) (n : ℕ)
    → n ≡ length out + length bs
    → decode_finish (suc i) (record { i = i; decoded = out ++ (bs ++ rest); decoded_len = n })
      ≡ some (whole (out ++ bs))
unfolding decode_finish
finish_break i out bs rest n h =
    let e : (i == suc i) ≡ false = ground arith in
    let f : (i == suc i - 1) ≡ true = ground arith in
    rw (e, f, take-prefix out bs rest n h) (ground (arith, length-append out bs))

loop_lem :
    (bs : List ℕ) (round i : ℕ) (out : List ℕ)
    → All IsByte bs
    → length out ≡ i * 3
    → i + groups bs ≡ round
    → decode_end round (decode_loop round i out (encode_loop bs)) ≡ some (whole (out ++ bs))
unfolding encode_loop encode_group decode_end
loop_lem [] round i out ok h e =
    let e' : i ≡ round = omega arith in
    rw (append-nil, ← e') (unfold decode_loop in finish_full i out h)
loop_lem (a ∷ []) round i out ok h e =
    let e' : round ≡ suc i = omega arith in
    rw (low_two, decode_loop-break round i out _ _ _ _ [] (one_round a ok.0), e')
      (finish_break i out (a ∷ []) (0 ∷ []) (suc i * 3 - 2) (omega arith))
loop_lem (a ∷ b ∷ []) round i out ok h e =
    let e' : round ≡ suc i = omega arith in
    rw
      (
        second_sextet a b ok.1.0,
        low_four,
        decode_loop-break round i out _ _ _ _ [] (two_round a b ok.0 ok.1.0),
        e',
      )
      (finish_break i out (a ∷ b ∷ []) (0 ∷ []) (suc i * 3 - 1) (omega arith))
loop_lem (a ∷ b ∷ c ∷ rest) round i out ok h e =
    rw
      (
        second_sextet a b ok.1.0,
        third_sextet b c ok.1.1.0,
        last_sextet c,
        decode_loop-next round i out _ _ _ _ (encode_loop rest)
            (group_round a b c ok.0 ok.1.0 ok.1.1.0),
        loop_lem rest round (i + 1) (out ++ (a ∷ b ∷ c ∷ [])) ok.1.1.1
            (omega (arith, length-append out (a ∷ b ∷ c ∷ []))) (omega arith),
      )
      (ap (λ t. some (whole t)) (append_assoc out (a ∷ b ∷ c ∷ []) rest))

-- What `base64_encode` stores for a buffer of bytes short enough for its 32-bit sizes is decoded to
-- the same bytes, a terminating NUL behind them and their number in `*res_len`, where `malloc`
-- meets both requests.
pub decode-encode :
    (malloc : ℕ → Bool) (bs : List ℕ) (e : Coded)
    → All IsByte bs
    → length bs < 3221225470
    → base64_encode malloc bs ≡ some e
    → malloc ((length bs + 2) / 3 * 3 + 1) ≡ true
    → base64_decode malloc (take e.res_len e.bytes) ≡ some (whole bs)
unfolding base64_decode
decode-encode malloc bs e ok small enc room =
    let text = encode_loop bs in
    let e' : take e.res_len e.bytes ≡ text =
      rw (encode-whole malloc bs e small enc) (take-append_left text (0 ∷ []) (length text) refl) in
    let l : length text ≡ (length bs + 2) / 3 * 4 =
      omega (arith, length-encode_loop bs, groups_eq bs) in
    let q : length text % 4 ≡ 0 = omega (arith, l) in
    let r : length text / 4 ≡ (length bs + 2) / 3 = omega (arith, l) in
    rw (e', q, r, room) (loop_lem bs _ 0 [] ok refl (omega (arith, groups_eq bs)))

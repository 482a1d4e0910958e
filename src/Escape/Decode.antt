-- ===== src/Escape/Decode.antt =====
-- The decoders work in place; here they meet a decoder of lists.
use libls.Prelude.{
  ℕ, zero, suc, ◌+◌, ◌≤◌, ◌<◌, ◌≡◌, refl, sym, ap, ◌∙◌, false, Option, some, List, [], ◌∷◌, ◌++◌,
  arith, length, set, drop, ◌==◌, ◌&&◌, isxdigit, Bool-cases, inl, inr,
}
use libls.Escape.{decoded, decode_loop, url_plain, percent_decode_in_place, url_decode_in_place}
use libls.Escape.Buffer.{drop-suc, lt_of_drop, drop-set}
use libls.Escape.Reference.{byte_of, cons_byte, unescape, unescaped, Meets}
use libls.Escape.Steps.{
  Meets-cons, Written-nil, plain_step, cut_step, digits_step, bad_step, past_end, drop_three,
}

module _ (plain : ℕ → ℕ) (len : ℕ) where
  -- What is left of the input starts at `from`; what has been decoded ends at `to`.
  record Progress (fuel : ℕ) (buf : List ℕ) (to from : ℕ) (rest tail : List ℕ) : Type 0 where
    behind : to ≤ from
    remaining : drop from buf ≡ rest ++ tail
    ends : from + length rest ≡ len
    enough : length rest < fuel

  -- The state after one byte more.
  Progress-plain :
      (fuel : ℕ) (buf : List ℕ) (to from c : ℕ) (rest tail : List ℕ)
      → Progress (suc fuel) buf to from (c ∷ rest) tail
      → Progress fuel (set buf to (plain c)) (to + 1) (from + 1) rest tail
  Progress-plain fuel buf to from c rest tail p =
      let e : from + 1 ≡ suc from = omega arith in
      record {
        behind = omega arith;
        remaining =
            rw e
              (drop-set buf to (suc from) (plain c) (omega arith) ∙ drop-suc buf from p.remaining);
        ends = omega arith;
        enough = omega arith;
      }

  Progress-digits :
      (fuel : ℕ) (buf : List ℕ) (to from c h l v : ℕ) (rest tail : List ℕ)
      → Progress (suc fuel) buf to from (c ∷ h ∷ l ∷ rest) tail
      → Progress fuel (set buf to v) (to + 1) (from + 3) rest tail
  Progress-digits fuel buf to from c h l v rest tail p = record {
    behind = omega arith;
    remaining =
        drop-set buf to (from + 3) v (omega arith) ∙ drop_three plain len buf from p.remaining;
    ends = omega arith;
    enough = omega arith;
  }

  -- The loop on an ordinary byte, given the rest of the run.
  plain_case :
      (fuel : ℕ) (buf : List ℕ) (to from c : ℕ) (rest tail : List ℕ) (o : Option (List ℕ))
      (front : List ℕ)
      → Progress (suc fuel) buf to from (c ∷ rest) tail
      → (c == b'%') ≡ false
      → Meets len
          (set buf to (plain c))
          (to + 1)
          o
          front
          (decode_loop plain len fuel (set buf to (plain c)) (to + 1) (from + 1))
      → Meets len buf to
          (cons_byte (plain c) o)
          (plain c ∷ front)
          (decode_loop plain len (suc fuel) buf to from)
  plain_case fuel buf to from c rest tail o front p ordinary m =
      rw (plain_step plain len fuel buf to from p.remaining (omega arith) p.behind ordinary) (
        Meets-cons plain len buf to (plain c) o front _
          (omega (arith, lt_of_drop buf from p.remaining)) (omega arith) m)

  decode_loop-Meets :
      (fuel : ℕ) (rest buf : List ℕ) (to from : ℕ) (tail : List ℕ)
      → Progress fuel buf to from rest tail
      → Meets len buf to
          (unescape plain rest)
          (unescaped plain rest)
          (decode_loop plain len fuel buf to from)
  unfolding unescape unescaped
  decode_loop-Meets zero rest buf to from tail p = absurd (omega arith)
  decode_loop-Meets (suc fuel) [] buf to from tail p =
      let e : from ≡ len = omega arith in
      let z : to + 0 ≡ to = omega arith in
      rw (e, past_end plain len fuel buf to)
        (buf, ap (decoded buf) (sym z), Written-nil plain len buf to)
  decode_loop-Meets (suc fuel) (c ∷ []) buf to from tail p = elim (Bool-cases (c == b'%')) [
    | inl percent ↦
        rw
          (
            percent,
            unescape,
            unescaped,
            cut_step plain len fuel buf to from p.remaining (omega arith) percent (omega arith),
          )
          (buf, refl, Written-nil plain len buf to)
    | inr ordinary ↦
        rw (ordinary, unescape, unescaped)
          (plain_case fuel buf to from c [] tail (some []) [] p ordinary
            (decode_loop-Meets fuel [] _ _ _ tail (Progress-plain fuel buf to from c [] tail p)))
  ]
  decode_loop-Meets (suc fuel) (c ∷ h ∷ []) buf to from tail p = elim (Bool-cases (c == b'%')) [
    | inl percent ↦
        rw
          (
            percent,
            unescape,
            unescaped,
            cut_step plain len fuel buf to from p.remaining (omega arith) percent (omega arith),
          )
          (buf, refl, Written-nil plain len buf to)
    | inr ordinary ↦
        rw (ordinary, unescape, unescaped)
          (plain_case fuel buf to from c (h ∷ []) tail (unescape plain (h ∷ []))
            (unescaped plain (h ∷ [])) p ordinary
            (decode_loop-Meets fuel (h ∷ []) _ _ _ tail
              (Progress-plain fuel buf to from c (h ∷ []) tail p)))
  ]
  decode_loop-Meets (suc fuel) (c ∷ h ∷ l ∷ rest) buf to from tail p =
      elim (Bool-cases (c == b'%')) [
        | inr ordinary ↦
            rw (ordinary, unescape, unescaped)
              (plain_case fuel buf to from c (h ∷ l ∷ rest) tail (unescape plain (h ∷ l ∷ rest))
                (unescaped plain (h ∷ l ∷ rest)) p ordinary
                (decode_loop-Meets fuel (h ∷ l ∷ rest) _ _ _ tail
                  (Progress-plain fuel buf to from c (h ∷ l ∷ rest) tail p)))
        | inl percent ↦ elim (Bool-cases (isxdigit h && isxdigit l)) [
          | inr bad ↦
              rw
                (
                  percent,
                  bad,
                  unescape,
                  unescaped,
                  bad_step plain len fuel buf to from p.remaining (omega arith) percent bad,
                )
                (buf, refl, Written-nil plain len buf to)
          | inl good ↦
              rw
                (
                  percent,
                  good,
                  unescape,
                  unescaped,
                  digits_step plain len fuel buf to from p.remaining (omega arith) percent p.behind
                      good,
                )
                (Meets-cons plain len buf to (byte_of h l) (unescape plain rest)
                  (unescaped plain rest) _ (omega (arith, lt_of_drop buf from p.remaining))
                  (omega arith)
                  (decode_loop-Meets fuel rest _ _ _ tail
                    (Progress-digits fuel buf to from c h l (byte_of h l) rest tail p)))
        ]
      ]

  -- From the start of the buffer.
  decode_loop-start :
      (text tail : List ℕ)
      → len ≡ length text
      → Meets len
          (text ++ tail)
          0
          (unescape plain text)
          (unescaped plain text)
          (decode_loop plain len (len + 1) (text ++ tail) 0 0)
  decode_loop-start text tail h =
      decode_loop-Meets (len + 1) text (text ++ tail) 0 0 tail (record {
        behind = omega arith;
        remaining = refl;
        ends = omega arith;
        enough = omega arith;
      })

-- On the first `len` bytes of a buffer `percent_decode_in_place` does what the reference does: it
-- ends, reads and stores inside the buffer, returns -1 exactly when the reference fails, and else the
-- number of decoded bytes. In both cases the buffer has the bytes that the reference gives, before its
-- error where it fails, at its front, and all behind them as it was, what lies behind `len` among it.
pub percent_decode_in_place-Meets :
    (text tail : List ℕ)
    → Meets
        (length text)
        (text ++ tail)
        0
        (unescape (λ c. c) text)
        (unescaped (λ c. c) text)
        (percent_decode_in_place (text ++ tail) (length text))
unfolding percent_decode_in_place
percent_decode_in_place-Meets text tail = decode_loop-start (λ c. c) (length text) text tail refl

-- On the first `len` bytes of a buffer `url_decode_in_place` does what the reference does, in which `+`
-- stands for a blank: it
-- ends, reads and stores inside the buffer, returns -1 exactly when the reference fails, and else the
-- number of decoded bytes. In both cases the buffer has the bytes that the reference gives, before its
-- error where it fails, at its front, and all behind them as it was, what lies behind `len` among it.
pub url_decode_in_place-Meets :
    (text tail : List ℕ)
    → Meets
        (length text)
        (text ++ tail)
        0
        (unescape url_plain text)
        (unescaped url_plain text)
        (url_decode_in_place (text ++ tail) (length text))
unfolding url_decode_in_place
url_decode_in_place-Meets text tail = decode_loop-start url_plain (length text) text tail refl

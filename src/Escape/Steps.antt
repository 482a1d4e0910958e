-- ===== src/Escape/Steps.antt =====
-- The rounds of the loop that the decoders share.
use mathlib.Core.List.{append_assoc, append-nil}
use libls.Prelude.{
  ℕ, suc, ◌+◌, ◌≤◌, ◌<◌, ◌≡◌, refl, sym, ap, ◌∙◌, true, false, Option, none, some, List, [], ◌∷◌,
  ◌++◌, arith, length, get_elem?, set, take, drop, ◌==◌, ltb, leb, ◌&&◌, isxdigit, Bool-cases, inl,
  inr,
}
use libls.Escape.{Decoded, decoded, malformed, read, put_byte, decode_loop}
use libls.Escape.Buffer.{get_elem?-drop, drop-suc, drop-set, take-set, set_same, lt_of_drop}
use libls.Escape.Reference.{byte_of, cons_byte, Written, Meets}

module _ (plain : ℕ → ℕ) (len : ℕ) where
  -- One byte has been stored at `to`.
  Written-cons :
      (buf : List ℕ) (to v : ℕ) (out b : List ℕ)
      → to < length buf
      → to < len
      → Written len (set buf to v) (to + 1) out b
      → Written len buf to (v ∷ out) b
  Written-cons buf to v out b h below (t, r, d) =
      let n : to + 1 + length out ≡ to + suc (length out) = omega arith in
      let s : to + 1 ≡ suc to = omega arith in
      (
        ap (λ k. take k b) (sym n)
            ∙ t
            ∙ ap (λ k. take k (set buf to v) ++ out) s
            ∙ ap (λ l. l ++ out) (take-set buf to v h)
            ∙ append_assoc (take to buf) (v ∷ []) out,
        ap (λ k. drop k b) (sym n)
            ∙ r
            ∙ drop-set buf to (to + 1 + length out) v (omega arith)
            ∙ ap (λ k. drop k buf) n,
        d ∙ drop-set buf to len v below,
      )

  pub Meets-cons :
      (buf : List ℕ) (to v : ℕ) (o : Option (List ℕ)) (front : List ℕ) (r : Decoded)
      → to < length buf
      → to < len
      → Meets len (set buf to v) (to + 1) o front r
      → Meets len buf to (cons_byte v o) (v ∷ front) r
  Meets-cons buf to v none front r h below (b, e, w) =
      (b, e, Written-cons buf to v front b h below w)
  Meets-cons buf to v (some out) front r h below (b, e, w) =
      let n : to + 1 + length out ≡ to + suc (length out) = omega arith in
      (b, e ∙ ap (decoded b) n, Written-cons buf to v out b h below w)

  -- Nothing has been stored.
  pub Written-nil : (buf : List ℕ) (to : ℕ) → Written len buf to [] buf
  Written-nil buf to =
      let n : to + 0 ≡ to = omega arith in
      (ap (λ k. take k buf) n ∙ sym (append-nil (take to buf)), refl, refl)

  module _ (fuel : ℕ) (buf : List ℕ) (to from : ℕ) {c : ℕ} {r : List ℕ}
      (here : drop from buf ≡ c ∷ r) (inside : from < len) where
    inside_test : ltb from len ≡ true
    inside_test = ground arith

    store_test : to ≤ from → ltb to (length buf) ≡ true
    store_test le = ground (arith, lt_of_drop buf from here)

    pub plain_step :
        to ≤ from
        → (c == b'%') ≡ false
        → decode_loop plain len (suc fuel) buf to from
          ≡ decode_loop plain len fuel (set buf to (plain c)) (to + 1) (from + 1)
    unfolding decode_loop
    plain_step le ordinary = elim (Bool-cases (to == from && plain c == c)) [
      | inl same ↦
          let e : to ≡ from = ground arith in
          let f : plain c ≡ c = ground arith in
          let kept : set buf to (plain c) ≡ buf =
            rw (e, f) (set_same buf from (get_elem?-drop buf from here)) in
          rw (inside_test, get_elem?-drop buf from here, ordinary, decode_loop, read, same)
            (ap (λ b. decode_loop plain len fuel b (to + 1) (from + 1)) (sym kept))
      | inr other ↦
          rw
            (
              inside_test,
              get_elem?-drop buf from here,
              ordinary,
              decode_loop,
              read,
              other,
              put_byte,
              store_test le,
            )
            refl
    ]

    pub cut_step :
        (c == b'%') ≡ true
        → len ≤ from + 2
        → decode_loop plain len (suc fuel) buf to from ≡ malformed buf
    unfolding decode_loop
    cut_step percent short =
        let test : leb len (from + 2) ≡ true = ground arith in
        rw (inside_test, get_elem?-drop buf from here, percent, decode_loop, read, test)

  module _ (fuel : ℕ) (buf : List ℕ) (to from : ℕ) {c h l : ℕ} {r : List ℕ}
      (here : drop from buf ≡ c ∷ h ∷ l ∷ r) (inside : from + 2 < len)
      (percent : (c == b'%') ≡ true) where
    -- The reads that follow `%`.
    high : get_elem? buf (from + 1) ≡ some h
    high =
        let e : from + 1 ≡ suc from = omega arith in
        rw e (get_elem?-drop buf (suc from) (drop-suc buf from here))

    low : get_elem? buf (from + 2) ≡ some l
    low =
        let e : from + 2 ≡ suc (suc from) = omega arith in
        rw e
          (get_elem?-drop buf (suc (suc from)) (drop-suc buf (suc from) (drop-suc buf from here)))

    long_test : leb len (from + 2) ≡ false
    long_test = ground arith

    pub digits_step :
        to ≤ from
        → (isxdigit h && isxdigit l) ≡ true
        → decode_loop plain len (suc fuel) buf to from
          ≡ decode_loop plain len fuel (set buf to (byte_of h l)) (to + 1) (from + 3)
    unfolding decode_loop
    digits_step le good = rw (
      inside_test fuel buf to from here (omega arith),
      get_elem?-drop buf from here,
      percent,
      long_test,
      high,
      low,
      good,
      decode_loop,
      read,
      put_byte,
      store_test fuel buf to from here (omega arith) le,
    )

    pub bad_step :
        (isxdigit h && isxdigit l) ≡ false
        → decode_loop plain len (suc fuel) buf to from ≡ malformed buf
    unfolding decode_loop
    bad_step bad = rw (
      inside_test fuel buf to from here (omega arith),
      get_elem?-drop buf from here,
      percent,
      long_test,
      high,
      low,
      bad,
      decode_loop,
      read,
    )

  pub past_end :
      (fuel : ℕ) (buf : List ℕ) (to : ℕ)
      → decode_loop plain len (suc fuel) buf to len ≡ decoded buf to
  unfolding decode_loop
  past_end fuel buf to = let test : ltb len len ≡ false = ground arith in rw (test, decode_loop)

  pub drop_three :
      (buf : List ℕ) (i : ℕ) {a b c : ℕ} {r : List ℕ}
      → drop i buf ≡ a ∷ b ∷ c ∷ r
      → drop (i + 3) buf ≡ r
  drop_three buf i h =
      let e : i + 3 ≡ suc (suc (suc i)) = omega arith in
      rw e (drop-suc buf (suc (suc i)) (drop-suc buf (suc i) (drop-suc buf i h)))

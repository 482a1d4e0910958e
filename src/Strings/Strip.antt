-- ===== src/Strings/Strip.antt =====
-- `strstrip` takes the blanks off both ends.
use mathlib.Core.List.{append_assoc, append-nil}
use libls.Prelude.{
  ℕ, zero, suc, ◌<◌, ◌≤◌, ◌≡◌, refl, ap, sym, subst, ◌∙◌, true, false, List, [], ◌∷◌, ◌++◌, length,
  get_or, take, All, isspace, arith, Bool-cases, inl, inr,
}
use libls.Strings.{strlstrip, strrstrip_loop, strrstrip, strstrip}

abbrev pub IsSpace : ℕ → Type 0
IsSpace c = isspace c ≡ true

-- A string that is empty or starts, or ends, with another character than a blank.
abbrev pub StartsPlain : List ℕ → Type 0
StartsPlain [] = Unit
StartsPlain (c ∷ cs) = isspace c ≡ false

abbrev pub EndsPlain : List ℕ → Type 0
EndsPlain [] = Unit
EndsPlain (c ∷ []) = isspace c ≡ false
EndsPlain (c ∷ d ∷ cs) = EndsPlain (d ∷ cs)

pub record Stripped (str left kept right : List ℕ) : Type 0 where
  pub whole : str ≡ left ++ (kept ++ right)
  pub left_blank : All IsSpace left
  pub right_blank : All IsSpace right
  pub starts : StartsPlain kept
  pub ends : EndsPlain kept

left_part :
    (str : List ℕ)
    → (left : List ℕ) × (str ≡ left ++ strlstrip str)
      × All IsSpace left
      × StartsPlain (strlstrip str)
unfolding strlstrip
left_part [] = ([], refl, tt, tt)
left_part (c ∷ str) = elim (Bool-cases (isspace c)) [
  | inl blank ↦
      let (left, e, a, s) = left_part str in rw blank (c ∷ left, ap (λ t. c ∷ t) e, (blank, a), s)
  | inr plain ↦ rw plain ([], refl, tt, plain)
]

-- The last character of a prefix.
take-suc :
    (str : List ℕ) (n : ℕ) → n < length str → take (suc n) str ≡ take n str ++ (get_or str n 0 ∷ [])
take-suc [] n h = absurd (omega arith)
take-suc (c ∷ str) zero h = refl
take-suc (c ∷ str) (suc n) h = ap (λ t. c ∷ t) (take-suc str n (omega arith))

EndsPlain-snoc : (cs : List ℕ) (c : ℕ) → isspace c ≡ false → EndsPlain (cs ++ (c ∷ []))
EndsPlain-snoc [] c h = h
EndsPlain-snoc (d ∷ []) c h = h
EndsPlain-snoc (d ∷ e ∷ cs) c h = EndsPlain-snoc (e ∷ cs) c h

All-snoc : (cs : List ℕ) (c : ℕ) → All IsSpace cs → IsSpace c → All IsSpace (cs ++ (c ∷ []))
All-snoc [] c a h = (h, tt)
All-snoc (d ∷ cs) c a h = (a.0, All-snoc cs c a.1 h)

StartsPlain-take : (n : ℕ) (str : List ℕ) → StartsPlain str → StartsPlain (take n str)
StartsPlain-take zero str s = tt
StartsPlain-take (suc n) [] s = tt
StartsPlain-take (suc n) (c ∷ cs) s = s

right_part :
    (str : List ℕ) (n : ℕ)
    → n ≤ length str
    → StartsPlain str
    → (right : List ℕ) × (take n str ≡ strrstrip_loop str n ++ right)
      × All IsSpace right
      × StartsPlain (strrstrip_loop str n)
      × EndsPlain (strrstrip_loop str n)
unfolding strrstrip_loop
right_part str zero h s = ([], refl, tt, tt, tt)
right_part str (suc n) h s = elim (Bool-cases (isspace (get_or str n 0))) [
  | inl blank ↦
      let (right, e, a, sp, ep) = right_part str n (omega arith) s in
      rw blank (
        right ++ (get_or str n 0 ∷ []),
        take-suc str n h
            ∙ ap (λ t. t ++ (get_or str n 0 ∷ [])) e
            ∙ append_assoc (strrstrip_loop str n) right (get_or str n 0 ∷ []),
        All-snoc right (get_or str n 0) a blank,
        sp,
        ep,
      )
  | inr plain ↦ rw plain (
    [],
    sym (append-nil (take (suc n) str)),
    tt,
    StartsPlain-take (suc n) str s,
    subst EndsPlain (sym (take-suc str n h)) (EndsPlain-snoc (take n str) (get_or str n 0) plain),
  )
]

take_whole : (str : List ℕ) → take (length str) str ≡ str
take_whole [] = refl
take_whole (c ∷ str) = ap (λ t. c ∷ t) (take_whole str)

-- `strstrip` takes blanks and nothing else off the two ends of a string, and all that are there: what
-- it leaves is empty or starts and ends with another character.
pub strstrip-Stripped :
    (str : List ℕ) → (left : List ℕ) × (right : List ℕ) × Stripped str left (strstrip str) right
unfolding strstrip strrstrip
strstrip-Stripped str =
    let (left, e, a, s) = left_part str in
    let mid = strlstrip str in
    let (right, f, b, sp, ep) = right_part mid (length mid) (omega arith) s in
    (
      left,
      right,
      record {
        whole = e ∙ ap (λ t. left ++ t) (sym (take_whole mid) ∙ f);
        left_blank = a;
        right_blank = b;
        starts = sp;
        ends = ep;
      },
    )

-- ===== src/Base64/Grammar.antt =====
-- The texts that `base64_decode` accepts, described without its table.
use libls.Prelude.{
  IsByte, ℕ, ◌+◌, ◌*◌, ◌/◌, ◌%◌, ◌<◌, ◌≡◌, refl, sym, inl, inr, Bool-cases, Bool, true, false, not,
  ◌&&◌, ◌||◌, Option, none, some, List, [], ◌∷◌, ◌++◌, arith, length, All, ◌==◌, leb, all_below,
  all_below_sound,
}
use libls.Base64.{
  decode_char, decode_round, Round, err2, next, break, Digit, value, minus_one, minus_two,
  decode_loop, decode_finish, decode_end, base64_decode,
}
use libls.Base64.Decode.{Round-cases, decode_loop-next, decode_loop-break, decode_loop-err}

-- The 64 characters of RFC 3548.
abbrev pub is_alphabet : ℕ → Bool
is_alphabet c =
    (leb b'A' c && leb c b'Z')
    || (leb b'a' c && leb c b'z')
    || (leb b'0' c && leb c b'9')
    || c == b'+'
    || c == b'/'

-- Groups of four characters of the alphabet; in the last group the fourth may be `=`, or the third
-- is `=` and the fourth is not looked at.
unfoldable pub is_base64 : List ℕ → Bool
is_base64 [] = true
is_base64 (w ∷ x ∷ y ∷ z ∷ []) =
    is_alphabet w && is_alphabet x && (y == b'=' || (is_alphabet y && (is_alphabet z || z == b'=')))
is_base64 (w ∷ x ∷ y ∷ z ∷ rest) =
    is_alphabet w && is_alphabet x && is_alphabet y && is_alphabet z && is_base64 rest
is_base64 _ = false

abbrev pub is_some {ℓ} : {A : Type ℓ} → Option A → Bool
is_some none = false
is_some (some a) = true

abbrev kind : Digit → Bool → Bool → Bool
kind (value v) a p = a && not p
kind minus_one a p = not a && p
kind minus_two a p = not a && not p

kinds_table : all_below 256 (λ c. kind (decode_char c) (is_alphabet c) (c == b'=')) ≡ true
unfolding all_below decode_char
kinds_table = refl

kind_of : (c : ℕ) → c < 256 → kind (decode_char c) (is_alphabet c) (c == b'=') ≡ true
kind_of c h = all_below_sound 256 _ c kinds_table h

abbrev round_some : Round → Bool → Bool
round_some err2 last = false
round_some (break g s) last = last
round_some (next g) last = true

-- Whether a round goes on, by the kinds of its digits.
last_round :
    (w x y z : Digit) (aw ax ay az pw px py pz : Bool)
    → kind w aw pw ≡ true
    → kind x ax px ≡ true
    → kind y ay py ≡ true
    → kind z az pz ≡ true
    → round_some (decode_round w x y z) true ≡ (aw && ax && (py || (ay && (az || pz))))
unfolding decode_round
last_round w x y z aw ax ay az pw px py pz p q r s = ground arith

inner_round :
    (w x y z : Digit) (aw ax ay az pw px py pz : Bool)
    → kind w aw pw ≡ true
    → kind x ax px ≡ true
    → kind y ay py ≡ true
    → kind z az pz ≡ true
    → round_some (decode_round w x y z) false ≡ (aw && ax && ay && az)
unfolding decode_round
inner_round w x y z aw ax ay az pw px py pz p q r s = ground arith

not_base64 : (text : List ℕ) → (length text % 4 == 0) ≡ false → is_base64 text ≡ false
unfolding is_base64
not_base64 [] q = cc
not_base64 (w ∷ []) q = refl
not_base64 (w ∷ x ∷ []) q = refl
not_base64 (w ∷ x ∷ y ∷ []) q = refl
not_base64 (w ∷ x ∷ y ∷ z ∷ []) q = cc
not_base64 (w ∷ x ∷ y ∷ z ∷ v ∷ rest) q = ground (arith, not_base64 (v ∷ rest))

accepts_loop :
    (text : List ℕ) (round i : ℕ) (out : List ℕ)
    → i * 4 + length text ≡ round * 4
    → All IsByte text
    → is_some (decode_end round (decode_loop round i out text)) ≡ is_base64 text
unfolding decode_loop decode_end decode_finish is_base64
accepts_loop [] round i out e ok = ground arith
accepts_loop (w ∷ []) round i out e ok = absurd (omega arith)
accepts_loop (w ∷ x ∷ []) round i out e ok = absurd (omega arith)
accepts_loop (w ∷ x ∷ y ∷ []) round i out e ok = absurd (omega arith)
accepts_loop (w ∷ x ∷ y ∷ z ∷ []) round i out e ok = ground (
  arith,
  last_round (decode_char w) (decode_char x) (decode_char y) (decode_char z) (is_alphabet w)
      (is_alphabet x) (is_alphabet y) (is_alphabet z) (w == b'=') (x == b'=') (y == b'=')
      (z == b'=') (kind_of w ok.0) (kind_of x ok.1.0) (kind_of y ok.1.1.0) (kind_of z ok.1.1.1.0),
)
accepts_loop (w ∷ x ∷ y ∷ z ∷ v ∷ rest) round i out e ok =
    let inner =
      inner_round (decode_char w) (decode_char x) (decode_char y) (decode_char z) (is_alphabet w)
        (is_alphabet x) (is_alphabet y) (is_alphabet z) (w == b'=') (x == b'=') (y == b'=')
        (z == b'=') (kind_of w ok.0) (kind_of x ok.1.0) (kind_of y ok.1.1.0)
        (kind_of z ok.1.1.1.0) in
    let rest_ok = ok.1.1.1.1 in
    elim (Round-cases
      (decode_round (decode_char w) (decode_char x) (decode_char y) (decode_char z))) [
        | inl r ↦ rw (decode_loop-err round i out w x y z (v ∷ rest) r) (ground (arith, inner, r))
        | inr (inl (g, s, r)) ↦
            rw (decode_loop-break round i out w x y z (v ∷ rest) r) (ground (arith, inner, r))
        | inr (inr (g, r)) ↦ rw (decode_loop-next round i out w x y z (v ∷ rest) r) (
            ground (
              arith,
              inner,
              r,
              accepts_loop (v ∷ rest) round (i + 1) (out ++ g) (omega arith) rest_ok,
            ))
      ]

-- Given the memory, `base64_decode` succeeds on a string of bytes exactly when it is whole groups of
-- four characters of the alphabet of RFC 3548, where in the last group the third may be `=`, whatever
-- the fourth is, or the fourth alone.
pub base64_decode-is_base64 :
    (malloc : ℕ → Bool) (text : List ℕ)
    → All IsByte text
    → malloc (length text / 4 * 3 + 1) ≡ true
    → is_some (base64_decode malloc text) ≡ is_base64 text
unfolding base64_decode
base64_decode-is_base64 malloc text ok room = elim (Bool-cases (length text % 4 == 0)) [
  | inl q ↦ rw (q, room) (accepts_loop text (length text / 4) 0 [] (ground arith) ok)
  | inr q ↦ rw q (sym (not_base64 text q))
]

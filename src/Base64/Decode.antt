-- ===== src/Base64/Decode.antt =====
-- One round of the decoder's loop, by its outcome.
use libls.Prelude.{ℕ, ◌+◌, ◌-◌, ◌*◌, ◌≡◌, refl, ◌⊎◌, inl, inr, none, some, List, ◌∷◌, ◌++◌}
use libls.Base64.{decode_char, decode_round, Round, err2, next, break, decode_loop}

pub Round-cases :
    (r : Round)
    → (r ≡ err2) ⊎ ((g : List ℕ) × (s : ℕ) × (r ≡ break g s)) ⊎ ((g : List ℕ) × (r ≡ next g))
Round-cases err2 = inl refl
Round-cases (break g s) = inr (inl (g, s, refl))
Round-cases (next g) = inr (inr (g, refl))

module _ (round i : ℕ) (out : List ℕ) (w x y z : ℕ) (rest : List ℕ) where
  pub decode_loop-next :
      {group : List ℕ}
      → decode_round (decode_char w) (decode_char x) (decode_char y) (decode_char z) ≡ next group
      → decode_loop round i out (w ∷ x ∷ y ∷ z ∷ rest)
        ≡ decode_loop round (i + 1) (out ++ group) rest
  unfolding decode_loop
  decode_loop-next h = rw (h, decode_loop)

  pub decode_loop-break :
      {group : List ℕ} {short : ℕ}
      → decode_round (decode_char w) (decode_char x) (decode_char y) (decode_char z)
        ≡ break group short
      → decode_loop round i out (w ∷ x ∷ y ∷ z ∷ rest)
        ≡ some (record { i = i; decoded = out ++ group; decoded_len = round * 3 - short })
  unfolding decode_loop
  decode_loop-break h = rw (h, decode_loop)

  pub decode_loop-err :
      decode_round (decode_char w) (decode_char x) (decode_char y) (decode_char z) ≡ err2
      → decode_loop round i out (w ∷ x ∷ y ∷ z ∷ rest) ≡ none
  unfolding decode_loop
  decode_loop-err h = rw (h, decode_loop)

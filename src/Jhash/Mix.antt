-- ===== src/Jhash/Mix.antt =====
-- `__jhash_mix` is reversible.
use libls.Prelude.{ℕ, ◌+◌, ◌^◌, ◌<◌, ◌≡◌, refl, ap, sym, ◌∙◌, bit_xor, arith}
use libls.Prelude.Bits.{bit_xor_cancel, bit_xor-lt}
use libls.Bitops.Rotate.{rol32, rol32-lt}
use libls.Jhash.{State, u32, sub32, stir, mix_a, mix_b, mix_c, __jhash_mix}

abbrev pub IsState : State → Type 0
IsState s = (s.a < 2 ^ 32) × (s.b < 2 ^ 32) × (s.c < 2 ^ 32)

-- What undoes `stir` and the sum behind it.
abbrev unstir : ℕ → ℕ → ℕ → ℕ
unstir x z k = u32 (bit_xor x (rol32 z k) + z)

unstir-stir : (x z k : ℕ) → x < 2 ^ 32 → z < 2 ^ 32 → unstir (stir x z k) z k ≡ x
unstir-stir x z k h l = ap (λ t. u32 (t + z)) (bit_xor_cancel (sub32 x z) (rol32 z k)) ∙ omega arith

sub32-u32 : (x y : ℕ) → x < 2 ^ 32 → y < 2 ^ 32 → sub32 (u32 (x + y)) y ≡ x
sub32-u32 x y h l = omega arith

stir-lt : (x z k : ℕ) → z < 2 ^ 32 → stir x z k < 2 ^ 32
stir-lt x z k h = bit_xor-lt 32 (sub32 x z) (rol32 z k) (omega arith) (rol32-lt z k h)

State-eq :
    {a b c x y z : ℕ}
    → a ≡ x
    → b ≡ y
    → c ≡ z
    → ◌≡◌ {A = State} (record { a = a; b = b; c = c }) (record { a = x; b = y; c = z })
State-eq p q r = λ i. record { a = p i; b = q i; c = r i }

-- The lines of `__jhash_mix`, read backwards.
unmix_a : ℕ → State → State
unmix_a k s = let z = sub32 s.c s.b in record { a = unstir s.a z k; b = s.b; c = z }

unmix_b : ℕ → State → State
unmix_b k s = let z = sub32 s.a s.c in record { a = z; b = unstir s.b z k; c = s.c }

unmix_c : ℕ → State → State
unmix_c k s = let z = sub32 s.b s.a in record { a = s.a; b = z; c = unstir s.c z k }

unmix_a-mix_a : (k : ℕ) (s : State) → IsState s → unmix_a k (mix_a k s) ≡ s
unfolding unmix_a mix_a
unmix_a-mix_a k s (ha, hb, hc) =
    let e = sub32-u32 s.c s.b hc hb in
    State-eq (ap (λ t. unstir (stir s.a s.c k) t k) e ∙ unstir-stir s.a s.c k ha hc) refl e

unmix_b-mix_b : (k : ℕ) (s : State) → IsState s → unmix_b k (mix_b k s) ≡ s
unfolding unmix_b mix_b
unmix_b-mix_b k s (ha, hb, hc) =
    let e = sub32-u32 s.a s.c ha hc in
    State-eq e (ap (λ t. unstir (stir s.b s.a k) t k) e ∙ unstir-stir s.b s.a k hb ha) refl

unmix_c-mix_c : (k : ℕ) (s : State) → IsState s → unmix_c k (mix_c k s) ≡ s
unfolding unmix_c mix_c
unmix_c-mix_c k s (ha, hb, hc) =
    let e = sub32-u32 s.b s.a hb ha in
    State-eq refl e (ap (λ t. unstir (stir s.c s.b k) t k) e ∙ unstir-stir s.c s.b k hc hb)

mix_a-IsState : (k : ℕ) (s : State) → IsState s → IsState (mix_a k s)
unfolding mix_a
mix_a-IsState k s (ha, hb, hc) = (stir-lt s.a s.c k hc, hb, omega arith)

mix_b-IsState : (k : ℕ) (s : State) → IsState s → IsState (mix_b k s)
unfolding mix_b
mix_b-IsState k s (ha, hb, hc) = (omega arith, stir-lt s.b s.a k ha, hc)

mix_c-IsState : (k : ℕ) (s : State) → IsState s → IsState (mix_c k s)
unfolding mix_c
mix_c-IsState k s (ha, hb, hc) = (ha, omega arith, stir-lt s.c s.b k hb)

-- All six lines backwards.
unmix : State → State
unmix s = unmix_a 4 (unmix_b 6 (unmix_c 8 (unmix_a 16 (unmix_b 19 (unmix_c 4 s)))))

unmix-mix : (s : State) → IsState s → unmix (__jhash_mix s) ≡ s
unfolding unmix __jhash_mix
unmix-mix s h =
    let s1 = mix_a 4 s in
    let h1 = mix_a-IsState 4 s h in
    let s2 = mix_b 6 s1 in
    let h2 = mix_b-IsState 6 s1 h1 in
    let s3 = mix_c 8 s2 in
    let h3 = mix_c-IsState 8 s2 h2 in
    let s4 = mix_a 16 s3 in
    let h4 = mix_a-IsState 16 s3 h3 in
    let s5 = mix_b 19 s4 in
    let h5 = mix_b-IsState 19 s4 h4 in
    ap (λ t. unmix_a 4 (unmix_b 6 (unmix_c 8 (unmix_a 16 (unmix_b 19 t))))) (unmix_c-mix_c 4 s5 h5)
    ∙ ap (λ t. unmix_a 4 (unmix_b 6 (unmix_c 8 (unmix_a 16 t)))) (unmix_b-mix_b 19 s4 h4)
    ∙ ap (λ t. unmix_a 4 (unmix_b 6 (unmix_c 8 t))) (unmix_a-mix_a 16 s3 h3)
    ∙ ap (λ t. unmix_a 4 (unmix_b 6 t)) (unmix_c-mix_c 8 s2 h2)
    ∙ ap (unmix_a 4) (unmix_b-mix_b 6 s1 h1)
    ∙ unmix_a-mix_a 4 s h

-- `__jhash_mix` loses nothing: states of 32-bit words that it makes equal are equal.
pub __jhash_mix-injective :
    (s t : State) → IsState s → IsState t → __jhash_mix s ≡ __jhash_mix t → s ≡ t
__jhash_mix-injective s t h k e = sym (unmix-mix s h) ∙ ap unmix e ∙ unmix-mix t k

-- ===== src/Jhash/Tests.antt =====
-- Runs of the hash.
use libls.Prelude.{ℕ, ◌≡◌, refl, List, [], ◌∷◌, codes, arith, All}
use libls.Bitops.Rotate.{rol32}
use libls.Jhash.{
  State, __jhash_mix, jhash, jhash2, jhash_loop, jhash_last, mix_a, mix_b, mix_c, __jhash_final,
}
use libls.Jhash.Mix.{IsState, __jhash_mix-injective}
use libls.Jhash.Words.{IsU32, bytes_of, jhash-bytes_of}

abbrev three_states : State
three_states = record { a = 1; b = 2; c = 3 }

three_states-IsState : IsState three_states
three_states-IsState = (omega arith, omega arith, omega arith)

__jhash_mix-injective_example : three_states ≡ three_states
__jhash_mix-injective_example =
    __jhash_mix-injective three_states three_states three_states-IsState three_states-IsState refl

-- Five words, so that the loop is entered.
abbrev five_words : List ℕ
five_words = 1 ∷ 0xffffffff ∷ 3 ∷ 0x12345678 ∷ 5 ∷ []

five_words-IsU32 : All IsU32 five_words
five_words-IsU32 = (omega arith, (omega arith, (omega arith, (omega arith, (omega arith, tt)))))

jhash-bytes_of_example : jhash (bytes_of five_words) 7 ≡ jhash2 five_words 7
jhash-bytes_of_example = jhash-bytes_of five_words 7 five_words-IsU32 (omega arith)

-- The value that the author of the hash gives for this key and the initial value 0.
jhash_four_score : jhash (codes "Four score and seven years ago") 0 ≡ 0x17770551
unfolding jhash jhash_loop jhash_last __jhash_mix mix_a mix_b mix_c __jhash_final rol32
jhash_four_score = refl

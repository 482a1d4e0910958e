-- ===== src/Hexdump/Rows.antt =====
-- `print_hex_dump` prints a line for each row of the data.
use mathlib.Core.Option
use libls.Prelude.{ℕ, zero, suc, ◌+◌, List, [], ◌∷◌, ◌++◌, take, drop}

-- The rows of the data with their offsets.
abbrev pub chunks : ℕ → ℕ → ℕ → List ℕ → List (ℕ × List ℕ)
chunks zero row i buf = []
chunks (suc fuel) row i [] = []
chunks (suc fuel) row i (b ∷ bs) =
    (i, take row (b ∷ bs)) ∷ chunks fuel row (i + row) (drop row (b ∷ bs))

abbrev pub joined : List (ℕ × List ℕ) → List ℕ
joined [] = []
joined ((i, c) ∷ cs) = c ++ joined cs

-- ===== src/Strings/Tests.antt =====
-- Runs of the string functions.
use libls.Prelude.{ℕ, ◌≡◌, refl, true, some, List, [], ◌∷◌, codes, arith}
use libls.Strings.{Strv, strstrip, strlstrip, strrstrip, strrstrip_loop, strv_append3}
use libls.Strings.Strip.{Stripped, strstrip-Stripped}
use libls.Strings.Vector.{Appended, strv_append3-IsStrv}

strip_run : strstrip (codes "  a b ") ≡ codes "a b"
unfolding strstrip strlstrip strrstrip strrstrip_loop
strip_run = refl

strstrip-Stripped_example :
    (left : List ℕ) × (right : List ℕ) × Stripped
      (codes "  a b ")
      left
      (strstrip (codes "  a b "))
      right
strstrip-Stripped_example = strstrip-Stripped (codes "  a b ")

abbrev one_string : Strv
one_string = record { strv = some (codes "a") ∷ []; size = 1; allocated = 1 }

strv_append3-IsStrv_example :
    (big : Strv) × (strv_append3 true true one_string (codes "bc") 1 ≡ some (big, true))
    × Appended true true one_string (codes "b") big
strv_append3-IsStrv_example =
    strv_append3-IsStrv true true one_string (codes "bc") 1 (omega arith, omega arith) (omega arith)

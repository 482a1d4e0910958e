-- ===== src/Prelude/Text.antt =====
-- Bytes, literals and the character classes of <ctype.h> in the C locale.
use Prim.Native.Nat.{ℕ, ◌+◌, ◌<◌}
use Prim.Native.Char.{code}
use Prim.Native.String.{String}
use mathlib.Core.Bool.{Bool, ◌&&◌, ◌||◌}
use mathlib.Core.List.{List, [], ◌∷◌}
use libls.Prelude.Tests.{leb, ltb, ◌==◌, if◌then◌else◌}

-- The bytes of an ASCII literal.
abbrev pub codes : String → List ℕ
codes String.[] = []
codes (String.◌∷◌ c s) = code c ∷ codes s

abbrev pub IsByte : ℕ → Type 0
IsByte c = c < 256

abbrev pub isdigit : ℕ → Bool
isdigit c = leb b'0' c && leb c b'9'

abbrev pub isupper : ℕ → Bool
isupper c = leb b'A' c && leb c b'Z'

abbrev pub islower : ℕ → Bool
islower c = leb b'a' c && leb c b'z'

abbrev pub isxdigit : ℕ → Bool
isxdigit c = isdigit c || (leb b'A' c && leb c b'F') || (leb b'a' c && leb c b'f')

-- Space, and the five characters from tab to carriage return.
abbrev pub isspace : ℕ → Bool
isspace c = c == 32 || (leb 9 c && leb c 13)

abbrev pub isprint : ℕ → Bool
isprint c = leb 32 c && ltb c 127

abbrev pub isascii : ℕ → Bool
isascii c = ltb c 128

abbrev pub tolower : ℕ → ℕ
tolower c = if isupper c then c + 32 else c

-- ===== src/Hexdump/Tests.antt =====
-- Runs of the converters and of the dump.
use libls.Prelude.{◌≡◌, refl, true, false, some, [], ◌∷◌, ◌++◌, codes, replicate, arith}
use libls.Hexdump.{
  hex2bin, done, bad, hex_dump_to_buffer, hex_asc_hi, hex_asc_lo, ascii_char, le_word, hex_field,
  hex_asc, scnprintf, hex_byte_pack, hex_byte_pack_upper,
}
use libls.Hexdump.Digits.{hex2bin-pack, pack_all}
use libls.Hexdump.Line.{hex_dump_to_buffer-Terminated, Terminated}

hex2bin_run : hex2bin (codes "4aFf") 2 ≡ done (0x4a ∷ 0xff ∷ [])
unfolding hex2bin
hex2bin_run = refl

hex2bin_bad : hex2bin (codes "4ag0") 2 ≡ bad (0x4a ∷ [])
unfolding hex2bin
hex2bin_bad = refl

dump_one :
    hex_dump_to_buffer (codes "@AB") 16 1 131 true
    ≡ some (codes "40 41 42" ++ (replicate 41 b' ' ++ (codes "@AB" ++ (0 ∷ []))))
unfolding hex_dump_to_buffer hex_asc_hi hex_asc_lo ascii_char
dump_one = refl

dump_words :
    hex_dump_to_buffer (codes "@ABCDEFG") 16 4 131 false
    ≡ some (codes "43424140 47464544" ++ (0 ∷ []))
unfolding hex_dump_to_buffer le_word hex_field hex_asc scnprintf
dump_words = refl

hex2bin-pack_example :
    (hex2bin (pack_all hex_byte_pack (74 ∷ 255 ∷ []) ++ codes "x") 2 ≡ done (74 ∷ 255 ∷ []))
    × (hex2bin (pack_all hex_byte_pack_upper (74 ∷ 255 ∷ []) ++ codes "x") 2 ≡ done (74 ∷ 255 ∷ []))
hex2bin-pack_example = hex2bin-pack (74 ∷ 255 ∷ []) (codes "x") (omega arith, (omega arith, tt))

hex_dump_to_buffer-Terminated_example :
    Terminated 20 (hex_dump_to_buffer (codes "libls, in words") 16 4 20 true)
hex_dump_to_buffer-Terminated_example =
    hex_dump_to_buffer-Terminated (codes "libls, in words") 16 4 20 true (omega arith) (omega arith)
      (omega arith)

-- ===== src/Lib.antt =====
-- A model of libls, the C library: the codecs, the hex dump, the two balanced trees, the heap, the bit
-- operations and the hash, with the theorems that say what they do.
--
-- Base64 (src/base64.c): `base64_encode` and `base64_decode` over lists of bytes. `malloc` is a
--   parameter that says for a size whether there is memory; a result is the bytes of the buffer with
--   `*res_len`, and `none` is the null pointer.
-- Hexdump (src/hexdump.c, include/ls/hexdump.h): the digit tables and packers, `hex_to_bin`,
--   `hex2bin`, `hex_dump_to_buffer` and `print_hex_dump`. The line buffer is the list of the bytes
--   stored so far, and `none` is a store out of its bounds; for `print_hex_dump` it is a read behind the
--   data or an `int` that overflows.
-- Escape (src/percent_encode.c, src/url_encode.c): both encoders, and both decoders in place on a
--   buffer where `to` and `from` move; they use the digits of Hexdump. Every access in place is checked.
-- Links: what both balanced trees share. A node is known by its address. A pointer into a tree is the
--   subtree there with the parents above it, so that the loops from a node to the root are recursion on
--   the list of parents. Links/Walk has the iteration, which is the same code in both.
-- Avl (src/avltree.c, include/ls/avltree.h): `none` is `abort()` or a null pointer that is followed.
--   Avl/Packed has the word that holds parent and balance.
-- Rbtree (src/rbtree.c, include/ls/rbtree.h, include/ls/rbtree_augmented.h): `none` is a null pointer
--   that is followed. Rbtree/Insert has the walk of `__rb_insert`, Rbtree/Recolor that of
--   `____rb_erase_color`, Rbtree/Erase the erasure around it, Rbtree/Search `rb_find` and `rb_insert`,
--   whose callback `cmp` is a parameter. The callbacks of an augmented tree are the dummies.
-- Heap (include/ls/heap.h): the memory of the array and of the fields `idx` is a function. `none` is an
--   access outside the array or through the null pointer. The callback `cmp` is a parameter, the sign of a
--   comparison of keys in the theorems. Heap/Up and Heap/Down have the loops, Heap/Delete and Heap/Fill the two parts of
--   `heap_delete`.
-- Bitops (src/find_next_bit.c, src/find_last_bit.c, include/ls/bitops): the searches for set and clear
--   bits, the operations on one bit, the rotations, `sign_extend32` and the counts of
--   ones (src/hweight.c), over the list of the words of a region. `none` is an access
--   behind its end; the compiler's `__builtin_ctzl` and `__builtin_clzl` count digits.
-- Bitmap (src/bitmap.c, include/ls/bitmap.h): the tests, the operations on two bitmaps, the weight, the
--   ranges and the search for a free area, over the list of the words. Loops that the source repeats are
--   one definition with the operation as a parameter.
-- Jhash (include/ls/jhash.h): the hash of a key of bytes and of a key of words, over the rotations of
--   Bitops. Words are read from bytes in little-endian order.
-- Strings (src/string.c, include/ls/string.h): stripping, concatenation and the growing vector of
--   strings; parameters say which allocations succeed, and `none` is an access outside the memory.
-- Prelude: the names that the parts share, tests into Bool, lists, ctype in the C locale, and the bits
--   of a number.
--
-- `unsigned int` is 32 bits, `size_t` and `unsigned long` 64; the sums in which they can wrap are
-- reduced, and a theorem states the bound below which they do not. Loops over data are structural, or
-- recursion on a number of rounds that the source computes itself (the groups of `base64_decode`, the
-- length that the decoders in place are given). Where the number is fuel (the rows of
-- `print_hex_dump`, one at least for each byte; the loops of the heap, one for each index passed;
-- the search for a free area, one for each bit), the theorems say that the loop ends.
--
-- Not modelled: src/daemon.c, src/loop.c, src/file.c, src/pr.c and src/compiler.c, which are system
-- calls, streams and locks; the declared callbacks of augmented red-black trees, the priority tree, the
-- shifts, the text formats, the remapping and the regions of src/bitmap.c, the counts of ones on a
-- processor without a fast multiplier, the atomic bit operations, the lists, and the readers of CSV and
-- INI files; the prefixes that `print_hex_dump` puts before a line.
mod Prelude
pub mod Base64
pub mod Hexdump
pub mod Escape
pub mod Links
pub mod Avl
pub mod Rbtree
pub mod Heap
pub mod Bitops
pub mod Bitmap
pub mod Jhash
pub mod Strings

-- ===== src/Avl/Packed.antt =====
-- src/avltree.c and include/ls/avltree.h, the accessors of `__parent_balance`: the address of the
-- parent, a multiple of 4, with the balance in the two low bits of an `unsigned long` of 64 bits.
use libls.Prelude.{ℕ, ◌-◌, ◌^◌, bit_and, bit_or}

pub avl_set_parent_balance : ℕ → ℕ → ℕ
avl_set_parent_balance parent balance = bit_or parent balance

pub avl_set_parent : ℕ → ℕ → ℕ
avl_set_parent word parent = bit_or parent (bit_and word 3)

-- `~3` is an `int`, widened with its sign.
pub avl_set_balance : ℕ → ℕ → ℕ
avl_set_balance word balance = bit_or (bit_and word (2 ^ 64 - 4)) balance

pub avl_parent : ℕ → ℕ
avl_parent word = bit_and word (2 ^ 64 - 4)

pub avl_balance : ℕ → ℕ
avl_balance word = bit_and word 3

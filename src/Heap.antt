-- ===== src/Heap.antt =====
-- include/ls/heap.h. A node is known by its address; the memory of the array `node` and of the fields
-- `idx` is a function. `none` is an access outside the array or
-- through the null pointer, or a loop that has used up its rounds.
pub mod Swap
pub mod Up
pub mod Pick
pub mod Down
pub mod Insert
pub mod Adjust
pub mod Delete
pub mod Fill
pub mod Remove
mod Tests
use libls.Prelude.{
  ℕ, zero, suc, ◌+◌, ◌-◌, ◌*◌, ◌/◌, ◌%◌, ◌^◌, Bool, true, false, ◌&&◌, Option, none, some, ltb, leb,
  ◌==◌, not, if◌then◌else◌,
}
use Prim.Native.Nat.{Ordering}

abbrev pub update : (ℕ → ℕ) → ℕ → ℕ → ℕ → ℕ
update f i v j = if j == i then v else f j

-- `struct heap`, with the contents of the array and the fields `idx` of the nodes.
pub record Heap : Type 0 where
  node : ℕ → ℕ
  idx : ℕ → ℕ
  len : ℕ
  size : ℕ

-- The sign of `cmp(a, b)`.
abbrev pub Cmp : Type 0
Cmp = ℕ → ℕ → Ordering

abbrev pub positive : Ordering → Bool
positive Ordering.gt = true
positive Ordering.eq = false
positive Ordering.lt = false

abbrev pub negative : Ordering → Bool
negative Ordering.lt = true
negative Ordering.eq = false
negative Ordering.gt = false

infixl 5 ◌>>=◌
abbrev pub ◌>>=◌ : {A B : Type 0} → Option A → (A → Option B) → Option B
none >>= f = none
some a >>= f = f a

unfoldable pub read : Heap → ℕ → Option ℕ
read h i = if ltb i h.size then some (h.node i) else none

unfoldable pub write : Heap → ℕ → ℕ → Option Heap
write h i x = if ltb i h.size then some (record h { node = update h.node i x }) else none

unfoldable pub heap_init : Heap → Heap
heap_init h = record h { len = 0; size = 0 }

unfoldable pub heap_swap : Heap → ℕ → ℕ → Option Heap
unfolding write
heap_swap h x y = do
  g ← write h (h.idx x) y
  k ← write g (g.idx y) x
  some (record k { idx = update (update k.idx x (k.idx y)) y (k.idx x) })

-- `(idx - 1) / 2`.
abbrev pub parent : ℕ → ℕ
parent i = (i - 1) / 2

-- `idx * 2 + 1` in `unsigned int`.
abbrev pub child : ℕ → ℕ
child i = (i * 2 + 1) % 2 ^ 32

-- The loop of `heap_pull_up`, for at most the given number of rounds.
unfoldable pub pull_up : Cmp → ℕ → Heap → ℕ → Option Heap
unfolding read heap_swap
pull_up cmp zero h x = none
pull_up cmp (suc n) h x = elim (ltb 0 (h.idx x)) [
  | false ↦ some h
  | true ↦ read h (parent (h.idx x)) >>= λ p. elim (positive (cmp x p)) [
    | false ↦ some h
    | true ↦ heap_swap h x p >>= λ g. pull_up cmp n g x
  ]
]

-- A node moves up by one index at least in a round.
unfoldable pub heap_pull_up : Cmp → Heap → ℕ → Option Heap
unfolding pull_up
heap_pull_up cmp h x = pull_up cmp (suc (h.idx x)) h x

-- The second child, where there is one and it is above the greatest so far.
unfoldable pub right_or : Cmp → Heap → Bool → ℕ → ℕ → Option ℕ
unfolding read
right_or cmp h false i max = some max
right_or cmp h true i max = read h i >>= λ r. some (if positive (cmp r max) then r else max)

-- The value of `max` in `heap_push_down`, with the index of the first child.
unfoldable pub greatest : Cmp → Heap → ℕ → ℕ → Option ℕ
unfolding read right_or
greatest cmp h x i = do
  l ← read h i
  right_or cmp h (ltb (i + 1) h.len) (i + 1) (if positive (cmp l x) then l else x)

unfoldable pub push_down : Cmp → ℕ → Heap → ℕ → Option Heap
unfolding greatest heap_swap
push_down cmp zero h x = none
push_down cmp (suc n) h x = elim (leb h.len (child (h.idx x))) [
  | true ↦ some h
  | false ↦ greatest cmp h x (child (h.idx x)) >>= λ max. elim (max == x) [
    | true ↦ some h
    | false ↦ heap_swap h x max >>= λ g. push_down cmp n g x
  ]
]

-- A node moves down by one index at least in a round, and stays below the length.
unfoldable pub heap_push_down : Cmp → Heap → ℕ → Option Heap
unfolding push_down
heap_push_down cmp h x = push_down cmp (suc h.len) h x

unfoldable pub heap_adjust : Cmp → Heap → ℕ → Option Heap
unfolding read heap_pull_up heap_push_down
heap_adjust cmp h x = elim (ltb 0 (h.idx x)) [
  | false ↦ heap_push_down cmp h x
  | true ↦ read h (parent (h.idx x)) >>= λ p.
      if negative (cmp x p) then heap_push_down cmp h x else heap_pull_up cmp h x
]

-- `heap->size * 2` in `unsigned int`, or 1.
abbrev pub new_size : ℕ → ℕ
new_size size = if size * 2 % 2 ^ 32 == 0 then 1 else size * 2 % 2 ^ 32

-- `realloc` of the array: the old entries in a larger array, or the null pointer. `room` says whether it
-- finds memory.
abbrev pub realloc : Bool → (ℕ → ℕ) → Option (ℕ → ℕ)
realloc true entries = some entries
realloc false entries = none

abbrev pub is_null : Option (ℕ → ℕ) → Bool
is_null none = true
is_null (some entries) = false

-- The end of `heap_insert`, where `array` is `heap->node`: a store through the null pointer is a fault.
unfoldable pub insert_last : Cmp → Heap → Option (ℕ → ℕ) → ℕ → ℕ → Option (Bool × Heap)
unfolding write heap_pull_up
insert_last cmp h array size x = do
  entries ← array
  k ← write (record h { node = entries; idx = update h.idx x h.len; size = size }) h.len x
  up ← heap_pull_up cmp (record k { len = k.len + 1 }) x
  some (true, up)

-- `heap_insert`: whether it returns 0, and the heap.
unfoldable pub heap_insert : Cmp → Bool → Heap → ℕ → Option (Bool × Heap)
unfolding insert_last
heap_insert cmp room h x = elim (leb h.size h.len) [
  | false ↦ insert_last cmp h (some h.node) h.size x
  | true ↦
      let new_node = realloc room h.node in
      elim (is_null new_node) [
        | true ↦ some (false, h)
        | false ↦ insert_last cmp h new_node (new_size h.size) x
      ]
]

unfoldable pub heap_top : Heap → Option (Option ℕ)
unfolding read
heap_top h = elim (ltb 0 h.len) [ true ↦ read h 0 >>= λ x. some (some x) | false ↦ some none ]

-- The loop of `heap_delete`, with the free index `p` and the node that moved last: the greater child
-- moves up.
unfoldable pub move_up : Cmp → ℕ → Heap → ℕ → ℕ → Option (Heap × ℕ × ℕ)
unfolding read write right_or
move_up cmp zero h p x = none
move_up cmp (suc n) h p x = elim (ltb h.len (child p)) [
  | true ↦ some (h, p, x)
  | false ↦ do
    l ← read h (child p)
    y ← right_or cmp h (leb (child p + 1) h.len) (child p + 1) l
    g ← write h p y
    move_up cmp n (record g { idx = update g.idx y p }) (g.idx y) y
]

-- The end of `heap_delete`: the last node takes the free index, unless it has moved there.
unfoldable pub put_last : Cmp → ℕ → Heap × ℕ × ℕ → Option Heap
unfolding write heap_pull_up
put_last cmp last (h, p, x) =
    if x == last
    then some h
    else write h p last >>= λ g. heap_pull_up cmp (record g { idx = update g.idx last p }) last

-- The node is one of the heap, so that the length is not 0.
unfoldable pub heap_delete : Cmp → Heap → ℕ → Option Heap
unfolding read move_up put_last
heap_delete cmp h x =
    let g = record h { len = h.len - 1 } in
    if g.len == 0 then some g else do
      last ← read g g.len
      if last == x then some g else move_up cmp (suc h.len) g (g.idx x) x >>= put_last cmp last

-- ===== src/Heap/Tests.antt =====
-- Runs of the heap; the key of a node is its address.
use libls.Prelude.{ℕ, ◌+◌, ◌≡◌, ◌≢◌, ◌↔◌, refl, true, Option, some, ◌==◌, if◌then◌else◌, arith}
use libls.Heap.{Heap, read, heap_adjust, heap_insert, heap_top, heap_delete}
use libls.Heap.Swap.{Holds}
use libls.Heap.Up.{by_key, Arranged}
use libls.Heap.Insert.{IsHeap, Inserted, heap_insert-Inserted}
use libls.Heap.Adjust.{TopOf, heap_adjust-Arranged, heap_top-TopOf}
use libls.Heap.Remove.{heap_delete-Deleted}

abbrev own : ℕ → ℕ
own x = x

-- The nodes 9, 4 and 7, of which the first is above the others.
abbrev three_nodes : ℕ → ℕ
three_nodes i = if i == 0 then 9 else if i == 1 then 4 else 7

abbrev three_idx : ℕ → ℕ
three_idx x = if x == 9 then 0 else if x == 4 then 1 else 2

abbrev three : Heap
three = record { node = three_nodes; idx = three_idx; len = 3; size = 4 }

three-IsHeap : IsHeap own three
three-IsHeap = (omega arith, omega arith, (λ i b. ground arith), λ j pj b. ground arith)

top_is_9 : heap_top three ≡ some (some 9)
unfolding heap_top read
top_is_9 = refl

heap_top-TopOf_example : (t : Option ℕ) × (heap_top three ≡ some t) × TopOf own three t
heap_top-TopOf_example = heap_top-TopOf own three three-IsHeap

heap_insert-Inserted_example :
    (g : Heap) × (heap_insert (by_key own) true three 12 ≡ some (true, g))
    × IsHeap own g
    × Inserted own three 12 true g
heap_insert-Inserted_example =
    heap_insert-Inserted own true three 12 three-IsHeap (λ i b. ground arith) (omega arith)

heap_delete-Deleted_example :
    (g : Heap) × (heap_delete (by_key own) three 9 ≡ some g)
    × IsHeap own g
    × (g.len + 1 ≡ 3)
    × ((z : ℕ) → Holds g.len g z ↔ (Holds 3 three z × (z ≢ 9)))
heap_delete-Deleted_example = heap_delete-Deleted own three 9 three-IsHeap (omega arith, refl)

heap_adjust-Arranged_example : Arranged own 3 three (heap_adjust (by_key own) three 7)
heap_adjust-Arranged_example =
    heap_adjust-Arranged own three 7 (omega arith) (omega arith) (omega arith) refl three-IsHeap.2
      ((λ j pj b ne ne'. three-IsHeap.3 j pj b), λ j pj b e pos. absurd (omega (arith, e)))

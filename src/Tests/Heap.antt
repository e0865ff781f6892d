-- ===== src/Tests/Heap.antt =====
-- The theorems on the heap, applied: a new one with one item, and then none.
use lthread_concurrent.Prelude.{ℕ, ◌+◌, ◌<◌, ◌≤◌, ◌≡◌, arith, some}
use lthread_concurrent.State.{update}
use lthread_concurrent.Heap.{Node, Heap, heap_create, heap_pop}
use lthread_concurrent.Heap.Order.{Rearranged}
use lthread_concurrent.Heap.Insert.{IsSound}
use lthread_concurrent.Heap.Pop.{heap_pop-IsSound}

abbrev item : ℕ → Node
item k = record { data_pointer = k; key = 10 + k }

abbrev fresh : Heap
fresh = heap_create item 2

-- Of three items
abbrev three : Heap
three = record { arr = item; count = 3; capacity = 4 }

three-IsSound : IsSound three
three-IsSound = record { ordered = λ j q l. omega arith; fits = omega arith; room = omega arith }

heap_pop-IsSound_example :
    (h' : Heap) × (heap_pop 3 three ≡ some (h', item 0))
    × IsSound h'
    × (h'.count + 1 ≡ 3)
    × ((j : ℕ) → j < 3 → 10 ≤ (item j).key)
    × Rearranged (update item 0 (item h'.count)) h'.arr h'.count
heap_pop-IsSound_example = heap_pop-IsSound 3 three (omega arith) (omega arith) three-IsSound

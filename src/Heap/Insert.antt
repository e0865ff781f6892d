-- ===== src/Heap/Insert.antt =====
-- src/lthread_heap.h, lthread_min_heap_insert.
use lthread_concurrent.Prelude.{ℕ, zero, suc, ◌+◌, ◌≤◌, ◌<◌, ◌≡◌, refl, some, arith}
use lthread_concurrent.State.{update}
use lthread_concurrent.Heap.{Node, Heap, heap_insert, grow, heap_create}
use lthread_concurrent.Heap.Order.{IsHeap, IsHeapBut, Rearranged, heapify-IsHeap}

-- A heap, in an array that is large enough and not empty.
pub record IsSound (h : Heap) : Type 0 where
  pub ordered : IsHeap h.arr h.count
  pub fits : h.count ≤ h.capacity
  pub room : 0 < h.capacity

appended-IsHeapBut :
    (a : ℕ → Node) (n : ℕ) (x : Node) → IsHeap a n → IsHeapBut (update a n x) (n + 1) n
appended-IsHeapBut a n x h = record {
  ordered = λ j q l d. ground (arith, h j);
  across = λ j q l z e. ground arith;
}

-- With more fuel than items, an insertion into a sound heap ends. It leaves a sound heap with the old
-- items and the new one.
pub heap_insert-IsSound :
    (f : ℕ) (h : Heap) (node : Node)
    → h.count < f
    → IsSound h
    → (h' : Heap) × (heap_insert f h node ≡ some h')
      × IsSound h'
      × (h'.count ≡ h.count + 1)
      × Rearranged (update h.arr h.count node) h'.arr (h.count + 1)
unfolding heap_insert
heap_insert-IsSound f h node l s =
    let (a, e, heap, r) =
      heapify-IsHeap f (update h.arr h.count node) (h.count + 1) h.count l (omega arith)
        (appended-IsHeapBut h.arr h.count node s.ordered) in
    (
      record (grow h) { arr = a; count = h.count + 1 },
      ground arith,
      record {
        ordered = heap;
        fits = ground (arith, s.fits, s.room);
        room = ground (arith, s.room);
      },
      refl,
      r,
    )

-- A new heap of a capacity that is not 0 is sound.
pub heap_create-IsSound :
    (memory : ℕ → Node) (capacity : ℕ) → 0 < capacity → IsSound (heap_create memory capacity)
unfolding heap_create
heap_create-IsSound memory capacity l = record {
  ordered = λ j q k. ground arith;
  fits = omega arith;
  room = l;
}

-- An insertion into a new heap of capacity 0, with some fuel, ends, and stores an item in the array
-- while the capacity is still 0.
pub heap_insert_overflows :
    (f : ℕ) (memory : ℕ → Node) (node : Node)
    → 0 < f
    → (h' : Heap) × (heap_insert f (heap_create memory 0) node ≡ some h')
      × (h'.arr 0 ≡ node)
      × (h'.count ≡ 1)
      × (h'.capacity ≡ 0)
unfolding heap_insert heap_create
heap_insert_overflows zero memory node z = absurd (ground arith)
heap_insert_overflows (suc f) memory node z =
    (record { arr = update memory 0 node; count = 1; capacity = 0 }, ground arith, refl, refl, refl)

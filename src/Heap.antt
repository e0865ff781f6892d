-- ===== src/Heap.antt =====
-- src/lthread_heap.h: a binary heap in an array. No part of the library includes it. The calls of
-- malloc and realloc succeed.
pub mod Order
pub mod Insert
pub mod Pop
use lthread_concurrent.Prelude.{
  ℕ, zero, suc, ◌+◌, ◌-◌, ◌*◌, ◌/◌, ◌^◌, true, false, ◌&&◌, ltb, Option, none, some, ◌==◌, leb,
  if◌then◌else◌,
}
use lthread_concurrent.State.{update}

-- struct lthread_min_heap_node
pub record Node : Type 0 where
  pub data_pointer : ℕ
  pub key : ℕ

-- struct lthread_min_heap
pub record Heap : Type 0 where
  pub arr : ℕ → Node
  pub count : ℕ
  pub capacity : ℕ

-- lthread_min_heap_create; `memory` is what malloc finds in the array.
unfoldable pub heap_create : (memory : ℕ → Node) (capacity : ℕ) → Heap
heap_create memory capacity = record { arr = memory; count = 0; capacity = capacity }

-- The exchange of two items
unfoldable pub swap : (ℕ → Node) → ℕ → ℕ → (ℕ → Node)
swap a i j = update (update a i (a j)) j (a i)

-- The index of the parent
abbrev pub parent : ℕ → ℕ
parent index = (index - 1) / 2

-- _lthread_min_heap_heapify_bottom_top; `none` means that the fuel ran out.
unfoldable pub heapify_bottom_top : ℕ → (ℕ → Node) → (index : ℕ) → Option (ℕ → Node)
unfolding swap
heapify_bottom_top zero a index = none
heapify_bottom_top (suc f) a index =
    let rest = heapify_bottom_top f (swap a (parent index) index) (parent index) in
    if index == 0 then some a else if leb (a (parent index)).key (a index).key then some a else rest

-- The growth of a full array
unfoldable pub grow : Heap → Heap
grow h =
    if h.count == h.capacity then record h { capacity = h.capacity + (h.capacity + 1) / 2 } else h

-- lthread_min_heap_insert
unfoldable pub heap_insert : ℕ → Heap → Node → Option Heap
unfolding heapify_bottom_top grow
heap_insert f h node =
    let g = grow h in
    elim (heapify_bottom_top f (update g.arr g.count node) g.count) [
      | none ↦ none
      | some a ↦ some (record g { arr = a; count = g.count + 1 })
    ]

-- The body of the loop of _lthread_min_heap_heapify_top_bottom, up to the test
unfoldable pub smallest : (ℕ → Node) → (count parent_node : ℕ) → ℕ
smallest a count p =
    let left = p * 2 + 1 in
    let right = p * 2 + 2 in
    let min = if ltb left count && ltb (a left).key (a p).key then left else p in
    if ltb right count && ltb (a right).key (a min).key then right else min

-- _lthread_min_heap_heapify_top_bottom, which calls itself and then starts over; `none` means that
-- the fuel ran out.
unfoldable pub heapify_top_bottom : ℕ → (ℕ → Node) → (count parent_node : ℕ) → Option (ℕ → Node)
unfolding swap smallest
heapify_top_bottom zero a count p = none
heapify_top_bottom (suc f) a count p =
    let min = smallest a count p in
    elim (min == p) [
      | true ↦ some a
      | false ↦ elim (heapify_top_bottom f (swap a min p) count min) [
        | none ↦ none
        | some b ↦ heapify_top_bottom f b count p
      ]
    ]

-- `--h->count`, a size_t
abbrev pub decrement : ℕ → ℕ
decrement n = if n == 0 then 2 ^ 64 - 1 else n - 1

-- lthread_min_heap_pop
unfoldable pub heap_pop : ℕ → Heap → Option (Heap × Node)
unfolding heapify_top_bottom
heap_pop f h =
    let count = decrement h.count in
    elim (heapify_top_bottom f (update h.arr 0 (h.arr count)) count 0) [
      | none ↦ none
      | some a ↦ some (record h { arr = a; count = count }, h.arr 0)
    ]

-- ===== src/Heap/Pop.antt =====
-- src/lthread_heap.h, lthread_min_heap_pop.
use lthread_concurrent.Prelude.{
  Bool-cases, ◌⊎◌, inl, inr, ◌∙◌, ℕ, zero, suc, ◌+◌, ◌-◌, ◌*◌, ◌≤◌, ◌<◌, ◌≡◌, ◌≢◌, false, some,
  arith, ◌==◌,
}
use lthread_concurrent.State.{update}
use lthread_concurrent.Heap.{Node, Heap, swap, parent, smallest, heapify_top_bottom, heap_pop}
use lthread_concurrent.Heap.Order.{
  IsHeap, Rearranged, same-Rearranged, swap-Rearranged, twice-Rearranged,
}
use lthread_concurrent.Heap.Insert.{IsSound}

-- No item has a smaller key than its parent, but perhaps the children of `p`, which have no smaller
-- keys than the parent of `p`.
pub record IsHeapUnder (a : ℕ → Node) (n p : ℕ) : Type 0 where
  pub ordered : (j : ℕ) → 0 < j → j < n → parent j ≢ p → (a (parent j)).key ≤ (a j).key
  pub across : (j : ℕ) → 0 < j → j < n → 0 < p → parent j ≡ p → (a (parent p)).key ≤ (a j).key

root_least : (k : ℕ) (a : ℕ → Node) (n j : ℕ) → j ≤ k → IsHeap a n → j < n → (a 0).key ≤ (a j).key
root_least zero a n j b h l = ground arith
root_least (suc k) a n j b h l = elim (Bool-cases (j == 0)) [
  | inl z ↦ ground arith
  | inr nz ↦
      let up = root_least k a n (parent j) (ground arith) h (ground arith) in ground (arith, h j)
]

sinking_ends :
    (f : ℕ) (a : ℕ → Node) (n p : ℕ) → 0 < f → IsHeap a n → heapify_top_bottom f a n p ≡ some a
unfolding heapify_top_bottom
sinking_ends zero a n p z h = absurd (ground arith)
sinking_ends (suc f) a n p z h = ground (arith, h (p * 2 + 1), h (p * 2 + 2))

child_cases : (j p : ℕ) → 0 < j → parent j ≡ p → (j ≡ p * 2 + 1) ⊎ (j ≡ p * 2 + 2)
child_cases j p q e = elim (Bool-cases (j == p * 2 + 1)) [
  | inl h ↦ inl (ground arith)
  | inr h ↦ inr (ground arith)
]

-- The child that is chosen
chosen_child :
    (a : ℕ → Node) (n p : ℕ)
    → let m = smallest a n p in
      m ≢ p
      → (m < n)
        × (p < m)
        × (0 < m)
        × (parent m ≡ p)
        × ((a m).key < (a p).key)
        × ((j : ℕ) → 0 < j → j < n → parent j ≡ p → (a m).key ≤ (a j).key)
unfolding smallest
chosen_child a n p d = (
  ground arith,
  ground arith,
  ground arith,
  ground arith,
  ground arith,
  (λ j q l e. elim (child_cases j p q e) [ inl c ↦ ground arith | inr c ↦ ground arith ]),
)

smallest-IsHeap : (a : ℕ → Node) (n p : ℕ) → smallest a n p ≡ p → IsHeapUnder a n p → IsHeap a n
unfolding smallest
smallest-IsHeap a n p e h j q l = elim (Bool-cases (parent j == p)) [
  | inr d ↦ h.ordered j q l (ground arith)
  | inl d ↦ elim (child_cases j p q (ground arith)) [ inl c ↦ ground arith | inr c ↦ ground arith ]
]

swap-IsHeapUnder :
    (a : ℕ → Node) (n p m : ℕ)
    → m < n
    → 0 < m
    → parent m ≡ p
    → ((j : ℕ) → 0 < j → j < n → parent j ≡ p → (a m).key ≤ (a j).key)
    → (a m).key < (a p).key
    → IsHeapUnder a n p
    → IsHeapUnder (swap a m p) n m
unfolding swap
swap-IsHeapUnder a n p m l z e least less h = record {
  ordered = λ j q k d. ground (arith, h.ordered j, h.across j, least j, h.across m);
  across = λ j q k y c. ground (arith, h.ordered j);
}

sinks :
    (f : ℕ) (a : ℕ → Node) (n p : ℕ) (b : ℕ → Node)
    → (smallest a n p == p) ≡ false
    → heapify_top_bottom f (swap a (smallest a n p) p) n (smallest a n p) ≡ some b
    → heapify_top_bottom (suc f) a n p ≡ heapify_top_bottom f b n p
unfolding heapify_top_bottom
sinks f a n p b d e = ground arith

-- With enough fuel, the item at `p` sinks to its place.
sinking-IsHeap :
    (f : ℕ) (a : ℕ → Node) (n p : ℕ)
    → 0 < f
    → n ≤ f + p
    → IsHeapUnder a n p
    → (b : ℕ → Node) × (heapify_top_bottom f a n p ≡ some b) × IsHeap b n × Rearranged a b n
unfolding heapify_top_bottom
sinking-IsHeap zero a n p z fu h = absurd (ground arith)
sinking-IsHeap (suc f) a n p z fu h = elim (Bool-cases (smallest a n p == p)) [
  | inl s ↦ (a, ground arith, smallest-IsHeap a n p (ground arith) h, same-Rearranged a n)
  | inr d ↦
      let m = smallest a n p in
      let (l, more, pos, up, less, least) = chosen_child a n p (ground arith) in
      let (b, e, heap, r) =
        sinking-IsHeap f (swap a m p) n m (omega arith) (omega arith)
          (swap-IsHeapUnder a n p m l pos up least less h) in
      (
        b,
        sinks f a n p b (ground arith) e ∙ sinking_ends f b n p (omega arith) heap,
        heap,
        twice-Rearranged a (swap a m p) b n (swap-Rearranged a n m p l (omega arith)) r,
      )
]

popped-IsHeapUnder :
    (a : ℕ → Node) (n : ℕ) (x : Node) → IsHeap a n → IsHeapUnder (update a 0 x) (n - 1) 0
popped-IsHeapUnder a n x h = record {
  ordered = λ j q l d. ground (arith, h j);
  across = λ j q l z e. ground arith;
}

-- With at least as much fuel as items, a removal from a sound heap that is not empty ends. Its result
-- is the first item, whose key is the least, and it leaves a sound heap with one item less: all but
-- the first.
pub heap_pop-IsSound :
    (f : ℕ) (h : Heap)
    → 0 < h.count
    → h.count ≤ f
    → IsSound h
    → (h' : Heap) × (heap_pop f h ≡ some (h', h.arr 0))
      × IsSound h'
      × (h'.count + 1 ≡ h.count)
      × ((j : ℕ) → j < h.count → (h.arr 0).key ≤ (h.arr j).key)
      × Rearranged (update h.arr 0 (h.arr h'.count)) h'.arr h'.count
unfolding heap_pop
heap_pop-IsSound f h z l s =
    let a = update h.arr 0 (h.arr (h.count - 1)) in
    let (b, e, heap, r) =
      sinking-IsHeap f a (h.count - 1) 0 (omega arith) (omega arith)
        (popped-IsHeapUnder h.arr h.count (h.arr (h.count - 1)) s.ordered) in
    (
      record h { arr = b; count = h.count - 1 },
      ground arith,
      record { ordered = heap; fits = ground (arith, s.fits); room = s.room },
      omega arith,
      (λ j k. root_least j h.arr h.count j (omega arith) s.ordered k),
      r,
    )

-- ===== src/Heap/Order.antt =====
-- src/lthread_heap.h, lthread_min_heap_insert: the order of the heap, and its items.
use lthread_concurrent.Prelude.{
  Bool-cases, inl, inr, ap, ◌∙◌, ℕ, zero, suc, ◌≤◌, ◌<◌, ◌≡◌, ◌≢◌, refl, some, arith, ◌==◌, leb,
  if◌then◌else◌,
}
use lthread_concurrent.Heap.{Node, swap, parent, heapify_bottom_top}

-- No item has a smaller key than its parent.
abbrev pub IsHeap : (ℕ → Node) → ℕ → Type 0
IsHeap a n = (j : ℕ) → 0 < j → j < n → (a (parent j)).key ≤ (a j).key

-- None but perhaps the one at `index`, whose children have no smaller keys than its parent.
pub record IsHeapBut (a : ℕ → Node) (n index : ℕ) : Type 0 where
  pub ordered : (j : ℕ) → 0 < j → j < n → index ≢ j → (a (parent j)).key ≤ (a j).key
  pub across :
      (j : ℕ) → 0 < j → j < n → 0 < index → parent j ≡ index → (a (parent index)).key ≤ (a j).key

-- The first `n` items of `b` are those of `a` in another order.
pub record Rearranged (a b : ℕ → Node) (n : ℕ) : Type 0 where
  pub to : ℕ → ℕ
  pub from : ℕ → ℕ
  pub to_below : (j : ℕ) → j < n → to j < n
  pub from_below : (j : ℕ) → j < n → from j < n
  pub there : (j : ℕ) → j < n → from (to j) ≡ j
  pub back : (j : ℕ) → j < n → to (from j) ≡ j
  pub same : (j : ℕ) → j < n → b (to j) ≡ a j

pub same-Rearranged : (a : ℕ → Node) (n : ℕ) → Rearranged a a n
same-Rearranged a n = record {
  to = λ j. j;
  from = λ j. j;
  to_below = λ j l. l;
  from_below = λ j l. l;
  there = λ j l. refl;
  back = λ j l. refl;
  same = λ j l. refl;
}

abbrev exchange : ℕ → ℕ → ℕ → ℕ
exchange i k j = if i == j then k else if k == j then i else j

pub swap-Rearranged : (a : ℕ → Node) (n i k : ℕ) → i < n → k < n → Rearranged a (swap a i k) n
unfolding swap
swap-Rearranged a n i k h l = record {
  to = exchange i k;
  from = exchange i k;
  to_below = λ j m. ground arith;
  from_below = λ j m. ground arith;
  there = λ j m. ground arith;
  back = λ j m. ground arith;
  same = λ j m. ground arith;
}

pub twice-Rearranged :
    (a b c : ℕ → Node) (n : ℕ) → Rearranged a b n → Rearranged b c n → Rearranged a c n
twice-Rearranged a b c n r s = record {
  to = λ j. s.to (r.to j);
  from = λ j. r.from (s.from j);
  to_below = λ j m. s.to_below (r.to j) (r.to_below j m);
  from_below = λ j m. r.from_below (s.from j) (s.from_below j m);
  there = λ j m. ap r.from (s.there (r.to j) (r.to_below j m)) ∙ r.there j m;
  back = λ j m. ap s.to (r.back (s.from j) (s.from_below j m)) ∙ s.back j m;
  same = λ j m. s.same (r.to j) (r.to_below j m) ∙ r.same j m;
}

swap-IsHeapBut :
    (a : ℕ → Node) (n index : ℕ)
    → 0 < index
    → index < n
    → (a index).key < (a (parent index)).key
    → IsHeapBut a n index
    → IsHeapBut (swap a (parent index) index) n (parent index)
unfolding swap
swap-IsHeapBut a n index p l less h = record {
  ordered =
      λ j q m d. ground (arith, h.ordered j, h.ordered index, h.across j, h.ordered (parent index));
  across = λ j q m z e. ground (arith, h.ordered j, h.ordered (parent index), h.across j);
}

pub heapify-IsHeap :
    (f : ℕ) (a : ℕ → Node) (n index : ℕ)
    → index < f
    → index < n
    → IsHeapBut a n index
    → (b : ℕ → Node) × (heapify_bottom_top f a index ≡ some b) × IsHeap b n × Rearranged a b n
unfolding heapify_bottom_top
heapify-IsHeap zero a n index fu l h = absurd (ground arith)
heapify-IsHeap (suc f) a n index fu l h = elim (Bool-cases (index == 0)) [
  | inl z ↦ (a, ground arith, (λ j q m. h.ordered j q m (ground arith)), same-Rearranged a n)
  | inr nz ↦ elim (Bool-cases (leb (a (parent index)).key (a index).key)) [
    | inl le ↦ (a, ground arith, (λ j q m. ground (arith, h.ordered j)), same-Rearranged a n)
    | inr gt ↦
        let (b, e, heap, r) =
          heapify-IsHeap f (swap a (parent index) index) n (parent index) (ground arith)
            (ground arith) (swap-IsHeapBut a n index (ground arith) l (ground arith) h) in
        (
          b,
          ground arith,
          heap,
          twice-Rearranged a (swap a (parent index) index) b n
              (swap-Rearranged a n (parent index) index (ground arith) l) r,
        )
  ]
]

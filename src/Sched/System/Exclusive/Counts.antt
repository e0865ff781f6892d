-- ===== src/Sched/System/Exclusive/Counts.antt =====
-- How often an lthread is in the lists behind the queues and trees.
use lthread_concurrent.Prelude.{
  ℕ, suc, ◌≤◌, ◌<◌, ◌≡◌, true, some, List, [], ◌∷◌, arith, ◌==◌, if◌then◌else◌, count, head?, erase,
  elem,
}
use lthread_concurrent.Intrusive.{ids, has_id, insert_key, remove_id, first_id}

pub count-insert_key :
    (y k x : ℕ) (es : List (ℕ × ℕ))
    → count y (ids (insert_key k x es))
      ≡ (if x == y then suc (count y (ids es)) else count y (ids es))
count-insert_key y k x [] = ground arith
count-insert_key y k x ((j, z) ∷ es) = ground (arith, count-insert_key y k x es)

pub count-remove_id-le :
    (y x : ℕ) (es : List (ℕ × ℕ)) → count y (ids (remove_id x es)) ≤ count y (ids es)
count-remove_id-le y x [] = omega arith
count-remove_id-le y x ((j, z) ∷ es) = ground (arith, count-remove_id-le y x es)

pub has_id-count : (x : ℕ) (es : List (ℕ × ℕ)) → has_id x es ≡ true → 0 < count x (ids es)
has_id-count x [] h = cc
has_id-count x ((j, z) ∷ es) h = ground (arith, has_id-count x es)

pub count-remove_id :
    (x : ℕ) (es : List (ℕ × ℕ))
    → has_id x es ≡ true
    → suc (count x (ids (remove_id x es))) ≡ count x (ids es)
count-remove_id x [] h = cc
count-remove_id x ((j, z) ∷ es) h = ground (arith, count-remove_id x es, has_id-count x es)

pub first_id-has_id : (x : ℕ) (es : List (ℕ × ℕ)) → first_id es ≡ some x → has_id x es ≡ true
first_id-has_id x [] h = cc
first_id-has_id x ((j, z) ∷ es) h = ground arith

pub head?-elem : (x : ℕ) (xs : List ℕ) → head? xs ≡ some x → elem x xs ≡ true
head?-elem x [] h = cc
head?-elem x (y ∷ ys) h = ground arith

pub count-erase-head :
    (x : ℕ) (xs : List ℕ)
    → head? xs ≡ some x
    → (suc (count x (erase x xs)) ≡ count x xs) × (elem x xs ≡ true)
count-erase-head x [] h = cc
count-erase-head x (y ∷ ys) h = (ground arith, ground arith)

-- ===== src/Trace/Bytes.antt =====
-- Numbers in the memory of src/lthread.c's trace: stored, and loaded again.
use lthread_concurrent.Prelude.{
  ℕ, zero, suc, ◌+◌, ◌*◌, ◌/◌, ◌%◌, ◌<◌, ◌≡◌, refl, ap, List, [], ◌∷◌, length, arith,
}
use lthread_concurrent.State.{update}
use lthread_concurrent.Trace.{store, bytes, load}

-- The number of values of so many bytes
abbrev pub limit : ℕ → ℕ
limit zero = 1
limit (suc n) = 256 * limit n

pub length-bytes : (n v : ℕ) → length (bytes n v) ≡ n
unfolding bytes
length-bytes zero v = refl
length-bytes (suc n) v = ap suc (length-bytes n (v / 256))

-- What lies elsewhere stays.
pub store-below : (m : ℕ → ℕ) (a k : ℕ) (xs : List ℕ) → k < a → store m a xs k ≡ m k
unfolding store
store-below m a k [] l = refl
store-below m a k (x ∷ xs) l =
    let rest = store-below (update m a x) (suc a) k xs (omega (arith, l)) in ground arith

pub load-same :
    (n : ℕ) (m m' : ℕ → ℕ) (a : ℕ) → ((k : ℕ) → k < a + n → m k ≡ m' k) → load n m a ≡ load n m' a
unfolding load
load-same zero m m' a e = refl
load-same (suc n) m m' a e =
    let rest = load-same n m m' (suc a) (λ k l. e k (omega (arith, l))) in
    let first = e a (omega arith) in ground arith

pub load-store : (n : ℕ) (m : ℕ → ℕ) (a v : ℕ) → v < limit n → load n (store m a (bytes n v)) a ≡ v
unfolding load store bytes
load-store zero m a v l = omega (arith, l)
load-store (suc n) m a v l =
    let m' = update m a (v % 256) in
    let first = store-below m' (suc a) a (bytes n (v / 256)) (omega arith) in
    let rest = load-store n m' (suc a) (v / 256) (omega (arith, l)) in ground arith

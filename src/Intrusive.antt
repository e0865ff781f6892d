-- ===== src/Intrusive.antt =====
-- The intrusive containers that the schedulers, the poller and the condition variables share:
-- the calls that the code makes of TAILQ (src/queue.h) and RB (src/tree.h), copies of the BSD
-- headers, as the operations and documented behaviour of a parameter.
-- Members are lthread identifiers. A tree compares by the key that a member has when it is
-- inserted: `sleep_usecs` in `sleeping`, `fd_key` in `waiting`.
mod Entries
pub mod Lists
pub use Entries.*
use lthread_concurrent.Prelude.{
  ℕ, ◌≡◌, Bool, true, Option, none, some, List, [], ◌∷◌, ◌++◌, head?, is_nil, elem, erase,
}

pub record Intrusive : Type 1 where
  pub Tailq : Type 0
  -- The members, first to last, as TAILQ_FOREACH visits them.
  pub elems : Tailq → List ℕ
  pub tailq_init : Tailq
  pub tailq_empty : Tailq → Bool
  pub tailq_first : Tailq → Option ℕ
  pub tailq_insert_tail : Tailq → ℕ → Tailq
  pub tailq_remove : Tailq → ℕ → Tailq
  pub elems-tailq_init : elems tailq_init ≡ []
  pub tailq_empty_lem : (q : Tailq) → tailq_empty q ≡ is_nil (elems q)
  pub tailq_first_lem : (q : Tailq) → tailq_first q ≡ head? (elems q)
  -- Insertion is defined for an element that is in no queue, here for any: a result on a run that
  -- inserts an element into a queue where it is already says nothing of the source from there on.
  pub elems-tailq_insert_tail :
      (q : Tailq) (x : ℕ) → elems (tailq_insert_tail q x) ≡ elems q ++ x ∷ []
  -- Removal is defined for a member only.
  pub elems-tailq_remove :
      (q : Tailq) (x : ℕ) → elem x (elems q) ≡ true → elems (tailq_remove q x) ≡ erase x (elems q)
  pub Tree : Type 0
  -- The members with their keys, as RB_FOREACH visits them.
  pub entries : Tree → List (ℕ × ℕ)
  pub rb_init : Tree
  pub rb_empty : Tree → Bool
  pub rb_min : Tree → Option ℕ
  pub rb_find : Tree → ℕ → Option ℕ
  -- RB_INSERT of a member under a key; it answers with the member that has the key already.
  pub rb_insert : Tree → ℕ → ℕ → Tree × Option ℕ
  pub rb_remove : Tree → ℕ → Tree
  pub entries-rb_init : entries rb_init ≡ []
  pub rb_empty_lem : (t : Tree) → rb_empty t ≡ is_nil (entries t)
  pub rb_min_lem : (t : Tree) → rb_min t ≡ first_id (entries t)
  pub rb_find_lem : (t : Tree) (k : ℕ) → rb_find t k ≡ find_key k (entries t)
  pub rb_insert_taken :
      (t : Tree) (k x y : ℕ) → find_key k (entries t) ≡ some y → rb_insert t k x ≡ (t, some y)
  pub rb_insert_free :
      (t : Tree) (k x : ℕ)
      → find_key k (entries t) ≡ none
      → ((rb_insert t k x).1 ≡ none) × (entries (rb_insert t k x).0 ≡ insert_key k x (entries t))
  pub entries-rb_remove :
      (t : Tree) (x : ℕ)
      → has_id x (entries t) ≡ true
      → entries (rb_remove t x) ≡ remove_id x (entries t)

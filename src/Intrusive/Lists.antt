-- ===== src/Intrusive/Lists.antt =====
-- Lists, in the order of arrival and by rising key, meet the documented behaviour.
use lthread_concurrent.Prelude.{
  ℕ, ◌≡◌, refl, Option, none, some, List, [], ◌∷◌, ◌++◌, head?, is_nil, erase, arith,
}
use lthread_concurrent.Intrusive.{Intrusive, first_id, find_key, insert_key, remove_id}

abbrev pub list_insert : List (ℕ × ℕ) → ℕ → ℕ → List (ℕ × ℕ) × Option ℕ
list_insert es k x = elim (find_key k es) [
  | none ↦ (insert_key k x es, none)
  | some y ↦ (es, some y)
]

pub list_insert_taken :
    (es : List (ℕ × ℕ)) (k x y : ℕ) → find_key k es ≡ some y → list_insert es k x ≡ (es, some y)
list_insert_taken es k x y h = ground arith

pub list_insert_free :
    (es : List (ℕ × ℕ)) (k x : ℕ)
    → find_key k es ≡ none
    → ((list_insert es k x).1 ≡ none) × ((list_insert es k x).0 ≡ insert_key k x es)
list_insert_free es k x h = ground arith

instance abbrev pub lists : Intrusive
lists = record {
  Tailq = List ℕ;
  elems = λ q. q;
  tailq_init = [];
  tailq_empty = is_nil;
  tailq_first = head?;
  tailq_insert_tail = λ q x. q ++ x ∷ [];
  tailq_remove = λ q x. erase x q;
  elems-tailq_init = refl;
  tailq_empty_lem = λ q. refl;
  tailq_first_lem = λ q. refl;
  elems-tailq_insert_tail = λ q x. refl;
  elems-tailq_remove = λ q x h. refl;
  Tree = List (ℕ × ℕ);
  entries = λ t. t;
  rb_init = [];
  rb_empty = is_nil;
  rb_min = first_id;
  rb_find = λ t k. find_key k t;
  rb_insert = list_insert;
  rb_remove = λ t x. remove_id x t;
  entries-rb_init = refl;
  rb_empty_lem = λ t. refl;
  rb_min_lem = λ t. refl;
  rb_find_lem = λ t k. refl;
  rb_insert_taken = list_insert_taken;
  rb_insert_free = list_insert_free;
  entries-rb_remove = λ t x h. refl;
}

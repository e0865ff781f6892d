-- ===== src/Intrusive/Entries.antt =====
-- What a search tree holds: pairs of a key and a member, by rising key.
use lthread_concurrent.Prelude.{
  ℕ, ◌+◌, ◌≤◌, ◌<◌, ◌≡◌, Bool, true, false, length, ◌||◌, Option, none, some, List, [], ◌∷◌, arith,
  ◌==◌, ltb, if◌then◌else◌,
}

abbrev pub first_id : List (ℕ × ℕ) → Option ℕ
first_id [] = none
first_id ((k, x) ∷ es) = some x

abbrev pub find_key : ℕ → List (ℕ × ℕ) → Option ℕ
find_key k [] = none
find_key k ((j, x) ∷ es) = if j == k then some x else find_key k es

abbrev pub has_id : ℕ → List (ℕ × ℕ) → Bool
has_id x [] = false
has_id x ((j, y) ∷ es) = (y == x) || has_id x es

abbrev pub insert_key : ℕ → ℕ → List (ℕ × ℕ) → List (ℕ × ℕ)
insert_key k x [] = (k, x) ∷ []
insert_key k x ((j, y) ∷ es) = if ltb k j then (k, x) ∷ (j, y) ∷ es else (j, y) ∷ insert_key k x es

abbrev pub remove_id : ℕ → List (ℕ × ℕ) → List (ℕ × ℕ)
remove_id x [] = []
remove_id x ((j, y) ∷ es) = if y == x then es else (j, y) ∷ remove_id x es

abbrev pub ids : List (ℕ × ℕ) → List ℕ
ids [] = []
ids ((k, x) ∷ es) = x ∷ ids es

-- Every key is above the bound, and the keys rise.
abbrev pub Above : ℕ → List (ℕ × ℕ) → Type 0
Above b [] = Unit {0}
Above b ((k, x) ∷ es) = (b < k) × Above k es

-- The keys rise.
abbrev pub IsRising : List (ℕ × ℕ) → Type 0
IsRising [] = Unit {0}
IsRising ((k, x) ∷ es) = Above k es

pub Above-mono : (a b : ℕ) (es : List (ℕ × ℕ)) → a ≤ b → Above b es → Above a es
Above-mono a b [] h r = tt
Above-mono a b ((k, x) ∷ es) h r = (omega arith, r.1)

pub Above-insert_key :
    (b k x : ℕ) (es : List (ℕ × ℕ))
    → b < k
    → find_key k es ≡ none
    → Above b es
    → Above b (insert_key k x es)
Above-insert_key b k x [] h f r = (h, tt)
Above-insert_key b k x ((j, y) ∷ es) h f r = ground (arith, Above-insert_key j k x es)

pub IsRising-insert_key :
    (k x : ℕ) (es : List (ℕ × ℕ))
    → find_key k es ≡ none
    → IsRising es
    → IsRising (insert_key k x es)
IsRising-insert_key k x [] f r = tt
IsRising-insert_key k x ((j, y) ∷ es) f r = ground (arith, Above-insert_key j k x es)

pub Above-remove_id : (b x : ℕ) (es : List (ℕ × ℕ)) → Above b es → Above b (remove_id x es)
Above-remove_id b x [] r = tt
Above-remove_id b x ((j, y) ∷ es) r = ground (arith, Above-remove_id j x es, Above-mono b j es)

pub IsRising-remove_id : (x : ℕ) (es : List (ℕ × ℕ)) → IsRising es → IsRising (remove_id x es)
IsRising-remove_id x [] r = tt
IsRising-remove_id x ((j, y) ∷ []) r = ground arith
IsRising-remove_id x ((j, y) ∷ (k, z) ∷ es) r = ground (arith, Above-remove_id j x ((k, z) ∷ es))

pub find_key-has_id : (k x : ℕ) (es : List (ℕ × ℕ)) → find_key k es ≡ some x → has_id x es ≡ true
find_key-has_id k x [] h = cc
find_key-has_id k x ((j, y) ∷ es) h = ground (arith, find_key-has_id k x es)

pub find_key-insert_key :
    (k x : ℕ) (es : List (ℕ × ℕ)) → find_key k es ≡ none → find_key k (insert_key k x es) ≡ some x
find_key-insert_key k x [] h = ground arith
find_key-insert_key k x ((j, y) ∷ es) h = ground (arith, find_key-insert_key k x es)

pub has_id-insert_key : (k x : ℕ) (es : List (ℕ × ℕ)) → has_id x (insert_key k x es) ≡ true
has_id-insert_key k x [] = ground arith
has_id-insert_key k x ((j, y) ∷ es) = ground (arith, has_id-insert_key k x es)

-- A member that was not there before is taken out again without a trace.
pub remove_id-insert_key :
    (k x : ℕ) (es : List (ℕ × ℕ)) → has_id x es ≡ false → remove_id x (insert_key k x es) ≡ es
remove_id-insert_key k x [] h = ground arith
remove_id-insert_key k x ((j, y) ∷ es) h = ground (arith, remove_id-insert_key k x es)

pub length-insert_key : (k x : ℕ) (es : List (ℕ × ℕ)) → length (insert_key k x es) ≡ length es + 1
length-insert_key k x [] = omega arith
length-insert_key k x ((j, y) ∷ es) = ground (arith, length-insert_key k x es)

pub length-remove_id :
    (x : ℕ) (es : List (ℕ × ℕ)) → has_id x es ≡ true → length (remove_id x es) + 1 ≡ length es
length-remove_id x [] h = cc
length-remove_id x ((j, y) ∷ es) h = ground (arith, length-remove_id x es)

pub IsRising-tail : (k x : ℕ) (es : List (ℕ × ℕ)) → IsRising ((k, x) ∷ es) → IsRising es
IsRising-tail k x [] r = tt
IsRising-tail k x ((j, y) ∷ es) r = r.1

-- ===== src/Prelude/Lists.antt =====
-- Lists of identifiers, measured and searched by native numbers.
use Prim.Native.Nat.{ℕ, suc, zero, ◌+◌, ◌-◌, ◌≤◌, ◌<◌}
use mathlib.Core.Path.{◌≡◌, refl, ap, sym, ◌∙◌}
use mathlib.Core.Bool.{Bool, true, false, ◌||◌}
use mathlib.Core.List.{List, [], ◌∷◌, ◌++◌}
use mathlib.Core.Option.{Option, none, some}
use native.Mathlib.Omega.{arith}
use lthread_concurrent.Prelude.Tests.{◌==◌, if◌then◌else◌}

module _ {ℓ} {A : Type ℓ} where
  abbrev pub length : List A → ℕ
  length [] = 0
  length (x ∷ xs) = suc (length xs)

  abbrev pub head? : List A → Option A
  head? [] = none
  head? (x ∷ xs) = some x

  abbrev pub is_nil : List A → Bool
  is_nil [] = true
  is_nil (x ∷ xs) = false

  abbrev pub take : ℕ → List A → List A
  take zero xs = []
  take (suc n) [] = []
  take (suc n) (x ∷ xs) = x ∷ take n xs

  abbrev pub drop : ℕ → List A → List A
  drop zero xs = xs
  drop (suc n) [] = []
  drop (suc n) (x ∷ xs) = drop n xs

  pub take-append-drop : (n : ℕ) (xs : List A) → take n xs ++ drop n xs ≡ xs
  take-append-drop zero xs = refl
  take-append-drop (suc n) [] = refl
  take-append-drop (suc n) (x ∷ xs) = ap (λ ys. x ∷ ys) (take-append-drop n xs)

  pub length-drop : (n : ℕ) (xs : List A) → length (drop n xs) ≡ length xs - n
  length-drop zero xs = omega arith
  length-drop (suc n) [] = omega arith
  length-drop (suc n) (x ∷ xs) = omega (arith, length-drop n xs)

  take-nil : (n : ℕ) → take n [] ≡ []
  take-nil zero = refl
  take-nil (suc n) = refl

  -- What two parts in a row make
  pub take-add : (n m : ℕ) (xs : List A) → take n xs ++ take m (drop n xs) ≡ take (n + m) xs
  take-add zero m xs = ap (λ k. take k xs) (omega arith)
  take-add (suc n) m [] = take-nil m ∙ sym (take-nil (suc n + m))
  take-add (suc n) m (x ∷ xs) =
      let more : suc (n + m) ≡ suc n + m = omega arith in
      ap (λ ys. x ∷ ys) (take-add n m xs) ∙ ap (λ k. take k (x ∷ xs)) more

  pub length-take-le : (n : ℕ) (xs : List A) → length (take n xs) ≤ n
  length-take-le zero xs = omega arith
  length-take-le (suc n) [] = omega arith
  length-take-le (suc n) (x ∷ xs) = omega (arith, length-take-le n xs)

  pub take-all : (n : ℕ) (xs : List A) → length xs ≤ n → take n xs ≡ xs
  take-all zero [] h = refl
  take-all zero (x ∷ xs) h = absurd (omega arith)
  take-all (suc n) [] h = refl
  take-all (suc n) (x ∷ xs) h = ap (λ ys. x ∷ ys) (take-all n xs (omega arith))

  pub length-append : (xs ys : List A) → length (xs ++ ys) ≡ length xs + length ys
  length-append [] ys = omega arith
  length-append (x ∷ xs) ys = omega (arith, length-append xs ys)

-- Occurs in the list.
abbrev pub elem : ℕ → List ℕ → Bool
elem a [] = false
elem a (x ∷ xs) = (x == a) || elem a xs

-- How often it occurs.
abbrev pub count : ℕ → List ℕ → ℕ
count a [] = 0
count a (x ∷ xs) = let n = count a xs in if x == a then suc n else n

-- The list without its first occurrence.
abbrev pub erase : ℕ → List ℕ → List ℕ
erase a [] = []
erase a (x ∷ xs) = if x == a then xs else x ∷ erase a xs

pub elem-eq-count : (a : ℕ) (xs : List ℕ) → elem a xs ≡ true → 0 < count a xs
elem-eq-count a [] h = cc
elem-eq-count a (x ∷ xs) h = ground (arith, elem-eq-count a xs)

pub elem-append : (a : ℕ) (xs ys : List ℕ) → elem a (xs ++ ys) ≡ elem a xs || elem a ys
elem-append a [] ys = ground arith
elem-append a (x ∷ xs) ys = ground (arith, elem-append a xs ys)

pub count-eq-zero : (a : ℕ) (xs : List ℕ) → elem a xs ≡ false → count a xs ≡ 0
count-eq-zero a [] h = omega arith
count-eq-zero a (x ∷ xs) h = ground (arith, count-eq-zero a xs)

pub elem-count : (a : ℕ) (xs : List ℕ) → count a xs ≡ 0 → elem a xs ≡ false
elem-count a [] h = refl
elem-count a (x ∷ xs) h = ground (arith, elem-count a xs)

pub count-erase-le : (a b : ℕ) (xs : List ℕ) → count b (erase a xs) ≤ count b xs
count-erase-le a b [] = omega arith
count-erase-le a b (x ∷ xs) = ground (arith, count-erase-le a b xs)

-- Of a list in which `a` occurs once at most, `erase a` leaves none.
pub elem-erase :
    (a b : ℕ) (xs : List ℕ)
    → count a xs ≤ 1
    → elem b (erase a xs) ≡ (if a == b then false else elem b xs)
elem-erase a b [] h = ground arith
elem-erase a b (x ∷ xs) h =
    ground (arith, elem-erase a b xs, elem-eq-count a xs, count-eq-zero a xs, elem-count a xs)

pub count-append : (a : ℕ) (fst snd : List ℕ) → count a (fst ++ snd) ≡ count a snd + count a fst
count-append a [] snd = omega arith
count-append a (y ∷ fst) snd = ground (arith, count-append a fst snd)

-- ===== src/Prelude/Sort.antt =====
-- Python's `sorted` with a key of whole numbers, which is stable, and counting in a list.
use Prim.Native.Nat.{ℕ, suc, ◌+◌, ◌≤◌}
use mathlib.Core.Path.{◌≡◌, refl}
use mathlib.Core.Logic.{inl, inr}
use mathlib.Core.Bool.{Bool, true}
use mathlib.Core.List.{List, [], ◌∷◌, ◌++◌}
use native.Mathlib.Omega.{arith}
use mctrader_data.Prelude.Tests.{leb, if◌then◌else◌, Bool-cases}
use mctrader_data.Prelude.Lists.{All, length}

module _ {ℓ} {A : Type ℓ} where
  -- How many elements a test accepts.
  abbrev pub count : (A → Bool) → List A → ℕ
  count p [] = 0
  count p (x ∷ xs) = if p x then suc (count p xs) else count p xs

  pub count-append : (p : A → Bool) (xs ys : List A) → count p (xs ++ ys) ≡ count p xs + count p ys
  count-append p [] ys = omega arith
  count-append p (x ∷ xs) ys = ground (arith, count-append p xs ys)

  module _ (key : A → ℕ) where
    unfoldable pub insert_sorted : A → List A → List A
    insert_sorted x [] = x ∷ []
    insert_sorted x (y ∷ ys) =
        let rest = insert_sorted x ys in if leb (key x) (key y) then x ∷ y ∷ ys else y ∷ rest

    unfoldable pub sorted : List A → List A
    sorted [] = []
    sorted (x ∷ xs) = insert_sorted x (sorted xs)

    -- Every element is at most each later one.
    abbrev pub IsSorted : List A → Type ℓ
    IsSorted [] = Unit
    IsSorted (x ∷ xs) = All (λ y. key x ≤ key y) xs × IsSorted xs

    count-insert_sorted :
        (p : A → Bool) (x : A) (xs : List A)
        → count p (insert_sorted x xs) ≡ (if p x then suc (count p xs) else count p xs)
    unfolding insert_sorted
    count-insert_sorted p x [] = refl
    count-insert_sorted p x (y ∷ ys) = ground (arith, count-insert_sorted p x ys)

    -- Sorting keeps every element as often as it was.
    pub count-sorted : (p : A → Bool) (xs : List A) → count p (sorted xs) ≡ count p xs
    unfolding sorted
    count-sorted p [] = refl
    count-sorted p (x ∷ xs) = ground (arith, count-sorted p xs, count-insert_sorted p x (sorted xs))

    All-insert_sorted :
        (n : ℕ) (x : A) (xs : List A)
        → n ≤ key x
        → All (λ y. n ≤ key y) xs
        → All (λ y. n ≤ key y) (insert_sorted x xs)
    unfolding insert_sorted
    All-insert_sorted n x [] h k = (h, tt)
    All-insert_sorted n x (y ∷ ys) h k = elim (Bool-cases (leb (key x) (key y))) [
      | inl before ↦ rw before (h, k)
      | inr after ↦ rw after (k.0, All-insert_sorted n x ys h k.1)
    ]

    All-weaken : (m n : ℕ) (xs : List A) → m ≤ n → All (λ y. n ≤ key y) xs → All (λ y. m ≤ key y) xs
    All-weaken m n [] h k = tt
    All-weaken m n (x ∷ xs) h k = (omega (arith, k.0), All-weaken m n xs h k.1)

    IsSorted-insert_sorted : (x : A) (xs : List A) → IsSorted xs → IsSorted (insert_sorted x xs)
    unfolding insert_sorted
    IsSorted-insert_sorted x [] h = (tt, tt)
    IsSorted-insert_sorted x (y ∷ ys) h = elim (Bool-cases (leb (key x) (key y))) [
      | inl before ↦
          let le : key x ≤ key y = ground arith in
          rw before ((le, All-weaken (key x) (key y) ys le h.0), h)
      | inr after ↦
          rw after
            (All-insert_sorted (key y) x ys (ground arith) h.0, IsSorted-insert_sorted x ys h.1)
    ]

    pub sorted-IsSorted : (xs : List A) → IsSorted (sorted xs)
    unfolding sorted
    sorted-IsSorted [] = tt
    sorted-IsSorted (x ∷ xs) = IsSorted-insert_sorted x (sorted xs) (sorted-IsSorted xs)

  All-insert_sorted_any :
      (P : A → Type 0) (key : A → ℕ) (x : A) (xs : List A)
      → P x
      → All P xs
      → All P (insert_sorted key x xs)
  unfolding insert_sorted
  All-insert_sorted_any P key x [] h k = (h, tt)
  All-insert_sorted_any P key x (y ∷ ys) h k = elim (Bool-cases (leb (key x) (key y))) [
    | inl before ↦ rw before (h, k)
    | inr after ↦ rw after (k.0, All-insert_sorted_any P key x ys h k.1)
  ]

  -- What holds of every element holds of every element of the sorted list.
  pub All-sorted : (P : A → Type 0) (key : A → ℕ) (xs : List A) → All P xs → All P (sorted key xs)
  unfolding sorted
  All-sorted P key [] h = tt
  All-sorted P key (x ∷ xs) h =
      All-insert_sorted_any P key x (sorted key xs) h.0 (All-sorted P key xs h.1)

  pub length-count : (xs : List A) → count (λ x. true) xs ≡ length xs
  length-count [] = refl
  length-count (x ∷ xs) = omega (arith, length-count xs)

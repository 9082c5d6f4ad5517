-- ===== src/Prelude/Sort.antt =====
-- `std::sort` by a comparison, as insertion sort. The standard leaves the order of elements that
-- compare equal open; here they keep their order.
use Prim.Native.Nat.{ℕ, suc, ◌≤◌}
use mathlib.Core.Path.{◌≡◌, refl}
use mathlib.Core.Bool.{Bool}
use mathlib.Core.List.{List, [], ◌∷◌}
use native.Mathlib.Omega.{arith}
use swm_sched.Prelude.Tests.{if◌then◌else◌, ltb}
use swm_sched.Prelude.Lists.{length, Elem, All}

module _ {ℓ} {A : Type ℓ} (less : A → A → Bool) where
  unfoldable pub insert_sorted : A → List A → List A
  insert_sorted x [] = x ∷ []
  insert_sorted x (y ∷ ys) = if less y x then y ∷ insert_sorted x ys else x ∷ y ∷ ys

  unfoldable pub sort : List A → List A
  unfolding insert_sorted
  sort [] = []
  sort (x ∷ xs) = insert_sorted x (sort xs)

  length-insert_sorted : (x : A) (ys : List A) → length (insert_sorted x ys) ≡ suc (length ys)
  unfolding insert_sorted
  length-insert_sorted x [] = refl
  length-insert_sorted x (y ∷ ys) = ground (arith, length-insert_sorted x ys)

  pub length-sort : (xs : List A) → length (sort xs) ≡ length xs
  unfolding sort
  length-sort [] = refl
  length-sort (x ∷ xs) = ground (arith, length-insert_sorted x (sort xs), length-sort xs)

module _ {A : Type 0} (less : A → A → Bool) where
  Elem-insert_sorted : (a x : A) (ys : List A) → Elem a (insert_sorted less x ys) → Elem a (x ∷ ys)
  unfolding insert_sorted
  Elem-insert_sorted a x [] m = m
  Elem-insert_sorted a x (y ∷ ys) m = ground (arith, Elem-insert_sorted a x ys)

  insert_sorted-Elem : (a x : A) (ys : List A) → Elem a (x ∷ ys) → Elem a (insert_sorted less x ys)
  unfolding insert_sorted
  insert_sorted-Elem a x [] m = m
  insert_sorted-Elem a x (y ∷ ys) m = ground (arith, insert_sorted-Elem a x ys)

  -- Sorting keeps the elements.
  pub Elem-sort : (a : A) (xs : List A) → Elem a (sort less xs) → Elem a xs
  unfolding sort
  Elem-sort a [] m = m
  Elem-sort a (x ∷ xs) m = ground (arith, Elem-insert_sorted a x (sort less xs), Elem-sort a xs)

  pub sort-Elem : (a : A) (xs : List A) → Elem a xs → Elem a (sort less xs)
  unfolding sort
  sort-Elem a [] m = m
  sort-Elem a (x ∷ xs) m = ground (arith, insert_sorted-Elem a x (sort less xs), sort-Elem a xs)

module _ {A : Type 0} (key : A → ℕ) where
  -- Each element is at most the ones behind it.
  abbrev pub IsSorted : List A → Type 0
  IsSorted [] = Unit
  IsSorted (x ∷ xs) = All (λ y. key x ≤ key y) xs × IsSorted xs

  abbrev pub by_key : A → A → Bool
  by_key x y = ltb (key x) (key y)

  All-le_trans : (m n : ℕ) (xs : List A) → m ≤ n → All (λ y. n ≤ key y) xs → All (λ y. m ≤ key y) xs
  All-le_trans m n [] h a = tt
  All-le_trans m n (x ∷ xs) h a = (omega arith, All-le_trans m n xs h a.1)

  All-insert_sorted :
      (m : ℕ) (x : A) (ys : List A)
      → m ≤ key x
      → All (λ y. m ≤ key y) ys
      → All (λ y. m ≤ key y) (insert_sorted by_key x ys)
  unfolding insert_sorted
  All-insert_sorted m x [] h a = (h, tt)
  All-insert_sorted m x (y ∷ ys) h a = ground (arith, All-insert_sorted m x ys)

  insert_sorted-IsSorted :
      (x : A) (ys : List A) → IsSorted ys → IsSorted (insert_sorted by_key x ys)
  unfolding insert_sorted
  insert_sorted-IsSorted x [] s = (tt, tt)
  insert_sorted-IsSorted x (y ∷ ys) s = ground (
    arith,
    insert_sorted-IsSorted x ys s.1,
    All-insert_sorted (key y) x ys,
    All-le_trans (key x) (key y) ys,
  )

  pub sort-IsSorted : (xs : List A) → IsSorted (sort by_key xs)
  unfolding sort
  sort-IsSorted [] = tt
  sort-IsSorted (x ∷ xs) = insert_sorted-IsSorted x (sort by_key xs) (sort-IsSorted xs)

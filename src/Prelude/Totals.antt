-- ===== src/Prelude/Totals.antt =====
-- Sub-multisets: `xs` is part of `ys` if every weight of the elements sums up to no more in it.
use Prim.Native.Nat.{ℕ, zero, suc, ◌+◌, ◌≤◌}
use mathlib.Core.Path.{◌≡◌, refl}
use mathlib.Core.Bool.{Bool}
use mathlib.Core.Logic.{◌⊎◌, inl, inr}
use mathlib.Core.List.{List, [], ◌∷◌, ◌++◌}
use native.Mathlib.Omega.{arith}
use swm_sched.Prelude.Lists.{length, take, All, Elem, All-of, All-at}
use swm_sched.Prelude.Sort.{insert_sorted, sort}

module _ {A : Type 0} where
  abbrev pub total : (A → ℕ) → List A → ℕ
  total w [] = 0
  total w (x ∷ xs) = w x + total w xs

  abbrev pub SubList : List A → List A → Type 0
  SubList xs ys = (w : A → ℕ) → total w xs ≤ total w ys

  pub total-append : (w : A → ℕ) (xs ys : List A) → total w (xs ++ ys) ≡ total w xs + total w ys
  total-append w [] ys = omega arith
  total-append w (x ∷ xs) ys = omega (arith, total-append w xs ys)

  pub total-take-le : (w : A → ℕ) (n : ℕ) (xs : List A) → total w (take n xs) ≤ total w xs
  total-take-le w zero xs = omega arith
  total-take-le w (suc n) [] = omega arith
  total-take-le w (suc n) (x ∷ xs) = omega (arith, total-take-le w n xs)

  pub total-length : (xs : List A) → total (λ x. 1) xs ≡ length xs
  total-length [] = refl
  total-length (x ∷ xs) = omega (arith, total-length xs)

module _ {A : Type 0} (less : A → A → Bool) (w : A → ℕ) where
  total-insert_sorted : (x : A) (ys : List A) → total w (insert_sorted less x ys) ≡ w x + total w ys
  unfolding insert_sorted
  total-insert_sorted x [] = refl
  total-insert_sorted x (y ∷ ys) = ground (arith, total-insert_sorted x ys)

  pub total-sort : (xs : List A) → total w (sort less xs) ≡ total w xs
  unfolding sort
  total-sort [] = refl
  total-sort (x ∷ xs) = ground (arith, total-insert_sorted x (sort less xs), total-sort xs)

module _ {ℓ} {A : Type 0} (P : A → Type ℓ) where
  pub All-append : (xs ys : List A) → All P xs → All P ys → All P (xs ++ ys)
  All-append [] ys hx hy = hy
  All-append (x ∷ xs) ys hx hy = (hx.0, All-append xs ys hx.1 hy)

  pub All-take : (n : ℕ) (xs : List A) → All P xs → All P (take n xs)
  All-take zero xs h = tt
  All-take (suc n) [] h = tt
  All-take (suc n) (x ∷ xs) h = (h.0, All-take n xs h.1)

pub All-mono {ℓ κ} :
    {A : Type 0} (P : A → Type ℓ) (Q : A → Type κ) (xs : List A)
    → ((a : A) → P a → Q a)
    → All P xs
    → All Q xs
All-mono P Q [] f h = tt
All-mono P Q (x ∷ xs) f h = (f x h.0, All-mono P Q xs f h.1)

module _ {A : Type 0} (less : A → A → Bool) (P : A → Type 0) where
  All-insert_sorted : (x : A) (ys : List A) → P x → All P ys → All P (insert_sorted less x ys)
  unfolding insert_sorted
  All-insert_sorted x [] p h = (p, tt)
  All-insert_sorted x (y ∷ ys) p h = ground (arith, All-insert_sorted x ys p h.1)

  pub All-sort : (xs : List A) → All P xs → All P (sort less xs)
  unfolding sort
  All-sort [] h = tt
  All-sort (x ∷ xs) h = All-insert_sorted x (sort less xs) h.0 (All-sort xs h.1)

weight : {B : Type 0} → Dec B → ℕ
weight (yes m) = 0
weight (no nm) = 1

-- A part's elements are elements of the whole, where equality is decidable.
module _ {A : Type 0} (d : Discrete A) where
  dec_elem : (a : A) (xs : List A) → Dec (Elem a xs)
  dec_elem a [] = no (λ m. m)
  dec_elem a (x ∷ xs) = elim (d a x) [
    | yes e ↦ yes (inl e)
    | no ne ↦ elim (dec_elem a xs) [
      | yes m ↦ yes (inr m)
      | no nm ↦ no (elim [ inl e ↦ ne e | inr m ↦ nm m ])
    ]
  ]

  missing_in : List A → A → ℕ
  unfolding weight
  missing_in ys x = weight (dec_elem x ys)

  missing_in-cases :
      (ys : List A) (x : A)
      → (Elem x ys × (missing_in ys x ≡ 0)) ⊎ (¬ Elem x ys × (missing_in ys x ≡ 1))
  unfolding missing_in
  missing_in-cases ys x = go (dec_elem x ys)
    where
      go : (e : Dec (Elem x ys)) → (Elem x ys × (weight e ≡ 0)) ⊎ (¬ Elem x ys × (weight e ≡ 1))
      go (yes m) = inl (m, refl)
      go (no nm) = inr (nm, refl)

  missing_in-zero :
      (ys xs : List A) → ((a : A) → Elem a xs → Elem a ys) → total (missing_in ys) xs ≡ 0
  missing_in-zero ys [] h = refl
  missing_in-zero ys (x ∷ xs) h = elim (missing_in-cases ys x) [
    | inl found ↦ omega (arith, found.1, missing_in-zero ys xs (λ a m. h a (inr m)))
    | inr lost ↦ absurd (lost.0 (h x (inl refl)))
  ]

  missing_in-All : (ys xs : List A) → total (missing_in ys) xs ≤ 0 → All (λ x. Elem x ys) xs
  missing_in-All ys [] h = tt
  missing_in-All ys (x ∷ xs) h = elim (missing_in-cases ys x) [
    | inl found ↦ (found.0, missing_in-All ys xs (omega (arith, found.1)))
    | inr lost ↦ absurd (omega (arith, lost.1))
  ]

  pub SubList-All {ℓ} : (P : A → Type ℓ) (xs ys : List A) → SubList xs ys → All P ys → All P xs
  SubList-All P xs ys s h =
      All-of P xs (λ a m. All-at P a ys h (All-at (λ x. Elem x ys) a xs found m))
    where
      found : All (λ x. Elem x ys) xs
      found =
          missing_in-All ys xs (omega (arith, s (missing_in ys), missing_in-zero ys ys (λ a m. m)))

-- ===== src/Prelude/Maps.antt =====
-- `std::unordered_map` as an association list: `m[k] = v` writes the first entry of the key.
use mathlib.Core.Path.{◌≡◌, refl}
use mathlib.Core.List.{List, [], ◌∷◌}
use mathlib.Core.Option.{Option, none, some}
use native.Mathlib.Omega.{arith}
use swm_sched.Prelude.Tests.{if◌then◌else◌, HasEq, ◌==◌}

abbrev pub Assoc {ℓ κ} : Type ℓ → Type κ → Type (ℓ ⊔ κ)
Assoc K V = List (K × V)

module _ {ℓ κ} {K : Type ℓ} {V : Type κ} ⦃e : HasEq K⦄ where
  abbrev pub lookup : K → Assoc K V → Option V
  lookup k [] = none
  lookup k ((j, v) ∷ m) = if k == j then some v else lookup k m

  abbrev pub insert : K → V → Assoc K V → Assoc K V
  insert k v [] = (k, v) ∷ []
  insert k v ((j, w) ∷ m) = if k == j then (j, v) ∷ m else (j, w) ∷ insert k v m

  pub lookup-insert_self : (k : K) (v : V) (m : Assoc K V) → lookup k (insert k v m) ≡ some v
  lookup-insert_self k v [] = ground (arith, e.same_iff k k)
  lookup-insert_self k v ((j, w) ∷ m) =
      ground (arith, e.same_iff k j, e.same_iff k k, lookup-insert_self k v m)

  pub lookup-insert :
      (i k : K) (v : V) (m : Assoc K V)
      → lookup i (insert k v m) ≡ (if i == k then some v else lookup i m)
  lookup-insert i k v [] = refl
  lookup-insert i k v ((j, w) ∷ m) =
      ground (arith, e.same_iff k j, e.same_iff i j, e.same_iff i k, lookup-insert i k v m)

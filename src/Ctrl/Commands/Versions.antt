-- ===== src/Ctrl/Commands/Versions.antt =====
-- What src/sched-lib/ctrl/commands.cpp asks of the slices of a schedule command.
use swm_sched.Prelude.{
  ℕ, ◌+◌, ◌≡◌, refl, inl, inr, ℕ_eq, List, [], ◌∷◌, Option, none, some, length, arith, Bool-cases,
  Option-cases, ◌==◌, All, nat_eq_iff,
}
use swm_sched.Ctrl.Commands.{
  Ei, CommandError, Parsed, Parser, parsed, continue, refused, threw, exhausted, DataType,
  data_types, ScheduleCommand, apply_slice, apply_slices, init,
}

-- A slice that is there, with the version that is expected at its start.
abbrev pub HasVersion : (ei : Ei) → Option ei.Buffer → Type 0
HasVersion ei slice =
    (b : ei.Buffer) × (slice ≡ some b) × ((i : ℕ) × (ei.decode_version b 0 ≡ some (131, i)))

apply_slice-HasVersion :
    (ei : Ei) (fuel : ℕ) (t : DataType) (b : ei.Buffer) (c d : ScheduleCommand ei.SwmGrid) (j : ℕ)
    (errors after : List CommandError)
    → apply_slice ei fuel t b c 0 errors ≡ parsed d j after
    → (i : ℕ) × (ei.decode_version b 0 ≡ some (131, i))
unfolding apply_slice
apply_slice-HasVersion ei fuel t b c d j errors after e =
    elim (Option-cases (ei.decode_version b 0)) [
      | inl bad ↦ absurd (ground arith)
      | inr ((found, i), good) ↦ (i, ground arith)
    ]

continue-eq-parsed {ℓ κ} :
    {A : Type ℓ} {B : Type κ} (r : Parsed A) (f : A → Parser B) (b : B) (k : ℕ)
    (last : List CommandError)
    → continue r f ≡ parsed b k last
    → (a : A) × (j : ℕ) × (after : List CommandError) × (r ≡ parsed a j after)
      × (f a j after ≡ parsed b k last)
continue-eq-parsed (parsed a j after) f b k last e = (a, j, after, refl, e)
continue-eq-parsed (refused errors) f b k last e = cc
continue-eq-parsed threw f b k last e = cc
continue-eq-parsed exhausted f b k last e = cc

apply_slices-HasVersion :
    (ei : Ei) (fuel n : ℕ) (ts : List DataType) (slices : List (Option ei.Buffer))
    (c d : ScheduleCommand ei.SwmGrid) (i j : ℕ) (errors after : List CommandError)
    → length slices ≡ length ts
    → apply_slices ei fuel n ts slices c i errors ≡ parsed d j after
    → All (HasVersion ei) slices
unfolding apply_slices
apply_slices-HasVersion ei fuel n ts [] c d i j errors after l e = tt
apply_slices-HasVersion ei fuel n [] (slice ∷ slices) c d i j errors after l e =
    absurd (omega arith)
apply_slices-HasVersion ei fuel n (t ∷ ts) (none ∷ slices) c d i j errors after l e = cc
apply_slices-HasVersion ei fuel n (t ∷ ts) (some b ∷ slices) c d i j errors after l e =
    let (d', k, errors', first, others) =
      continue-eq-parsed (apply_slice ei fuel t b c 0 errors) _ d j after e in
    (
      (b, refl, apply_slice-HasVersion ei fuel t b c d' k errors errors' first),
      apply_slices-HasVersion ei fuel (n + 1) ts slices d' d k j errors' after (omega arith) others,
    )

-- A command is only made of exactly seven slices that are all there, each with the version 131.
pub init-HasVersion :
    (ei : Ei) (fuel : ℕ) (slices : List (Option ei.Buffer)) (c : ScheduleCommand ei.SwmGrid) (j : ℕ)
    (errors : List CommandError)
    → init ei fuel slices ≡ parsed c j errors
    → (length slices ≡ 7) × All (HasVersion ei) slices
unfolding init
init-HasVersion ei fuel slices c j errors e = elim (Bool-cases (length slices == 7)) [
  | inl seven ↦
      let l : length slices ≡ 7 = ground (arith, nat_eq_iff (length slices) 7) in
      let (d, k, after, all, made) = continue-eq-parsed _ _ c j errors (rw seven at e) in
      (l, apply_slices-HasVersion ei fuel 0 data_types slices _ d 0 k [] after l all)
  | inr other ↦ absurd (ground arith)
]

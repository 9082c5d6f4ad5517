-- ===== src/Auxl/TimeCounter/Threads.antt =====
-- The threads that are on in an account of the calls of src/sched-lib/auxl/time_counter.h, and when one
-- of them is turned off.
use swm_sched.Prelude.{
  ℕ, suc, ◌+◌, ◌≡◌, refl, [], ◌∷◌, none, some, ℕ_eq, nat_eq_iff, if◌then◌else◌, ◌==◌, Assoc, lookup,
  length, arith,
}
use swm_sched.Auxl.TimeCounter.{to_seconds}
use swm_sched.Auxl.TimeCounter.Records.{Fresh, IsUnique, Fresh-lookup}
use swm_sched.Auxl.TimeCounter.Periods.{none_on, without, unended}

pub none_on_iff : (on : Assoc ℕ ℕ) → none_on on ≡ (0 == length on)
none_on_iff [] = refl
none_on_iff (t ∷ on) = ground arith

pub length-without :
    (me tp : ℕ) (on : Assoc ℕ ℕ) → lookup me on ≡ some tp → length on ≡ suc (length (without me on))
length-without me tp [] l = ground arith
length-without me tp ((id, t) ∷ on) l = ground (arith, length-without me tp on)

pub unended-without :
    (x me tp : ℕ) (on : Assoc ℕ ℕ)
    → lookup me on ≡ some tp
    → unended x on ≡ to_seconds x tp + unended x (without me on)
unfolding unended
unended-without x me tp [] l = ground arith
unended-without x me tp ((id, t) ∷ on) l = ground (arith, unended-without x me tp on)

Fresh-without : (i me : ℕ) (on : Assoc ℕ ℕ) → Fresh i on → Fresh i (without me on)
Fresh-without i me [] f = tt
Fresh-without i me ((id, t) ∷ on) f = ground (arith, Fresh-without i me on f.1)

pub IsUnique-without : (me : ℕ) (on : Assoc ℕ ℕ) → IsUnique on → IsUnique (without me on)
IsUnique-without me [] u = tt
IsUnique-without me ((id, t) ∷ on) u =
    ground (arith, Fresh-without id me on u.0, IsUnique-without me on u.1)

pub lookup-without :
    (i me : ℕ) (on : Assoc ℕ ℕ)
    → IsUnique on
    → lookup i (without me on) ≡ (if i == me then none else lookup i on)
lookup-without i me [] u = ground arith
lookup-without i me ((id, t) ∷ on) u = ground (
  arith,
  nat_eq_iff me id,
  nat_eq_iff i id,
  nat_eq_iff i me,
  Fresh-lookup id on u.0,
  lookup-without i me on u.1,
)

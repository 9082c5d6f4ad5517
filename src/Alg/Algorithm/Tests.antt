-- ===== src/Alg/Algorithm/Tests.antt =====
-- Lives of an object of src/sched-lib/alg/algorithm.h.
use swm_sched.Prelude.{ℕ, ◌≡◌, refl, true, false, List, [], ◌∷◌, some, none}
use swm_sched.Alg.LibBinding.{
  Outcome, throws, gives, safe_call, create_context, release_context, construct_timetable,
  bind_to_compute_unit, creates, constructs, binds, releases,
}
use swm_sched.Alg.Algorithm.{new_algorithm, init, bind_to, create_timetable, destroy}
use swm_sched.Alg.Algorithm.Life.{
  Operation, inits, binds_to, creates_timetable, IsLife, apply, life, life-new,
}
use swm_sched.Alg.Algorithm.Timetable.{IsCounted, create_timetable-IsCounted}

-- A plugin that fails to give a context, and gives one at the second call; it throws for a compute
-- unit, and makes a table.
abbrev life_calls : List (Operation ℕ ℕ ℕ ℕ ℕ)
life_calls =
    inits (record { out = none; said = []; ends = gives false })
    ∷ inits (record { out = some 9; said = []; ends = gives true })
    ∷ inits (record { out = some 8; said = []; ends = gives true })
    ∷ binds_to (some 3) (record { out = tt; said = []; ends = throws "no unit" })
    ∷ creates_timetable (some 5) (some 6) (some tt)
        (record { out = some 2; said = []; ends = gives true })
    ∷ []

abbrev released : Outcome (Unit {0})
released = record { out = tt; said = []; ends = gives true }

made :
    life (λ table. table) life_calls released new_algorithm
    ≡ creates none ∷ creates (some 9) ∷ binds 9 3 ∷ constructs 9 5 (some 6) ∷ releases 9 ∷ []
unfolding life apply init create_context bind_to bind_to_compute_unit create_timetable
    construct_timetable destroy release_context safe_call
made = refl

life-new_example : IsLife (life (λ table. table) life_calls released new_algorithm)
life-new_example = life-new (λ table. table) life_calls released

create_timetable-IsCounted_example :
    IsCounted ℕ ℕ ℕ ℕ ℕ
      (λ table. table)
      (record { ctx = some 9; scheduled_jobs = 4 })
      (create_timetable
        (λ table. table)
        (some 5)
        (some 6)
        (some tt)
        (record { out = some 2; said = []; ends = gives true })
        (record { ctx = some 9; scheduled_jobs = 4 }))
create_timetable-IsCounted_example =
    create_timetable-IsCounted ℕ ℕ ℕ ℕ ℕ (λ table. table) (some 5) (some 6) (some tt)
      (record { out = some 2; said = []; ends = gives true })
      (record { ctx = some 9; scheduled_jobs = 4 })

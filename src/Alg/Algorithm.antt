-- ===== src/Alg/Algorithm.antt =====
-- src/sched-lib/alg/algorithm.{h,cpp}: one instance of a plugin's algorithm, from its creation to its
-- destruction. Of its metrics the count of scheduled jobs is kept, an `int32_t` as the word of
-- 32 bits that represents it; the metrics that the plugin itself writes are left out.
pub mod Life
pub mod Timetable
mod Tests
use swm_sched.Prelude.{
  ℕ, ◌+◌, ◌%◌, ◌^◌, Bool, true, false, String, List, [], ◌∷◌, ◌++◌, Option, none, some,
}
use swm_sched.Alg.LibBinding.{
  Outcome, AlgorithmError, no_timetable, Call, Called, create_context, release_context,
  construct_timetable, bind_to_compute_unit,
}
use swm_sched.Alg.LibBinding

pub record Algorithm {ℓ} (Ctx : Type ℓ) : Type ℓ where
  pub ctx : Option Ctx
  pub scheduled_jobs : ℕ

-- `update_scheduled_jobs`: the count is cast, and the sum is that of two words. Where the sum of two
-- `int32_t` overflows, which C++ leaves undefined, it wraps around.
abbrev pub add32 : ℕ → ℕ → ℕ
add32 a b = (a + b % 2 ^ 32) % 2 ^ 32

abbrev pub new_algorithm {ℓ} : {Ctx : Type ℓ} → Algorithm Ctx
new_algorithm = record { ctx = none; scheduled_jobs = 0 }

-- The object after a method, its result (`none` if it throws), its messages and the plugin's calls.
pub record Reply (Ctx Info Events Table ComputeUnit A : Type 0) : Type 0 where
  pub object : Algorithm Ctx
  pub result : Option (Bool × A)
  pub errors : List AlgorithmError
  pub calls : List (Call Ctx Info Events Table ComputeUnit)

-- `tables().size()` of a timetable.
module _ {Ctx Info Events Table ComputeUnit : Type 0} (tables_size : Table → ℕ) where
  abbrev pub throwing : {A : Type 0} → Algorithm Ctx → Reply Ctx Info Events Table ComputeUnit A
  throwing a = record { object = a; result = none; errors = []; calls = [] }

  -- What the method of the binding returns is returned.
  abbrev pub returning :
      {A : Type 0}
      → Algorithm Ctx
      → Option (Called Ctx Info Events Table ComputeUnit A)
      → Reply Ctx Info Events Table ComputeUnit A
  returning a none = throwing a
  returning a (some r) = record {
    object = a;
    result = some (r.succeeded, r.out);
    errors = r.errors;
    calls = r.call ∷ [];
  }

  unfoldable pub init :
      Outcome (Option Ctx) → Algorithm Ctx → Reply Ctx Info Events Table ComputeUnit (Unit {0})
  unfolding create_context
  init o a = elim a.ctx [
    | some ctx ↦ throwing a
    | none ↦
        let r = create_context o in
        record {
          object = record a { ctx = r.out };
          result = some (r.succeeded, tt);
          errors = r.errors;
          calls = r.call ∷ [];
        }
  ]

  unfoldable pub bind_to :
      Option ComputeUnit
      → Outcome (Unit {0})
      → Algorithm Ctx
      → Reply Ctx Info Events Table ComputeUnit (Unit {0})
  bind_to cu o a = elim a.ctx [
    | none ↦ throwing a
    | some ctx ↦ returning a (bind_to_compute_unit ctx cu o)
  ]

  -- The plugin has returned. Null pointers to the rest are refused by the binding's method, too.
  abbrev pub check_timetable :
      Algorithm Ctx
      → Called Ctx Info Events Table ComputeUnit (Option Table)
      → Reply Ctx Info Events Table ComputeUnit (Option Table)
  check_timetable a r = elim r.succeeded [
    | false ↦ record {
      object = a;
      result = some (false, r.out);
      errors = r.errors;
      calls = r.call ∷ [];
    }
    | true ↦ elim r.out [
      | none ↦ record {
        object = a;
        result = some (false, none);
        errors = r.errors ++ no_timetable ∷ [];
        calls = r.call ∷ [];
      }
      | some table ↦ record {
        object = record a { scheduled_jobs = add32 a.scheduled_jobs (tables_size table) };
        result = some (true, some table);
        errors = r.errors;
        calls = r.call ∷ [];
      }
    ]
  ]

  unfoldable pub create_timetable :
      Option Info
      → Option Events
      → Option (Unit {0})
      → Outcome (Option Table)
      → Algorithm Ctx
      → Reply Ctx Info Events Table ComputeUnit (Option Table)
  create_timetable info events table o a = elim a.ctx [
    | none ↦ throwing a
    | some ctx ↦ elim events [
      | none ↦ throwing a
      | some e ↦ elim (construct_timetable ctx info (some e) table o) [
        | none ↦ throwing a
        | some r ↦ check_timetable a r
      ]
    ]
  ]

  unfoldable pub improve_timetable :
      Option Table
      → Option Events
      → Option (Unit {0})
      → Outcome (Option Table)
      → Algorithm Ctx
      → Reply Ctx Info Events Table ComputeUnit (Option Table)
  improve_timetable old events table o a = elim a.ctx [
    | none ↦ throwing a
    | some ctx ↦ returning a (LibBinding.improve_timetable ctx old events table o)
  ]

  -- What the destructor calls. Its message goes to the log.
  unfoldable pub destroy :
      Outcome (Unit {0}) → Algorithm Ctx → List (Call Ctx Info Events Table ComputeUnit)
  unfolding release_context
  destroy o a = elim a.ctx [ none ↦ [] | some ctx ↦ (release_context ctx o).call ∷ [] ]

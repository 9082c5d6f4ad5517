-- ===== src/Alg/LibBinding.antt =====
-- src/sched-lib/alg/lib_binding.cpp: the calls of a plugin's functions. What a function of a plugin does in
-- a call is an argument, its `Outcome`; which calls are made with which arguments is listed. A context
-- is what the plugin gave (`void *`), and a pointer that may be null is an `Option`. The message that an
-- exception of this code carries is left out.
use swm_sched.Prelude.{Bool, false, String, List, [], ◌∷◌, ◌++◌, map, Option, none, some}

-- A call of a function of a plugin: it throws or returns, with messages in the stream, and leaves
-- something in the argument that it writes to.
pub data Ending : Type 0 where
  throws : String → Ending
  gives : Bool → Ending

pub record Outcome {ℓ} (A : Type ℓ) : Type ℓ where
  pub out : A
  pub said : List String
  pub ends : Ending

pub data AlgorithmError : Type 0 where
  from_plugin : String → AlgorithmError
  thrown_by_plugin : String → AlgorithmError
  no_timetable : AlgorithmError

-- The result and the messages.
unfoldable pub safe_call {ℓ} : {A : Type ℓ} → Outcome A → Bool × List AlgorithmError
safe_call o = elim o.ends [
  | gives b ↦ (b, map from_plugin o.said)
  | throws what ↦ (false, map from_plugin o.said ++ thrown_by_plugin what ∷ [])
]

-- The calls of the functions of a plugin; `creates` has the context that the call left.
pub data Call (Ctx Info Events Table ComputeUnit : Type 0) : Type 0 where
  creates : Option Ctx → Call Ctx Info Events Table ComputeUnit
  constructs : Ctx → Info → Option Events → Call Ctx Info Events Table ComputeUnit
  improves : Ctx → Table → Option Events → Call Ctx Info Events Table ComputeUnit
  binds : Ctx → ComputeUnit → Call Ctx Info Events Table ComputeUnit
  releases : Ctx → Call Ctx Info Events Table ComputeUnit

-- What a method of `LibBinding` returns, what it leaves in its argument, its messages and its call.
pub record Called (Ctx Info Events Table ComputeUnit A : Type 0) : Type 0 where
  pub succeeded : Bool
  pub out : A
  pub errors : List AlgorithmError
  pub call : Call Ctx Info Events Table ComputeUnit

module _ {Ctx Info Events Table ComputeUnit : Type 0} where
  abbrev pub called :
      {A : Type 0}
      → Outcome A
      → Call Ctx Info Events Table ComputeUnit
      → Called Ctx Info Events Table ComputeUnit A
  called o call =
      let (succeeded, errors) = safe_call o in
      record { succeeded = succeeded; out = o.out; errors = errors; call = call }

  -- The pointer `ctx` is that of a field.
  unfoldable pub create_context :
      Outcome (Option Ctx) → Called Ctx Info Events Table ComputeUnit (Option Ctx)
  create_context o = called o (creates o.out)

  unfoldable pub release_context :
      Ctx → Outcome (Unit {0}) → Called Ctx Info Events Table ComputeUnit (Unit {0})
  release_context ctx o = called o (releases ctx)

  -- In what follows `none` is an exception.
  unfoldable pub construct_timetable :
      Ctx
      → Option Info
      → Option Events
      → Option (Unit {0})
      → Outcome (Option Table)
      → Option (Called Ctx Info Events Table ComputeUnit (Option Table))
  construct_timetable ctx (some info) events (some table) o =
      some (called o (constructs ctx info events))
  construct_timetable ctx (some info) events none o = none
  construct_timetable ctx none events table o = none

  unfoldable pub improve_timetable :
      Ctx
      → Option Table
      → Option Events
      → Option (Unit {0})
      → Outcome (Option Table)
      → Option (Called Ctx Info Events Table ComputeUnit (Option Table))
  improve_timetable ctx (some old) events (some table) o = some (called o (improves ctx old events))
  improve_timetable ctx (some old) events none o = none
  improve_timetable ctx none events table o = none

  unfoldable pub bind_to_compute_unit :
      Ctx
      → Option ComputeUnit
      → Outcome (Unit {0})
      → Option (Called Ctx Info Events Table ComputeUnit (Unit {0}))
  bind_to_compute_unit ctx (some cu) o = some (called o (binds ctx cu))
  bind_to_compute_unit ctx none o = none

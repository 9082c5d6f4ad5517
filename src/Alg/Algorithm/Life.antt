-- ===== src/Alg/Algorithm/Life.antt =====
-- The calls of a plugin that the methods of src/sched-lib/alg/algorithm.h make in the life of an object.
use swm_sched.Prelude.{ℕ, Bool, true, false, List, [], ◌∷◌, ◌++◌, Option, none, some}
use swm_sched.Alg.LibBinding.{
  Outcome, AlgorithmError, safe_call, Call, creates, constructs, improves, binds, releases,
  create_context, release_context, construct_timetable, bind_to_compute_unit,
}
use swm_sched.Alg.LibBinding
use swm_sched.Alg.Algorithm.{
  Algorithm, new_algorithm, init, bind_to, add32, check_timetable, create_timetable,
  improve_timetable, destroy,
}

-- A call of a method, with what the plugin does if it is called.
pub data Operation (Ctx Info Events Table ComputeUnit : Type 0) : Type 0 where
  inits : Outcome (Option Ctx) → Operation Ctx Info Events Table ComputeUnit
  binds_to : Option ComputeUnit → Outcome (Unit {0}) → Operation Ctx Info Events Table ComputeUnit
  creates_timetable :
      Option Info
      → Option Events
      → Option (Unit {0})
      → Outcome (Option Table)
      → Operation Ctx Info Events Table ComputeUnit
  improves_timetable :
      Option Table
      → Option Events
      → Option (Unit {0})
      → Outcome (Option Table)
      → Operation Ctx Info Events Table ComputeUnit

module _ {Ctx Info Events Table ComputeUnit : Type 0} where
  -- The context is used, and released at the end.
  pub data AreUses (c : Ctx) : List (Call Ctx Info Events Table ComputeUnit) → Type 0 where
    released : AreUses c (releases c ∷ [])
    constructed :
        (i : Info) (e : Option Events) (ks : List (Call Ctx Info Events Table ComputeUnit))
        → AreUses c ks
        → AreUses c (constructs c i e ∷ ks)
    improved :
        (t : Table) (e : Option Events) (ks : List (Call Ctx Info Events Table ComputeUnit))
        → AreUses c ks
        → AreUses c (improves c t e ∷ ks)
    bound :
        (u : ComputeUnit) (ks : List (Call Ctx Info Events Table ComputeUnit))
        → AreUses c ks
        → AreUses c (binds c u ∷ ks)

  -- Contexts are asked for until there is one.
  pub data IsLife : List (Call Ctx Info Events Table ComputeUnit) → Type 0 where
    without : IsLife []
    failed :
        (ks : List (Call Ctx Info Events Table ComputeUnit))
        → IsLife ks
        → IsLife (creates none ∷ ks)
    created :
        (c : Ctx) (ks : List (Call Ctx Info Events Table ComputeUnit))
        → AreUses c ks
        → IsLife (creates (some c) ∷ ks)

module _ {Ctx Info Events Table ComputeUnit : Type 0} (tables_size : Table → ℕ) where
  -- The object and the calls of the plugin after a call of a method.
  unfoldable pub apply :
      Operation Ctx Info Events Table ComputeUnit
      → Algorithm Ctx
      → Algorithm Ctx × List (Call Ctx Info Events Table ComputeUnit)
  apply (inits o) a = let r = init tables_size o a in (r.object, r.calls)
  apply (binds_to cu o) a = let r = bind_to tables_size cu o a in (r.object, r.calls)
  apply (creates_timetable info events table o) a =
      let r = create_timetable tables_size info events table o a in (r.object, r.calls)
  apply (improves_timetable old events table o) a =
      let r = improve_timetable tables_size old events table o a in (r.object, r.calls)

  -- All calls of the plugin until the object is destroyed.
  unfoldable pub life :
      List (Operation Ctx Info Events Table ComputeUnit)
      → Outcome (Unit {0})
      → Algorithm Ctx
      → List (Call Ctx Info Events Table ComputeUnit)
  life [] o a = destroy tables_size o a
  life (op ∷ ops) o a = let (a', calls) = apply op a in calls ++ life ops o a'

  check_timetable-AreUses :
      (ops : List (Operation Ctx Info Events Table ComputeUnit)) (o : Outcome (Unit {0})) (c : Ctx)
      (jobs : ℕ) (i : Info) (e : Option Events) (succeeded : Bool) (out : Option Table)
      (errors : List AlgorithmError)
      → ((jobs : ℕ) → AreUses c (life ops o (record { ctx = some c; scheduled_jobs = jobs })))
      → let r =
          check_timetable tables_size
            (record { ctx = some c; scheduled_jobs = jobs })
            (record {
              succeeded = succeeded;
              out = out;
              errors = errors;
              call = constructs c i e;
            }) in
        AreUses c (r.calls ++ life ops o r.object)
  check_timetable-AreUses ops o c jobs i e false out errors h = constructed i e _ (h jobs)
  check_timetable-AreUses ops o c jobs i e true none errors h = constructed i e _ (h jobs)
  check_timetable-AreUses ops o c jobs i e true (some t) errors h =
      constructed i e _ (h (add32 jobs (tables_size t)))

  life-AreUses :
      (ops : List (Operation Ctx Info Events Table ComputeUnit)) (o : Outcome (Unit {0})) (c : Ctx)
      (jobs : ℕ)
      → AreUses c (life ops o (record { ctx = some c; scheduled_jobs = jobs }))
  unfolding life apply destroy release_context init bind_to bind_to_compute_unit create_timetable
      construct_timetable improve_timetable LibBinding.improve_timetable
  life-AreUses [] o c jobs = released
  life-AreUses (inits p ∷ ops) o c jobs = life-AreUses ops o c jobs
  life-AreUses (binds_to none p ∷ ops) o c jobs = life-AreUses ops o c jobs
  life-AreUses (binds_to (some u) p ∷ ops) o c jobs = bound u _ (life-AreUses ops o c jobs)
  life-AreUses (creates_timetable i none t p ∷ ops) o c jobs = life-AreUses ops o c jobs
  life-AreUses (creates_timetable none (some e) t p ∷ ops) o c jobs = life-AreUses ops o c jobs
  life-AreUses (creates_timetable (some i) (some e) none p ∷ ops) o c jobs =
      life-AreUses ops o c jobs
  life-AreUses (creates_timetable (some i) (some e) (some t) p ∷ ops) o c jobs =
      check_timetable-AreUses ops o c jobs i (some e) (safe_call p).0 p.out (safe_call p).1
        (life-AreUses ops o c)
  life-AreUses (improves_timetable none e t p ∷ ops) o c jobs = life-AreUses ops o c jobs
  life-AreUses (improves_timetable (some old) e none p ∷ ops) o c jobs = life-AreUses ops o c jobs
  life-AreUses (improves_timetable (some old) e (some t) p ∷ ops) o c jobs =
      improved old e _ (life-AreUses ops o c jobs)

  life-IsLife :
      (ops : List (Operation Ctx Info Events Table ComputeUnit)) (o : Outcome (Unit {0})) (jobs : ℕ)
      → IsLife (life ops o (record { ctx = none; scheduled_jobs = jobs }))
  unfolding life apply destroy init create_context bind_to create_timetable improve_timetable
  life-IsLife [] o jobs = without
  life-IsLife (inits p ∷ ops) o jobs =
      elim p.out
        as (λ out.
          IsLife (creates out ∷ life ops o (record { ctx = out; scheduled_jobs = jobs }))) [
            | none ↦ failed _ (life-IsLife ops o jobs)
            | some c ↦ created c _ (life-AreUses ops o c jobs)
          ]
  life-IsLife (binds_to cu p ∷ ops) o jobs = life-IsLife ops o jobs
  life-IsLife (creates_timetable i e t p ∷ ops) o jobs = life-IsLife ops o jobs
  life-IsLife (improves_timetable old e t p ∷ ops) o jobs = life-IsLife ops o jobs

  -- Whatever methods are called, in whatever order, and whatever the plugin does: the object asks the
  -- plugin for a context until it gets one, then uses this one in each call and releases it once, by the
  -- last call; without a context there is no other call of the plugin.
  pub life-new :
      (ops : List (Operation Ctx Info Events Table ComputeUnit)) (o : Outcome (Unit {0}))
      → IsLife (life ops o new_algorithm)
  life-new ops o = life-IsLife ops o 0

-- ===== src/Alg/Algorithm/Timetable.antt =====
-- What a timetable of create_timetable in src/sched-lib/alg/algorithm.cpp is.
use swm_sched.Prelude.{
  ap, ◌%◌, ◌^◌, ℕ, ◌+◌, ◌≡◌, ◌≢◌, refl, ◌⊎◌, inl, inr, Bool, true, false, List, Option, none, some,
  arith,
}
use swm_sched.Alg.LibBinding.{
  Outcome, AlgorithmError, Call, safe_call, constructs, construct_timetable,
}
use swm_sched.Alg.Algorithm.{add32, Algorithm, Reply, check_timetable, create_timetable}

mod-add-mod32 : (a b : ℕ) → add32 a b ≡ (a + b) % 2 ^ 32
mod-add-mod32 a b = omega arith

module _ (Ctx Info Events Table ComputeUnit : Type 0) (tables_size : Table → ℕ) where
  -- A table was made of which the jobs are counted, or the object stays and true is not returned.
  abbrev pub IsCounted :
      Algorithm Ctx → Reply Ctx Info Events Table ComputeUnit (Option Table) → Type 0
  IsCounted a r =
      ((table : Table) × (r.result ≡ some (true, some table))
        × (r.object
            ≡ record a { scheduled_jobs = (a.scheduled_jobs + tables_size table) % 2 ^ 32 }))
      ⊎ ((r.object ≡ a) × ((out : Option Table) → r.result ≢ some (true, out)))

  check_timetable-IsCounted :
      (a : Algorithm Ctx) (succeeded : Bool) (out : Option Table) (errors : List AlgorithmError)
      (call : Call Ctx Info Events Table ComputeUnit)
      → IsCounted a (
          check_timetable tables_size a
            (record { succeeded = succeeded; out = out; errors = errors; call = call }))
  check_timetable-IsCounted a false out errors call = inr (refl, λ o e. ground arith)
  check_timetable-IsCounted a true none errors call = inr (refl, λ o e. ground arith)
  check_timetable-IsCounted a true (some t) errors call = inl (
    t,
    refl,
    ap (λ n. record a { scheduled_jobs = n }) (mod-add-mod32 a.scheduled_jobs (tables_size t)),
  )

  create_timetable-at :
      (info : Option Info) (events : Option Events) (table : Option (Unit {0}))
      (o : Outcome (Option Table)) (ctx : Option Ctx) (jobs : ℕ)
      → let a : Algorithm Ctx = record { ctx = ctx; scheduled_jobs = jobs } in
        IsCounted a (create_timetable tables_size info events table o a)
  unfolding create_timetable construct_timetable
  create_timetable-at info events table o none j = inr (refl, λ o e. ground arith)
  create_timetable-at info none table o (some c) j = inr (refl, λ o e. ground arith)
  create_timetable-at none (some e) table o (some c) j = inr (refl, λ o e. ground arith)
  create_timetable-at (some i) (some e) none o (some c) j = inr (refl, λ o e. ground arith)
  create_timetable-at (some i) (some e) (some t) o (some c) j =
      check_timetable-IsCounted (record { ctx = some c; scheduled_jobs = j }) (safe_call o).0 o.out
        (safe_call o).1 (constructs c i (some e))

  -- Whatever the plugin does and whichever pointers are null: create_timetable returns true with a
  -- table, and the scheduled jobs are then their sum with the number of its tables, modulo 2 ^ 32; or it
  -- returns false or throws, and leaves the object as it is.
  pub create_timetable-IsCounted :
      (info : Option Info) (events : Option Events) (table : Option (Unit {0}))
      (o : Outcome (Option Table)) (a : Algorithm Ctx)
      → IsCounted a (create_timetable tables_size info events table o a)
  create_timetable-IsCounted info events table o a =
      create_timetable-at info events table o a.ctx a.scheduled_jobs

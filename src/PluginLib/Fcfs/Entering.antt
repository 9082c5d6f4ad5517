-- ===== src/PluginLib/Fcfs/Entering.antt =====
-- `enter_gang` of src/plugin-lib/fcfs_implementation.cpp: the gang of a job is entered, another left.
use swm_sched.Prelude.{
  ◌≤◌, ◌≡◌, refl, ◌⊎◌, inl, inr, String, String_eq, ℕ_eq, Bool, not, ◌&&◌, List, ◌∷◌, none, some,
  arith, if◌then◌else◌, ◌==◌, contains, Bool-cases,
}
use swm_sched.PluginLib.Entities.{EiBuffer, SwmJob}
use swm_sched.PluginLib.ExtendedRh.{ExtendedRh}
use swm_sched.PluginLib.Fcfs.Errors.{done, ◌>>=◌}
use swm_sched.PluginLib.Fcfs.Selection.{NodeRef}
use swm_sched.PluginLib.Fcfs.Schedule.{Loop, align_jobs, reset_gang, enter_gang}
use swm_sched.PluginLib.Fcfs.Plan.{IsPool}
use swm_sched.PluginLib.Fcfs.Progress.{
  Progress, rename-Progress, reset-Progress, align_jobs-Progress,
}

module _ (ei_buffer_to_str : EiBuffer → Bool × String) (pool : List NodeRef) (is_pool : IsPool pool)
    (rh : ExtendedRh) (jobs : List SwmJob) where
  abbrev Goes : List SwmJob → Loop → Type 0
  Goes = Progress ei_buffer_to_str pool rh jobs

  -- The gang that is left is aligned if it has a name.
  leave-Progress :
      (rem : List SwmJob) (name : String) (l : Loop) (p : Goes rem l)
      → (e : Loop) × (((if l.gang_id == "" then done l else align_jobs l) >>= λ a.
            done (some (record (reset_gang a) { gang_id = name })))
          ≡ done (some e))
        × ((q : Goes rem e) × (p.m ≤ q.m))
  leave-Progress rem name l p = elim (Bool-cases (l.gang_id == "")) [
    | inl nameless ↦
        let (q, le) = reset-Progress ei_buffer_to_str pool is_pool rh jobs rem l p in
        let (r, le') =
          rename-Progress ei_buffer_to_str pool is_pool rh jobs rem (reset_gang l) name
            l.known_gang_ids l.errors q in
        (record (reset_gang l) { gang_id = name }, rw nameless refl, (r, omega (arith, le, le')))
    | inr named ↦
        let (a, e, (q, le)) = align_jobs-Progress ei_buffer_to_str pool is_pool rh jobs rem l p in
        let (r, le') =
          rename-Progress ei_buffer_to_str pool is_pool rh jobs rem (reset_gang a) name
            a.known_gang_ids a.errors q in
        (record (reset_gang a) { gang_id = name }, rw (named, e) refl, (r, omega (arith, le, le')))
  ]

  -- `enter_gang` returns, and leaves a gang only after it has been aligned.
  pub enter_gang-Progress :
      (job : SwmJob) (rem : List SwmJob) (l : Loop) (p : Goes rem l)
      → (enter_gang job l ≡ done none)
        ⊎ ((e : Loop) × (enter_gang job l ≡ done (some e)) × ((q : Goes rem e) × (p.m ≤ q.m)))
  unfolding enter_gang
  enter_gang-Progress job rem l p = elim (Bool-cases (job.gang_id == l.gang_id)) [
    | inl same ↦ elim (Bool-cases (job.gang_id == "")) [
      | inl nameless ↦ inr (
        reset_gang l,
        rw (same, nameless, enter_gang) refl,
        reset-Progress ei_buffer_to_str pool is_pool rh jobs rem l p,
      )
      | inr named ↦ inr (l, rw (same, named, enter_gang) refl, (p, omega arith))
    ]
    | inr other ↦
        elim (Bool-cases (not (job.gang_id == "") && contains job.gang_id l.known_gang_ids)) [
          | inl known ↦ inl (rw (other, known, enter_gang) refl)
          | inr new ↦ elim (Bool-cases (job.gang_id == "")) [
            | inl nameless ↦
                let (e, eq, qs) = leave-Progress rem job.gang_id l p in
                inr (e, rw (other, new, nameless, enter_gang) eq, qs)
            | inr named ↦
                let k = record l { known_gang_ids = job.gang_id ∷ l.known_gang_ids } in
                let (p', le) =
                  rename-Progress ei_buffer_to_str pool is_pool rh jobs rem l l.gang_id
                    k.known_gang_ids l.errors p in
                let (e, eq, (q, le')) = leave-Progress rem job.gang_id k p' in
                inr (e, rw (other, new, named, enter_gang) eq, (q, omega (arith, le, le')))
          ]
        ]
  ]

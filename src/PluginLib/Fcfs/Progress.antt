-- ===== src/PluginLib/Fcfs/Progress.antt =====
-- How far the loop of `schedule` in src/plugin-lib/fcfs_implementation.cpp has come.
use swm_sched.Prelude.{
  ℕ, suc, ◌+◌, ◌*◌, ◌^◌, ◌≤◌, ◌<◌, Bool, ◌≡◌, refl, sym, ap, ◌∙◌, String, String_eq, ℕ_eq, List, [],
  ◌∷◌, ◌++◌, map, arith, length, length-append, total, total-append, All, All-append,
}
use swm_sched.PluginLib.Entities.{EiBuffer, SwmJob, SwmTimetable}
use swm_sched.PluginLib.ExtendedRh.{ExtendedRh}
use swm_sched.PluginLib.Fcfs.Errors.{done, ◌>>=◌}
use swm_sched.PluginLib.Fcfs.Selection.{NodeRef}
use swm_sched.PluginLib.Fcfs.Schedule.{
  Loop, resort, clusters_of, shift_jobs, align_jobs, reset_gang,
}
use swm_sched.PluginLib.Fcfs.History.{Run, Served, tt_of, aligned, refs}
use swm_sched.PluginLib.Fcfs.Shift.{shift_jobs-tts, shift_jobs-same}
use swm_sched.PluginLib.Fcfs.Plan.{IsPool, durations, Plan, settle-Plan}
use swm_sched.PluginLib.Fcfs.Aligning.{aligned-Plan}

abbrev pub job_durations : List SwmJob → ℕ
job_durations = total (λ j. j.duration)

abbrev pub weight : (SwmJob → ℕ) → List Run → ℕ
weight w = total (λ r. w r.job)

-- The state with the jobs `rem` to go, out of `jobs`.
pub record Progress (ei_buffer_to_str : EiBuffer → Bool × String) (pool : List NodeRef)
    (rh : ExtendedRh) (jobs rem : List SwmJob) (l : Loop) : Type 0 where
  pub settled : List Run
  pub gang : List Run
  pub rest : List SwmTimetable
  pub m : ℕ
  pub plan : Plan pool settled gang m l.fcfs l.jobs_to_endtimes l.gang_nodes l.gang_start_time
  pub same_rh : l.fcfs.rh ≡ rh
  pub tts : l.tts ≡ map tt_of settled ++ (map tt_of gang ++ rest)
  pub room : length rem ≤ length rest
  pub number : l.tt_number ≡ length settled + length gang
  pub gang_jobs : l.gang_jobs ≡ refs (length settled) gang
  pub budget : m + durations gang + 2 * job_durations rem < 2 ^ 64
  pub settled_served : All (Served ei_buffer_to_str) settled
  pub gang_served : All (Served ei_buffer_to_str) gang
  pub from_jobs : (w : SwmJob → ℕ) → weight w settled + weight w gang + total w rem ≤ total w jobs

pub map-split :
    (ss gs : List Run) (rest : List SwmTimetable)
    → map tt_of (ss ++ gs) ++ rest ≡ map tt_of ss ++ (map tt_of gs ++ rest)
map-split [] gs rest = refl
map-split (s ∷ ss) gs rest = ap (◌∷◌ (tt_of s)) (map-split ss gs rest)

pub length-tts : (ss : List Run) → length (map tt_of ss) ≡ length ss
length-tts [] = refl
length-tts (s ∷ ss) = ap suc (length-tts ss)

weight-aligned : (w : SwmJob → ℕ) (t : ℕ) (gs : List Run) → weight w (aligned t gs) ≡ weight w gs
weight-aligned w t [] = refl
weight-aligned w t (g ∷ gs) = omega (arith, weight-aligned w t gs)

aligned-Served :
    (ei_buffer_to_str : EiBuffer → Bool × String) (t : ℕ) (gs : List Run)
    → All (Served ei_buffer_to_str) gs
    → All (Served ei_buffer_to_str) (aligned t gs)
aligned-Served ei_buffer_to_str t [] h = tt
aligned-Served ei_buffer_to_str t (g ∷ gs) h = (h.0, aligned-Served ei_buffer_to_str t gs h.1)

length-aligned : (t : ℕ) (gs : List Run) → length (aligned t gs) ≡ length gs
length-aligned t [] = refl
length-aligned t (g ∷ gs) = ap suc (length-aligned t gs)

module _ (ei_buffer_to_str : EiBuffer → Bool × String) (pool : List NodeRef) (is_pool : IsPool pool)
    (rh : ExtendedRh) (jobs : List SwmJob) where
  -- A job that is passed over.
  pub skip-Progress :
      (job : SwmJob) (rem : List SwmJob) (l : Loop)
      → Progress ei_buffer_to_str pool rh jobs (job ∷ rem) l
      → Progress ei_buffer_to_str pool rh jobs rem l
  skip-Progress job rem l p = record {
    settled = p.settled;
    gang = p.gang;
    rest = p.rest;
    m = p.m;
    plan = p.plan;
    same_rh = p.same_rh;
    tts = p.tts;
    room = omega (arith, p.room);
    number = p.number;
    gang_jobs = p.gang_jobs;
    budget = omega (arith, p.budget);
    settled_served = p.settled_served;
    gang_served = p.gang_served;
    from_jobs = λ w. omega (arith, p.from_jobs w);
  }

  -- The gang's name, the names that are known and the messages do not matter.
  pub rename-Progress :
      (rem : List SwmJob) (l : Loop) (name : String) (names : List String) (errors : _)
      → (p : Progress ei_buffer_to_str pool rh jobs rem l)
      → (q : Progress ei_buffer_to_str pool rh jobs rem
          (record l { gang_id = name; known_gang_ids = names; errors = errors }))
        × (p.m ≤ q.m)
  rename-Progress rem l name names errors p = (
    record {
      settled = p.settled;
      gang = p.gang;
      rest = p.rest;
      m = p.m;
      plan = p.plan;
      same_rh = p.same_rh;
      tts = p.tts;
      room = p.room;
      number = p.number;
      gang_jobs = p.gang_jobs;
      budget = p.budget;
      settled_served = p.settled_served;
      gang_served = p.gang_served;
      from_jobs = p.from_jobs;
    },
    omega arith,
  )

  -- A gang that is left as it is.
  pub reset-Progress :
      (rem : List SwmJob) (l : Loop) (p : Progress ei_buffer_to_str pool rh jobs rem l)
      → (q : Progress ei_buffer_to_str pool rh jobs rem (reset_gang l)) × (p.m ≤ q.m)
  reset-Progress rem l p = (
    record {
      settled = p.settled ++ p.gang;
      gang = [];
      rest = p.rest;
      m = p.m;
      plan =
          settle-Plan pool p.settled p.gang p.m l.fcfs l.jobs_to_endtimes l.gang_nodes
            l.gang_start_time p.plan;
      same_rh = p.same_rh;
      tts = p.tts ∙ sym (map-split p.settled p.gang p.rest);
      room = p.room;
      number = omega (arith, p.number, length-append p.settled p.gang);
      gang_jobs = refl;
      budget = omega (arith, p.budget);
      settled_served =
          All-append (Served ei_buffer_to_str) p.settled p.gang p.settled_served p.gang_served;
      gang_served = tt;
      from_jobs =
          λ w. omega (arith, p.from_jobs w, total-append (λ (r : Run). w r.job) p.settled p.gang);
    },
    omega arith,
  )

  -- A gang that is aligned.
  pub align_jobs-Progress :
      (rem : List SwmJob) (l : Loop) (p : Progress ei_buffer_to_str pool rh jobs rem l)
      → (a : Loop) × (align_jobs l ≡ done a)
        × ((q : Progress ei_buffer_to_str pool rh jobs rem (reset_gang a)) × (p.m ≤ q.m))
  unfolding align_jobs
  align_jobs-Progress rem l p =
      let fits : p.m + durations p.gang < 2 ^ 64 = omega (arith, p.budget) in
      let n = length p.settled in
      let shifted = shift_jobs l.gang_start_time (refs n p.gang) l in
      let (f, sorted, same_rh, plan) =
        aligned-Plan pool is_pool p.settled p.gang p.m n l p.plan fits in
      let moved = aligned l.gang_start_time p.gang in
      (
        record shifted { fcfs = f },
        ap
              (λ jrs. resort (clusters_of jrs) (shift_jobs l.gang_start_time jrs l).fcfs >>= λ g.
                done (record (shift_jobs l.gang_start_time jrs l) { fcfs = g }))
              p.gang_jobs
            ∙ ap (λ o. o >>= λ g. done (record shifted { fcfs = g })) sorted,
        (
          record {
            settled = p.settled ++ moved;
            gang = [];
            rest = p.rest;
            m = p.m + durations p.gang;
            plan = plan;
            same_rh = same_rh ∙ p.same_rh;
            tts =
                shift_jobs-tts l.gang_start_time n (map tt_of p.settled) p.gang p.rest l
                  (length-tts p.settled) p.tts
                ∙ sym (map-split p.settled moved p.rest);
            room = p.room;
            number = omega (
              arith,
              p.number,
              length-append p.settled moved,
              length-aligned l.gang_start_time p.gang,
              (shift_jobs-same l.gang_start_time (refs n p.gang) l).2,
            );
            gang_jobs = refl;
            budget = omega (arith, p.budget);
            settled_served =
                All-append (Served ei_buffer_to_str) p.settled moved p.settled_served
                  (aligned-Served ei_buffer_to_str l.gang_start_time p.gang p.gang_served);
            gang_served = tt;
            from_jobs = λ w. omega (
              arith,
              p.from_jobs w,
              total-append (λ (r : Run). w r.job) p.settled moved,
              weight-aligned w l.gang_start_time p.gang,
            );
          },
          omega arith,
        ),
      )

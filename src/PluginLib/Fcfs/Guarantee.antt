-- ===== src/PluginLib/Fcfs/Guarantee.antt =====
-- What `schedule` of src/plugin-lib/fcfs_implementation.cpp returns.
use mathlib.Core.List.{append-nil}
use swm_sched.Prelude.{
  ℕ, ◌+◌, ◌-◌, ◌*◌, ◌^◌, ◌≤◌, ◌<◌, ◌≡◌, refl, sym, ap, ◌∙◌, ◌⊎◌, inl, inr, String, String_eq, ℕ_eq,
  Bool, true, false, List, [], ◌∷◌, ◌++◌, map, arith, if◌then◌else◌, ◌==◌, length, length-append,
  length-replicate, length-take, length-sort, take, replicate, Elem, Bool-cases, total,
  total-append, total-sort, All, All-append,
}
use swm_sched.PluginLib.Entities.{EiBuffer, SwmJob, SwmTimetable}
use swm_sched.PluginLib.ExtendedRh.{ExtendedRh}
use swm_sched.PluginLib.Fcfs.Errors.{done, interrupted}
use swm_sched.PluginLib.Fcfs.Selection.{NodeRef}
use swm_sched.PluginLib.Fcfs.Single.{Fcfs}
use swm_sched.PluginLib.Fcfs.Schedule.{
  Loop, align_jobs, reset_gang, resize, blank_timetable, sorted_jobs, goes_before, visit_jobs,
  schedule,
}
use swm_sched.PluginLib.Fcfs.Returns.{Placeable}
use swm_sched.PluginLib.Fcfs.History.{Run, Served, tt_of, Ordered, take-append}
use swm_sched.PluginLib.Fcfs.Plan.{IsPool, FromPool, settle-Plan}
use swm_sched.PluginLib.Fcfs.Progress.{
  Progress, map-split, length-tts, job_durations, weight, skip-Progress, reset-Progress,
  align_jobs-Progress,
}
use swm_sched.PluginLib.Fcfs.Rounds.{visit_job-Progress}

-- A result: the runs behind the timetables are ordered on each node, have as many nodes as their
-- jobs' requests count, which suit the jobs, and are of different jobs.
pub record IsSchedule (ei_buffer_to_str : EiBuffer → Bool × String) (jobs : List SwmJob)
    (tts : List SwmTimetable) : Type 0 where
  pub runs : List Run
  pub same : tts ≡ map tt_of runs
  pub ordered : Ordered runs
  pub served : All (Served ei_buffer_to_str) runs
  pub once : (w : SwmJob → ℕ) → weight w runs ≤ total w jobs

-- The object after `init`.
pub record IsFresh (pool : List NodeRef) (f : Fcfs) : Type 0 where
  pub is_pool : IsPool pool
  pub vectors : FromPool pool f.nodes_per_cluster
  pub holds : (x : NodeRef) → Elem x pool → Placeable f.rh x
  pub free : (r : ℕ) → f.when_free r ≡ 0

length-resize : (n : ℕ) (tts : List SwmTimetable) → length (resize n tts) ≡ n
length-resize n tts = omega (
  arith,
  length-append (take n tts) (replicate (n - length tts) blank_timetable),
  length-take n tts,
  length-replicate (n - length tts) blank_timetable,
)

resize-append : (n : ℕ) (xs ys : List SwmTimetable) → n ≡ length xs → resize n (xs ++ ys) ≡ xs
resize-append n xs ys e =
    let none_missing : n - length (xs ++ ys) ≡ 0 = omega (arith, e, length-append xs ys) in
    rw (none_missing, e, take-append xs ys) (append-nil xs)

total-sorted_jobs :
    (w : SwmJob → ℕ) (ignore_priorities : Bool) (jobs : List SwmJob)
    → total w (sorted_jobs ignore_priorities jobs) ≡ total w jobs
unfolding sorted_jobs
total-sorted_jobs w true jobs = refl
total-sorted_jobs w false jobs = total-sort goes_before w jobs

length-sorted_jobs :
    (ignore_priorities : Bool) (jobs : List SwmJob)
    → length (sorted_jobs ignore_priorities jobs) ≡ length jobs
unfolding sorted_jobs
length-sorted_jobs true jobs = refl
length-sorted_jobs false jobs = length-sort goes_before jobs

module _ (ei_buffer_to_str : EiBuffer → Bool × String) (pool : List NodeRef) (is_pool : IsPool pool)
    (rh : ExtendedRh) (jobs : List SwmJob) (holds : (x : NodeRef) → Elem x pool → Placeable rh x)
    (forced : ℕ → Bool) where
  visit_jobs-Progress :
      (i : ℕ) (rem : List SwmJob) (l : Loop)
      → Progress ei_buffer_to_str pool rh jobs rem l
      → ((visit_jobs ei_buffer_to_str forced i rem l ≡ interrupted)
          × ((k : ℕ) × (k < i + length rem) × (forced k ≡ true)))
        ⊎ ((e : Loop) × (visit_jobs ei_buffer_to_str forced i rem l ≡ done e)
            × Progress ei_buffer_to_str pool rh jobs [] e)
  unfolding visit_jobs
  visit_jobs-Progress i [] l p = inr (l, refl, p)
  visit_jobs-Progress i (job ∷ rem) l p = elim (Bool-cases (forced i)) [
    | inl stop ↦ inl (rw (stop, visit_jobs) refl, (i, omega arith, stop))
    | inr go ↦ elim (Bool-cases (job.state == "Q")) [
      | inl queued ↦
          let (e, visited, q) =
            visit_job-Progress ei_buffer_to_str pool is_pool rh jobs holds job rem l p in
          elim (visit_jobs-Progress (i + 1) rem e q) [
            | inl (s, (k, lt, at)) ↦
                inl (rw (go, queued, visited, visit_jobs) s, (k, omega (arith, lt), at))
            | inr (last, s, r) ↦ inr (last, rw (go, queued, visited, visit_jobs) s, r)
          ]
      | inr other ↦
          elim (visit_jobs-Progress (i + 1) rem l
            (skip-Progress ei_buffer_to_str pool is_pool rh jobs job rem l p)) [
              | inl (s, (k, lt, at)) ↦
                  inl (rw (go, other, visit_jobs) s, (k, omega (arith, lt), at))
              | inr (last, s, r) ↦ inr (last, rw (go, other, visit_jobs) s, r)
            ]
    ]
  ]

  -- What follows the loop.
  finish-IsSchedule :
      (l : Loop)
      → Progress ei_buffer_to_str pool rh jobs [] l
      → (e : Loop) × ((if l.gang_id == "" then done l else align_jobs l) ≡ done e)
        × IsSchedule ei_buffer_to_str jobs (resize e.tt_number e.tts)
  finish-IsSchedule l p = elim (Bool-cases (l.gang_id == "")) [
    | inl nameless ↦ (
      l,
      rw nameless refl,
      of_reset l (reset-Progress ei_buffer_to_str pool is_pool rh jobs [] l p).0,
    )
    | inr named ↦
        let (a, e, (q, le)) = align_jobs-Progress ei_buffer_to_str pool is_pool rh jobs [] l p in
        (a, rw (named, e) refl, of_reset a q)
  ]
    where
      of_reset :
          (a : Loop)
          → Progress ei_buffer_to_str pool rh jobs [] (reset_gang a)
          → IsSchedule ei_buffer_to_str jobs (resize a.tt_number a.tts)
      of_reset a q =
          let runs = q.settled ++ q.gang in
          let number : a.tt_number ≡ length (map tt_of runs) =
            omega (arith, q.number, length-tts runs, length-append q.settled q.gang) in
          record {
            runs = runs;
            same =
                ap (resize a.tt_number) (q.tts ∙ sym (map-split q.settled q.gang q.rest))
                ∙ resize-append a.tt_number (map tt_of runs) q.rest number;
            ordered =
                (settle-Plan pool q.settled q.gang q.m a.fcfs a.jobs_to_endtimes [] 0
                  q.plan).ordered;
            served =
                All-append (Served ei_buffer_to_str) q.settled q.gang q.settled_served
                  q.gang_served;
            once = λ w.
                omega (arith, q.from_jobs w, total-append (λ (r : Run). w r.job) q.settled q.gang);
          }

-- On an object after `init`, with durations whose double sum fits in 64 bits: `schedule` throws no
-- exception. Either it is interrupted, and was told so, or it returns the timetables of runs of
-- different jobs, each on as many nodes as its job's request counts, all suitable for the job, among
-- which a run that shares a node with a later one of the result has ended when that one starts.
pub schedule-IsSchedule :
    (ei_buffer_to_str : EiBuffer → Bool × String) (forced : ℕ → Bool) (jobs : List SwmJob)
    (tts : List SwmTimetable) (ignore_priorities : Bool) (f : Fcfs) (pool : List NodeRef)
    → IsFresh pool f
    → 2 * job_durations jobs < 2 ^ 64
    → ((schedule ei_buffer_to_str forced jobs tts ignore_priorities f ≡ interrupted)
        × ((k : ℕ) × (k < length jobs) × (forced k ≡ true)))
      ⊎ ((planned : List SwmTimetable) × (g : Fcfs) × (schedule ei_buffer_to_str forced jobs tts
              ignore_priorities f
            ≡ done (planned, g))
          × IsSchedule ei_buffer_to_str jobs planned)
unfolding schedule
schedule-IsSchedule ei_buffer_to_str forced jobs tts ignore_priorities f pool fresh fits =
    let queue = sorted_jobs ignore_priorities jobs in
    elim (visit_jobs-Progress ei_buffer_to_str pool fresh.is_pool f.rh queue fresh.holds forced 0
      queue _
      (start-Progress queue
        (omega (arith, total-sorted_jobs (λ j. j.duration) ignore_priorities jobs, fits)))) [
          | inl (s, (k, lt, at)) ↦
              inl (rw s refl, (k, omega (arith, lt, length-sorted_jobs ignore_priorities jobs), at))
          | inr (l, s, p) ↦
              let (e, left, planned) =
                finish-IsSchedule ei_buffer_to_str pool fresh.is_pool f.rh queue fresh.holds forced
                  l p in
              inr (
                resize e.tt_number e.tts,
                e.fcfs,
                rw (s, left) refl,
                record {
                  runs = planned.runs;
                  same = planned.same;
                  ordered = planned.ordered;
                  served = planned.served;
                  once = λ w.
                      omega (arith, planned.once w, total-sorted_jobs w ignore_priorities jobs);
                },
              )
        ]
  where
    start-Progress :
        (queue : List SwmJob)
        → 2 * job_durations queue < 2 ^ 64
        → Progress ei_buffer_to_str pool f.rh queue queue (record {
          fcfs = f;
          jobs_to_endtimes = [];
          gang_id = "";
          known_gang_ids = [];
          gang_nodes = [];
          gang_jobs = [];
          gang_start_time = 0;
          tts = resize (length queue) tts;
          tt_number = 0;
          errors = [];
        })
    start-Progress queue small = record {
      settled = [];
      gang = [];
      rest = resize (length queue) tts;
      m = 0;
      plan = record {
        vectors = fresh.vectors;
        clusters = λ g k. absurd k;
        from_pool = λ r x k. absurd k;
        ordered = tt;
        cross = λ r s k. absurd k;
        apart = tt;
        early = λ g k. absurd k;
        taken = λ g x k. absurd k;
        free = λ r x k. absurd k;
        times = λ r. omega (arith, fresh.free r);
        ends = λ k t e. ground arith;
        gang_bound = omega arith;
      };
      same_rh = refl;
      tts = refl;
      room = omega (arith, length-resize (length queue) tts);
      number = omega arith;
      gang_jobs = refl;
      budget = omega (arith, small);
      settled_served = tt;
      gang_served = tt;
      from_jobs = λ w. omega arith;
    }

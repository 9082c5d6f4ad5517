-- ===== src/PluginLib/Fcfs/Rounds.antt =====
-- The rounds of the loop of `schedule` in src/plugin-lib/fcfs_implementation.cpp.
use swm_sched.Prelude.{
  ℕ, suc, ◌+◌, ◌≤◌, ◌≡◌, refl, sym, ap, ◌∙◌, inl, inr, max, String, String_eq, ℕ_eq, Bool, List, [],
  ◌∷◌, ◌++◌, map, some, Option-cases, arith, length, length-append, Elem, lookup, Assoc, subst,
  total-append, All-append, set, get_or, All, All-of, All-mono,
}
use swm_sched.PluginLib.Entities.{EiBuffer, SwmJob, SwmTimetable}
use swm_sched.PluginLib.ExtendedRh.{ExtendedRh}
use swm_sched.PluginLib.Fcfs.Errors.{done}
use swm_sched.PluginLib.Fcfs.Selection.{NodeRef}
use swm_sched.PluginLib.Fcfs.Single.{Fcfs, Placed, schedule_single_job}
use swm_sched.PluginLib.Fcfs.Schedule.{
  Loop, dependency_threshold, set_job_id, blank_timetable, register, try_job, visit_job,
}
use swm_sched.PluginLib.Fcfs.Placing.{IsPlacement, schedule_single_job-IsPlacement}
use swm_sched.PluginLib.Fcfs.Returns.{Placeable, schedule_single_job-done}
use swm_sched.PluginLib.Fcfs.History.{Run, Served, tt_of, refs, refs-snoc, set-append}
use swm_sched.PluginLib.Fcfs.Plan.{IsPool}
use swm_sched.PluginLib.Fcfs.Progress.{
  Progress, map-split, length-tts, skip-Progress, rename-Progress,
}
use swm_sched.PluginLib.Fcfs.Adding.{add-Plan}
use swm_sched.PluginLib.Fcfs.Entering.{enter_gang-Progress}

-- A job that was scheduled is served.
placement-Served :
    (ei_buffer_to_str : EiBuffer → Bool × String) (f : Fcfs) (job : SwmJob) (threshold : ℕ)
    (busy_nodes : List String) (node_num : ℕ) (nodes : List NodeRef) (placed : Placed)
    → IsPlacement ei_buffer_to_str f job threshold busy_nodes node_num nodes placed
    → Served ei_buffer_to_str
        (record { job = job; start = placed.tt.start_time; nodes = placed.nodes })
placement-Served ei_buffer_to_str f job threshold busy_nodes node_num nodes placed i = (
  i.requested.0,
  i.requested.1,
  i.requested.2 ∙ sym i.enough,
  All-mono _ _ placed.nodes
      (λ nr s. record {
        not_busy = refl;
        not_owned = s.not_owned;
        provides_all = s.provides_all;
        as_preset = s.as_preset;
      })
      i.suitable,
)

-- A write at the first free place of the result.
set-next :
    (ss gs : List Run) (n : ℕ) (y v : SwmTimetable) (ys : List SwmTimetable)
    → n ≡ length ss + length gs
    → set (map tt_of ss ++ (map tt_of gs ++ y ∷ ys)) n v ≡ map tt_of ss ++ (map tt_of gs ++ v ∷ ys)
set-next ss gs n y v ys e =
    let at : n ≡ length (map tt_of (ss ++ gs)) =
      omega (arith, e, length-tts (ss ++ gs), length-append ss gs) in
    rw (← map-split ss gs (y ∷ ys), ← map-split ss gs (v ∷ ys), at)
      (set-append (map tt_of (ss ++ gs)) y v ys)

next_place :
    {A : Type 0} (n : ℕ) (ys : List A) → suc n ≤ length ys → (z : A) × (zs : List A) × (ys ≡ z ∷ zs)
next_place n [] h = absurd (omega (arith, h))
next_place n (z ∷ zs) h = (z, zs, refl)

-- The threshold is one of the times that are bounded.
threshold-le :
    (endtimes : Assoc String ℕ) (deps : List (String × String)) (start m threshold : ℕ)
    → start ≤ m
    → ((k : String) (t : ℕ) → lookup k endtimes ≡ some t → t ≤ m)
    → dependency_threshold endtimes deps start ≡ some threshold
    → threshold ≤ m
unfolding dependency_threshold
threshold-le endtimes [] start m threshold h b e = ground arith
threshold-le endtimes ((kind, dep) ∷ deps) start m threshold h b e =
    elim (Option-cases (lookup dep endtimes)) [
      | inl missing ↦ absurd (ground arith)
      | inr (t, found) ↦
          threshold-le endtimes deps (max start t) m threshold (omega (arith, b dep t found)) b
            (rw (found, dependency_threshold) at e)
    ]

module _ (ei_buffer_to_str : EiBuffer → Bool × String) (pool : List NodeRef) (is_pool : IsPool pool)
    (rh : ExtendedRh) (jobs : List SwmJob) where
  abbrev Goes : List SwmJob → Loop → Type 0
  Goes = Progress ei_buffer_to_str pool rh jobs

  named-Progress :
      (job : SwmJob) (rem : List SwmJob) (v : SwmTimetable) (l : Loop) (p : Goes (job ∷ rem) l)
      → (q : Goes (job ∷ rem) (record l { tts = set l.tts l.tt_number v })) × (p.m ≤ q.m)
  named-Progress job rem v l p =
      let (y, ys, e) = next_place (length rem) p.rest p.room in
      (
        record {
          settled = p.settled;
          gang = p.gang;
          rest = v ∷ ys;
          m = p.m;
          plan = p.plan;
          same_rh = p.same_rh;
          tts =
              ap (λ k. set k l.tt_number v)
                (p.tts ∙ ap (λ k. map tt_of p.settled ++ (map tt_of p.gang ++ k)) e)
              ∙ set-next p.settled p.gang l.tt_number y v ys p.number;
          room = omega (arith, p.room, ap length e);
          number = p.number;
          gang_jobs = p.gang_jobs;
          budget = p.budget;
          settled_served = p.settled_served;
          gang_served = p.gang_served;
          from_jobs = p.from_jobs;
        },
        omega arith,
      )

  register-Progress :
      (job : SwmJob) (rem : List SwmJob) (l : Loop) (threshold node_num : ℕ) (nodes : List NodeRef)
      (placed : Placed) (p : Goes (job ∷ rem) l)
      → threshold ≤ p.m
      → IsPlacement ei_buffer_to_str l.fcfs job threshold l.gang_nodes node_num nodes placed
      → Goes rem (register ei_buffer_to_str job l placed)
  register-Progress job rem l threshold node_num nodes placed p le i =
      let run : Run = record { job = job; start = placed.tt.start_time; nodes = placed.nodes } in
      let (y, ys, e) = next_place (length rem) p.rest p.room in
      let same_tt : placed.tt ≡ tt_of run = λ k. record {
        job_id = i.job_id k;
        start_time = placed.tt.start_time;
        job_nodes = i.job_nodes k;
      } in
      record {
        settled = p.settled;
        gang = p.gang ++ run ∷ [];
        rest = ys;
        m = p.m + job.duration;
        plan =
            add-Plan ei_buffer_to_str pool is_pool p.settled p.gang p.m l.fcfs l.jobs_to_endtimes
              l.gang_nodes l.gang_start_time p.plan job threshold node_num nodes placed le
              (omega (arith, p.budget)) i;
        same_rh = i.same_rh ∙ p.same_rh;
        tts =
            ap (λ k. set k l.tt_number placed.tt)
              (p.tts ∙ ap (λ k. map tt_of p.settled ++ (map tt_of p.gang ++ k)) e)
            ∙ set-next p.settled p.gang l.tt_number y placed.tt ys p.number
            ∙ ap (λ v. map tt_of p.settled ++ (map tt_of p.gang ++ v ∷ ys)) same_tt
            ∙ ap (λ k. map tt_of p.settled ++ k) (sym (map-split p.gang (run ∷ []) ys));
        room = omega (arith, p.room, ap length e);
        number = omega (arith, p.number, length-append p.gang (run ∷ []));
        gang_jobs =
            ap (λ k. k ++ record { tt = l.tt_number; job = job; nodes = placed.nodes } ∷ [])
              p.gang_jobs
            ∙ ap
                (λ k.
                  refs (length p.settled) p.gang
                  ++ record { tt = k; job = job; nodes = placed.nodes } ∷ [])
                p.number
            ∙ sym (refs-snoc (length p.settled) p.gang run);
        budget =
            omega (arith, p.budget, total-append (λ (r : Run). r.job.duration) p.gang (run ∷ []));
        settled_served = p.settled_served;
        gang_served = All-append (Served ei_buffer_to_str) p.gang (run ∷ []) p.gang_served (
          placement-Served ei_buffer_to_str l.fcfs job threshold l.gang_nodes node_num nodes placed
              i,
          tt,
        );
        from_jobs = λ w.
            omega (arith, p.from_jobs w, total-append (λ (r : Run). w r.job) p.gang (run ∷ []));
      }

  module _ (holds : (x : NodeRef) → Elem x pool → Placeable rh x) where
    All-known :
        (rem : List SwmJob) (l : Loop)
        → Goes rem l
        → (k : String) (nodes : List NodeRef) → lookup k l.fcfs.nodes_per_cluster ≡ some nodes
        → All (Placeable l.fcfs.rh) nodes
    All-known rem l p k nodes e =
        All-of (Placeable l.fcfs.rh) nodes (λ x m.
          subst (λ h. Placeable h x) (sym p.same_rh) (holds x (p.plan.vectors k nodes e x m)))

    try_job-Progress :
        (job : SwmJob) (rem : List SwmJob) (threshold : ℕ) (l : Loop) (p : Goes (job ∷ rem) l)
        → threshold ≤ p.m
        → (e : Loop) × (try_job ei_buffer_to_str job threshold l ≡ done e) × Goes rem e
    unfolding try_job
    try_job-Progress job rem threshold l p le =
        let errors =
          l.errors
          ++ (schedule_single_job ei_buffer_to_str l.fcfs job threshold l.gang_nodes).errors in
        let l' = record l { errors = errors } in
        let (p', le') =
          rename-Progress ei_buffer_to_str pool is_pool rh jobs (job ∷ rem) l l.gang_id
            l.known_gang_ids errors p in
        let (o, returned) =
          schedule_single_job-done ei_buffer_to_str l.fcfs job threshold l.gang_nodes
            (All-known (job ∷ rem) l p) in
        elim (Option-cases o) [
          | inl refused ↦ (
            l',
            rw (returned, refused, try_job) refl,
            skip-Progress ei_buffer_to_str pool is_pool rh jobs job rem l' p',
          )
          | inr (placed, scheduled) ↦
              let (n, nodes, i) =
                schedule_single_job-IsPlacement ei_buffer_to_str l.fcfs job threshold l.gang_nodes
                  placed (returned ∙ ap done scheduled) in
              (
                register ei_buffer_to_str job l' placed,
                rw (returned, scheduled, try_job) refl,
                register-Progress job rem l' threshold n nodes placed p' (omega (arith, le, le')) i,
              )
        ]

    pub visit_job-Progress :
        (job : SwmJob) (rem : List SwmJob) (l : Loop)
        → Goes (job ∷ rem) l
        → (e : Loop) × (visit_job ei_buffer_to_str job l ≡ done e) × Goes rem e
    unfolding visit_job
    visit_job-Progress job rem l p =
        let named = record l { tts = set_job_id l.tt_number job.id l.tts } in
        let (q, le) =
          named-Progress job rem
            (record (get_or l.tts l.tt_number blank_timetable) { job_id = job.id }) l p in
        elim (Option-cases (dependency_threshold l.jobs_to_endtimes job.deps 0)) [
          | inl waits ↦ (
            named,
            rw (waits, visit_job) refl,
            skip-Progress ei_buffer_to_str pool is_pool rh jobs job rem named q,
          )
          | inr (threshold, ready) ↦
              elim (enter_gang-Progress ei_buffer_to_str pool is_pool rh jobs job (job ∷ rem) named
                q) [
                  | inl passed_over ↦ (
                    named,
                    rw (ready, passed_over, visit_job) refl,
                    skip-Progress ei_buffer_to_str pool is_pool rh jobs job rem named q,
                  )
                  | inr (entered, got, (r, le')) ↦
                      let t =
                        threshold-le l.jobs_to_endtimes job.deps 0 p.m threshold (omega arith)
                          p.plan.ends ready in
                      let (e, tried, s) =
                        try_job-Progress job rem threshold entered r (omega (arith, t, le, le')) in
                      (e, rw (ready, got, visit_job) tried, s)
                ]
        ]

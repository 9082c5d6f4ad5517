-- ===== src/PluginLib/Fcfs/Schedule.antt =====
-- src/plugin-lib/fcfs_implementation.cpp: `schedule`, the loop over the jobs with its dependencies and
-- gangs, and `align_jobs`.
use Prim.Native.String.{compare as str_compare}
use Prim.Native.Nat.{Ordering}
use swm_sched.Prelude.{
  ℕ, ◌+◌, ◌-◌, max, String, String_eq, ℕ_eq, Bool, true, false, not, ◌&&◌, List, [], ◌∷◌, ◌++◌,
  Option, none, some, if◌then◌else◌, ◌==◌, ltb, length, get_or, set, take, replicate, contains,
  Assoc, lookup, insert, add64, sort,
}
use swm_sched.PluginLib.Entities.{EiBuffer, SwmJob, SwmTimetable}
use swm_sched.PluginLib.Fcfs.Errors.{
  Message, Outcome, done, interrupted, threw, unknown_cluster, ◌>>=◌,
}
use swm_sched.PluginLib.Fcfs.Selection.{NodeRef}
use swm_sched.PluginLib.Fcfs.Single.{Fcfs, Placed, schedule_single_job, set_when_free, by_when_free}

-- The timetable is an index into the result vector.
pub record JobRef : Type 0 where
  pub tt : ℕ
  pub job : SwmJob
  pub nodes : List NodeRef

-- The variables of the loop in `schedule`.
pub record Loop : Type 0 where
  pub fcfs : Fcfs
  pub jobs_to_endtimes : Assoc String ℕ
  pub gang_id : String
  pub known_gang_ids : List String
  pub gang_nodes : List String
  pub gang_jobs : List JobRef
  pub gang_start_time : ℕ
  pub tts : List SwmTimetable
  pub tt_number : ℕ
  pub errors : List Message

abbrev pub blank_timetable : SwmTimetable
blank_timetable = record { job_id = ""; start_time = 0; job_nodes = [] }

abbrev pub set_job_id : ℕ → String → List SwmTimetable → List SwmTimetable
set_job_id i s tts = set tts i (record (get_or tts i blank_timetable) { job_id = s })

abbrev pub set_start_time : ℕ → ℕ → List SwmTimetable → List SwmTimetable
set_start_time i t tts = set tts i (record (get_or tts i blank_timetable) { start_time = t })

-- `vector::resize`
abbrev pub resize : ℕ → List SwmTimetable → List SwmTimetable
resize n tts = take n tts ++ replicate (n - length tts) blank_timetable

-- The comparison of the jobs: higher priorities first, then by the gang.
abbrev pub str_ltb : String → String → Bool
str_ltb s t = elim (str_compare s t) [ Ordering.lt ↦ true | _ ↦ false ]

unfoldable pub goes_before : SwmJob → SwmJob → Bool
goes_before j1 j2 =
    if not (j1.priority == j2.priority)
    then ltb j2.priority j1.priority
    else str_ltb j1.gang_id j2.gang_id

unfoldable pub sorted_jobs : Bool → List SwmJob → List SwmJob
unfolding goes_before sort
sorted_jobs ignore_priorities jobs = if ignore_priorities then jobs else sort goes_before jobs

-- The first loop of `align_jobs` shifts the timetables and the times of the nodes.
abbrev pub shift_job : ℕ → JobRef → Loop → Loop
shift_job start_time jr l =
    let end_time = add64 start_time jr.job.duration in
    record l {
      tts = set_start_time jr.tt start_time l.tts;
      fcfs = record l.fcfs { when_free = set_when_free end_time jr.nodes l.fcfs.when_free };
      jobs_to_endtimes = insert jr.job.id end_time l.jobs_to_endtimes;
    }

abbrev pub shift_jobs : ℕ → List JobRef → Loop → Loop
shift_jobs start_time [] l = l
shift_jobs start_time (jr ∷ jrs) l = shift_jobs start_time jrs (shift_job start_time jr l)

-- Its second loop sorts the vectors of the clusters again; a set holds each cluster once.
abbrev pub add_cluster : String → List String → List String
add_cluster c cs = if contains c cs then cs else c ∷ cs

abbrev pub clusters_of : List JobRef → List String
clusters_of [] = []
clusters_of (jr ∷ jrs) = add_cluster jr.job.cluster_id (clusters_of jrs)

unfoldable pub resort : List String → Fcfs → Outcome Fcfs
unfolding sort
resort [] f = done f
resort (c ∷ cs) f = elim (lookup c f.nodes_per_cluster) [
  | none ↦ threw unknown_cluster
  | some nodes ↦ resort cs (record f {
    nodes_per_cluster = insert c (sort (by_when_free f.when_free) nodes) f.nodes_per_cluster;
  })
]

unfoldable pub align_jobs : Loop → Outcome Loop
align_jobs l =
    let shifted = shift_jobs l.gang_start_time l.gang_jobs l in
    resort (clusters_of l.gang_jobs) shifted.fcfs >>= λ f. done (record shifted { fcfs = f })

-- The latest end of the dependencies, or `none` if one of them is not scheduled yet.
unfoldable pub dependency_threshold : Assoc String ℕ → List (String × String) → ℕ → Option ℕ
dependency_threshold endtimes [] start_time_threshold = some start_time_threshold
dependency_threshold endtimes ((kind, dep) ∷ deps) start_time_threshold =
    elim (lookup dep endtimes) [
      | none ↦ none
      | some end_time ↦ dependency_threshold endtimes deps (max start_time_threshold end_time)
    ]

abbrev pub reset_gang : Loop → Loop
reset_gang l = record l { gang_nodes = []; gang_jobs = []; gang_start_time = 0 }

-- The gang of a job: `none` if the job is passed over, because its gang was left before.
unfoldable pub enter_gang : SwmJob → Loop → Outcome (Option Loop)
enter_gang job l =
    if not (job.gang_id == l.gang_id)
    then if not (job.gang_id == "") && contains job.gang_id l.known_gang_ids
      then done none
      else (align_last (remember l) >>= λ aligned.
          done (some (record (reset_gang aligned) { gang_id = job.gang_id })))
    else if job.gang_id == ""
    then done (some (reset_gang l))
    else done (some l)
  where
    remember : Loop → Loop
    remember k =
        if job.gang_id == ""
        then k
        else record k { known_gang_ids = job.gang_id ∷ k.known_gang_ids }

    align_last : Loop → Outcome Loop
    align_last k = if k.gang_id == "" then done k else align_jobs k

module _ (ei_buffer_to_str : EiBuffer → Bool × String) where
  -- A job that was scheduled: its end time and its place in the gang.
  abbrev pub register : SwmJob → Loop → Placed → Loop
  register job l p = record l {
    fcfs = p.fcfs;
    gang_nodes = p.busy_nodes;
    tts = set l.tts l.tt_number p.tt;
    jobs_to_endtimes = insert job.id (add64 p.tt.start_time job.duration) l.jobs_to_endtimes;
    gang_start_time = max l.gang_start_time p.tt.start_time;
    gang_jobs = l.gang_jobs ++ record { tt = l.tt_number; job = job; nodes = p.nodes } ∷ [];
    tt_number = l.tt_number + 1;
  }

  unfoldable pub try_job : SwmJob → ℕ → Loop → Outcome Loop
  try_job job start_time_threshold l =
      let attempt =
        schedule_single_job ei_buffer_to_str l.fcfs job start_time_threshold l.gang_nodes in
      let l' = record l { errors = l.errors ++ attempt.errors } in
      attempt.placed >>= elim [ none ↦ done l' | some p ↦ done (register job l' p) ]

  -- One round, for a queued job.
  unfoldable pub visit_job : SwmJob → Loop → Outcome Loop
  visit_job job l =
      let named = record l { tts = set_job_id l.tt_number job.id l.tts } in
      elim (dependency_threshold l.jobs_to_endtimes job.deps 0) [
        | none ↦ done named
        | some start_time_threshold ↦
            enter_gang job named
            >>= elim [ none ↦ done named | some entered ↦ try_job job start_time_threshold entered ]
      ]

  -- `forced` is the answer of `forced_to_interrupt` in each round.
  unfoldable pub visit_jobs : (ℕ → Bool) → ℕ → List SwmJob → Loop → Outcome Loop
  visit_jobs forced i [] l = done l
  visit_jobs forced i (job ∷ jobs) l =
      if forced i
      then interrupted
      else ((if job.state == "Q" then visit_job job l else done l)
          >>= visit_jobs forced (i + 1) jobs)

  -- The result vector and the object, or false, or an exception.
  unfoldable pub schedule :
      (ℕ → Bool)
      → List SwmJob
      → List SwmTimetable
      → Bool
      → Fcfs
      → Outcome (List SwmTimetable × Fcfs)
  schedule forced jobs tts ignore_priorities f =
      let jobs_ref = sorted_jobs ignore_priorities jobs in
      visit_jobs forced 0 jobs_ref (start jobs_ref) >>= λ l.
      (if l.gang_id == "" then done l else align_jobs l) >>= λ last.
      done (resize last.tt_number last.tts, last.fcfs)
    where
      start : List SwmJob → Loop
      start jobs_ref = record {
        fcfs = f;
        jobs_to_endtimes = [];
        gang_id = "";
        known_gang_ids = [];
        gang_nodes = [];
        gang_jobs = [];
        gang_start_time = 0;
        tts = resize (length jobs_ref) tts;
        tt_number = 0;
        errors = [];
      }

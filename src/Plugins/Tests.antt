-- ===== src/Plugins/Tests.antt =====
-- Runs of src/plugins on one node.
use swm_sched.Prelude.{
  ℕ, ◌<◌, ◌≡◌, ◌⊎◌, refl, arith, String, Bool, true, false, List, [], ◌∷◌, sort,
}
use swm_sched.PluginLib.Entities.{EiBuffer, SwmJob, SwmTimetable, item, nil, cons, SchedulingInfo}
use swm_sched.PluginLib.ExtendedRh.{RhError}
use swm_sched.PluginLib.ExtendedRh
use swm_sched.PluginLib.Fcfs.Requests.{is_node_owned_by_other_job, does_node_fit_request}
use swm_sched.PluginLib.Fcfs.Single.{
  refused, failed, init, check_request, first_free_node, commit, place, schedule_single_job,
}
use swm_sched.PluginLib.Fcfs.Selection.{select_nodes, extend_choice, prefer_parts}
use swm_sched.PluginLib.Fcfs.Schedule.{
  schedule, sorted_jobs, visit_jobs, visit_job, dependency_threshold, enter_gang, try_job,
  align_jobs, resort,
}
use swm_sched.PluginLib.Fcfs.Guarantee.{IsSchedule}
use swm_sched.Plugins.{
  TimetableInfo, filled, constructed, rejected, stopped, throws, construct_timetable,
  dummy_construct_timetable,
}
use swm_sched.Plugins.Timetables.{construct_timetable-IsSchedule}

abbrev no_text : EiBuffer → Bool × String
no_text buffer = (false, "")

abbrev job_called : String → ℕ → SwmJob
job_called name priority = record {
  id = name;
  cluster_id = "c";
  gang_id = "";
  state = "Q";
  priority = priority;
  duration = 10;
  deps = [];
  nodes = [];
  request = record { name = "node"; count = 1; properties = [] } ∷ [];
}

abbrev request_with : List SwmJob → SchedulingInfo
request_with jobs = record {
  resource_hierarchy =
      cons (item "cluster" "c" (cons (item "partition" "p" (cons (item "node" "n" nil) nil)) nil))
        nil;
  clusters = record { address = 1; value = record { id = "c"; state = "up" } } ∷ [];
  parts = record { address = 2; value = record { id = "p"; state = "up" } } ∷ [];
  nodes =
      record {
        address = 3;
        value = record {
          id = "n";
          state_power = "up";
          state_alloc = "idle";
          is_template = "false";
          resources = [];
        };
      }
      ∷ [];
  jobs = jobs;
}

abbrev two_jobs : SchedulingInfo
two_jobs = request_with (job_called "low" 1 ∷ job_called "high" 9 ∷ [])

abbrev planned : String → ℕ → SwmTimetable
planned name t = record { job_id = name; start_time = t; job_nodes = "n" ∷ [] }

-- Fair sharing takes the job with the higher priority first, and fcfs the one that came first.
fair_sharing_sorts :
    construct_timetable no_text (λ i. false) false two_jobs
    ≡ constructed (record { tables = planned "high" 0 ∷ planned "low" 10 ∷ [] })
unfolding construct_timetable filled init schedule sorted_jobs visit_jobs visit_job
    dependency_threshold enter_gang try_job align_jobs resort schedule_single_job check_request
    place select_nodes extend_choice prefer_parts commit first_free_node sort
    ExtendedRh.node_to_cluster ExtendedRh.node_to_part is_node_owned_by_other_job
    does_node_fit_request
fair_sharing_sorts = refl

fcfs_does_not :
    construct_timetable no_text (λ i. false) true two_jobs
    ≡ constructed (record { tables = planned "low" 0 ∷ planned "high" 10 ∷ [] })
unfolding construct_timetable filled init schedule sorted_jobs visit_jobs visit_job
    dependency_threshold enter_gang try_job align_jobs resort schedule_single_job check_request
    place select_nodes extend_choice prefer_parts commit first_free_node sort
    ExtendedRh.node_to_cluster ExtendedRh.node_to_part is_node_owned_by_other_job
    does_node_fit_request
fcfs_does_not = refl

dummy_holds : (dummy_construct_timetable (request_with (job_called "hold_on" 1 ∷ []))).waited ≡ true
unfolding dummy_construct_timetable
dummy_holds = refl

construct_timetable-IsSchedule_example :
    ((tt : TimetableInfo) × (construct_timetable no_text (λ i. false) false two_jobs
        ≡ constructed tt)
      × IsSchedule no_text two_jobs.jobs tt.tables)
    ⊎ (((e : RhError) × (construct_timetable no_text (λ i. false) false two_jobs ≡ rejected e)
          × (init two_jobs ≡ refused e))
        ⊎ (((construct_timetable no_text (λ i. false) false two_jobs ≡ stopped)
              × ((k : ℕ) × (k < 2) × (false ≡ true)))
            ⊎ ((construct_timetable no_text (λ i. false) false two_jobs ≡ throws)
                × (init two_jobs ≡ failed))))
construct_timetable-IsSchedule_example =
    construct_timetable-IsSchedule no_text (λ i. false) false two_jobs ((λ e. e), tt) (omega arith)

-- ===== src/PluginLib/Fcfs/Tests.antt =====
-- Runs of src/plugin-lib/fcfs_implementation.cpp, and instances of its theorems.
use swm_sched.Prelude.{
  ℕ, ◌<◌, ◌≡◌, ◌↔◌, ◌⊎◌, refl, arith, String, String_eq, Bool, true, false, List, [], ◌∷◌, none,
  some, map, sort, length, filter_if, Distinct, contains-false,
}
use swm_sched.PluginLib.Entities.{
  EiBuffer, SwmNode, SwmResource, SwmJob, SwmTimetable, item, nil, cons, SchedulingInfo,
}
use swm_sched.PluginLib.ExtendedRh
use swm_sched.PluginLib.Fcfs.Errors.{Outcome, done, interrupted, ◌>>=◌}
use swm_sched.PluginLib.Fcfs.Requests.{is_node_owned_by_other_job, does_node_fit_request}
use swm_sched.PluginLib.Fcfs.Single.{
  Fcfs, Placed, ready, init, check_request, first_free_node, commit, place, schedule_single_job,
}
use swm_sched.PluginLib.Fcfs.Selection.{NodeRef, select_nodes, extend_choice, prefer_parts}
use swm_sched.PluginLib.Fcfs.Schedule.{
  schedule, sorted_jobs, visit_jobs, visit_job, dependency_threshold, enter_gang, try_job,
  align_jobs, resort,
}
use swm_sched.PluginLib.Fcfs.Choice.{suits}
use swm_sched.PluginLib.Fcfs.Placing.{
  IsPlacement, schedule_single_job-IsPlacement, schedule_single_job-refuses,
}
use swm_sched.PluginLib.Fcfs.Guarantee.{IsFresh, IsSchedule, schedule-IsSchedule}
use swm_sched.PluginLib.Fcfs.Fresh.{init-IsFresh}

-- `ei_buffer_to_str` for the tests: every buffer holds the empty text.
abbrev pub no_text : EiBuffer → Bool × String
no_text buffer = (false, "")

abbrev pub plain_node : String → SwmNode
plain_node i = record {
  id = i;
  state_power = "up";
  state_alloc = "idle";
  is_template = "false";
  resources = [];
}

abbrev pub needs : ℕ → List SwmResource
needs n = record { name = "node"; count = n; properties = [] } ∷ []

abbrev pub plain_job : String → String → ℕ → ℕ → List String → SwmJob
plain_job i gang duration n deps = record {
  id = i;
  cluster_id = "c";
  gang_id = gang;
  state = "Q";
  priority = 0;
  duration = duration;
  deps = map (λ d. ("ok", d)) deps;
  nodes = [];
  request = needs n;
}

-- The example of the header: three nodes in one partition.
abbrev pub three_nodes : SchedulingInfo
three_nodes = record {
  resource_hierarchy =
      cons
        (item "cluster" "c" (
          cons
            (item "partition" "p" (
              cons (item "node" "a" nil)
                (cons (item "node" "b" nil) (cons (item "node" "d" nil) nil))))
            nil))
        nil;
  clusters = record { address = 1; value = record { id = "c"; state = "up" } } ∷ [];
  parts = record { address = 2; value = record { id = "p"; state = "up" } } ∷ [];
  nodes =
      record { address = 3; value = plain_node "a" }
      ∷ record { address = 4; value = plain_node "b" }
      ∷ record { address = 5; value = plain_node "d" }
      ∷ [];
  jobs = [];
}

pub run_jobs : List SwmJob → Outcome (List SwmTimetable)
unfolding init schedule sorted_jobs visit_jobs visit_job dependency_threshold enter_gang try_job
    align_jobs resort schedule_single_job check_request place select_nodes extend_choice
    prefer_parts commit first_free_node sort ExtendedRh.node_to_cluster ExtendedRh.node_to_part
    is_node_owned_by_other_job does_node_fit_request
run_jobs jobs = elim (init three_nodes) [
  | ready f ↦ schedule no_text (λ i. false) jobs [] true f >>= λ r. done r.0
  | _ ↦ interrupted
]

abbrev planned : String → ℕ → List String → SwmTimetable
planned i t nodes = record { job_id = i; start_time = t; job_nodes = nodes }

header_example :
    run_jobs (
      plain_job "1" "" 1 2 []
      ∷ plain_job "2" "" 1 1 []
      ∷ plain_job "3" "" 1 1 []
      ∷ plain_job "4" "" 1 3 []
      ∷ plain_job "5" "" 1 1 []
      ∷ [])
    ≡ done (
        planned "1" 0 ("a" ∷ "b" ∷ [])
        ∷ planned "2" 0 ("d" ∷ [])
        ∷ planned "3" 1 ("d" ∷ [])
        ∷ planned "4" 2 ("a" ∷ "b" ∷ "d" ∷ [])
        ∷ planned "5" 3 ("a" ∷ [])
        ∷ [])
unfolding run_jobs
header_example = refl

-- Job A of a gang ends at 5 when it is placed. The gang is aligned to the start of B at 10, when C
-- of no gang is met, so A ends at 15. C depends on A, and starts at 11: its threshold is read
-- before the gang is aligned.
stale_dependency :
    run_jobs (
      plain_job "P" "" 10 2 []
      ∷ plain_job "A" "g" 5 1 []
      ∷ plain_job "B" "g" 1 2 []
      ∷ plain_job "C" "" 1 1 ("A" ∷ [])
      ∷ [])
    ≡ done (
        planned "P" 0 ("a" ∷ "b" ∷ [])
        ∷ planned "A" 10 ("d" ∷ [])
        ∷ planned "B" 10 ("a" ∷ "b" ∷ [])
        ∷ planned "C" 11 ("a" ∷ [])
        ∷ [])
unfolding run_jobs
stale_dependency = refl

-- The object for the three nodes.
abbrev nothing : Fcfs
nothing = record {
  nodes_per_cluster = [];
  rh = record {
    ids_to_clusters = [];
    ids_to_parts = [];
    ids_to_nodes = [];
    parts_to_clusters = [];
    nodes_to_clusters = [];
    nodes_to_parts = [];
  };
  when_free = λ r. 0;
  next_ref = 0;
}

abbrev three_fcfs : Fcfs
three_fcfs = elim (init three_nodes) [ ready f ↦ f | _ ↦ nothing ]

abbrev three_refs : List NodeRef
three_refs =
    record { ref = 0; node = record { address = 3; value = plain_node "a" } }
    ∷ record { ref = 1; node = record { address = 4; value = plain_node "b" } }
    ∷ record { ref = 2; node = record { address = 5; value = plain_node "d" } }
    ∷ []

abbrev two_wanted : SwmJob
two_wanted = plain_job "1" "" 1 2 []

abbrev first_placed : Placed
first_placed = elim (schedule_single_job no_text three_fcfs two_wanted 0 []).placed [
  | done (some p) ↦ p
  | _ ↦ record { tt = planned "" 0 []; nodes = []; fcfs = nothing; busy_nodes = [] }
]

schedule_single_job-IsPlacement_example :
    (node_num : ℕ) × (nodes : List NodeRef) × IsPlacement no_text three_fcfs two_wanted 0 []
      node_num nodes first_placed
unfolding init schedule_single_job check_request place select_nodes extend_choice prefer_parts
    commit first_free_node sort ExtendedRh.node_to_cluster ExtendedRh.node_to_part
    is_node_owned_by_other_job does_node_fit_request
schedule_single_job-IsPlacement_example =
    schedule_single_job-IsPlacement no_text three_fcfs two_wanted 0 [] first_placed refl

ids_differ : Distinct (map (λ n. n.value.id) three_nodes.nodes)
ids_differ = (
  contains-false {A = String} "a" ("b" ∷ "d" ∷ []) refl,
  (contains-false {A = String} "b" ("d" ∷ []) refl, (contains-false {A = String} "d" [] refl, tt)),
)

init-IsFresh_example : (pool : List NodeRef) × IsFresh pool three_fcfs
unfolding init ExtendedRh.node_to_cluster ExtendedRh.node_to_part
init-IsFresh_example = init-IsFresh three_nodes three_fcfs ids_differ refl

schedule_single_job-refuses_example :
    ((schedule_single_job no_text three_fcfs (plain_job "1" "" 1 4 []) 0 []).placed ≡ done none)
    ↔ (length (filter_if (suits no_text (plain_job "1" "" 1 4 []) []) three_refs) < 4)
unfolding init check_request ExtendedRh.node_to_cluster ExtendedRh.node_to_part
schedule_single_job-refuses_example =
    schedule_single_job-refuses no_text three_fcfs (plain_job "1" "" 1 4 []) 0 [] 4 three_refs refl
      refl

-- A gang of two jobs, and a job that waits for the first.
abbrev gang_and_one : List SwmJob
gang_and_one =
    plain_job "A" "g" 5 1 [] ∷ plain_job "B" "g" 1 2 [] ∷ plain_job "C" "" 1 3 ("A" ∷ []) ∷ []

three-IsFresh : (pool : List NodeRef) × IsFresh pool three_fcfs
unfolding init ExtendedRh.node_to_cluster ExtendedRh.node_to_part
three-IsFresh = init-IsFresh three_nodes three_fcfs ids_differ refl

schedule-IsSchedule_example :
    ((schedule no_text (λ i. false) gang_and_one [] false three_fcfs ≡ interrupted)
      × ((k : ℕ) × (k < 3) × (false ≡ true)))
    ⊎ ((timetables : List SwmTimetable) × (g : Fcfs) × (schedule no_text
            (λ i. false)
            gang_and_one
            []
            false
            three_fcfs
          ≡ done (timetables, g))
        × IsSchedule no_text gang_and_one timetables)
schedule-IsSchedule_example =
    schedule-IsSchedule no_text (λ i. false) gang_and_one [] false three_fcfs three-IsFresh.0
      three-IsFresh.1 (omega arith)

-- ===== src/PluginLib/Fcfs/Single.antt =====
-- src/plugin-lib/fcfs_implementation.cpp: the object, `init`, and `schedule_single_job`.
use swm_sched.Prelude.{
  ℕ, ◌+◌, max, String, String_eq, ℕ_eq, Bool, ◌&&◌, ◌||◌, List, [], ◌∷◌, ◌++◌, map, Option, none,
  some, if◌then◌else◌, ◌==◌, ltb, length, find_if, Assoc, lookup, insert, add64, sort,
}
use swm_sched.PluginLib.Entities.{
  EiBuffer, SwmNode, SwmPartition, SwmCluster, SwmJob, SwmTimetable, Pointer, SchedulingInfo,
}
use swm_sched.PluginLib.ExtendedRh.{ExtendedRh, RhError, ok, err, node_to_cluster, node_to_part}
use swm_sched.PluginLib.ExtendedRh
use swm_sched.PluginLib.Fcfs.Errors.{
  Message, no_node_request, no_nodes_wanted, no_such_cluster, not_enough_nodes, Outcome, done,
  ◌>>=◌,
}
use swm_sched.PluginLib.Fcfs.Selection.{
  NodeRef, Store, node_id, select_nodes, extend_choice, prefer_parts,
}

pub record Fcfs : Type 0 where
  pub nodes_per_cluster : Assoc String (List NodeRef)
  pub rh : ExtendedRh
  pub when_free : Store
  pub next_ref : ℕ

-- `init` gives false with the error of the hierarchy, or throws.
pub data Init : Type 0 where
  ready : Fcfs → Init
  refused : RhError → Init
  failed : Init

-- `nodes_per_cluster_.insert`: an old entry stays.
abbrev pub insert_new {ℓ} : {V : Type ℓ} → String → V → Assoc String V → Assoc String V
insert_new k v m = elim (lookup k m) [ none ↦ insert k v m | some w ↦ m ]

abbrev pub empty_vectors :
    List (Pointer SwmCluster) → Assoc String (List NodeRef) → Assoc String (List NodeRef)
empty_vectors [] m = m
empty_vectors (c ∷ cs) m = empty_vectors cs (insert_new c.value.id [] m)

-- `nodes_per_cluster_[id].emplace_back(nr)`
abbrev pub append_node :
    String → NodeRef → Assoc String (List NodeRef) → Assoc String (List NodeRef)
append_node k nr m = elim (lookup k m) [
  | none ↦ insert k (nr ∷ []) m
  | some nrs ↦ insert k (nrs ++ nr ∷ []) m
]

-- A template node always serves; another has to be up and idle, its cluster and partition up.
unfoldable pub is_active : SwmNode → SwmCluster → SwmPartition → Bool
is_active node cluster part =
    node.is_template == "true"
    || (node.state_power == "up"
        && (node.state_alloc == "idle" && (cluster.state == "up" && part.state == "up")))

-- The loop over the nodes. The getters of the hierarchy throw on a node that it does not hold.
unfoldable pub add_nodes : List (Pointer SwmNode) → Fcfs → Option Fcfs
unfolding is_active
add_nodes [] f = some f
add_nodes (node ∷ nodes) f = elim (node_to_cluster f.rh node) [
  | none ↦ none
  | some cluster ↦ elim (node_to_part f.rh node) [
    | none ↦ none
    | some part ↦ add_nodes nodes (
        if is_active node.value cluster.value part.value
        then record f {
          nodes_per_cluster =
              append_node cluster.value.id (record { ref = f.next_ref; node = node })
                f.nodes_per_cluster;
          next_ref = f.next_ref + 1;
        }
        else f)
  ]
]

unfoldable pub init : SchedulingInfo → Init
unfolding add_nodes ExtendedRh.init
init info = elim (ExtendedRh.init info) [
  | err e ↦ refused e
  | ok rh ↦ elim (add_nodes info.nodes (fresh rh)) [ none ↦ failed | some f ↦ ready f ]
]
  where
    fresh : ExtendedRh → Fcfs
    fresh rh = record {
      nodes_per_cluster = empty_vectors info.clusters [];
      rh = rh;
      when_free = λ r. 0;
      next_ref = 0;
    }

-- Steps 1 and 3: the job's count of nodes and its cluster's vector, or why it is refused.
pub data Checked : Type 0 where
  passed : ℕ → List NodeRef → Checked
  rejected : Message → Checked

unfoldable pub check_request : Fcfs → SwmJob → Checked
check_request f job = elim (find_if (λ res. res.name == "node") job.request) [
  | none ↦ rejected no_node_request
  | some res ↦
      if ltb res.count 1
      then rejected no_nodes_wanted
      else elim (lookup job.cluster_id f.nodes_per_cluster) [
        | none ↦ rejected (no_such_cluster job.cluster_id)
        | some nodes ↦ passed res.count nodes
      ]
]

-- `min_element` under the reversed comparison, read at `when_free`: the time at which the last of
-- the nodes gets free. The loop keeps the first of those that compare best.
abbrev pub latest : Store → NodeRef → List NodeRef → NodeRef
latest when_free best [] = best
latest when_free best (nr ∷ nrs) =
    latest when_free (if ltb (when_free best.ref) (when_free nr.ref) then nr else best) nrs

unfoldable pub first_free_node : Store → List NodeRef → ℕ
first_free_node when_free [] = 0
first_free_node when_free (nr ∷ nrs) = when_free (latest when_free nr nrs).ref

-- `pn->when_free() = t` for each of the nodes.
abbrev pub set_when_free : ℕ → List NodeRef → Store → Store
set_when_free t [] when_free = when_free
set_when_free t (nr ∷ nrs) when_free =
    set_when_free t nrs (λ r. if r == nr.ref then t else when_free r)

abbrev pub by_when_free : Store → NodeRef → NodeRef → Bool
by_when_free when_free r1 r2 = ltb (when_free r1.ref) (when_free r2.ref)

-- What a scheduled job leaves: its timetable, the nodes for its `JobRef`, and the new state.
pub record Placed : Type 0 where
  pub tt : SwmTimetable
  pub nodes : List NodeRef
  pub fcfs : Fcfs
  pub busy_nodes : List String

-- Step 5, with the cluster's vector `nodes`.
unfoldable pub commit : Fcfs → SwmJob → ℕ → List String → List NodeRef → List NodeRef → Placed
commit f job start_time_threshold busy_nodes nodes selected =
    let start_time = max start_time_threshold (first_free_node f.when_free selected) in
    let when_free = set_when_free (add64 start_time job.duration) selected f.when_free in
    record {
      tt = record { job_id = job.id; start_time = start_time; job_nodes = map node_id selected };
      nodes = selected;
      fcfs = record f {
        nodes_per_cluster =
            insert job.cluster_id (sort (by_when_free when_free) nodes) f.nodes_per_cluster;
        when_free = when_free;
      };
      busy_nodes = map node_id selected ++ busy_nodes;
    }

-- `placed none` is `return false`. The messages are those that the call adds to the stream.
pub record Attempt : Type 0 where
  pub placed : Outcome (Option Placed)
  pub errors : List Message

module _ (ei_buffer_to_str : EiBuffer → Bool × String) where
  -- Step 2 and what follows.
  unfoldable pub place : Fcfs → SwmJob → ℕ → List String → ℕ → List NodeRef → Attempt
  place f job start_time_threshold busy_nodes node_num nodes =
      let (selected, ms) = select_nodes ei_buffer_to_str job busy_nodes job.nodes nodes in
      if ltb (length selected) node_num
      then record {
        placed = done none;
        errors = ms ++ not_enough_nodes node_num (length selected) ∷ [];
      }
      else record {
        placed =
            prefer_parts f.rh node_num (extend_choice f.when_free node_num selected) >>= λ chosen.
            done (some (commit f job start_time_threshold busy_nodes nodes chosen));
        errors = ms;
      }

  unfoldable pub schedule_single_job : Fcfs → SwmJob → ℕ → List String → Attempt
  schedule_single_job f job start_time_threshold busy_nodes = elim (check_request f job) [
    | rejected m ↦ record { placed = done none; errors = m ∷ [] }
    | passed node_num nodes ↦ place f job start_time_threshold busy_nodes node_num nodes
  ]

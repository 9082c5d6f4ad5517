-- ===== src/Ctrl/SchedulingInfo.antt =====
-- src/sched-lib/ctrl/scheduling_info.{h,cpp}: the vectors of a request's entities, and the vectors of
-- pointers to them, which the getters give once they are validated. A pointer's address is its place
-- in its vector: pointers into two vectors have different types and are not compared.
use swm_sched.Prelude.{ℕ, ◌+◌, Bool, true, false, List, [], ◌∷◌, Option, none, some, if◌then◌else◌}
use swm_sched.PluginLib.Entities.{SwmCluster, SwmPartition, SwmNode, SwmJob, Pointer, RhItems, nil}

pub record SchedulingInfo {ℓ} (SwmGrid : Type ℓ) : Type ℓ where
  pub are_references_valid : Bool
  pub grid : Option SwmGrid
  pub rh : RhItems
  pub clusters : List SwmCluster
  pub cluster_ptrs : List (Pointer SwmCluster)
  pub parts : List SwmPartition
  pub part_ptrs : List (Pointer SwmPartition)
  pub nodes : List SwmNode
  pub node_ptrs : List (Pointer SwmNode)
  pub jobs : List SwmJob
  pub job_ptrs : List (Pointer SwmJob)

-- `validate_references_templated`, from the place `i` on.
abbrev pub pointers_from {ℓ} : {A : Type ℓ} → ℕ → List A → List (Pointer A)
pointers_from i [] = []
pointers_from i (x ∷ xs) = record { address = i; value = x } ∷ pointers_from (i + 1) xs

module _ {ℓ} {SwmGrid : Type ℓ} where
  -- The constructor. `none` is the grid that SwmGrid's constructor without arguments gives.
  abbrev pub new_info : SchedulingInfo SwmGrid
  new_info = record {
    are_references_valid = true;
    grid = none;
    rh = nil;
    clusters = [];
    cluster_ptrs = [];
    parts = [];
    part_ptrs = [];
    nodes = [];
    node_ptrs = [];
    jobs = [];
    job_ptrs = [];
  }

  -- `none` is the exception.
  abbrev pub validated {κ} : {A : Type κ} → A → SchedulingInfo SwmGrid → Option A
  validated x s = if s.are_references_valid then some x else none

  -- The getters of the pointers.
  unfoldable pub clusters : SchedulingInfo SwmGrid → Option (List (Pointer SwmCluster))
  clusters s = validated s.cluster_ptrs s

  unfoldable pub parts : SchedulingInfo SwmGrid → Option (List (Pointer SwmPartition))
  parts s = validated s.part_ptrs s

  unfoldable pub nodes : SchedulingInfo SwmGrid → Option (List (Pointer SwmNode))
  nodes s = validated s.node_ptrs s

  unfoldable pub jobs : SchedulingInfo SwmGrid → Option (List (Pointer SwmJob))
  jobs s = validated s.job_ptrs s

  -- What is written through the reference that a getter of a vector returns.
  abbrev pub set_clusters : List SwmCluster → SchedulingInfo SwmGrid → SchedulingInfo SwmGrid
  set_clusters xs s = record s { are_references_valid = false; clusters = xs }

  abbrev pub set_parts : List SwmPartition → SchedulingInfo SwmGrid → SchedulingInfo SwmGrid
  set_parts xs s = record s { are_references_valid = false; parts = xs }

  abbrev pub set_nodes : List SwmNode → SchedulingInfo SwmGrid → SchedulingInfo SwmGrid
  set_nodes xs s = record s { are_references_valid = false; nodes = xs }

  abbrev pub set_jobs : List SwmJob → SchedulingInfo SwmGrid → SchedulingInfo SwmGrid
  set_jobs xs s = record s { are_references_valid = false; jobs = xs }

  unfoldable pub validate_references : SchedulingInfo SwmGrid → SchedulingInfo SwmGrid
  validate_references s = if s.are_references_valid then s else record s {
    cluster_ptrs = pointers_from 0 s.clusters;
    part_ptrs = pointers_from 0 s.parts;
    node_ptrs = pointers_from 0 s.nodes;
    job_ptrs = pointers_from 0 s.jobs;
    are_references_valid = true;
  }

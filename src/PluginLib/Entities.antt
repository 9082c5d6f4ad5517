-- ===== src/PluginLib/Entities.antt =====
-- The entities that src/plugin-lib computes with. Their classes (`wm_job.h`, `wm_node.h`, ...) are
-- generated in another repository: a record here holds what the getters return that the
-- scheduler calls. `RhItem` and `SchedulingInfoInterface` are src/sched-lib/ifaces.
use swm_sched.Prelude.{ℕ, String, List}

-- The bytes of a term in Erlang's external format.
abbrev pub EiBuffer : Type 0
EiBuffer = List ℕ

pub record SwmResource : Type 0 where
  pub name : String
  pub count : ℕ
  pub properties : List (String × EiBuffer)

pub record SwmNode : Type 0 where
  pub id : String
  pub state_power : String
  pub state_alloc : String
  pub is_template : String
  pub resources : List SwmResource

pub record SwmPartition : Type 0 where
  pub id : String
  pub state : String

pub record SwmCluster : Type 0 where
  pub id : String
  pub state : String

pub record SwmJob : Type 0 where
  pub id : String
  pub cluster_id : String
  pub gang_id : String
  pub state : String
  pub priority : ℕ
  pub duration : ℕ
  pub deps : List (String × String)
  pub nodes : List String
  pub request : List SwmResource

pub record SwmTimetable : Type 0 where
  pub job_id : String
  pub start_time : ℕ
  pub job_nodes : List String

-- A `const T *`: its address, and the object there, which nobody writes.
pub record Pointer {ℓ} (T : Type ℓ) : Type ℓ where
  pub address : ℕ
  pub value : T

-- The resource hierarchy, a tree of named items.
mutual
  pub data RhItem : Type 0 where
    item : String → String → RhItems → RhItem

  pub data RhItems : Type 0 where
    nil : RhItems
    cons : RhItem → RhItems → RhItems

pub record SchedulingInfo : Type 0 where
  pub resource_hierarchy : RhItems
  pub clusters : List (Pointer SwmCluster)
  pub parts : List (Pointer SwmPartition)
  pub nodes : List (Pointer SwmNode)
  pub jobs : List SwmJob

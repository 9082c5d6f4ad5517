-- ===== src/PluginLib/ExtendedRh/Tests.antt =====
-- A run of src/plugin-lib/extended_rh.cpp, and an instance of its theorem.
use swm_sched.Prelude.{◌≡◌, ◌↔◌, refl, [], ◌∷◌, none, some}
use swm_sched.PluginLib.Entities.{SwmNode, Pointer, RhItems, item, nil, cons, SchedulingInfo}
use swm_sched.PluginLib.ExtendedRh.{ExtendedRh, ok, err, init, node_to_cluster, node_to_part}
use swm_sched.PluginLib.ExtendedRh.Domains.{init-same-domain}

abbrev lonely_node : Pointer SwmNode
lonely_node = record {
  address = 3;
  value = record {
    id = "n";
    state_power = "up";
    state_alloc = "idle";
    is_template = "false";
    resources = [];
  };
}

abbrev one_of_each : RhItems → SchedulingInfo
one_of_each hierarchy = record {
  resource_hierarchy = hierarchy;
  clusters = record { address = 1; value = record { id = "c"; state = "up" } } ∷ [];
  parts = record { address = 2; value = record { id = "p"; state = "up" } } ∷ [];
  nodes = lonely_node ∷ [];
  jobs = [];
}

abbrev nested : RhItems
nested =
    cons
      (item "grid" "g" (
        cons (item "cluster" "c" (cons (item "partition" "p" (cons (item "node" "n" nil) nil)) nil))
          nil))
      nil

abbrev parsed : ExtendedRh
parsed = elim (init (one_of_each nested)) [
  | ok x ↦ x
  | err e ↦ record {
    ids_to_clusters = [];
    ids_to_parts = [];
    ids_to_nodes = [];
    parts_to_clusters = [];
    nodes_to_clusters = [];
    nodes_to_parts = [];
  }
]

finds_partition :
    node_to_part parsed lonely_node
    ≡ some (record { address = 2; value = record { id = "p"; state = "up" } })
unfolding init node_to_part
finds_partition = refl

init-same-domain_example :
    (node_to_cluster parsed lonely_node ≡ none) ↔ (node_to_part parsed lonely_node ≡ none)
unfolding init
init-same-domain_example = init-same-domain (one_of_each nested) parsed lonely_node refl

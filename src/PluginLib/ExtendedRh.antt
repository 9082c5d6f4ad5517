-- ===== src/PluginLib/ExtendedRh.antt =====
-- src/plugin-lib/extended_rh.h and extended_rh.cpp: the maps from identifiers to entities, and
-- from nodes and partitions to what holds them. A map's key that is a pointer is the address. A
-- failed `init` leaves the object half filled, and its only user drops it then: the error alone
-- is kept.
pub mod Domains
mod Tests
use swm_sched.Prelude.{
  ℕ, String, String_eq, ℕ_eq, Bool, true, false, ◌&&◌, not, List, [], ◌∷◌, Option, none, some,
  if◌then◌else◌, ◌==◌, Assoc, lookup, insert, contains,
}
use mathlib.Core.Bool.{cond}
use swm_sched.PluginLib.Entities.{
  SwmNode, SwmPartition, SwmCluster, Pointer, RhItem, RhItems, item, nil, cons, SchedulingInfo,
}

-- What `init` writes to the error stream.
pub data RhError : Type 0 where
  not_found : String → String → RhError
  wrong_name : String → String → RhError
  referenced_twice : String → String → RhError
  node_has_children : String → RhError

pub data Result {ℓ} (A : Type ℓ) : Type ℓ where
  ok : A → Result A
  err : RhError → Result A

infixl 5 ◌>>=◌
abbrev pub ◌>>=◌ {ℓ κ} : {A : Type ℓ} {B : Type κ} → Result A → (A → Result B) → Result B
ok a >>= f = f a
err e >>= f = err e

pub record ExtendedRh : Type 0 where
  pub ids_to_clusters : Assoc String (Pointer SwmCluster)
  pub ids_to_parts : Assoc String (Pointer SwmPartition)
  pub ids_to_nodes : Assoc String (Pointer SwmNode)
  pub parts_to_clusters : Assoc ℕ (Pointer SwmCluster)
  pub nodes_to_clusters : Assoc ℕ (Pointer SwmCluster)
  pub nodes_to_parts : Assoc ℕ (Pointer SwmPartition)

-- The sets of identifiers that the parser has met.
pub record Known : Type 0 where
  pub clusters : List String
  pub parts : List String
  pub nodes : List String

abbrev pub Parse : Type 0
Parse = ExtendedRh × Known

abbrev pub name : RhItem → String
name (item n i c) = n

abbrev pub id : RhItem → String
id (item n i c) = i

abbrev pub children : RhItem → RhItems
children (item n i c) = c

abbrev pub has_children : RhItem → Bool
has_children (item n i nil) = false
has_children (item n i (cons x xs)) = true

-- The item, and the set of met identifiers with its own.
unfoldable pub check_rh_and_extract_item {ℓ} :
    {T : Type ℓ}
    → RhItem
    → Assoc String (Pointer T)
    → String
    → List String
    → Result (Pointer T × List String)
check_rh_and_extract_item rh m item_name met_ids = elim (lookup (id rh) m) [
  | none ↦ err (not_found item_name (id rh))
  | some found ↦
      if not (name rh == item_name)
      then err (wrong_name (name rh) item_name)
      else if contains (id rh) met_ids
      then err (referenced_twice item_name (id rh))
      else ok (found, id rh ∷ met_ids)
]

unfoldable pub parse_node :
    RhItem → Pointer SwmCluster → Pointer SwmPartition → Parse → Result Parse
unfolding check_rh_and_extract_item
parse_node rh cluster part (x, known) = do
  (node, nodes) ← check_rh_and_extract_item rh x.ids_to_nodes "node" known.nodes
  cond (has_children rh) (err (node_has_children (id rh))) (
      ok (
        record x {
          nodes_to_parts = insert node.address part x.nodes_to_parts;
          nodes_to_clusters = insert node.address cluster x.nodes_to_clusters;
        },
        record known { nodes = nodes },
      ))

-- What `parse_part` does before its loop over the children, and behind it.
unfoldable pub enter_part : RhItem → Parse → Result (Pointer SwmPartition × Parse)
unfolding check_rh_and_extract_item
enter_part rh (x, known) = do
  (part, parts) ← check_rh_and_extract_item rh x.ids_to_parts "partition" known.parts
  ok (part, (x, record known { parts = parts }))

unfoldable pub leave_part : Pointer SwmPartition → Pointer SwmCluster → Parse → Result Parse
leave_part part cluster (x, known) =
    ok (record x { parts_to_clusters = insert part.address cluster x.parts_to_clusters }, known)

unfoldable mutual
  unfolding enter_part leave_part parse_node

  pub parse_part : RhItem → Pointer SwmCluster → Parse → Result Parse
  parse_part (item n i c) cluster s = do
    (part, s') ← enter_part (item n i c) s
    s'' ← parse_children c cluster part s'
    leave_part part cluster s''

  -- The loop over the children of a partition.
  pub parse_children : RhItems → Pointer SwmCluster → Pointer SwmPartition → Parse → Result Parse
  parse_children nil cluster part s = ok s
  parse_children (cons child rest) cluster part s = do
    s' ← elim (name child == "partition") [
      | true ↦ parse_part child cluster s
      | false ↦ parse_node child cluster part s
    ]
    parse_children rest cluster part s'

-- The loop over the children of a cluster: partitions only.
unfoldable pub parse_parts : RhItems → Pointer SwmCluster → Parse → Result Parse
unfolding parse_part parse_children
parse_parts nil cluster s = ok s
parse_parts (cons part rest) cluster s = do
  s' ← parse_part part cluster s
  parse_parts rest cluster s'

unfoldable pub parse_cluster : RhItem → Parse → Result Parse
unfolding parse_parts check_rh_and_extract_item
parse_cluster rh (x, known) = do
  (cluster, clusters) ← check_rh_and_extract_item rh x.ids_to_clusters "cluster" known.clusters
  parse_parts (children rh) cluster (x, record known { clusters = clusters })

unfoldable pub parse_clusters : RhItems → Parse → Result Parse
unfolding parse_cluster
parse_clusters nil s = ok s
parse_clusters (cons cluster rest) s = do s' ← parse_cluster cluster s; parse_clusters rest s'

-- The loops `ids_to_x[x->get_id()] = x`.
unfoldable pub index_by {ℓ} :
    {T : Type ℓ}
    → (T → String)
    → List (Pointer T)
    → Assoc String (Pointer T)
    → Assoc String (Pointer T)
index_by get_id [] m = m
index_by get_id (p ∷ rest) m = index_by get_id rest (insert (get_id p.value) p m)

-- The root is a grid that holds the clusters, or the list of the clusters itself.
unfoldable pub root_rh : RhItems → RhItems
root_rh (cons root nil) = if name root == "grid" then children root else cons root nil
root_rh items = items

abbrev pub nobody : Known
nobody = record { clusters = []; parts = []; nodes = [] }

unfoldable pub init : SchedulingInfo → Result ExtendedRh
unfolding parse_clusters index_by root_rh
init info = do (x, known) ← parse_clusters (root_rh info.resource_hierarchy) (indexed, nobody); ok x
  where
    indexed : ExtendedRh
    indexed = record {
      ids_to_clusters = index_by (λ c. c.id) info.clusters [];
      ids_to_parts = index_by (λ p. p.id) info.parts [];
      ids_to_nodes = index_by (λ n. n.id) info.nodes [];
      parts_to_clusters = [];
      nodes_to_clusters = [];
      nodes_to_parts = [];
    }

-- The getters throw `std::runtime_error` on a key that is not there: `none`.
unfoldable pub node_to_cluster : ExtendedRh → Pointer SwmNode → Option (Pointer SwmCluster)
node_to_cluster x node = lookup node.address x.nodes_to_clusters

unfoldable pub node_to_part : ExtendedRh → Pointer SwmNode → Option (Pointer SwmPartition)
node_to_part x node = lookup node.address x.nodes_to_parts

unfoldable pub part_to_cluster : ExtendedRh → Pointer SwmPartition → Option (Pointer SwmCluster)
part_to_cluster x part = lookup part.address x.parts_to_clusters

abbrev pub id_to_cluster : ExtendedRh → String → Option (Pointer SwmCluster)
id_to_cluster x i = lookup i x.ids_to_clusters

abbrev pub id_to_part : ExtendedRh → String → Option (Pointer SwmPartition)
id_to_part x i = lookup i x.ids_to_parts

abbrev pub id_to_node : ExtendedRh → String → Option (Pointer SwmNode)
id_to_node x i = lookup i x.ids_to_nodes

-- ===== src/PluginLib/Fcfs/Selection.antt =====
-- src/plugin-lib/fcfs_implementation.cpp, `schedule_single_job`: which nodes a job may take (step 2),
-- which of those are free as early as the last one needed (step 3), and which partitions are
-- preferred (step 4).
use swm_sched.Prelude.{
  ℕ, suc, ◌+◌, ◌-◌, String, String_eq, ℕ_eq, Bool, ◌&&◌, not, List, [], ◌∷◌, ◌++◌, none, some,
  if◌then◌else◌, ◌==◌, ltb, leb, length, take, drop, get_elem?, is_empty, contains, erase, Assoc,
  sort,
}
use swm_sched.PluginLib.Entities.{EiBuffer, SwmNode, SwmJob, Pointer}
use swm_sched.PluginLib.ExtendedRh.{ExtendedRh, node_to_part}
use swm_sched.PluginLib.Fcfs.Errors.{
  Message, node_is_owned, Outcome, done, threw, no_such_element, ◌>>=◌,
}
use swm_sched.PluginLib.Fcfs.Requests.{is_node_owned_by_other_job, does_node_fit_request}

-- `NodeRef`, with its own address.
pub record NodeRef : Type 0 where
  pub ref : ℕ
  pub node : Pointer SwmNode

-- `when_free_` of each reference.
abbrev pub Store : Type 0
Store = ℕ → ℕ

abbrev pub node_id : NodeRef → String
node_id nr = nr.node.value.id

-- What one round of the loop of step 2 finds of a node.
pub data Verdict : Type 0 where
  busy unwanted owned fits : Verdict
  unfit : Message → Verdict

module _ (ei_buffer_to_str : EiBuffer → Bool × String) (job : SwmJob)
    (busy_nodes : List String) where
  unfoldable pub judge : List String → NodeRef → Verdict
  judge node_ids_set nr =
      if contains (node_id nr) busy_nodes
      then busy
      else if not (is_empty job.nodes) && not (contains (node_id nr) node_ids_set)
      then unwanted
      else if is_node_owned_by_other_job ei_buffer_to_str job nr.node.value.resources
      then owned
      else elim (does_node_fit_request ei_buffer_to_str job.request nr.node.value.resources) [
        | none ↦ fits
        | some m ↦ unfit m
      ]

  -- A preset identifier is used up by the first node that carries it and is not busy.
  abbrev pub ids_left : Verdict → NodeRef → List String → List String
  ids_left busy nr ids = ids
  ids_left unwanted nr ids = ids
  ids_left _ nr ids = if is_empty job.nodes then ids else erase (node_id nr) ids

  abbrev pub add_fit : Verdict → NodeRef → List NodeRef → List NodeRef
  add_fit fits nr nrs = nr ∷ nrs
  add_fit _ nr nrs = nrs

  abbrev pub messages : Verdict → List Message
  messages owned = node_is_owned ∷ []
  messages (unfit m) = m ∷ []
  messages _ = []

  -- The selected nodes in the order of the cluster's vector, and the messages.
  unfoldable pub select_nodes : List String → List NodeRef → List NodeRef × List Message
  unfolding judge
  select_nodes ids [] = ([], [])
  select_nodes ids (nr ∷ nodes) =
      let v = judge ids nr in
      let (selected, ms) = select_nodes (ids_left v nr ids) nodes in
      (add_fit v nr selected, messages v ++ ms)

-- The rounds of the `while` loop of step 3 over the nodes behind the first `node_num`.
abbrev pub ties : Store → ℕ → List NodeRef → ℕ
ties when_free last [] = 0
ties when_free last (nr ∷ nrs) =
    if when_free nr.ref == last then suc (ties when_free last nrs) else 0

-- `selected_nodes[i]->when_free()`
abbrev pub when_free_at : Store → List NodeRef → ℕ → ℕ
when_free_at when_free nrs i = elim (get_elem? nrs i) [ none ↦ 0 | some nr ↦ when_free nr.ref ]

-- Step 3: the first `node_num` nodes, and those behind them that are free as early.
unfoldable pub extend_choice : Store → ℕ → List NodeRef → List NodeRef
extend_choice when_free node_num selected =
    take
      (node_num
        + ties when_free (when_free_at when_free selected (node_num - 1)) (drop node_num selected))
      selected

-- `parts_to_nodes[part].emplace_back(nr)`
abbrev pub add_to_group {ℓ} : {A : Type ℓ} → ℕ → A → Assoc ℕ (List A) → Assoc ℕ (List A)
add_to_group k a [] = (k, a ∷ []) ∷ []
add_to_group k a ((j, ones) ∷ groups) =
    if k == j then (j, ones ++ a ∷ []) ∷ groups else (j, ones) ∷ add_to_group k a groups

-- The groups of step 4, by the address of the partition, in the order of their first node. (The
-- order of an `std::unordered_map` is open.)
unfoldable pub group_by_part :
    ExtendedRh → List NodeRef → Assoc ℕ (List NodeRef) → Outcome (Assoc ℕ (List NodeRef))
group_by_part rh [] groups = done groups
group_by_part rh (nr ∷ nrs) groups = elim (node_to_part rh nr.node) [
  | none ↦ threw no_such_element
  | some part ↦ group_by_part rh nrs (add_to_group part.address nr groups)
]

abbrev pub larger : List NodeRef → List NodeRef → Bool
larger xs ys = ltb (length ys) (length xs)

-- Whole groups, the largest first, until there are enough nodes.
abbrev pub fill_up : ℕ → List (List NodeRef) → List NodeRef → List NodeRef
fill_up node_num [] chosen = chosen
fill_up node_num (part ∷ parts) chosen =
    let all = chosen ++ part in
    let rest = fill_up node_num parts all in if leb node_num (length all) then all else rest

abbrev pub groups_of {ℓ} : {A : Type ℓ} → Assoc ℕ A → List A
groups_of [] = []
groups_of ((k, a) ∷ m) = a ∷ groups_of m

-- Step 4.
unfoldable pub prefer_parts : ExtendedRh → ℕ → List NodeRef → Outcome (List NodeRef)
unfolding group_by_part sort
prefer_parts rh node_num selected =
    if ltb node_num (length selected)
    then (group_by_part rh selected [] >>= λ groups.
        done (take node_num (fill_up node_num (sort larger (groups_of groups)) [])))
    else done selected

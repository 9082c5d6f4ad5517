-- ===== src/PluginLib/Fcfs/Returns.antt =====
-- When `schedule_single_job` of src/plugin-lib/fcfs_implementation.cpp returns: its only exception is
-- that of the hierarchy on an unknown node.
use swm_sched.Prelude.{
  ℕ, ◌≡◌, ◌≢◌, refl, ap, inl, inr, String, String_eq, ℕ_eq, Bool, List, [], ◌∷◌, Option, none, some,
  arith, ltb, length, lookup, All, SubList-All, Option-cases, Bool-cases,
}
use swm_sched.PluginLib.Entities.{EiBuffer, SwmJob}
use swm_sched.PluginLib.ExtendedRh.{ExtendedRh, node_to_part}
use swm_sched.PluginLib.Fcfs.Errors.{Outcome, done, ◌>>=◌}
use swm_sched.PluginLib.Fcfs.Selection.{
  NodeRef, select_nodes, extend_choice, group_by_part, add_to_group, prefer_parts,
}
use swm_sched.PluginLib.Fcfs.Single.{Fcfs, Placed, check_request, place, schedule_single_job}
use swm_sched.PluginLib.Fcfs.Choice.{NodeRef-discrete, select_nodes-sub, extend_choice-sub}
use swm_sched.PluginLib.Fcfs.Placing.{Checked-cases, check_request-passed}

-- A node that the hierarchy holds.
abbrev pub Placeable : ExtendedRh → NodeRef → Type 0
Placeable rh nr = node_to_part rh nr.node ≢ none

bind-done {ℓ κ} :
    {A : Type ℓ} {B : Type κ} (m : Outcome A) (g : A → B)
    → (a : A) × (m ≡ done a)
    → (b : B) × ((m >>= λ a. done (g a)) ≡ done b)
bind-done m g (a, e) = (g a, ap (λ k. k >>= λ a. done (g a)) e)

group_by_part-done :
    (rh : ExtendedRh) (nrs : List NodeRef) (groups : _)
    → All (Placeable rh) nrs
    → (grouped : _) × (group_by_part rh nrs groups ≡ done grouped)
unfolding group_by_part
group_by_part-done rh [] groups h = (groups, refl)
group_by_part-done rh (nr ∷ nrs) groups h = elim (Option-cases (node_to_part rh nr.node)) [
  | inl missing ↦ absurd (h.0 missing)
  | inr (part, found) ↦
      let (grouped, e) = group_by_part-done rh nrs (add_to_group part.address nr groups) h.1 in
      (grouped, rw (found, group_by_part) e)
]

prefer_parts-done :
    (rh : ExtendedRh) (node_num : ℕ) (selected : List NodeRef)
    → All (Placeable rh) selected
    → (chosen : List NodeRef) × (prefer_parts rh node_num selected ≡ done chosen)
unfolding prefer_parts
prefer_parts-done rh node_num selected h = elim (Bool-cases (ltb node_num (length selected))) [
  | inl more ↦
      rw more (bind-done (group_by_part rh selected []) _ (group_by_part-done rh selected [] h))
  | inr few ↦ (selected, rw few refl)
]

module _ (ei_buffer_to_str : EiBuffer → Bool × String) (f : Fcfs) (job : SwmJob)
    (start_time_threshold : ℕ) (busy_nodes : List String)
    (known : (k : String) (nodes : List NodeRef)
      → lookup k f.nodes_per_cluster ≡ some nodes
      → All (Placeable f.rh) nodes) where
  place-done :
      (node_num : ℕ) (nodes : List NodeRef)
      → All (Placeable f.rh) nodes
      → (o : Option Placed) × ((place ei_buffer_to_str f job start_time_threshold busy_nodes
            node_num nodes).placed
          ≡ done o)
  unfolding place
  place-done node_num nodes h = elim (Bool-cases (ltb (length selected) node_num)) [
    | inl few ↦ (none, rw few refl)
    | inr more ↦ rw more (
        bind-done (prefer_parts f.rh node_num (extend_choice f.when_free node_num selected)) _ (
          prefer_parts-done f.rh node_num (extend_choice f.when_free node_num selected) (
            SubList-All NodeRef-discrete (Placeable f.rh) _ nodes
              (λ w. omega (
                arith,
                extend_choice-sub f.when_free node_num selected w,
                select_nodes-sub ei_buffer_to_str job busy_nodes job.nodes nodes w,
              ))
              h)))
  ]
    where
      selected : List NodeRef
      selected = (select_nodes ei_buffer_to_str job busy_nodes job.nodes nodes).0

  pub schedule_single_job-done :
      (o : Option Placed) × ((schedule_single_job ei_buffer_to_str f job start_time_threshold
          busy_nodes).placed
        ≡ done o)
  unfolding schedule_single_job
  schedule_single_job-done =
      elim (Checked-cases ei_buffer_to_str f job start_time_threshold busy_nodes
        (check_request f job)) [
          | inl (m, c) ↦ (none, rw (c, schedule_single_job) refl)
          | inr (n, nodes, c) ↦
              let (o, e) = place-done n nodes (
                known job.cluster_id nodes
                  (check_request-passed ei_buffer_to_str f job start_time_threshold busy_nodes n
                    nodes c).1) in
              (o, rw (c, schedule_single_job) e)
        ]

-- ===== src/Ctrl/Commands/Slices.antt =====
-- The seven slices of a schedule command of src/sched-lib/ctrl/commands.cpp: `init`.
use swm_sched.Prelude.{
  ℕ, suc, ◌+◌, ◌≤◌, ◌≡◌, refl, inl, inr, ℕ_eq, true, false, List, [], ◌∷◌, ◌++◌, map, Option, none,
  some, length, arith, Option-cases, ap,
}
use swm_sched.PluginLib.Entities.{SwmCluster, SwmPartition, SwmNode, SwmJob, RhItems}
use swm_sched.Ctrl.SchedulingInfo.{new_info, pointers_from, validate_references}
use swm_sched.Ctrl.Commands.{
  Ei, CommandError, parsed, DataType, schedulers, rh, jobs, grid, clusters, partitions, nodes,
  ScheduleCommand, append_items, data_types, apply_grid, apply, apply_slice, apply_slices, init,
  fixed_schedulers, with_grid,
}
use swm_sched.Ctrl.Commands.Terms.{
  Piece, empty_list, version, job, cluster, partition, node, encode_list, encode_rh, depth_items,
  Reads,
}
use swm_sched.Ctrl.Commands.Terms
use swm_sched.Ctrl.Commands.Lists.{
  Gives, apply_jobs-encode_list, apply_clusters-encode_list, apply_partitions-encode_list,
  apply_nodes-encode_list,
}
use swm_sched.Ctrl.Commands.Hierarchy.{apply_rh-encode_rh}

-- What a client sends.
pub record Request {ℓ} (SwmGrid : Type ℓ) : Type ℓ where
  pub rh : RhItems
  pub jobs : List SwmJob
  pub grid : Option SwmGrid
  pub clusters : List SwmCluster
  pub parts : List SwmPartition
  pub nodes : List SwmNode

-- The pieces of a slice behind its version; the one for the schedulers may hold anything.
abbrev pub slice_of : {G : Type 0} → Request G → DataType → List (Piece G)
slice_of r schedulers = []
slice_of r rh = encode_rh r.rh
slice_of r jobs = encode_list job r.jobs
slice_of r grid = elim r.grid [ none ↦ empty_list ∷ [] | some g ↦ Terms.grid g ∷ [] ]
slice_of r clusters = encode_list cluster r.clusters
slice_of r partitions = encode_list partition r.parts
slice_of r nodes = encode_list node r.nodes

-- The command that stands for a request.
abbrev pub command_of : (ei : Ei) → Request ei.SwmGrid → ScheduleCommand ei.SwmGrid
command_of ei r = record {
  schedulers = fixed_schedulers ei;
  sched_info = record {
    are_references_valid = true;
    grid = r.grid;
    rh = r.rh;
    clusters = r.clusters;
    cluster_ptrs = pointers_from 0 r.clusters;
    parts = r.parts;
    part_ptrs = pointers_from 0 r.parts;
    nodes = r.nodes;
    node_ptrs = pointers_from 0 r.nodes;
    jobs = r.jobs;
    job_ptrs = pointers_from 0 r.jobs;
  };
}

module _ (ei : Ei) (At : ei.Buffer → ℕ → List (Piece ei.SwmGrid) → Type 0)
    (r : Request ei.SwmGrid) where
  abbrev Command : Type 0
  Command = ScheduleCommand ei.SwmGrid

  -- What a slice changes.
  abbrev put : DataType → Command → Command
  put schedulers c = record c { schedulers = c.schedulers ++ fixed_schedulers ei }
  put rh c = record c {
    sched_info = record c.sched_info { rh = append_items c.sched_info.rh r.rh };
  }
  put jobs c = record c {
    sched_info = record c.sched_info { are_references_valid = false; jobs = r.jobs };
  }
  put grid c = with_grid ei r.grid c
  put clusters c = record c {
    sched_info = record c.sched_info { are_references_valid = false; clusters = r.clusters };
  }
  put partitions c = record c {
    sched_info = record c.sched_info { are_references_valid = false; parts = r.parts };
  }
  put nodes c = record c {
    sched_info = record c.sched_info { are_references_valid = false; nodes = r.nodes };
  }

  abbrev put_all : List DataType → Command → Command
  put_all [] c = c
  put_all (t ∷ ts) c = put_all ts (put t c)

  -- Each slice stands in its buffer.
  abbrev pub Written : List DataType → List ei.Buffer → Type 0
  Written [] [] = Unit
  Written (t ∷ ts) (b ∷ bs) = At b 0 (version 131 ∷ slice_of r t) × Written ts bs
  Written _ _ = ⊥

  put_all-eq-command_of :
      let c = put_all data_types (record { schedulers = []; sched_info = new_info }) in
      record c { sched_info = validate_references c.sched_info } ≡ command_of ei r
  unfolding validate_references
  put_all-eq-command_of = elim (Option-cases r.grid) [
    | inl empty ↦ rw (empty, with_grid) refl
    | inr (g, full) ↦ rw (full, with_grid) refl
  ]

  length-Written :
      (ts : List DataType) (bs : List ei.Buffer) → Written ts bs → length (map some bs) ≡ length ts
  length-Written [] [] w = refl
  length-Written [] (b ∷ bs) w = absurd w
  length-Written (t ∷ ts) [] w = absurd w
  length-Written (t ∷ ts) (b ∷ bs) w = ap suc (length-Written ts bs w.1)

  module _ (reads : Reads ei At) where
    apply_grid-slice_of :
        (g : Option ei.SwmGrid) (b : ei.Buffer) (i : ℕ) (errors : List CommandError)
        → At b i (elim g [ none ↦ empty_list ∷ [] | some x ↦ Terms.grid x ∷ [] ])
        → Gives (apply_grid ei b) g i errors
    unfolding apply_grid
    apply_grid-slice_of none b i errors a =
        let t = reads.type_of_empty_list b i [] a in
        let (j, s, a') = reads.skips_empty_list b i [] a in (j, errors, ground (arith, t, s))
    apply_grid-slice_of (some g) b i errors a =
        let (n, t) = reads.type_of_grid b i g [] a in
        let (j, s, a') = reads.reads_grid b i g [] a in (j, errors, ground (arith, t, s))

    module _ (fuel : ℕ) (deep : depth_items r.rh ≤ fuel) where
      apply-slice_of :
          (t : DataType) (b : ei.Buffer) (c : Command) (i : ℕ) (errors : List CommandError)
          → At b i (slice_of r t)
          → Gives (apply ei (suc fuel) t b c) (put t c) i errors
      unfolding apply
      apply-slice_of schedulers b c i errors a = (i, errors, refl)
      apply-slice_of rh b c i errors a =
          let (j, after, e) = apply_rh-encode_rh ei At reads b r.rh fuel i errors deep a in
          (j, after, ground (arith, e))
      apply-slice_of jobs b c i errors a =
          let (j, after, e) = apply_jobs-encode_list ei At reads b r.jobs i errors a in
          (j, after, ground (arith, e))
      apply-slice_of grid b c i errors a =
          let (j, after, e) = apply_grid-slice_of r.grid b i errors a in
          (j, after, ground (arith, e))
      apply-slice_of clusters b c i errors a =
          let (j, after, e) = apply_clusters-encode_list ei At reads b r.clusters i errors a in
          (j, after, ground (arith, e))
      apply-slice_of partitions b c i errors a =
          let (j, after, e) = apply_partitions-encode_list ei At reads b r.parts i errors a in
          (j, after, ground (arith, e))
      apply-slice_of nodes b c i errors a =
          let (j, after, e) = apply_nodes-encode_list ei At reads b r.nodes i errors a in
          (j, after, ground (arith, e))

      apply_slice-slice_of :
          (t : DataType) (b : ei.Buffer) (c : Command) (errors : List CommandError)
          → At b 0 (version 131 ∷ slice_of r t)
          → Gives (apply_slice ei (suc fuel) t b c) (put t c) 0 errors
      unfolding apply_slice
      apply_slice-slice_of t b c errors a =
          let (i, v, a') = reads.reads_version b 0 131 (slice_of r t) a in
          let (j, after, e) = apply-slice_of t b c i errors a' in (j, after, ground (arith, v, e))

      apply_slices-Written :
          (n : ℕ) (ts : List DataType) (bs : List ei.Buffer) (c : Command) (i : ℕ)
          (errors : List CommandError)
          → Written ts bs
          → Gives (apply_slices ei (suc fuel) n ts (map some bs) c) (put_all ts c) i errors
      unfolding apply_slices
      apply_slices-Written n [] [] c i errors w = (i, errors, refl)
      apply_slices-Written n [] (b ∷ bs) c i errors w = absurd w
      apply_slices-Written n (t ∷ ts) [] c i errors w = absurd w
      apply_slices-Written n (t ∷ ts) (b ∷ bs) c i errors w =
          let (j, after, e) = apply_slice-slice_of t b c errors w.0 in
          let (k, last, es) = apply_slices-Written (n + 1) ts bs (put t c) j after w.1 in
          (k, last, ground (arith, e, es))

-- A request that is written in seven slices is read as it was: `init` gives the fixed algorithm, the
-- entities of the request, and valid pointers to them, if the recursion may be as deep as the
-- hierarchy.
pub init-Written :
    (ei : Ei) (At : ei.Buffer → ℕ → List (Piece ei.SwmGrid) → Type 0) (r : Request ei.SwmGrid)
    (fuel : ℕ) (bs : List ei.Buffer)
    → Reads ei At
    → depth_items r.rh ≤ fuel
    → Written ei At r data_types bs
    → (j : ℕ) × (errors : List CommandError) × (init ei (suc fuel) (map some bs)
        ≡ parsed (command_of ei r) j errors)
unfolding init
init-Written ei At r fuel bs reads deep w =
    let (j, after, e) =
      apply_slices-Written ei At r reads fuel deep 0 data_types bs
        (record { schedulers = []; sched_info = new_info }) 0 [] w in
    let len : length (map some bs) ≡ 7 = length-Written ei At r data_types bs w in
    (j, after, rw (len, e) (ap (λ c. parsed c j after) (put_all-eq-command_of ei At r)))

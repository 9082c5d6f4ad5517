-- ===== src/PluginLib/Fcfs/Placing.antt =====
-- What `schedule_single_job` of src/plugin-lib/fcfs_implementation.cpp does with a job.
use swm_sched.Prelude.{
  ◌↔◌, filter_if, find_if, ℕ, ◌≤◌, ◌<◌, ◌≡◌, refl, ◌∙◌, ◌⊎◌, inl, inr, String, String_eq, ℕ_eq,
  Bool, true, List, [], ◌∷◌, ◌++◌, map, none, some, arith, if◌then◌else◌, ◌==◌, ltb, leb, ltb→lt,
  lt→ltb, leb→le, length, is_empty, contains, lookup, insert, max, add64, All, Elem, IsSorted,
  sort-IsSorted, SubList, SubList-All, total-sort, All-mono, Bool-cases, subst,
}
use swm_sched.PluginLib.Entities.{EiBuffer, SwmJob, SwmResource}
use swm_sched.PluginLib.Fcfs.Errors.{Message, Outcome, done, interrupted, threw, ◌>>=◌}
use swm_sched.PluginLib.Fcfs.Selection.{
  NodeRef, Store, node_id, select_nodes, extend_choice, prefer_parts,
}
use swm_sched.PluginLib.Fcfs.Single.{
  Fcfs, Placed, Checked, passed, rejected, check_request, latest, first_free_node, set_when_free,
  by_when_free, commit, place, schedule_single_job,
}
use swm_sched.PluginLib.Fcfs.Choice.{
  suits, select_nodes-eq-filter_if, IsSuitable, NodeRef-discrete, select_nodes-IsSuitable,
  select_nodes-sub, extend_choice-sub, extend_choice-length, prefer_parts-sub, prefer_parts-length,
  >>=-eq-done,
}

-- The time of `first_free_node` is the latest at which one of the nodes gets free.
latest-le :
    (when_free : Store) (best : NodeRef) (nrs : List NodeRef)
    → when_free best.ref ≤ when_free (latest when_free best nrs).ref
latest-le when_free best [] = omega arith
latest-le when_free best (nr ∷ nrs) =
    ground (arith, latest-le when_free nr nrs, latest-le when_free best nrs)

later-le :
    (when_free : Store) (best nr : NodeRef)
    → when_free nr.ref
      ≤ when_free (if ltb (when_free best.ref) (when_free nr.ref) then nr else best).ref
later-le when_free best nr = ground arith

latest-All :
    (when_free : Store) (best : NodeRef) (nrs : List NodeRef)
    → All (λ nr. when_free nr.ref ≤ when_free (latest when_free best nrs).ref) nrs
latest-All when_free best [] = tt
latest-All when_free best (nr ∷ nrs) =
    let kept = if ltb (when_free best.ref) (when_free nr.ref) then nr else best in
    (
      omega (arith, later-le when_free best nr, latest-le when_free kept nrs),
      latest-All when_free kept nrs,
    )

latest-Elem :
    (when_free : Store) (best : NodeRef) (nrs : List NodeRef)
    → Elem (latest when_free best nrs) (best ∷ nrs)
latest-Elem when_free best [] = inl refl
latest-Elem when_free best (nr ∷ nrs) =
    ground (arith, latest-Elem when_free nr nrs, latest-Elem when_free best nrs)

pub first_free_node-All :
    (when_free : Store) (nrs : List NodeRef)
    → All (λ nr. when_free nr.ref ≤ first_free_node when_free nrs) nrs
unfolding first_free_node
first_free_node-All when_free [] = tt
first_free_node-All when_free (nr ∷ nrs) = (latest-le when_free nr nrs, latest-All when_free nr nrs)

first_free_node-Elem :
    (when_free : Store) (nrs : List NodeRef)
    → 0 < length nrs
    → (nr : NodeRef) × Elem nr nrs × (when_free nr.ref ≡ first_free_node when_free nrs)
unfolding first_free_node
first_free_node-Elem when_free [] h = elim h [ ]
first_free_node-Elem when_free (nr ∷ nrs) h =
    (latest when_free nr nrs, latest-Elem when_free nr nrs, refl)

-- A write through the references is seen at each of them, and nowhere else.
pub set_when_free-at :
    (t : ℕ) (nrs : List NodeRef) (when_free : Store) (r : ℕ)
    → set_when_free t nrs when_free r
      ≡ (if contains r (map (λ nr. nr.ref) nrs) then t else when_free r)
set_when_free-at t [] when_free r = refl
set_when_free-at t (nr ∷ nrs) when_free r =
    ground (arith, set_when_free-at t nrs (λ (k : ℕ). if k == nr.ref then t else when_free k) r)

max-cases :
    (t free : ℕ) (when_free : Store) (nrs : List NodeRef)
    → (nr : NodeRef) × Elem nr nrs × (when_free nr.ref ≡ free)
    → (max t free ≡ t) ⊎ ((nr : NodeRef) × Elem nr nrs × (when_free nr.ref ≡ max t free))
max-cases t free when_free nrs (nr, m, e) = elim (Bool-cases (leb free t)) [
  | inl le ↦ inl (omega (arith, leb→le free t le))
  | inr gt ↦ inr (nr, m, e ∙ omega (arith, lt→ltb free t, ltb→lt t free (ground arith)))
]

never-none {ℓ κ} :
    {A : Type ℓ} {B : Type κ} (m : Outcome A) (g : A → B)
    → (m >>= λ a. done (some (g a))) ≡ done none
    → ⊥
never-none (done a) g e = cc
never-none interrupted g e = cc
never-none (threw x) g e = cc

module _ (ei_buffer_to_str : EiBuffer → Bool × String) (f : Fcfs) (job : SwmJob)
    (start_time_threshold : ℕ) (busy_nodes : List String) where
  -- A job that was scheduled, with the count of nodes that it asks for and its cluster's vector.
  pub record IsPlacement (node_num : ℕ) (nodes : List NodeRef) (p : Placed) : Type 0 where
    -- It has as many nodes as its request counts, each once and each suitable.
    pub requested :
        (res : SwmResource) × (find_if (λ res. res.name == "node") job.request ≡ some res)
        × (res.count ≡ node_num)
    pub wanted : 0 < node_num
    pub of_cluster : lookup job.cluster_id f.nodes_per_cluster ≡ some nodes
    pub enough : length p.nodes ≡ node_num
    pub among : SubList p.nodes nodes
    pub suitable : All (IsSuitable ei_buffer_to_str job busy_nodes) p.nodes
    -- The timetable names them, and starts when they are free and the threshold is reached.
    pub job_id : p.tt.job_id ≡ job.id
    pub job_nodes : p.tt.job_nodes ≡ map node_id p.nodes
    pub after_threshold : start_time_threshold ≤ p.tt.start_time
    pub after_nodes : All (λ nr. f.when_free nr.ref ≤ p.tt.start_time) p.nodes
    pub no_later :
        (p.tt.start_time ≡ start_time_threshold)
        ⊎ ((nr : NodeRef) × Elem nr p.nodes × (f.when_free nr.ref ≡ p.tt.start_time))
    -- The nodes are busy up to its end, the others as before, and the vector is sorted again.
    pub when_free_after :
        (r : ℕ)
        → p.fcfs.when_free r ≡ (
            if contains r (map (λ nr. nr.ref) p.nodes)
            then add64 p.tt.start_time job.duration
            else f.when_free r)
    pub vector_after :
        (sorted : List NodeRef) × (p.fcfs.nodes_per_cluster
          ≡ insert job.cluster_id sorted f.nodes_per_cluster)
        × IsSorted (λ nr. p.fcfs.when_free nr.ref) sorted
        × SubList sorted nodes
        × SubList nodes sorted
    pub same_rh : p.fcfs.rh ≡ f.rh
    pub busy_after : p.busy_nodes ≡ map node_id p.nodes ++ busy_nodes

  pub check_request-passed :
      (node_num : ℕ) (nodes : List NodeRef)
      → check_request f job ≡ passed node_num nodes
      → (0 < node_num) × (lookup job.cluster_id f.nodes_per_cluster ≡ some nodes)
  unfolding check_request
  check_request-passed node_num nodes e = ground arith

  check_request-requested :
      (node_num : ℕ) (nodes : List NodeRef)
      → check_request f job ≡ passed node_num nodes
      → (res : SwmResource) × (find_if (λ res. res.name == "node") job.request ≡ some res)
        × (res.count ≡ node_num)
  unfolding check_request
  check_request-requested node_num nodes e = ground arith

  commit-IsPlacement :
      (node_num : ℕ) (nodes chosen : List NodeRef)
      → check_request f job ≡ passed node_num nodes
      → length chosen ≡ node_num
      → SubList chosen nodes
      → All (IsSuitable ei_buffer_to_str job busy_nodes) chosen
      → IsPlacement node_num nodes (commit f job start_time_threshold busy_nodes nodes chosen)
  unfolding commit
  commit-IsPlacement node_num nodes chosen c l s a = record {
    requested = check_request-requested node_num nodes c;
    wanted = (check_request-passed node_num nodes c).0;
    of_cluster = (check_request-passed node_num nodes c).1;
    enough = l;
    among = s;
    suitable = a;
    job_id = refl;
    job_nodes = refl;
    after_threshold = omega arith;
    after_nodes =
        All-mono _ _ chosen (λ nr h. omega arith) (first_free_node-All f.when_free chosen);
    no_later =
        max-cases start_time_threshold (first_free_node f.when_free chosen) f.when_free chosen (
          first_free_node-Elem f.when_free chosen
            (omega (arith, (check_request-passed node_num nodes c).0)));
    when_free_after = λ r. set_when_free-at _ chosen f.when_free r;
    vector_after = (
      _,
      refl,
      sort-IsSorted _ nodes,
      λ w. omega (arith, total-sort (by_when_free (set_when_free _ chosen f.when_free)) w nodes),
      λ w. omega (arith, total-sort (by_when_free (set_when_free _ chosen f.when_free)) w nodes),
    );
    same_rh = refl;
    busy_after = refl;
  }

  pub Checked-cases :
      (c : Checked)
      → ((m : Message) × (c ≡ rejected m))
        ⊎ ((n : ℕ) × (nodes : List NodeRef) × (c ≡ passed n nodes))
  Checked-cases (rejected m) = inl (m, refl)
  Checked-cases (passed n nodes) = inr (n, nodes, refl)

  place-IsPlacement :
      (node_num : ℕ) (nodes : List NodeRef) (p : Placed)
      → check_request f job ≡ passed node_num nodes
      → (place ei_buffer_to_str f job start_time_threshold busy_nodes node_num nodes).placed
        ≡ done (some p)
      → IsPlacement node_num nodes p
  unfolding place
  place-IsPlacement node_num nodes p c e = elim (Bool-cases (ltb (length selected) node_num)) [
    | inl few ↦ ground arith
    | inr more ↦
        let (chosen, preferred, rest) =
          >>=-eq-done (prefer_parts f.rh node_num (extend_choice f.when_free node_num selected)) _ _
            (rw more at e) in
        let extended = extend_choice f.when_free node_num selected in
        let from_selected = prefer_parts-sub f.rh node_num extended chosen preferred in
        let from_extended = extend_choice-sub f.when_free node_num selected in
        let all_found = select_nodes-sub ei_buffer_to_str job busy_nodes job.nodes nodes in
        subst (IsPlacement node_num nodes) (cc) (
          commit-IsPlacement node_num nodes chosen c
            (prefer_parts-length f.rh node_num extended chosen preferred
              (extend_choice-length f.when_free node_num selected (ground arith)))
            (λ w. omega (arith, from_selected w, from_extended w, all_found w))
            (SubList-All NodeRef-discrete (IsSuitable ei_buffer_to_str job busy_nodes) chosen
              selected (λ w. omega (arith, from_selected w, from_extended w))
              (select_nodes-IsSuitable ei_buffer_to_str job busy_nodes job.nodes nodes (λ a h. h))))
  ]
    where
      selected : List NodeRef
      selected = (select_nodes ei_buffer_to_str job busy_nodes job.nodes nodes).0

  -- A job that was scheduled got, from the vector of its cluster, as many suitable nodes as it asks
  -- for, each once. Its timetable names them and starts at the earliest moment that is past the
  -- threshold and at which they are all free. They are then free at its end, all other nodes when
  -- they were, and the vector has its nodes sorted by that time.
  pub schedule_single_job-IsPlacement :
      (p : Placed)
      → (schedule_single_job ei_buffer_to_str f job start_time_threshold busy_nodes).placed
        ≡ done (some p)
      → (node_num : ℕ) × (nodes : List NodeRef) × IsPlacement node_num nodes p
  unfolding schedule_single_job
  schedule_single_job-IsPlacement p e = elim (Checked-cases (check_request f job)) [
    | inl (m, c) ↦ absurd (ground arith)
    | inr (n, nodes, c) ↦
        (n, nodes, place-IsPlacement n nodes p c (rw (c, schedule_single_job) at e))
  ]

  -- A job with no preset nodes, whose request names a count of nodes and a known cluster, is
  -- refused exactly when fewer nodes of the cluster suit it than it asks for.
  pub schedule_single_job-refuses :
      (node_num : ℕ) (nodes : List NodeRef)
      → is_empty job.nodes ≡ true
      → check_request f job ≡ passed node_num nodes
      → ((schedule_single_job ei_buffer_to_str f job start_time_threshold busy_nodes).placed
          ≡ done none)
        ↔ (length (filter_if (suits ei_buffer_to_str job busy_nodes) nodes) < node_num)
  unfolding schedule_single_job place
  schedule_single_job-refuses node_num nodes none_preset c =
      rw (c, schedule_single_job)
        (rw
          (← select_nodes-eq-filter_if ei_buffer_to_str job busy_nodes job.nodes nodes none_preset)
          (elim (Bool-cases (ltb (length selected) node_num)) [
            | inl few ↦ (λ e. ltb→lt _ _ few, λ l. rw few refl)
            | inr more ↦ (λ e. absurd (never-none _ _ (rw more at e)), λ l. absurd (ground arith))
          ]))
    where
      selected : List NodeRef
      selected = (select_nodes ei_buffer_to_str job busy_nodes job.nodes nodes).0

-- ===== src/PluginLib/Fcfs/Adding.antt =====
-- A job that was scheduled by src/plugin-lib/fcfs_implementation.cpp joins the runs that are planned.
use native.Mathlib.Nat.{mod-eq_of_lt}
use swm_sched.Prelude.{
  ℕ, ◌+◌, ◌^◌, ◌≤◌, ◌<◌, ◌≡◌, ◌≢◌, refl, sym, ap, ◌∙◌, inl, inr, max, String, String_eq, ℕ_eq, Bool,
  true, false, List, [], ◌∷◌, ◌++◌, map, none, some, arith, ◌==◌, contains, Elem, Elem-append,
  Elem-append_left, Elem-append_right, Elem-contains, contains-true, All-at, All-of, Bool-cases,
  str_eq_iff, Assoc, lookup, insert, lookup-insert, add64, subst, SubList, SubList-All,
}
use swm_sched.PluginLib.Entities.{EiBuffer, SwmJob}
use swm_sched.PluginLib.Fcfs.Selection.{NodeRef, node_id}
use swm_sched.PluginLib.Fcfs.Single.{Fcfs, Placed}
use swm_sched.PluginLib.Fcfs.Choice.{NodeRef-discrete, IsSuitable}
use swm_sched.PluginLib.Fcfs.Placing.{IsPlacement}
use swm_sched.PluginLib.Fcfs.History.{Run, finish, Before, Disjoint, Apart-snoc}
use swm_sched.PluginLib.Fcfs.Shift.{touched}
use swm_sched.PluginLib.Fcfs.Plan.{IsPool, FromPool, Plan, Elem-map}

module _ (ei_buffer_to_str : EiBuffer → Bool × String) (pool : List NodeRef) (is_pool : IsPool pool)
    (settled gang : List Run) (m : ℕ) (f : Fcfs) (endtimes : Assoc String ℕ)
    (gang_nodes : List String) (gang_start : ℕ)
    (p : Plan pool settled gang m f endtimes gang_nodes gang_start) (job : SwmJob)
    (threshold node_num : ℕ) (nodes : List NodeRef) (placed : Placed) (bounded : threshold ≤ m)
    (fits : m + job.duration < 2 ^ 64)
    (i : IsPlacement ei_buffer_to_str f job threshold gang_nodes node_num nodes placed) where
  abbrev new_run : Run
  new_run = record { job = job; start = placed.tt.start_time; nodes = placed.nodes }

  start-le : placed.tt.start_time ≤ m
  start-le = elim i.no_later [
    | inl e ↦ omega (arith, e)
    | inr (nr, k, e) ↦ omega (arith, e, p.times nr.ref)
  ]

  end-eq : add64 placed.tt.start_time job.duration ≡ finish new_run
  end-eq = mod-eq_of_lt (omega (arith, start-le))

  placed-pool : (x : NodeRef) → Elem x placed.nodes → Elem x pool
  placed-pool x k =
      All-at (λ y. Elem y pool) x placed.nodes
        (SubList-All NodeRef-discrete (λ y. Elem y pool) placed.nodes nodes i.among
          (All-of (λ y. Elem y pool) nodes (p.vectors job.cluster_id nodes i.of_cluster)))
        k

  -- A new_run that shares a reference with the new one has ended when it starts.
  old-le :
      (r : Run) (x y : NodeRef)
      → Elem r (settled ++ gang)
      → Elem x r.nodes
      → Elem y placed.nodes
      → x.ref ≡ y.ref
      → finish r ≤ placed.tt.start_time
  old-le r x y k kx ky e =
      let at_y : f.when_free y.ref ≤ placed.tt.start_time =
        All-at (λ nr. f.when_free nr.ref ≤ placed.tt.start_time) y placed.nodes i.after_nodes ky in
      omega (arith, p.free r x k kx, ap f.when_free e, at_y)

  new-Before : (r : Run) → Elem r (settled ++ gang) → Before r new_run
  new-Before r k x y kx ky e =
      old-le r x y k kx ky ((is_pool x y (p.from_pool r x k kx) (placed-pool y ky)).0 e)

  new-Disjoint : (g : Run) → Elem g gang → Disjoint g new_run
  new-Disjoint g k x y kx ky e =
      let suits =
        All-at (IsSuitable ei_buffer_to_str job gang_nodes) y placed.nodes i.suitable ky in
      cc (p.taken g x k kx, suits.not_busy, ap (λ a. contains a gang_nodes) e)

  after-hit :
      (r : ℕ)
      → contains r (map (λ nr. nr.ref) placed.nodes) ≡ true
      → placed.fcfs.when_free r ≡ finish new_run
  after-hit r hit = i.when_free_after r ∙ rw hit end-eq

  after-miss :
      (r : ℕ)
      → contains r (map (λ nr. nr.ref) placed.nodes) ≡ false
      → placed.fcfs.when_free r ≡ f.when_free r
  after-miss r miss = i.when_free_after r ∙ rw miss refl

  free-old :
      (r : Run) (x : NodeRef)
      → Elem r (settled ++ gang)
      → Elem x r.nodes
      → finish r ≤ placed.fcfs.when_free x.ref
  free-old r x k kx = elim (Bool-cases (contains x.ref (map (λ nr. nr.ref) placed.nodes))) [
    | inl hit ↦
        let (y, ky, e) = touched x.ref placed.nodes hit in
        omega (arith, old-le r x y k kx ky (sym e), after-hit x.ref hit)
    | inr miss ↦ omega (arith, p.free r x k kx, after-miss x.ref miss)
  ]

  free-new : (x : NodeRef) → Elem x placed.nodes → finish new_run ≤ placed.fcfs.when_free x.ref
  free-new x kx =
      let hit : contains x.ref (map (λ nr. nr.ref) placed.nodes) ≡ true =
        Elem-contains x.ref _ (Elem-map (λ nr. nr.ref) x placed.nodes kx) in
      omega (arith, after-hit x.ref hit)

  new-times : (r : ℕ) → placed.fcfs.when_free r ≤ m + job.duration
  new-times r = elim (Bool-cases (contains r (map (λ nr. nr.ref) placed.nodes))) [
    | inl hit ↦ omega (arith, start-le, after-hit r hit)
    | inr miss ↦ omega (arith, p.times r, after-miss r miss)
  ]

  new-ends :
      (k : String) (t : ℕ)
      → lookup k (insert job.id (add64 placed.tt.start_time job.duration) endtimes) ≡ some t
      → t ≤ m + job.duration
  new-ends k t e = ground (
    arith,
    lookup-insert k job.id (add64 placed.tt.start_time job.duration) endtimes,
    p.ends k t,
    start-le,
    end-eq,
  )

  new-taken :
      (g : Run) (x : NodeRef)
      → Elem g (gang ++ new_run ∷ [])
      → Elem x g.nodes
      → contains (node_id x) placed.busy_nodes ≡ true
  new-taken g x k kx = rw i.busy_after (elim (Elem-append g gang (new_run ∷ []) k) [
    | inl old ↦ Elem-contains (node_id x) _ (
        Elem-append_right (node_id x) (map node_id placed.nodes) gang_nodes
          (contains-true (node_id x) gang_nodes (p.taken g x old kx)))
    | inr (inl e) ↦ Elem-contains (node_id x) _ (
        Elem-append_left (node_id x) (map node_id placed.nodes) gang_nodes
          (Elem-map node_id x placed.nodes (subst (λ (q : Run). Elem x q.nodes) e kx)))
    | inr (inr j) ↦ absurd j
  ])

  new-vectors : FromPool pool placed.fcfs.nodes_per_cluster
  new-vectors k vector e x kx =
      let (sorted, same, ordered, fewer, more) = i.vector_after in
      let at = lookup-insert k job.cluster_id sorted f.nodes_per_cluster in
      elim (Bool-cases (k == job.cluster_id)) [
        | inl hit ↦
            All-at (λ y. Elem y pool) x vector
              (SubList-All NodeRef-discrete (λ y. Elem y pool) vector nodes
                (subst (λ v. SubList v nodes) (ground arith) fewer)
                (All-of (λ y. Elem y pool) nodes (p.vectors job.cluster_id nodes i.of_cluster)))
              kx
        | inr miss ↦ p.vectors k vector (ground arith) x kx
      ]

  new-clusters :
      (g : Run)
      → Elem g (gang ++ new_run ∷ [])
      → lookup g.job.cluster_id placed.fcfs.nodes_per_cluster ≢ none
  new-clusters g k e =
      let (sorted, same, ordered, fewer, more) = i.vector_after in
      let at = lookup-insert g.job.cluster_id job.cluster_id sorted f.nodes_per_cluster in
      elim (Elem-append g gang (new_run ∷ []) k) [
        | inl old ↦ let was = p.clusters g old in ground arith
        | inr (inl same_run) ↦ ground (
          arith,
          ap (λ (q : Run). q.job.cluster_id) same_run,
          str_eq_iff g.job.cluster_id job.cluster_id,
        )
        | inr (inr j) ↦ absurd j
      ]

  in_new :
      {B : Run → Type 0} (g : Run)
      → Elem g (gang ++ new_run ∷ [])
      → ((h : Run) → Elem h gang → B h)
      → B new_run
      → B g
  in_new {B = B} g k old new = elim (Elem-append g gang (new_run ∷ []) k) [
    | inl j ↦ old g j
    | inr (inl e) ↦ subst B (sym e) new
    | inr (inr j) ↦ absurd j
  ]

  in_all :
      {B : Run → Type 0} (r : Run)
      → Elem r (settled ++ (gang ++ new_run ∷ []))
      → ((q : Run) → Elem q (settled ++ gang) → B q)
      → B new_run
      → B r
  in_all {B = B} r k old new = elim (Elem-append r settled (gang ++ new_run ∷ []) k) [
    | inl j ↦ old r (Elem-append_left r settled gang j)
    | inr j ↦ in_new {B = B} r j (λ h l. old h (Elem-append_right h settled gang l)) new
  ]

  -- The job's run joins the gang.
  pub add-Plan :
      Plan pool settled
        (gang ++ new_run ∷ [])
        (m + job.duration)
        placed.fcfs
        (insert job.id (add64 placed.tt.start_time job.duration) endtimes)
        placed.busy_nodes
        (max gang_start placed.tt.start_time)
  add-Plan = record {
    vectors = new-vectors;
    clusters = new-clusters;
    from_pool = λ r x k.
        in_all {B = λ r. Elem x r.nodes → Elem x pool} r k (λ q j. p.from_pool q x j)
          (placed-pool x);
    ordered = p.ordered;
    cross = λ r s k j.
        in_new {B = Before r} s j (λ h l. p.cross r h k l)
          (new-Before r (Elem-append_left r settled gang k));
    apart = Apart-snoc gang new_run p.apart new-Disjoint;
    early = λ g k.
        in_new {B = λ g. g.start ≤ max gang_start placed.tt.start_time} g k
          (λ h j. omega (arith, p.early h j)) (omega arith);
    taken = new-taken;
    free = λ r x k.
        in_all {B = λ r. Elem x r.nodes → finish r ≤ placed.fcfs.when_free x.ref} r k
          (λ q j. free-old q x j) (free-new x);
    times = new-times;
    ends = new-ends;
    gang_bound = omega (arith, p.gang_bound, start-le);
  }

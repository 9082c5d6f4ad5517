-- ===== src/PluginLib/Fcfs/Aligning.antt =====
-- `align_jobs` of src/plugin-lib/fcfs_implementation.cpp against the runs that are planned.
use swm_sched.Prelude.{
  ℕ, suc, ◌+◌, ◌^◌, ◌≤◌, ◌<◌, ◌≡◌, ◌≢◌, refl, sym, ap, ◌∙◌, ◌⊎◌, inl, inr, String, String_eq, ℕ_eq,
  List, [], ◌∷◌, ◌++◌, none, some, Option-cases, arith, ◌==◌, contains, Elem, Elem-append,
  Elem-append_left, Elem-append_right, All-at, All-of, Bool-cases, Assoc, lookup, insert,
  lookup-insert, subst, total-sort, sort, SubList, SubList-All,
}
use swm_sched.PluginLib.Fcfs.Errors.{done}
use swm_sched.PluginLib.Fcfs.Selection.{NodeRef, node_id}
use swm_sched.PluginLib.Fcfs.Single.{Fcfs, by_when_free}
use swm_sched.PluginLib.Fcfs.Schedule.{Loop, resort, clusters_of, shift_jobs}
use swm_sched.PluginLib.Fcfs.Choice.{NodeRef-discrete}
use swm_sched.PluginLib.Fcfs.History.{
  Run, finish, Before, Ordered-append, Apart-Ordered, Apart-same, at_start, aligned, Elem-aligned,
  Apart-aligned, refs,
}
use swm_sched.PluginLib.Fcfs.Shift.{shift_jobs-when_free, shift_jobs-endtimes, shift_jobs-same}
use swm_sched.PluginLib.Fcfs.Plan.{IsPool, FromPool, durations, Plan}

pub record Resorted (pool : List NodeRef) (f g : Fcfs) : Type 0 where
  pub same_times : g.when_free ≡ f.when_free
  pub same_rh : g.rh ≡ f.rh
  pub from_pool : FromPool pool f.nodes_per_cluster → FromPool pool g.nodes_per_cluster

one_sorted :
    (pool : List NodeRef) (f : Fcfs) (c : String) (nodes : List NodeRef)
    → lookup c f.nodes_per_cluster ≡ some nodes
    → FromPool pool f.nodes_per_cluster
    → FromPool pool (insert c (sort (by_when_free f.when_free) nodes) f.nodes_per_cluster)
one_sorted pool f c nodes e h k vector at x kx =
    let sorted = sort (by_when_free f.when_free) nodes in
    let is = lookup-insert k c sorted f.nodes_per_cluster in
    let fewer : SubList sorted nodes =
      λ w. omega (arith, total-sort (by_when_free f.when_free) w nodes) in
    elim (Bool-cases (k == c)) [
      | inl hit ↦
          let same : sorted ≡ vector = ground arith in
          All-at (λ y. Elem y pool) x vector
            (SubList-All NodeRef-discrete (λ y. Elem y pool) vector nodes
              (subst (λ v. SubList v nodes) same fewer)
              (All-of (λ y. Elem y pool) nodes (h c nodes e)))
            kx
      | inr miss ↦ h k vector (ground arith) x kx
    ]

still_there :
    (c d : String) (v : List NodeRef) (m : Assoc String (List NodeRef))
    → lookup d m ≢ none
    → lookup d (insert c v m) ≢ none
still_there c d v m h e = let is = lookup-insert d c v m in ground arith

pub resort-Resorted :
    (pool : List NodeRef) (cs : List String) (f : Fcfs)
    → ((c : String) → Elem c cs → lookup c f.nodes_per_cluster ≢ none)
    → (g : Fcfs) × (resort cs f ≡ done g) × Resorted pool f g
unfolding resort
resort-Resorted pool [] f h =
    (f, refl, record { same_times = refl; same_rh = refl; from_pool = λ i. i })
resort-Resorted pool (c ∷ cs) f h = elim (Option-cases (lookup c f.nodes_per_cluster)) [
  | inl missing ↦ absurd (h c (inl refl) missing)
  | inr (nodes, found) ↦
      let g = record f {
        nodes_per_cluster = insert c (sort (by_when_free f.when_free) nodes) f.nodes_per_cluster;
      } in
      let (last, e, r) =
        resort-Resorted pool cs g (λ d j. still_there c d _ f.nodes_per_cluster (h d (inr j))) in
      (
        last,
        rw (found, resort) e,
        record {
          same_times = r.same_times;
          same_rh = r.same_rh;
          from_pool = λ i. r.from_pool (one_sorted pool f c nodes found i);
        },
      )
]

clusters_of-from :
    (n : ℕ) (gang : List Run) (c : String)
    → Elem c (clusters_of (refs n gang))
    → (g : Run) × Elem g gang × (c ≡ g.job.cluster_id)
clusters_of-from n [] c k = absurd k
clusters_of-from n (g ∷ gang) c k =
    elim (Bool-cases (contains g.job.cluster_id (clusters_of (refs (suc n) gang)))) [
      | inl dup ↦ let (h, kh, e) = clusters_of-from (suc n) gang c (rw dup at k) in (h, inr kh, e)
      | inr new ↦ elim (rw new at k) [
        | inl e ↦ (g, inl refl, e)
        | inr j ↦ let (h, kh, e) = clusters_of-from (suc n) gang c j in (h, inr kh, e)
      ]
    ]

duration-le : (g : Run) (gang : List Run) → Elem g gang → g.job.duration ≤ durations gang
duration-le g [] k = absurd k
duration-le g (h ∷ gang) (inl e) = omega (arith, ap (λ (q : Run). q.job.duration) e)
duration-le g (h ∷ gang) (inr k) = omega (arith, duration-le g gang k)

module _ (pool : List NodeRef) (is_pool : IsPool pool) (settled gang : List Run) (m n : ℕ)
    (l : Loop)
    (p : Plan pool settled gang m l.fcfs l.jobs_to_endtimes l.gang_nodes l.gang_start_time)
    (fits : m + durations gang < 2 ^ 64) where
  abbrev shifted : Loop
  shifted = shift_jobs l.gang_start_time (refs n gang) l

  abbrev moved : List Run
  moved = aligned l.gang_start_time gang

  fits-at : (g : Run) → Elem g gang → l.gang_start_time + g.job.duration < 2 ^ 64
  fits-at g k = omega (arith, p.gang_bound, duration-le g gang k)

  ends-le : (g : Run) → Elem g gang → l.gang_start_time + g.job.duration ≤ m + durations gang
  ends-le g k = omega (arith, p.gang_bound, duration-le g gang k)

  in_moved :
      {B : Run → Type 0} (r : Run)
      → Elem r ((settled ++ moved) ++ [])
      → ((q : Run) → Elem q settled → B q)
      → ((g : Run) → Elem g gang → B (at_start l.gang_start_time g))
      → B r
  in_moved {B = B} r k old new = elim (Elem-append r (settled ++ moved) [] k) [
    | inr j ↦ absurd j
    | inl j ↦ elim (Elem-append r settled moved j) [
      | inl s ↦ old r s
      | inr t ↦
          let (g, kg, e) = Elem-aligned l.gang_start_time r gang t in subst B (sym e) (new g kg)
    ]
  ]

  shifted-at :
      (r : ℕ)
      → ((shifted.fcfs.when_free r ≡ l.fcfs.when_free r)
          × ((g : Run) (x : NodeRef) → Elem g gang → Elem x g.nodes → x.ref ≢ r))
        ⊎ ((g : Run) × (x : NodeRef) × Elem g gang
            × Elem x g.nodes
            × (x.ref ≡ r)
            × (shifted.fcfs.when_free r ≡ l.gang_start_time + g.job.duration))
  shifted-at r = shift_jobs-when_free l.gang_start_time n gang l r fits-at

  settled-Before :
      (r g : Run) → Elem r settled → Elem g gang → Before r (at_start l.gang_start_time g)
  settled-Before r g kr kg x y kx ky e = omega (arith, p.cross r g kr kg x y kx ky e, p.early g kg)

  id-of-ref :
      (r g : Run) (x y : NodeRef)
      → Elem r (settled ++ gang)
      → Elem g gang
      → Elem x r.nodes
      → Elem y g.nodes
      → y.ref ≡ x.ref
      → node_id x ≡ node_id y
  id-of-ref r g x y kr kg kx ky e =
      (is_pool x y (p.from_pool r x kr kx)
          (p.from_pool g y (Elem-append_right g settled gang kg) ky)).1
        (sym e)

  free-settled :
      (r : Run) (x : NodeRef)
      → Elem r settled
      → Elem x r.nodes
      → finish r ≤ shifted.fcfs.when_free x.ref
  free-settled r x k kx = elim (shifted-at x.ref) [
    | inl (same, miss) ↦ omega (arith, p.free r x (Elem-append_left r settled gang k) kx, same)
    | inr (g, y, kg, ky, e, at) ↦ omega (
      arith,
      settled-Before r g k kg x y kx ky
          (id-of-ref r g x y (Elem-append_left r settled gang k) kg kx ky e),
      at,
    )
  ]

  free-moved :
      (g : Run) (x : NodeRef)
      → Elem g gang
      → Elem x g.nodes
      → l.gang_start_time + g.job.duration ≤ shifted.fcfs.when_free x.ref
  free-moved g x k kx = elim (shifted-at x.ref) [
    | inl (same, miss) ↦ absurd (miss g x k kx refl)
    | inr (h, y, kh, ky, e, at) ↦
        let one =
          Apart-same gang g h x y p.apart k kh kx ky
            (id-of-ref g h x y (Elem-append_right g settled gang k) kh kx ky e) in
        omega (arith, ap (λ (q : Run). q.job.duration) one, at)
  ]

  shifted-times : (r : ℕ) → shifted.fcfs.when_free r ≤ m + durations gang
  shifted-times r = elim (shifted-at r) [
    | inl (same, miss) ↦ omega (arith, p.times r, same)
    | inr (g, y, kg, ky, e, at) ↦ omega (arith, ends-le g kg, at)
  ]

  shifted-vectors : FromPool pool shifted.fcfs.nodes_per_cluster
  shifted-vectors =
      subst (FromPool pool) (sym (shift_jobs-same l.gang_start_time (refs n gang) l).0) p.vectors

  shifted-clusters :
      (c : String)
      → Elem c (clusters_of (refs n gang))
      → lookup c shifted.fcfs.nodes_per_cluster ≢ none
  shifted-clusters c k =
      let (g, kg, e) = clusters_of-from n gang c k in
      rw (e, (shift_jobs-same l.gang_start_time (refs n gang) l).0) (p.clusters g kg)

  moved-Plan :
      (f : Fcfs)
      → Resorted pool shifted.fcfs f
      → Plan pool (settled ++ moved) [] (m + durations gang) f shifted.jobs_to_endtimes [] 0
  moved-Plan f s = record {
    vectors = s.from_pool shifted-vectors;
    clusters = λ g k. absurd k;
    from_pool = λ r x k.
        in_moved {B = λ r. Elem x r.nodes → Elem x pool} r k
          (λ q j. p.from_pool q x (Elem-append_left q settled gang j))
          (λ g j. p.from_pool g x (Elem-append_right g settled gang j));
    ordered =
        Ordered-append settled moved p.ordered
          (Apart-Ordered moved (Apart-aligned l.gang_start_time gang p.apart))
          (λ r q kr kq.
            let (g, kg, e) = Elem-aligned l.gang_start_time q gang kq in
            subst (Before r) (sym e) (settled-Before r g kr kg));
    cross = λ r q i j. absurd j;
    apart = tt;
    early = λ g i. absurd i;
    taken = λ g x i. absurd i;
    free = λ r x k.
        in_moved {B = λ r. Elem x r.nodes → finish r ≤ f.when_free x.ref} r k
          (λ q j kx. rw s.same_times (free-settled q x j kx))
          (λ g j kx. rw s.same_times (free-moved g x j kx));
    times = λ r. rw s.same_times (shifted-times r);
    ends =
        shift_jobs-endtimes l.gang_start_time n gang l (m + durations gang) fits-at ends-le
          (λ k t e. omega (arith, p.ends k t e));
    gang_bound = omega arith;
  }

  -- The second loop finds the clusters of the gang.
  pub aligned-Plan :
      (f : Fcfs) × (resort (clusters_of (refs n gang)) shifted.fcfs ≡ done f)
      × (f.rh ≡ l.fcfs.rh)
      × Plan pool (settled ++ moved) [] (m + durations gang) f shifted.jobs_to_endtimes [] 0
  aligned-Plan =
      let (f, e, s) =
        resort-Resorted pool (clusters_of (refs n gang)) shifted.fcfs shifted-clusters in
      (f, e, s.same_rh ∙ (shift_jobs-same l.gang_start_time (refs n gang) l).1, moved-Plan f s)

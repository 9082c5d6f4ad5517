-- ===== src/PluginLib/Fcfs/Plan.antt =====
-- The state of the loop in src/plugin-lib/fcfs_implementation.cpp against the runs that it has planned,
-- those that are settled and those of the open gang.
use swm_sched.Prelude.{
  ℕ, ◌≤◌, ◌≡◌, ◌≢◌, ap, ◌↔◌, inl, inr, String, String_eq, ℕ_eq, true, List, [], ◌∷◌, ◌++◌, map,
  none, some, arith, contains, Elem, Elem-append, Assoc, lookup, total,
}
use swm_sched.PluginLib.Fcfs.Selection.{NodeRef, node_id}
use swm_sched.PluginLib.Fcfs.Single.{Fcfs}
use swm_sched.PluginLib.Fcfs.History.{
  Run, finish, Before, Ordered, Apart, Ordered-append, Apart-Ordered,
}

-- The references that the clusters' vectors hold: a node has one reference.
abbrev pub IsPool : List NodeRef → Type 0
IsPool pool =
    (x y : NodeRef) → Elem x pool → Elem y pool → (node_id x ≡ node_id y) ↔ (x.ref ≡ y.ref)

abbrev pub FromPool : List NodeRef → Assoc String (List NodeRef) → Type 0
FromPool pool m =
    (k : String) (nodes : List NodeRef)
    → lookup k m ≡ some nodes
    → (x : NodeRef) → Elem x nodes
    → Elem x pool

abbrev pub durations : List Run → ℕ
durations = total (λ r. r.job.duration)

-- `m` bounds all times.
pub record Plan (pool : List NodeRef) (settled gang : List Run) (m : ℕ) (f : Fcfs)
    (endtimes : Assoc String ℕ) (gang_nodes : List String) (gang_start : ℕ) : Type 0 where
  pub vectors : FromPool pool f.nodes_per_cluster
  pub clusters : (g : Run) → Elem g gang → lookup g.job.cluster_id f.nodes_per_cluster ≢ none
  pub from_pool : (r : Run) (x : NodeRef) → Elem r (settled ++ gang) → Elem x r.nodes → Elem x pool
  pub ordered : Ordered settled
  pub cross : (r s : Run) → Elem r settled → Elem s gang → Before r s
  pub apart : Apart gang
  pub early : (g : Run) → Elem g gang → g.start ≤ gang_start
  pub taken :
      (g : Run) (x : NodeRef)
      → Elem g gang
      → Elem x g.nodes
      → contains (node_id x) gang_nodes ≡ true
  pub free :
      (r : Run) (x : NodeRef)
      → Elem r (settled ++ gang)
      → Elem x r.nodes
      → finish r ≤ f.when_free x.ref
  pub times : (r : ℕ) → f.when_free r ≤ m
  pub ends : (k : String) (t : ℕ) → lookup k endtimes ≡ some t → t ≤ m
  pub gang_bound : gang_start ≤ m

pub Elem-map : {A B : Type 0} (g : A → B) (x : A) (xs : List A) → Elem x xs → Elem (g x) (map g xs)
Elem-map g x [] m = m
Elem-map g x (y ∷ ys) (inl e) = inl (ap g e)
Elem-map g x (y ∷ ys) (inr m) = inr (Elem-map g x ys m)

-- A gang that is left without being aligned: one job of no gang, or none.
pub settle-Plan :
    (pool : List NodeRef) (settled gang : List Run) (m : ℕ) (f : Fcfs) (endtimes : Assoc String ℕ)
    (gang_nodes : List String) (gang_start : ℕ)
    → Plan pool settled gang m f endtimes gang_nodes gang_start
    → Plan pool (settled ++ gang) [] m f endtimes [] 0
settle-Plan pool settled gang m f endtimes gang_nodes gang_start p = record {
  vectors = p.vectors;
  clusters = λ g i. absurd i;
  from_pool = λ r x i. p.from_pool r x (drop_end r i);
  ordered = Ordered-append settled gang p.ordered (Apart-Ordered gang p.apart) p.cross;
  cross = λ r s i j. absurd j;
  apart = tt;
  early = λ g i. absurd i;
  taken = λ g x i. absurd i;
  free = λ r x i. p.free r x (drop_end r i);
  times = p.times;
  ends = p.ends;
  gang_bound = omega arith;
}
  where
    drop_end : (r : Run) → Elem r ((settled ++ gang) ++ []) → Elem r (settled ++ gang)
    drop_end r i = elim (Elem-append r (settled ++ gang) [] i) [ inl j ↦ j | inr j ↦ absurd j ]

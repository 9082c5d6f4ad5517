-- ===== src/Ctrl/Commands/Lists.antt =====
-- The lists of entities that src/sched-lib/ctrl/commands.cpp reads.
use swm_sched.Prelude.{
  ℕ, ◌≡◌, refl, String, ℕ_eq, List, [], ◌∷◌, ◌++◌, map, Option, some, length, arith,
}
use swm_sched.PluginLib.Entities.{SwmCluster, SwmPartition, SwmNode, SwmJob}
use swm_sched.Ctrl.Commands.{
  Ei, CommandError, empty_list, parsed, Parser, elements, apply_list, apply_jobs, apply_clusters,
  apply_partitions, apply_nodes,
}
use swm_sched.Ctrl.Commands.Terms.{
  Piece, job, cluster, partition, node, list_header, encode_list, Reads,
}
use swm_sched.Ctrl.Commands.Terms

-- What a parser gives at the index `i`.
abbrev pub Gives : {A : Type 0} → Parser A → A → ℕ → List CommandError → Type 0
Gives p x i errors = (j : ℕ) × (after : List CommandError) × (p i errors ≡ parsed x j after)

module _ (ei : Ei) (At : ei.Buffer → ℕ → List (Piece ei.SwmGrid) → Type 0) (reads : Reads ei At)
    (b : ei.Buffer) where
  -- The constructor `new` reads what `piece` writes.
  abbrev Constructs : {A : Type 0} → (A → Piece ei.SwmGrid) → (ℕ → Option (A × ℕ)) → Type 0
  Constructs {A} piece new =
      (i : ℕ) (x : A) (ps : List (Piece ei.SwmGrid))
      → At b i (piece x ∷ ps)
      → (j : ℕ) × (new i ≡ some (x, j)) × At b j ps

  elements-reads :
      {A : Type 0} (piece : A → Piece ei.SwmGrid) (new : ℕ → Option (A × ℕ))
      → Constructs piece new
      → (xs : List A) (ps : List (Piece ei.SwmGrid)) (i : ℕ) (errors : List CommandError)
      → At b i (map piece xs ++ ps)
      → (j : ℕ) × (elements new (length xs) i errors ≡ parsed xs j errors) × At b j ps
  unfolding elements
  elements-reads piece new c [] ps i errors a = (i, refl, a)
  elements-reads piece new c (x ∷ xs) ps i errors a =
      let (j, e, a') = c i x (map piece xs ++ ps) a in
      let (k, es, a'') = elements-reads piece new c xs ps j errors a' in
      (k, ground (arith, e, es), a'')

  apply_list-reads :
      {A : Type 0} (piece : A → Piece ei.SwmGrid) (new : ei.Buffer → ℕ → Option (A × ℕ))
      → Constructs piece (new b)
      → (what word : String) (xs : List A) (i : ℕ) (errors : List CommandError)
      → At b i (encode_list piece xs)
      → Gives (apply_list ei new what word b) xs i errors
  apply_list-reads piece new c what word [] i errors a =
      let t = reads.type_of_empty_list b i [] a in
      let (j, h, a') = reads.reads_empty_list b i [] a in
      (j, errors ++ empty_list word ∷ [], ground (arith, t, h))
  apply_list-reads piece new c what word (x ∷ xs) i errors a =
      let t = reads.type_of_list b i (length (x ∷ xs)) _ a in
      let (j, h, a') = reads.reads_list b i (length (x ∷ xs)) _ a in
      let (k, es, a'') =
        elements-reads piece (new b) c (x ∷ xs) (Terms.empty_list ∷ []) j errors a' in
      let (l, s, a''') = reads.skips_empty_list b k [] a'' in
      (l, errors, ground (arith, t, h, es, s))

  pub apply_jobs-encode_list :
      (xs : List SwmJob) (i : ℕ) (errors : List CommandError)
      → At b i (encode_list job xs)
      → Gives (apply_jobs ei b) xs i errors
  unfolding apply_jobs
  apply_jobs-encode_list [] i errors a =
      let t = reads.type_of_empty_list b i [] a in
      let (j, h, a') = reads.reads_empty_list b i [] a in
      (j, errors ++ empty_list "jobs" ∷ [], ground (arith, t, h))
  apply_jobs-encode_list (x ∷ xs) i errors a =
      let t = reads.type_of_list b i (length (x ∷ xs)) _ a in
      let (j, h, a') = reads.reads_list b i (length (x ∷ xs)) _ a in
      let (k, es, a'') =
        elements-reads job (ei.new_job b) (reads.reads_job b) (x ∷ xs) (Terms.empty_list ∷ []) j
          errors a' in
      let (l, s, a''') = reads.skips_empty_list b k [] a'' in
      (l, errors, ground (arith, t, h, es, s))

  pub apply_clusters-encode_list :
      (xs : List SwmCluster) (i : ℕ) (errors : List CommandError)
      → At b i (encode_list cluster xs)
      → Gives (apply_clusters ei b) xs i errors
  unfolding apply_clusters
  apply_clusters-encode_list =
      apply_list-reads cluster ei.new_cluster (reads.reads_cluster b) "clusters" "clusters"

  pub apply_partitions-encode_list :
      (xs : List SwmPartition) (i : ℕ) (errors : List CommandError)
      → At b i (encode_list partition xs)
      → Gives (apply_partitions ei b) xs i errors
  unfolding apply_partitions
  apply_partitions-encode_list =
      apply_list-reads partition ei.new_partition (reads.reads_partition b) "partitions" "clusters"

  pub apply_nodes-encode_list :
      (xs : List SwmNode) (i : ℕ) (errors : List CommandError)
      → At b i (encode_list node xs)
      → Gives (apply_nodes ei b) xs i errors
  unfolding apply_nodes
  apply_nodes-encode_list =
      apply_list-reads node ei.new_node (reads.reads_node b) "nodes" "clusters"

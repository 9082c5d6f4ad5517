-- ===== src/Ctrl/Commands/Terms.antt =====
-- The terms that src/sched-lib/ctrl/commands.cpp reads, as the sequence of what the calls of `ei` consume
-- one after another, and what the code relies on of those calls.
use swm_sched.Prelude.{ℕ, suc, ◌+◌, max, ◌≡◌, String, List, [], ◌∷◌, ◌++◌, map, some, length}
use swm_sched.PluginLib.Entities.{
  SwmCluster, SwmPartition, SwmNode, SwmJob, RhItem, RhItems, item, nil, cons,
}
use swm_sched.Ctrl.Commands.{Ei}

pub data Piece {ℓ} (SwmGrid : Type ℓ) : Type ℓ where
  version : ℕ → Piece SwmGrid
  list_header tuple_header : ℕ → Piece SwmGrid
  empty_list : Piece SwmGrid
  tuple_atom_str : String → String → Piece SwmGrid
  job : SwmJob → Piece SwmGrid
  cluster : SwmCluster → Piece SwmGrid
  partition : SwmPartition → Piece SwmGrid
  node : SwmNode → Piece SwmGrid
  grid : SwmGrid → Piece SwmGrid

-- `At buf i ps`: from the index `i` on, `ps` stands in the buffer. A call that reads the first piece
-- gives its content, and an index from which the other pieces stand.
pub record Reads (ei : Ei) (At : ei.Buffer → ℕ → List (Piece ei.SwmGrid) → Type 0) : Type 0 where
  pub type_of_list :
      (b : ei.Buffer) (i n : ℕ) (ps : List (Piece ei.SwmGrid))
      → At b i (list_header n ∷ ps)
      → ei.get_type b i ≡ some (108, n)
  pub type_of_empty_list :
      (b : ei.Buffer) (i : ℕ) (ps : List (Piece ei.SwmGrid))
      → At b i (empty_list ∷ ps)
      → ei.get_type b i ≡ some (106, 0)
  pub type_of_tuple :
      (b : ei.Buffer) (i n : ℕ) (ps : List (Piece ei.SwmGrid))
      → At b i (tuple_header n ∷ ps)
      → ei.get_type b i ≡ some (104, n)
  pub type_of_grid :
      (b : ei.Buffer) (i : ℕ) (g : ei.SwmGrid) (ps : List (Piece ei.SwmGrid))
      → At b i (grid g ∷ ps)
      → (n : ℕ) × (ei.get_type b i ≡ some (104, suc n))
  pub reads_version :
      (b : ei.Buffer) (i n : ℕ) (ps : List (Piece ei.SwmGrid))
      → At b i (version n ∷ ps)
      → (j : ℕ) × (ei.decode_version b i ≡ some (n, j)) × At b j ps
  pub reads_list :
      (b : ei.Buffer) (i n : ℕ) (ps : List (Piece ei.SwmGrid))
      → At b i (list_header n ∷ ps)
      → (j : ℕ) × (ei.decode_list_header b i ≡ some (n, j)) × At b j ps
  pub reads_empty_list :
      (b : ei.Buffer) (i : ℕ) (ps : List (Piece ei.SwmGrid))
      → At b i (empty_list ∷ ps)
      → (j : ℕ) × (ei.decode_list_header b i ≡ some (0, j)) × At b j ps
  pub skips_empty_list :
      (b : ei.Buffer) (i : ℕ) (ps : List (Piece ei.SwmGrid))
      → At b i (empty_list ∷ ps)
      → (j : ℕ) × (ei.skip_term b i ≡ some j) × At b j ps
  pub reads_tuple :
      (b : ei.Buffer) (i n : ℕ) (ps : List (Piece ei.SwmGrid))
      → At b i (tuple_header n ∷ ps)
      → (j : ℕ) × (ei.decode_tuple_header b i ≡ some (n, j)) × At b j ps
  pub reads_atom_str :
      (b : ei.Buffer) (i : ℕ) (name id : String) (ps : List (Piece ei.SwmGrid))
      → At b i (tuple_atom_str name id ∷ ps)
      → (j : ℕ) × (ei.buffer_to_tuple_atom_str b i ≡ some ((name, id), j)) × At b j ps
  pub reads_job :
      (b : ei.Buffer) (i : ℕ) (x : SwmJob) (ps : List (Piece ei.SwmGrid))
      → At b i (job x ∷ ps)
      → (j : ℕ) × (ei.new_job b i ≡ some (x, j)) × At b j ps
  pub reads_cluster :
      (b : ei.Buffer) (i : ℕ) (x : SwmCluster) (ps : List (Piece ei.SwmGrid))
      → At b i (cluster x ∷ ps)
      → (j : ℕ) × (ei.new_cluster b i ≡ some (x, j)) × At b j ps
  pub reads_partition :
      (b : ei.Buffer) (i : ℕ) (x : SwmPartition) (ps : List (Piece ei.SwmGrid))
      → At b i (partition x ∷ ps)
      → (j : ℕ) × (ei.new_partition b i ≡ some (x, j)) × At b j ps
  pub reads_node :
      (b : ei.Buffer) (i : ℕ) (x : SwmNode) (ps : List (Piece ei.SwmGrid))
      → At b i (node x ∷ ps)
      → (j : ℕ) × (ei.new_node b i ≡ some (x, j)) × At b j ps
  pub reads_grid :
      (b : ei.Buffer) (i : ℕ) (x : ei.SwmGrid) (ps : List (Piece ei.SwmGrid))
      → At b i (grid x ∷ ps)
      → (j : ℕ) × (ei.new_grid b i ≡ some (x, j)) × At b j ps

-- How a list is written: its header, its elements, and an empty list; or an empty list alone.
abbrev pub encode_list {ℓ} : {G A : Type ℓ} → (A → Piece G) → List A → List (Piece G)
encode_list piece [] = empty_list ∷ []
encode_list piece (x ∷ xs) = list_header (length (x ∷ xs)) ∷ (map piece (x ∷ xs) ++ empty_list ∷ [])

abbrev pub length_items : RhItems → ℕ
length_items nil = 0
length_items (cons x xs) = suc (length_items xs)

abbrev pub children : RhItem → RhItems
children (item name id xs) = xs

module _ {ℓ} {G : Type ℓ} where
  -- A list of items, before `ps`, by how its items are written.
  abbrev pub rh_list : (List (Piece G) → List (Piece G)) → RhItems → List (Piece G) → List (Piece G)
  rh_list items nil ps = empty_list ∷ ps
  rh_list items (cons x xs) ps = list_header (length_items (cons x xs)) ∷ items (empty_list ∷ ps)

  -- An item is a tuple of its name with its identifier, and of the list of its children.
  unfoldable mutual
    pub rh_item : RhItem → List (Piece G) → List (Piece G)
    rh_item (item name id xs) ps =
        tuple_header 2 ∷ tuple_atom_str name id ∷ rh_list (rh_items xs) xs ps

    pub rh_items : RhItems → List (Piece G) → List (Piece G)
    rh_items nil ps = ps
    rh_items (cons x xs) ps = rh_item x (rh_items xs ps)

  unfoldable pub encode_rh : RhItems → List (Piece G)
  unfolding rh_items
  encode_rh xs = rh_list (rh_items xs) xs []

-- The depth of the recursion on a list of items, without its first call.
unfoldable mutual
  pub depth_item : RhItem → ℕ
  depth_item (item name id xs) = 2 + depth_items xs

  pub depth_items : RhItems → ℕ
  depth_items nil = 0
  depth_items (cons x xs) = max (depth_item x) (depth_items xs)

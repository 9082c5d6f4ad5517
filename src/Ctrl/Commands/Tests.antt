-- ===== src/Ctrl/Commands/Tests.antt =====
-- Runs of src/sched-lib/ctrl/commands.cpp, with a buffer that is a list of pieces.
use swm_sched.Prelude.{
  ℕ, zero, suc, ◌+◌, ◌≡◌, refl, String, ℕ_eq, List, [], ◌∷◌, map, Option, none, some, length, arith,
  All,
}
use swm_sched.PluginLib.Entities.{
  SwmCluster, SwmPartition, SwmNode, SwmJob, RhItems, item, nil, cons,
}
use swm_sched.Ctrl.Commands.{
  Ei, CommandError, empty_slice, no_version, parsed, refused, data_types, init, apply_slices,
  apply_slice, apply,
}
use swm_sched.Ctrl.Commands.Terms.{
  Piece, version, list_header, tuple_header, empty_list, tuple_atom_str, job, cluster, partition,
  node, grid, Reads, encode_rh, depth_items,
}
use swm_sched.Ctrl.Commands.Slices.{Request, slice_of, command_of, init-Written}
use swm_sched.Ctrl.Commands.Versions.{HasVersion, init-HasVersion}

abbrev Pieces : Type 0
Pieces = List (Piece ℕ)

drop : ℕ → Pieces → Pieces
drop zero ps = ps
drop (suc n) [] = []
drop (suc n) (p ∷ ps) = drop n ps

At : Pieces → ℕ → Pieces → Type 0
At b i ps = drop i b ≡ ps

drop-next :
    (b : Pieces) (i : ℕ) (p : Piece ℕ) (ps : Pieces) → drop i b ≡ p ∷ ps → drop (i + 1) b ≡ ps
unfolding drop
drop-next [] zero p ps e = cc
drop-next [] (suc i) p ps e = cc
drop-next (q ∷ b) zero p ps e = cc
drop-next (q ∷ b) (suc i) p ps e = ground (arith, drop-next b i p ps e)

abbrev first : {A : Type 0} → (Piece ℕ → Option A) → Pieces → Option A
first f [] = none
first f (p ∷ ps) = f p

abbrev with_next : {A : Type 0} → ℕ → Option A → Option (A × ℕ)
with_next i none = none
with_next i (some a) = some (a, i + 1)

abbrev read : {A : Type 0} → (Piece ℕ → Option A) → Pieces → ℕ → Option (A × ℕ)
read f b i = with_next i (first f (drop i b))

read_lem :
    {A : Type 0} (f : Piece ℕ → Option A) (b : Pieces) (i : ℕ) (p : Piece ℕ) (a : A) (ps : Pieces)
    → f p ≡ some a
    → At b i (p ∷ ps)
    → (j : ℕ) × (read f b i ≡ some (a, j)) × At b j ps
unfolding At
read_lem f b i p a ps e h = (i + 1, rw (h, e) refl, drop-next b i p ps h)

abbrev type_of : Piece ℕ → Option (ℕ × ℕ)
type_of (list_header n) = some (108, n)
type_of (tuple_header n) = some (104, n)
type_of empty_list = some (106, 0)
type_of (grid g) = some (104, 3)
type_of _ = none

abbrev as_version : Piece ℕ → Option ℕ
as_version (version n) = some n
as_version _ = none

abbrev as_list : Piece ℕ → Option ℕ
as_list (list_header n) = some n
as_list empty_list = some 0
as_list _ = none

abbrev as_tuple : Piece ℕ → Option ℕ
as_tuple (tuple_header n) = some n
as_tuple _ = none

abbrev as_atom_str : Piece ℕ → Option (String × String)
as_atom_str (tuple_atom_str name id) = some (name, id)
as_atom_str _ = none

abbrev as_job : Piece ℕ → Option SwmJob
as_job (job x) = some x
as_job _ = none

abbrev as_cluster : Piece ℕ → Option SwmCluster
as_cluster (cluster x) = some x
as_cluster _ = none

abbrev as_partition : Piece ℕ → Option SwmPartition
as_partition (partition x) = some x
as_partition _ = none

abbrev as_node : Piece ℕ → Option SwmNode
as_node (node x) = some x
as_node _ = none

abbrev as_grid : Piece ℕ → Option ℕ
as_grid (grid x) = some x
as_grid _ = none

abbrev index_of : Option (ℕ × ℕ) → Option ℕ
index_of none = none
index_of (some (n, i)) = some i

abbrev on_pieces : Ei
on_pieces = record {
  Buffer = Pieces;
  SwmGrid = ℕ;
  get_type = λ b i. first type_of (drop i b);
  decode_version = read as_version;
  decode_list_header = read as_list;
  decode_tuple_header = read as_tuple;
  skip_term = λ b i. index_of (read as_list b i);
  buffer_to_tuple_atom_str = read as_atom_str;
  new_job = read as_job;
  new_cluster = read as_cluster;
  new_partition = read as_partition;
  new_node = read as_node;
  new_grid = read as_grid;
}

on_pieces-Reads : Reads on_pieces At
unfolding At
on_pieces-Reads = record {
  type_of_list = λ b i n ps h. rw h refl;
  type_of_empty_list = λ b i ps h. rw h refl;
  type_of_tuple = λ b i n ps h. rw h refl;
  type_of_grid = λ b i g ps h. (2, rw h refl);
  reads_version = λ b i n ps h. read_lem as_version b i _ n ps refl h;
  reads_list = λ b i n ps h. read_lem as_list b i _ n ps refl h;
  reads_empty_list = λ b i ps h. read_lem as_list b i _ 0 ps refl h;
  skips_empty_list = λ b i ps h. (i + 1, rw h refl, drop-next b i _ ps h);
  reads_tuple = λ b i n ps h. read_lem as_tuple b i _ n ps refl h;
  reads_atom_str = λ b i name id ps h. read_lem as_atom_str b i _ (name, id) ps refl h;
  reads_job = λ b i x ps h. read_lem as_job b i _ x ps refl h;
  reads_cluster = λ b i x ps h. read_lem as_cluster b i _ x ps refl h;
  reads_partition = λ b i x ps h. read_lem as_partition b i _ x ps refl h;
  reads_node = λ b i x ps h. read_lem as_node b i _ x ps refl h;
  reads_grid = λ b i x ps h. read_lem as_grid b i _ x ps refl h;
}

-- One cluster with a partition and a node, no job, and a grid.
abbrev hierarchy : RhItems
hierarchy =
    cons (item "cluster" "c" (cons (item "partition" "p" (cons (item "node" "n" nil) nil)) nil)) nil

abbrev a_request : Request ℕ
a_request = record {
  rh = hierarchy;
  jobs = [];
  grid = some 5;
  clusters = record { id = "c"; state = "up" } ∷ [];
  parts = record { id = "p"; state = "up" } ∷ [];
  nodes =
      record {
        id = "n";
        state_power = "up";
        state_alloc = "idle";
        is_template = "false";
        resources = [];
      }
      ∷ [];
}

abbrev slices : List Pieces
slices = map (λ t. version 131 ∷ slice_of a_request t) data_types

init-Written_example :
    (j : ℕ) × (errors : List CommandError) × (init on_pieces 7 (map some slices)
      ≡ parsed (command_of on_pieces a_request) j errors)
unfolding At drop encode_rh depth_items
init-Written_example =
    init-Written on_pieces At a_request 6 slices on_pieces-Reads (omega arith)
      (refl, (refl, (refl, (refl, (refl, (refl, (refl, tt)))))))

init-HasVersion_example :
    (length (map some slices) ≡ 7) × All (HasVersion on_pieces) (map some slices)
init-HasVersion_example =
    init-HasVersion on_pieces 7 (map some slices) (command_of on_pieces a_request)
      init-Written_example.0 init-Written_example.1 init-Written_example.2

abbrev six : List (Option Pieces)
six = none ∷ none ∷ none ∷ none ∷ none ∷ none ∷ []

-- The second slice is missing, or the first does not start with a version.
no_second : init on_pieces 7 (some (version 131 ∷ []) ∷ six) ≡ refused (empty_slice 1 ∷ [])
unfolding init apply_slices apply_slice apply drop
no_second = refl

no_start : init on_pieces 7 (some (empty_list ∷ []) ∷ six) ≡ refused (no_version ∷ [])
unfolding init apply_slices apply_slice drop
no_start = refl

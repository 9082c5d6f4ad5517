-- ===== src/Ctrl/Commands.antt =====
-- src/sched-lib/ctrl/commands.{h,cpp}: how `ScheduleCommand` reads its slices, terms in Erlang's external
-- format. The functions of the library `ei`, and the constructors of the generated entities that read
-- a term, are parameters: they get a buffer and an index, and give what they read and the index
-- behind it. Positions are left out of the messages.
pub mod Terms
pub mod Lists
pub mod Hierarchy
pub mod Slices
pub mod Versions
mod Tests
use swm_sched.Prelude.{
  ℕ, zero, suc, ◌+◌, String, String_eq, ℕ_eq, Bool, true, false, not, ◌&&◌, ◌||◌, List, [], ◌∷◌,
  ◌++◌, Option, none, some, if◌then◌else◌, ◌==◌, length,
}
use swm_sched.PluginLib.Entities.{
  SwmCluster, SwmPartition, SwmNode, SwmJob, RhItem, RhItems, item, nil, cons,
}
use swm_sched.Ctrl.Processor.{AlgorithmSpec}
use swm_sched.Ctrl.SchedulingInfo.{
  SchedulingInfo, new_info, set_clusters, set_parts, set_nodes, set_jobs, validate_references,
}

pub record Ei : Type 1 where
  pub Buffer : Type 0
  pub SwmGrid : Type 0
  -- The type of the term, and its size.
  pub get_type : Buffer → ℕ → Option (ℕ × ℕ)
  pub decode_version : Buffer → ℕ → Option (ℕ × ℕ)
  pub decode_list_header : Buffer → ℕ → Option (ℕ × ℕ)
  pub decode_tuple_header : Buffer → ℕ → Option (ℕ × ℕ)
  pub skip_term : Buffer → ℕ → Option ℕ
  pub buffer_to_tuple_atom_str : Buffer → ℕ → Option ((String × String) × ℕ)
  -- The constructors; `none` is an exception.
  pub new_job : Buffer → ℕ → Option (SwmJob × ℕ)
  pub new_cluster : Buffer → ℕ → Option (SwmCluster × ℕ)
  pub new_partition : Buffer → ℕ → Option (SwmPartition × ℕ)
  pub new_node : Buffer → ℕ → Option (SwmNode × ℕ)
  pub new_grid : Buffer → ℕ → Option (SwmGrid × ℕ)

-- `ERL_SMALL_TUPLE_EXT`, `ERL_LARGE_TUPLE_EXT`, `ERL_NIL_EXT` and `ERL_LIST_EXT`
abbrev pub is_list_type : ℕ → Bool
is_list_type t = t == 108 || t == 106

abbrev pub is_tuple_type : ℕ → Bool
is_tuple_type t = t == 104 || t == 105

-- What is written to the error stream; a text is the word that the message names the list with.
pub data CommandError : Type 0 where
  not_enough_slices empty_slice : ℕ → CommandError
  no_version : CommandError
  no_type not_a_list empty_list : String → CommandError
  no_list_header no_tuple_header : CommandError
  wrong_arity : ℕ → CommandError
  no_tuple : CommandError
  no_element : ℕ → CommandError
  wrong_item_type : ℕ → CommandError
  no_information : String → CommandError

-- The value that was read, with the index behind it and the error stream; or false, with the error
-- stream; or an exception. `exhausted`: the recursion needs more fuel.
pub data Parsed {ℓ} (A : Type ℓ) : Type ℓ where
  parsed : A → ℕ → List CommandError → Parsed A
  refused : List CommandError → Parsed A
  threw exhausted : Parsed A

abbrev pub Parser {ℓ} : Type ℓ → Type ℓ
Parser A = ℕ → List CommandError → Parsed A

abbrev pub continue {ℓ κ} : {A : Type ℓ} {B : Type κ} → Parsed A → (A → Parser B) → Parsed B
continue (parsed a index errors) f = f a index errors
continue (refused errors) f = refused errors
continue threw f = threw
continue exhausted f = exhausted

infixl 5 ◌>>=◌ ◌>>◌
abbrev pub ◌>>=◌ {ℓ κ} : {A : Type ℓ} {B : Type κ} → Parser A → (A → Parser B) → Parser B
◌>>=◌ p f index errors = continue (p index errors) f

abbrev pub ◌>>◌ {ℓ} : {A : Type ℓ} → Parser (Unit {0}) → Parser A → Parser A
p >> q = p >>= λ u. q

module _ {ℓ} {A : Type ℓ} where
  abbrev pub pure : A → Parser A
  pure a index errors = parsed a index errors

  -- "*error << ...; return false"
  abbrev pub fail : CommandError → Parser A
  fail e index errors = refused (errors ++ e ∷ [])

  abbrev pub decode : (ℕ → Option (A × ℕ)) → CommandError → Parser A
  decode read e index errors = elim (read index) [
    | none ↦ refused (errors ++ e ∷ [])
    | some (a, index') ↦ parsed a index' errors
  ]

  -- A function that leaves the index where it is.
  abbrev pub peek : (ℕ → Option A) → CommandError → Parser A
  peek read e index errors = elim (read index) [
    | none ↦ refused (errors ++ e ∷ [])
    | some a ↦ parsed a index errors
  ]

  abbrev pub construct : (ℕ → Option (A × ℕ)) → Parser A
  construct read index errors = elim (read index) [
    | none ↦ threw
    | some (a, index') ↦ parsed a index' errors
  ]

  -- `*error << ...` and `return true`
  abbrev pub warn : CommandError → A → Parser A
  warn e a index errors = parsed a index (errors ++ e ∷ [])

  abbrev pub or_else : Parser A → CommandError → Parser A
  or_else p e index errors = elim (p index errors) [
    | parsed a index' errors' ↦ parsed a index' errors'
    | refused errors' ↦ refused (errors' ++ e ∷ [])
    | threw ↦ threw
    | exhausted ↦ exhausted
  ]

-- `emplace_back`, as often as is asked for.
unfoldable pub elements {ℓ} : {A : Type ℓ} → (ℕ → Option (A × ℕ)) → ℕ → Parser (List A)
elements read zero = pure []
elements read (suc n) = do x ← construct read; xs ← elements read n; pure (x ∷ xs)

-- The result of `ei_skip_term` is not looked at.
abbrev pub skip_end : (ℕ → Option ℕ) → Parser (Unit {0})
skip_end skip index errors = elim (skip index) [
  | none ↦ parsed tt index errors
  | some index' ↦ parsed tt index' errors
]

-- The size that `ei_get_type` gives, where a list has to stand, and the one of its header.
abbrev pub list_sizes : (ℕ → Option (ℕ × ℕ)) → (ℕ → Option (ℕ × ℕ)) → String → Parser (ℕ × ℕ)
list_sizes get_type decode_list_header what = do
  (term_type, term_size) ← peek get_type (no_type what)
  list_size ←
      (if is_list_type term_type
        then decode decode_list_header no_list_header
        else fail (not_a_list what))
  pure (term_size, list_size)

abbrev pub append_items : RhItems → RhItems → RhItems
append_items nil ys = ys
append_items (cons x xs) ys = cons x (append_items xs ys)

-- The list of `apply_rh_helper`, with the number of its first element.
unfoldable pub rh_elements : Parser RhItems → ℕ → ℕ → Parser RhItems
rh_elements helper zero i = pure nil
rh_elements helper (suc n) i = do
  xs ← or_else helper (no_element i)
  ys ← rh_elements helper n (i + 1)
  pure (append_items xs ys)

pub record ScheduleCommand {ℓ} (SwmGrid : Type ℓ) : Type ℓ where
  pub schedulers : List AlgorithmSpec
  pub sched_info : SchedulingInfo SwmGrid

-- `SWM_DATA_TYPE_SCHEDULERS` and so on, from 0.
pub data DataType : Type 0 where
  schedulers rh jobs grid clusters partitions nodes : DataType

abbrev pub information : DataType → String
information schedulers = "schedulers"
information rh = "RH"
information jobs = "jobs"
information grid = "grid"
information clusters = "clusters"
information partitions = "partitions"
information nodes = "nodes"

abbrev pub data_types : List DataType
data_types = schedulers ∷ rh ∷ jobs ∷ grid ∷ clusters ∷ partitions ∷ nodes ∷ []

module _ (ei : Ei) where
  open ei use {
    Buffer, SwmGrid, get_type, decode_version, decode_list_header, decode_tuple_header, skip_term,
    buffer_to_tuple_atom_str, new_job, new_cluster, new_partition, new_node, new_grid,
  }

  -- What the functions for clusters, partitions and nodes share; `word` is what the message calls an
  -- empty list.
  abbrev pub apply_list :
      {A : Type 0} → (Buffer → ℕ → Option (A × ℕ)) → String → String → Buffer → Parser (List A)
  apply_list new what word buf = do
    (term_size, list_size) ← list_sizes (get_type buf) (decode_list_header buf) what
    if list_size == 0
        then warn (empty_list word) []
        else do xs ← elements (new buf) list_size; skip_end (skip_term buf); pure xs

  -- The loop counts by `term_size`.
  unfoldable pub apply_jobs : Buffer → Parser (List SwmJob)
  apply_jobs buf = do
    (term_size, list_size) ← list_sizes (get_type buf) (decode_list_header buf) "jobs"
    if list_size == 0
        then warn (empty_list "jobs") []
        else do xs ← elements (new_job buf) term_size; skip_end (skip_term buf); pure xs

  unfoldable pub apply_clusters : Buffer → Parser (List SwmCluster)
  apply_clusters = apply_list new_cluster "clusters" "clusters"

  unfoldable pub apply_partitions : Buffer → Parser (List SwmPartition)
  apply_partitions = apply_list new_partition "partitions" "clusters"

  unfoldable pub apply_nodes : Buffer → Parser (List SwmNode)
  apply_nodes = apply_list new_node "nodes" "clusters"

  abbrev pub apply_rh_list : Buffer → Parser RhItems → Parser RhItems
  apply_rh_list buf helper = do
    list_size ← decode (decode_list_header buf) no_list_header
    if list_size == 0
        then warn (empty_list "RH") nil
        else do xs ← rh_elements helper list_size 0; skip_end (skip_term buf); pure xs

  abbrev pub apply_rh_tuple : Buffer → Parser RhItems → Parser RhItems
  apply_rh_tuple buf helper = do
    arity ← decode (decode_tuple_header buf) no_tuple_header
    if not (arity == 2) then fail (wrong_arity arity) else do
      (name, id) ← decode (buffer_to_tuple_atom_str buf) no_tuple
      children ← helper
      pure (cons (item name id children) nil)

  -- `apply_rh_helper`, with the depth of the recursion as fuel: the items that it appends.
  unfoldable pub apply_rh : ℕ → Buffer → Parser RhItems
  unfolding rh_elements
  apply_rh zero buf = λ index errors. exhausted
  apply_rh (suc fuel) buf =
      let deeper = apply_rh fuel buf in
      do
        (term_type, term_size) ← peek (get_type buf) (no_type "RH")
        if is_list_type term_type
            then apply_rh_list buf deeper
            else (if is_tuple_type term_type
                then apply_rh_tuple buf deeper
                else fail (wrong_item_type term_type))

  -- `none` leaves the grid as it is. These functions write to `std::cerr` where they fail.
  unfoldable pub apply_grid : Buffer → Parser (Option SwmGrid)
  apply_grid buf index errors = elim (get_type buf index) [
    | none ↦ refused errors
    | some (term_type, term_size) ↦
        if term_size == 0
        then elim (skip_term buf index) [
          | none ↦ refused errors
          | some index' ↦ parsed none index' errors
        ]
        else elim (new_grid buf index) [
          | none ↦ threw
          | some (g, index') ↦ parsed (some g) index' errors
        ]
  ]

  -- "TODO: read schedulers, something like that"
  abbrev pub fixed_schedulers : List AlgorithmSpec
  fixed_schedulers =
      record { family = "swm-fcfs"; version = some "1.0"; compute_unit = some 0 } ∷ []

  abbrev pub Command : Type 0
  Command = ScheduleCommand SwmGrid

  abbrev pub with_grid : Option SwmGrid → Command → Command
  with_grid none c = c
  with_grid (some g) c = record c { sched_info = record c.sched_info { grid = some g } }

  -- The cases of the `switch` in `init`, with the index behind the version.
  unfoldable pub apply : ℕ → DataType → Buffer → Command → Parser Command
  apply fuel schedulers buf c = pure (record c { schedulers = c.schedulers ++ fixed_schedulers })
  apply fuel rh buf c = do
    xs ← apply_rh fuel buf
    pure (record c { sched_info = record c.sched_info { rh = append_items c.sched_info.rh xs } })
  apply fuel jobs buf c = do
    xs ← apply_jobs buf
    pure (record c { sched_info = set_jobs xs c.sched_info })
  apply fuel grid buf c = do g ← apply_grid buf; pure (with_grid g c)
  apply fuel clusters buf c = do
    xs ← apply_clusters buf
    pure (record c { sched_info = set_clusters xs c.sched_info })
  apply fuel partitions buf c = do
    xs ← apply_partitions buf
    pure (record c { sched_info = set_parts xs c.sched_info })
  apply fuel nodes buf c = do
    xs ← apply_nodes buf
    pure (record c { sched_info = set_nodes xs c.sched_info })

  -- `ERLANG_BINARY_FORMAT_VERSION`; a wrong version is told to `std::cerr`.
  abbrev pub check_version : ℕ → Parser (Unit {0})
  check_version version index errors =
      if version == 131 then parsed tt index errors else refused errors

  unfoldable pub apply_slice : ℕ → DataType → Buffer → Command → Parser Command
  apply_slice fuel type buf c = do
    version ← decode (decode_version buf) no_version
    check_version version
    or_else (apply fuel type buf c) (no_information (information type))

  -- The loop over the slices; each is read from its start.
  unfoldable pub apply_slices :
      ℕ → ℕ → List DataType → List (Option Buffer) → Command → Parser Command
  apply_slices fuel i (type ∷ types) (slice ∷ data') c = elim slice [
    | none ↦ fail (empty_slice i)
    | some buf ↦ do
      d ← λ index. apply_slice fuel type buf c 0
      apply_slices fuel (i + 1) types data' d
  ]
  apply_slices fuel i _ _ c = pure c

  unfoldable pub init : ℕ → List (Option Buffer) → Parsed Command
  init fuel data' =
      if not (length data' == 7)
      then refused (not_enough_slices (length data') ∷ [])
      else (do
        c ← apply_slices fuel 0 data_types data' (record { schedulers = []; sched_info = new_info })
        pure (record c { sched_info = validate_references c.sched_info }))
          0 []

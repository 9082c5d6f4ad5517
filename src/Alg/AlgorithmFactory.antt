-- ===== src/Alg/AlgorithmFactory.antt =====
-- src/sched-lib/alg/algorithm_factory.{h,cpp} and the constructor of lib_binding.cpp: the loading of
-- plugins, and the creation of their algorithms. The functions for files and libraries
-- (src/sched-lib/auxl) and those of the libraries themselves are parameters; the libraries that are
-- opened and closed are listed. A descriptor is known by its address.
pub mod Files
pub mod Loading
pub mod Known
mod Tests
use swm_sched.Prelude.{
  ℕ, String, Bool, true, false, not, ◌&&◌, ◌||◌, List, [], ◌∷◌, ◌++◌, map, Option, none, some,
  is_empty, if◌then◌else◌, ◌==◌, find_if, ℕ_eq,
}
use swm_sched.Alg.LibBinding.{Outcome, AlgorithmError, Call, safe_call}
use swm_sched.Alg.Algorithm.{Algorithm, new_algorithm, init}

-- What the descriptor's function of a library does: it throws, or writes a descriptor, or null.
pub data Description : Type 0 where
  throws_error : Description
  describes : Option ℕ → Description

pub record Libraries : Type 0 where
  -- The files of a directory that match, or `none` for an exception.
  pub find_files : String → String → Option (List String)
  pub get_library_extension : String
  pub append : String → String → String
  pub file_full_path : String → String
  -- `none` is a null pointer.
  pub load_library : String → Option ℕ
  pub get_library_function : ℕ → String → Option ℕ
  pub create_algorithm_desc : ℕ → Description

-- A binding keeps the library, which its destructor frees, and the functions.
pub record LibBinding : Type 0 where
  pub lib : ℕ
  pub lib_location : String
  pub alg_desc : ℕ
  pub create_ctx_func : ℕ
  pub release_ctx_func : ℕ
  pub construct_timetable_func : ℕ
  pub improve_timetable_func : ℕ
  pub bind_func : ℕ

pub data FactoryError : Type 0 where
  already_loaded find_failed nothing_found nothing_loaded unknown_descriptor : FactoryError
  from_algorithm : AlgorithmError → FactoryError

pub record AlgorithmFactory : Type 0 where
  pub lib_bindings : List LibBinding
  pub alg_ptrs : List ℕ

-- The object in the loop, with the libraries that were opened and those that were freed.
pub record Loop : Type 0 where
  pub factory : AlgorithmFactory
  pub opened : List ℕ
  pub freed : List ℕ

abbrev pub no_plugins : AlgorithmFactory
no_plugins = record { lib_bindings = []; alg_ptrs = [] }

infixl 5 ◌>>=◌
abbrev ◌>>=◌ {ℓ κ} : {A : Type ℓ} {B : Type κ} → Option A → (A → Option B) → Option B
none >>= f = none
some a >>= f = f a

module _ (os : Libraries) where
  open os use {
    find_files, get_library_extension, append, file_full_path, load_library, get_library_function,
    create_algorithm_desc,
  }

  -- The binding for a library that is open, or `none` for an exception.
  unfoldable pub bind_library : String → ℕ → Option LibBinding
  bind_library file lib = do
    cc ← get_library_function lib "swm_create_context"
    rc ← get_library_function lib "swm_release_context"
    construct ← get_library_function lib "swm_construct_timetable"
    improve ← get_library_function lib "swm_improve_timetable"
    cu ← get_library_function lib "swm_bind_compute_unit"
    ad ← get_library_function lib "swm_create_algorithm_descriptor"
    desc ← elim (create_algorithm_desc ad) [ throws_error ↦ none | describes d ↦ d ]
    some (record {
      lib = lib;
      lib_location = file_full_path file;
      alg_desc = desc;
      create_ctx_func = cc;
      release_ctx_func = rc;
      construct_timetable_func = construct;
      improve_timetable_func = improve;
      bind_func = cu;
    })

  unfoldable pub load_plugin : String → Loop → Loop
  load_plugin file s = elim (load_library file) [
    | none ↦ s
    | some lib ↦ elim (bind_library file lib) [
      | none ↦ record s { opened = s.opened ++ lib ∷ []; freed = s.freed ++ lib ∷ [] }
      | some binding ↦ record s {
        factory = record {
          lib_bindings = s.factory.lib_bindings ++ binding ∷ [];
          alg_ptrs = s.factory.alg_ptrs ++ binding.alg_desc ∷ [];
        };
        opened = s.opened ++ lib ∷ [];
      }
    ]
  ]

  unfoldable pub load_files : List String → Loop → Loop
  load_files [] s = s
  load_files (file ∷ files) s = load_files files (load_plugin file s)

  -- The result, the errors, and the state after it.
  unfoldable pub load_plugins : String → AlgorithmFactory → Bool × List FactoryError × Loop
  load_plugins path f =
      let untouched : Loop = record { factory = f; opened = []; freed = [] } in
      if not (is_empty f.alg_ptrs)
      then (false, already_loaded ∷ [], untouched)
      else elim (find_files path (append "*" get_library_extension)) [
        | none ↦ (false, find_failed ∷ [], untouched)
        | some [] ↦ (false, nothing_found ∷ [], untouched)
        | some (file ∷ files) ↦
            let s = load_files (file ∷ files) untouched in
            if is_empty s.factory.alg_ptrs
            then (
              false,
              nothing_loaded ∷ [],
              record s { factory = record { lib_bindings = []; alg_ptrs = s.factory.alg_ptrs } },
            )
            else (true, [], s)
      ]

-- The result, what `*res` is afterwards (with its binding) and the errors; the pointers are not null,
-- which would throw. A new algorithm is left in `*res` even if it fails to begin.
unfoldable pub create :
    {Ctx : Type 0}
    → ℕ
    → Option (LibBinding × Algorithm Ctx)
    → Outcome (Option Ctx)
    → AlgorithmFactory
    → Bool × Option (LibBinding × Algorithm Ctx) × List FactoryError
create desc res o f = elim (find_if (λ b. b.alg_desc == desc) f.lib_bindings) [
  | none ↦ (false, res, unknown_descriptor ∷ [])
  | some binding ↦
      let r =
        init {Info = Unit {0}} {Events = Unit {0}} {Table = Unit {0}} {ComputeUnit = Unit {0}}
          (λ t. 0) o new_algorithm in
      elim r.result [
        | none ↦ (false, res, [])
        | some (succeeded, u) ↦ (succeeded, some (binding, r.object), map from_algorithm r.errors)
      ]
]

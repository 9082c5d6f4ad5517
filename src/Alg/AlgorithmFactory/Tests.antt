-- ===== src/Alg/AlgorithmFactory/Tests.antt =====
-- Runs of src/sched-lib/alg/algorithm_factory.cpp on three files: one that is no library, one with no
-- descriptor, and a plugin.
use swm_sched.Prelude.{
  ℕ, ◌≡◌, refl, inl, map, Option, Elem, true, [], ◌∷◌, some, none, if◌then◌else◌, ◌==◌, String_eq,
  ℕ_eq,
}
use swm_sched.Alg.LibBinding.{Outcome, gives, safe_call}
use swm_sched.Alg.AlgorithmFactory.{
  Libraries, describes, LibBinding, already_loaded, from_algorithm, no_plugins, bind_library,
  load_plugin, load_files, load_plugins, create,
}
use swm_sched.Alg.AlgorithmFactory.Files.{plugins_of, candidates}
use swm_sched.Alg.AlgorithmFactory.Loading.{IsLoaded, load_plugins-IsLoaded}
use swm_sched.Alg.AlgorithmFactory.Known.{create-known}

abbrev files : Libraries
files = record {
  find_files = λ path name. some ("a.so" ∷ "b.so" ∷ "c.so" ∷ []);
  get_library_extension = ".so";
  append = λ s t. "*.so";
  file_full_path = λ file. file;
  load_library = λ file. if file == "a.so" then none else if file == "b.so" then some 1 else some 2;
  get_library_function = λ lib name. some lib;
  create_algorithm_desc = λ f. if f == 1 then describes none else describes (some 70);
}

abbrev binding : LibBinding
binding = record {
  lib = 2;
  lib_location = "c.so";
  alg_desc = 70;
  create_ctx_func = 2;
  release_ctx_func = 2;
  construct_timetable_func = 2;
  improve_timetable_func = 2;
  bind_func = 2;
}

loads : load_plugins files "plugins" no_plugins ≡ (
  true,
  [],
  record {
    factory = record { lib_bindings = binding ∷ []; alg_ptrs = 70 ∷ [] };
    opened = 1 ∷ 2 ∷ [];
    freed = 1 ∷ [];
  },
)
unfolding load_plugins load_files load_plugin bind_library
loads = refl

loads_once :
    (load_plugins files "plugins" (record { lib_bindings = []; alg_ptrs = 70 ∷ [] })).1
    ≡ already_loaded ∷ []
unfolding load_plugins
loads_once = refl

load_plugins-IsLoaded_example :
    IsLoaded files (candidates files "plugins") (load_plugins files "plugins" no_plugins)
load_plugins-IsLoaded_example = load_plugins-IsLoaded files "plugins"

abbrev begins : Outcome (Option ℕ)
begins = record { out = some 5; said = []; ends = gives true }

is_known : Elem 70 (load_plugins files "plugins" no_plugins).2.factory.alg_ptrs
unfolding load_plugins load_files load_plugin bind_library
is_known = inl refl

create-known_example :
    (b : LibBinding) × Elem b (plugins_of files (candidates files "plugins"))
    × (b.alg_desc ≡ 70)
    × (create 70 none begins (load_plugins files "plugins" no_plugins).2.factory ≡ (
      (safe_call begins).0,
      some (b, record { ctx = some 5; scheduled_jobs = 0 }),
      map from_algorithm (safe_call begins).1,
    ))
create-known_example = create-known files "plugins" 70 none begins is_known

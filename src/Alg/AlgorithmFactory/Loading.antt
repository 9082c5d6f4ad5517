-- ===== src/Alg/AlgorithmFactory/Loading.antt =====
-- What load_plugins in src/sched-lib/alg/algorithm_factory.cpp loads.
use swm_sched.Prelude.{
  ℕ, ◌+◌, ◌≡◌, refl, sym, ap, ◌∙◌, inl, inr, String, Bool, true, false, not, List, [], ◌∷◌, map,
  is_empty, if◌then◌else◌, ℕ_eq, arith, total, Option-cases, subst,
}
use swm_sched.Alg.AlgorithmFactory.{
  Libraries, LibBinding, Loop, FactoryError, nothing_loaded, no_plugins, load_files, load_plugins,
}
use swm_sched.Alg.AlgorithmFactory.Files.{
  plugins_of, candidates, descs, IsBalanced, AreDescribed, load_files-IsBalanced,
  load_files-bindings, load_files-AreDescribed,
}

module _ (os : Libraries) where
  -- The result of load_plugins on a new object.
  pub record IsLoaded (files : List String) (r : Bool × List FactoryError × Loop) : Type 0 where
    pub bound : r.2.factory.lib_bindings ≡ plugins_of os files
    pub described : AreDescribed r.2
    pub succeeded : r.0 ≡ not (is_empty (plugins_of os files))
    pub reported : r.0 ≡ is_empty r.1
    pub balanced : IsBalanced r.2

  begin : Loop
  begin = record { factory = no_plugins; opened = []; freed = [] }

  is_empty-map : (f : LibBinding → ℕ) (bs : List LibBinding) → is_empty (map f bs) ≡ is_empty bs
  is_empty-map f [] = refl
  is_empty-map f (b ∷ bs) = refl

  failing-IsLoaded : (e : FactoryError) → IsLoaded [] (false, e ∷ [], begin)
  unfolding plugins_of begin
  failing-IsLoaded e = record {
    bound = refl;
    described = refl;
    succeeded = refl;
    reported = refl;
    balanced = λ w. omega arith;
  }

  files-IsLoaded :
      (files : List String)
      → let s : Loop = load_files os files begin in
        IsLoaded files (
          if is_empty s.factory.alg_ptrs
          then (
            false,
            nothing_loaded ∷ [],
            record s { factory = record { lib_bindings = []; alg_ptrs = s.factory.alg_ptrs } },
          )
          else (true, [], s))
  unfolding begin
  files-IsLoaded files = go (plugins_of os files) refl (load_files-bindings os files begin)
    where
      s : Loop
      s = load_files os files begin

      described : AreDescribed s
      described = load_files-AreDescribed os files begin refl

      balanced : IsBalanced s
      balanced = load_files-IsBalanced os files begin (λ w. omega arith)

      go :
          (bs : List LibBinding)
          → plugins_of os files ≡ bs
          → s.factory.lib_bindings ≡ bs
          → IsLoaded files (
              if is_empty s.factory.alg_ptrs
              then (
                false,
                nothing_loaded ∷ [],
                record s { factory = record { lib_bindings = []; alg_ptrs = s.factory.alg_ptrs } },
              )
              else (true, [], s))
      go [] p e =
          let algs : s.factory.alg_ptrs ≡ [] = described ∙ ap descs e in
          rw algs (record {
            bound = sym p;
            described = refl;
            succeeded = rw p refl;
            reported = refl;
            balanced =
                λ w. balanced w ∙ ap (λ bs. total w s.freed + total w (map (λ b. b.lib) bs)) e;
          })
      go (b ∷ bs) p e =
          let algs : s.factory.alg_ptrs ≡ b.alg_desc ∷ descs bs = described ∙ ap descs e in
          subst
            (λ a. IsLoaded files (
              if is_empty a
              then (
                false,
                nothing_loaded ∷ [],
                record s { factory = record { lib_bindings = []; alg_ptrs = a } },
              )
              else (true, [], s)))
            (sym algs)
            (record {
              bound = e ∙ sym p;
              described = described;
              succeeded = rw p refl;
              reported = refl;
              balanced = balanced;
            })

  -- load_plugins on a new object binds the plugins of the files that are found, each file that has a
  -- plugin in their order, and lists their descriptors. It returns true if there is one, and has an
  -- error if there is none. The libraries that it opened are those of the bindings and those that it
  -- freed.
  pub load_plugins-IsLoaded :
      (path : String) → IsLoaded (candidates os path) (load_plugins os path no_plugins)
  unfolding load_plugins candidates begin
  load_plugins-IsLoaded path =
      elim (Option-cases (os.find_files path (os.append "*" os.get_library_extension))) [
        | inl throws ↦ rw (load_plugins, candidates, throws) (failing-IsLoaded _)
        | inr ([], found) ↦ rw (load_plugins, candidates, found) (failing-IsLoaded _)
        | inr (file ∷ files, found) ↦
            rw (load_plugins, candidates, found) (files-IsLoaded (file ∷ files))
      ]

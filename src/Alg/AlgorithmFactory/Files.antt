-- ===== src/Alg/AlgorithmFactory/Files.antt =====
-- The loop of load_plugins in src/sched-lib/alg/algorithm_factory.cpp over the files: what it adds to the
-- object, and which libraries it opens and frees.
use swm_sched.Prelude.{
  ℕ, ◌+◌, ◌≡◌, refl, sym, ap, ◌∙◌, ◌⊎◌, inl, inr, String, List, [], ◌∷◌, ◌++◌, map, Option, none,
  some, ℕ_eq, arith, total, total-append, Option-cases, subst,
}
use mathlib.Core.List.{append_assoc, append-nil}
use swm_sched.Alg.AlgorithmFactory.{
  Libraries, LibBinding, Loop, bind_library, load_plugin, load_files,
}

abbrev pub descs : List LibBinding → List ℕ
descs bs = map (λ b. b.alg_desc) bs

-- Each library that was opened is freed, or bound by the object.
abbrev pub IsBalanced : Loop → Type 0
IsBalanced s =
    (w : ℕ → ℕ)
    → total w s.opened ≡ total w s.freed + total w (map (λ b. b.lib) s.factory.lib_bindings)

map-snoc :
    (f : LibBinding → ℕ) (xs : List LibBinding) (b : LibBinding)
    → map f (xs ++ b ∷ []) ≡ map f xs ++ f b ∷ []
map-snoc f [] b = refl
map-snoc f (x ∷ xs) b = ap (◌∷◌ (f x)) (map-snoc f xs b)

-- The descriptors of an object are those of its bindings.
abbrev pub AreDescribed : Loop → Type 0
AreDescribed s = s.factory.alg_ptrs ≡ descs s.factory.lib_bindings

abbrev refused : ℕ → Loop → Loop
refused lib s = record s { opened = s.opened ++ lib ∷ []; freed = s.freed ++ lib ∷ [] }

abbrev kept : LibBinding → Loop → Loop
kept b s = record s {
  factory = record {
    lib_bindings = s.factory.lib_bindings ++ b ∷ [];
    alg_ptrs = s.factory.alg_ptrs ++ b.alg_desc ∷ [];
  };
  opened = s.opened ++ b.lib ∷ [];
}

module _ (os : Libraries) where
  -- The plugin in a file, if it has one.
  unfoldable pub plugin_of : String → Option LibBinding
  plugin_of file = elim (os.load_library file) [ none ↦ none | some lib ↦ bind_library os file lib ]

  unfoldable pub plugins_of : List String → List LibBinding
  plugins_of [] = []
  plugins_of (file ∷ files) = elim (plugin_of file) [
    | none ↦ plugins_of files
    | some b ↦ b ∷ plugins_of files
  ]

  -- The files that `find_files` gives.
  unfoldable pub candidates : String → List String
  candidates path = elim (os.find_files path (os.append "*" os.get_library_extension)) [
    | none ↦ []
    | some files ↦ files
  ]

  bind_library-lib :
      (file : String) (lib : ℕ) (b : LibBinding) → bind_library os file lib ≡ some b → b.lib ≡ lib
  unfolding bind_library
  bind_library-lib file lib b e = ground arith

  -- What becomes of a file.
  load_plugin-cases :
      (file : String) (s : Loop)
      → ((load_plugin os file s ≡ s) × (plugin_of file ≡ none))
        ⊎ ((lib : ℕ) × (load_plugin os file s ≡ refused lib s) × (plugin_of file ≡ none))
        ⊎ ((b : LibBinding) × (load_plugin os file s ≡ kept b s) × (plugin_of file ≡ some b))
  unfolding load_plugin plugin_of
  load_plugin-cases file s = elim (Option-cases (os.load_library file)) [
    | inl missing ↦ inl (rw (load_plugin, missing) refl, rw (plugin_of, missing) refl)
    | inr (lib, found) ↦ elim (Option-cases (bind_library os file lib)) [
      | inl fails ↦
          inr (inl (lib, rw (load_plugin, found, fails) refl, rw (plugin_of, found, fails) refl))
      | inr (b, binds) ↦ inr (
          inr (
            b,
            rw (load_plugin, found, binds)
                (ap (λ l. record (kept b s) { opened = s.opened ++ l ∷ [] })
                  (sym (bind_library-lib file lib b binds))),
            rw (plugin_of, found, binds) refl,
          ))
    ]
  ]

  load_plugin-IsBalanced :
      (file : String) (s : Loop) → IsBalanced s → IsBalanced (load_plugin os file s)
  load_plugin-IsBalanced file s h = elim (load_plugin-cases file s) [
    | inl (same, p) ↦ subst IsBalanced (sym same) h
    | inr (inl (lib, then_s, p)) ↦ subst IsBalanced (sym then_s) (λ w.
        omega (arith, h w, total-append w s.opened (lib ∷ []), total-append w s.freed (lib ∷ [])))
    | inr (inr (b, then_s, p)) ↦ subst IsBalanced (sym then_s) (λ w. omega (
      arith,
      h w,
      total-append w s.opened (b.lib ∷ []),
      ap (total w) (map-snoc (λ b. b.lib) s.factory.lib_bindings b),
      total-append w (map (λ b. b.lib) s.factory.lib_bindings) (b.lib ∷ []),
    ))
  ]

  pub load_files-IsBalanced :
      (files : List String) (s : Loop) → IsBalanced s → IsBalanced (load_files os files s)
  unfolding load_files
  load_files-IsBalanced [] s h = h
  load_files-IsBalanced (file ∷ files) s h =
      load_files-IsBalanced files (load_plugin os file s) (load_plugin-IsBalanced file s h)

  load_plugin-bindings :
      (file : String) (files : List String) (s : Loop)
      → (load_plugin os file s).factory.lib_bindings ++ plugins_of files
        ≡ s.factory.lib_bindings ++ plugins_of (file ∷ files)
  unfolding plugins_of
  load_plugin-bindings file files s = elim (load_plugin-cases file s) [
    | inl (same, p) ↦ rw (same, plugins_of, p) refl
    | inr (inl (lib, then_s, p)) ↦ rw (then_s, plugins_of, p) refl
    | inr (inr (b, then_s, p)) ↦
        rw (then_s, plugins_of, p) (append_assoc s.factory.lib_bindings (b ∷ []) (plugins_of files))
  ]

  pub load_files-bindings :
      (files : List String) (s : Loop)
      → (load_files os files s).factory.lib_bindings ≡ s.factory.lib_bindings ++ plugins_of files
  unfolding load_files plugins_of
  load_files-bindings [] s = sym (append-nil s.factory.lib_bindings)
  load_files-bindings (file ∷ files) s =
      load_files-bindings files (load_plugin os file s) ∙ load_plugin-bindings file files s

  load_plugin-AreDescribed :
      (file : String) (s : Loop) → AreDescribed s → AreDescribed (load_plugin os file s)
  load_plugin-AreDescribed file s h = elim (load_plugin-cases file s) [
    | inl (same, p) ↦ subst AreDescribed (sym same) h
    | inr (inl (lib, then_s, p)) ↦ subst AreDescribed (sym then_s) h
    | inr (inr (b, then_s, p)) ↦ subst AreDescribed (sym then_s) (
        ap (λ ds. ds ++ b.alg_desc ∷ []) h
        ∙ sym (map-snoc (λ b. b.alg_desc) s.factory.lib_bindings b))
  ]

  pub load_files-AreDescribed :
      (files : List String) (s : Loop) → AreDescribed s → AreDescribed (load_files os files s)
  unfolding load_files
  load_files-AreDescribed [] s h = h
  load_files-AreDescribed (file ∷ files) s h =
      load_files-AreDescribed files (load_plugin os file s) (load_plugin-AreDescribed file s h)

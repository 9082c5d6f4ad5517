-- ===== src/Alg/AlgorithmFactory/Known.antt =====
-- What create in src/sched-lib/alg/algorithm_factory.cpp finds of the plugins that are loaded.
use swm_sched.Prelude.{
  ℕ, ◌≡◌, refl, inl, inr, String, List, [], ◌∷◌, map, Option, some, ◌==◌, find_if, ℕ_eq, nat_eq_iff,
  arith, Elem, subst, Bool-cases,
}
use swm_sched.Alg.LibBinding.{Outcome, safe_call, create_context}
use swm_sched.Alg.Algorithm.{Algorithm, init}
use swm_sched.Alg.AlgorithmFactory.{
  Libraries, LibBinding, AlgorithmFactory, from_algorithm, no_plugins, load_plugins, create,
}
use swm_sched.Alg.AlgorithmFactory.Files.{plugins_of, candidates}
use swm_sched.Alg.AlgorithmFactory.Loading.{load_plugins-IsLoaded}

find_desc :
    (d : ℕ) (bs : List LibBinding)
    → Elem d (map (λ b. b.alg_desc) bs)
    → (b : LibBinding) × Elem b bs × (b.alg_desc ≡ d) × (find_if (λ b. b.alg_desc == d) bs ≡ some b)
find_desc d [] m = elim m [ ]
find_desc d (b ∷ bs) m = elim (Bool-cases (b.alg_desc == d)) [
  | inl hit ↦ (b, inl refl, (nat_eq_iff b.alg_desc d).0 hit, rw hit refl)
  | inr miss ↦ elim m [
    | inl same ↦ ground (arith, nat_eq_iff b.alg_desc d)
    | inr behind ↦
        let (c, found, is_d, first) = find_desc d bs behind in (c, inr found, is_d, rw miss first)
  ]
]

module _ (os : Libraries) {Ctx : Type 0} where
  -- For a descriptor that is known after load_plugins, create makes an algorithm of a plugin that was
  -- loaded and has this descriptor. What the plugin does when it is asked for a context decides on the
  -- result: its messages are passed on, and what it left is the algorithm's context.
  pub create-known :
      (path : String) (d : ℕ) (res : Option (LibBinding × Algorithm Ctx)) (o : Outcome (Option Ctx))
      → let f : AlgorithmFactory = (load_plugins os path no_plugins).2.factory in
        Elem d f.alg_ptrs
        → (b : LibBinding) × Elem b (plugins_of os (candidates os path))
          × (b.alg_desc ≡ d)
          × (create d res o f ≡ (
            (safe_call o).0,
            some (b, record { ctx = o.out; scheduled_jobs = 0 }),
            map from_algorithm (safe_call o).1,
          ))
  unfolding create init create_context
  create-known path d res o m =
      let loaded = load_plugins-IsLoaded os path in
      let (b, found, is_d, first) = find_desc d _ (subst (λ ds. Elem d ds) loaded.described m) in
      (b, subst (λ bs. Elem b bs) loaded.bound found, is_d, rw (create, first) refl)

-- ===== src/Ctrl/Processor/Answers.antt =====
-- Who answers a request of src/sched-lib/ctrl/processor.cpp.
use swm_sched.Prelude.{
  ◌≤◌, subst, ℕ, ◌+◌, ◌≡◌, ◌≢◌, sym, ap, ◌∙◌, ◌⊎◌, inl, inr, ℕ_eq, nat_eq_iff, Bool, true, false,
  List, [], ◌∷◌, ◌++◌, Option, none, some, arith, ◌==◌, Assoc, lookup, insert, lookup-insert, total,
  total-append, Bool-cases, Option-cases,
}
use swm_sched.Ctrl.Processor.{
  AlgorithmDesc, Tried, made, failed, create_algorithms, Command, schedule_command,
  interrupt_command, metrics_command, exchange_command, corrupted_command, context, Invocation,
  invoke_interrupt, invoke_stats, invoke_exchange, invoke_exchange_silently, EmptyResponse,
  ChainController, Processor, refuse, invoke, if_found, dispatch, Thrown, not_thrown, at_first,
  at_second, try_dispatch, process,
}

abbrev pub one_if : Bool → ℕ
one_if true = 1
one_if false = 0

-- Whether a delegated call, or an answer, is for the request `ctx`.
abbrev pub answers : ℕ → Invocation → ℕ
answers ctx (invoke_interrupt c) = one_if (c == ctx)
answers ctx (invoke_stats c) = one_if (c == ctx)
answers ctx (invoke_exchange c target) = one_if (c == ctx)
answers ctx (invoke_exchange_silently source) = 0

abbrev pub responses : ℕ → List EmptyResponse → ℕ
responses ctx = total (λ r. one_if (r.context == ctx))

module _ {Algorithm : Type 0} where
  -- What a chain has to answer: the request that made it, and the calls that were delegated to it.
  abbrev pub chain_answers : ℕ → ℕ → ChainController Algorithm → ℕ
  chain_answers ctx chain c = one_if (chain == ctx) + total (answers ctx) c.invoked

  abbrev pub chains_answer : ℕ → Assoc ℕ (ChainController Algorithm) → ℕ
  chains_answer ctx [] = 0
  chains_answer ctx ((chain, c) ∷ chains) = chain_answers ctx chain c + chains_answer ctx chains

  -- The answers for `ctx` that are in the queue or that a chain has to give.
  unfoldable pub answers_for : ℕ → Processor Algorithm → ℕ
  answers_for ctx p = responses ctx p.out_queue + chains_answer ctx p.chains

  insert-new :
      (ctx chain : ℕ) (c : ChainController Algorithm) (m : Assoc ℕ (ChainController Algorithm))
      → lookup chain m ≡ none
      → chains_answer ctx (insert chain c m) ≡ chains_answer ctx m + chain_answers ctx chain c
  insert-new ctx chain c [] h = omega arith
  insert-new ctx chain c ((k, d) ∷ m) h = elim (Bool-cases (chain == k)) [
    | inl hit ↦ absurd (ground arith)
    | inr miss ↦ rw miss (omega (arith, insert-new ctx chain c m (rw miss at h)))
  ]

  insert-old :
      (ctx chain : ℕ) (c d : ChainController Algorithm) (m : Assoc ℕ (ChainController Algorithm))
      → lookup chain m ≡ some c
      → chains_answer ctx (insert chain d m) + chain_answers ctx chain c
        ≡ chains_answer ctx m + chain_answers ctx chain d
  insert-old ctx chain c d [] h = absurd (ground arith)
  insert-old ctx chain c d ((k, b) ∷ m) h = elim (Bool-cases (chain == k)) [
    | inl hit ↦
        let same : b ≡ c = ground arith in
        let key : chain ≡ k = (nat_eq_iff chain k).0 hit in
        rw (hit) (
          omega (
            arith,
            ap (λ x. one_if (x == ctx)) key,
            ap (λ (x : ChainController Algorithm). total (answers ctx) x.invoked) same,
          ))
    | inr miss ↦ rw miss (omega (arith, insert-old ctx chain c d m (rw miss at h)))
  ]

module _ {Algorithm : Type 0} (create : AlgorithmDesc → Option Algorithm)
    (bind_to : Algorithm → Bool) (descriptors : List AlgorithmDesc) (ctx : ℕ) where
  refuse-answers :
      (c : ℕ) (p : Processor Algorithm)
      → answers_for ctx (refuse create bind_to descriptors c p)
        ≡ answers_for ctx p + one_if (c == ctx)
  unfolding answers_for
  refuse-answers c p = omega (
    arith,
    total-append (λ (r : EmptyResponse). one_if (r.context == ctx)) p.out_queue
        (record { context = c; succeeded = false } ∷ []),
  )

  invoke-found :
      (chain : ℕ) (i : Invocation) (p : Processor Algorithm) (c : ChainController Algorithm)
      → lookup chain p.chains ≡ some c
      → invoke create bind_to descriptors chain i p
        ≡ record p { chains = insert chain (record c { invoked = c.invoked ++ i ∷ [] }) p.chains }
  invoke-found chain i p c found =
      ap
        (λ (o : Option (ChainController Algorithm)). elim o [
          | none ↦ p
          | some c ↦ record p {
            chains = insert chain (record c { invoked = c.invoked ++ i ∷ [] }) p.chains;
          }
        ])
        found

  if_found-cases :
      (chain c : ℕ) (p q : Processor Algorithm)
      → ((lookup chain p.chains ≡ none)
          × (if_found create bind_to descriptors chain c p q
              ≡ refuse create bind_to descriptors c p))
        ⊎ ((lookup chain p.chains ≢ none) × (if_found create bind_to descriptors chain c p q ≡ q))
  if_found-cases chain c p q = elim (Option-cases (lookup chain p.chains)) [
    | inl missing ↦ inl (missing, ap (choose) missing)
    | inr (k, found) ↦ inr ((λ n. cc), ap (choose) found)
  ]
    where
      choose : Option (ChainController Algorithm) → Processor Algorithm
      choose none = refuse create bind_to descriptors c p
      choose (some k) = q

  invoke-answers :
      (chain : ℕ) (i : Invocation) (p : Processor Algorithm)
      → lookup chain p.chains ≢ none
      → answers_for ctx (invoke create bind_to descriptors chain i p)
        ≡ answers_for ctx p + answers ctx i
  unfolding answers_for
  invoke-answers chain i p h = elim (Option-cases (lookup chain p.chains)) [
    | inl missing ↦ absurd (h missing)
    | inr (c, found) ↦
        ap (answers_for ctx) (invoke-found chain i p c found)
        ∙ omega (
          arith,
          insert-old ctx chain c (record c { invoked = c.invoked ++ i ∷ [] }) p.chains found,
          total-append (answers ctx) c.invoked (i ∷ []),
        )
  ]

  still_there :
      (chain target : ℕ) (i : Invocation) (p : Processor Algorithm)
      → lookup chain p.chains ≢ none
      → lookup target p.chains ≢ none
      → lookup target (invoke create bind_to descriptors chain i p).chains ≢ none
  still_there chain target i p g h e = elim (Option-cases (lookup chain p.chains)) [
    | inl missing ↦ g missing
    | inr (c, found) ↦
        let at = lookup-insert target chain (record c { invoked = c.invoked ++ i ∷ [] }) p.chains in
        let e' =
          sym (
            ap (λ (q : Processor Algorithm). lookup target q.chains)
              (invoke-found chain i p c found))
          ∙ e in
        elim (Bool-cases (target == chain)) [ inl hit ↦ ground arith | inr miss ↦ h (ground arith) ]
  ]

  found-answers :
      (chain c : ℕ) (p q : Processor Algorithm)
      → (lookup chain p.chains ≢ none → answers_for ctx q ≡ answers_for ctx p + one_if (c == ctx))
      → answers_for ctx (if_found create bind_to descriptors chain c p q)
        ≡ answers_for ctx p + one_if (c == ctx)
  found-answers chain c p q h = elim (if_found-cases chain c p q) [
    | inl (missing, e) ↦ ap (answers_for ctx) e ∙ refuse-answers c p
    | inr (found, e) ↦ ap (answers_for ctx) e ∙ h found
  ]

  started-answers :
      (c : ℕ) (algs : List Algorithm) (p : Processor Algorithm)
      → lookup c p.chains ≡ none
      → answers_for ctx
          (record p { chains = insert c (record { algorithms = algs; invoked = [] }) p.chains })
        ≡ answers_for ctx p + one_if (c == ctx)
  unfolding answers_for
  started-answers c algs p missing =
      omega (arith, insert-new ctx c (record { algorithms = algs; invoked = [] }) p.chains missing)

  tried-answers :
      (c : ℕ) (p : Processor Algorithm) (t : Tried (List Algorithm))
      → lookup c p.chains ≡ none
      → answers_for ctx (elim t [
        | failed e ↦ refuse create bind_to descriptors c p
        | made algs ↦ record p {
          chains = insert c (record { algorithms = algs; invoked = [] }) p.chains;
        }
      ])
        ≡ answers_for ctx p + one_if (c == ctx)
  tried-answers c p (failed e) missing = refuse-answers c p
  tried-answers c p (made algs) missing = started-answers c algs p missing

  dispatch-answers :
      (command : Command) (p : Processor Algorithm)
      → answers_for ctx (dispatch create bind_to descriptors command p)
        ≡ answers_for ctx p + one_if (context command == ctx)
  unfolding dispatch
  dispatch-answers (corrupted_command c) p = refuse-answers c p
  dispatch-answers (interrupt_command c chain) p =
      found-answers chain c p (invoke create bind_to descriptors chain (invoke_interrupt c) p)
        (invoke-answers chain (invoke_interrupt c) p)
  dispatch-answers (metrics_command c chain) p =
      found-answers chain c p (invoke create bind_to descriptors chain (invoke_stats c) p)
        (invoke-answers chain (invoke_stats c) p)
  dispatch-answers (exchange_command c source target) p =
      let first = invoke create bind_to descriptors source (invoke_exchange c target) p in
      let both = invoke create bind_to descriptors target (invoke_exchange_silently source) first in
      found-answers source c p (if_found create bind_to descriptors target c p both) (λ g.
        found-answers target c p both (λ h. omega (
          arith,
          invoke-answers source (invoke_exchange c target) p g,
          invoke-answers target (invoke_exchange_silently source) first
              (still_there source target (invoke_exchange c target) p g h),
        )))
  dispatch-answers (schedule_command c specs) p = elim (Option-cases (lookup c p.chains)) [
    | inr (k, found) ↦ rw (found, dispatch) (refuse-answers c p)
    | inl missing ↦
        rw (missing, dispatch)
          (tried-answers c p (create_algorithms create bind_to descriptors specs) missing)
  ]

  -- At most one more answer, and only for the context of the request.
  abbrev Between : ℕ → Processor Algorithm → Processor Algorithm → Type 0
  Between c p q =
      (answers_for ctx p ≤ answers_for ctx q)
      × (answers_for ctx q ≤ answers_for ctx p + one_if (c == ctx))

  one-Between :
      (c : ℕ) (p q : Processor Algorithm)
      → answers_for ctx q ≡ answers_for ctx p + one_if (c == ctx)
      → Between c p q
  one-Between c p q e = (omega (arith, e), omega (arith, e))

  same-Between : (c : ℕ) (p : Processor Algorithm) → Between c p p
  same-Between c p = (omega arith, omega arith)

  found-Between :
      (chain c : ℕ) (p q : Processor Algorithm)
      → (lookup chain p.chains ≢ none → Between c p q)
      → Between c p (if_found create bind_to descriptors chain c p q)
  found-Between chain c p q h = elim (if_found-cases chain c p q) [
    | inl (missing, e) ↦ subst (Between c p) (sym e) (one-Between c p _ (refuse-answers c p))
    | inr (found, e) ↦ subst (Between c p) (sym e) (h found)
  ]

  try_dispatch-Between :
      (thrown : Thrown) (command : Command) (p : Processor Algorithm)
      → Between (context command) p (try_dispatch create bind_to descriptors thrown command p)
  unfolding try_dispatch
  try_dispatch-Between not_thrown command p =
      one-Between (context command) p _ (dispatch-answers command p)
  try_dispatch-Between at_first (schedule_command c specs) p =
      elim (Option-cases (lookup c p.chains)) [
        | inr (k, found) ↦ rw (found, try_dispatch) (one-Between c p _ (refuse-answers c p))
        | inl missing ↦ rw (missing, try_dispatch) (same-Between c p)
      ]
  try_dispatch-Between at_first (interrupt_command c chain) p =
      found-Between chain c p p (λ g. same-Between c p)
  try_dispatch-Between at_first (metrics_command c chain) p =
      found-Between chain c p p (λ g. same-Between c p)
  try_dispatch-Between at_first (exchange_command c source target) p =
      found-Between source c p _ (λ g. found-Between target c p p (λ h. same-Between c p))
  try_dispatch-Between at_first (corrupted_command c) p = one-Between c p _ (refuse-answers c p)
  try_dispatch-Between at_second (exchange_command c source target) p =
      let first = invoke create bind_to descriptors source (invoke_exchange c target) p in
      found-Between source c p _ (λ g.
        found-Between target c p first
          (λ h. one-Between c p first (invoke-answers source (invoke_exchange c target) p g)))
  try_dispatch-Between at_second (schedule_command c specs) p =
      one-Between c p _ (dispatch-answers (schedule_command c specs) p)
  try_dispatch-Between at_second (interrupt_command c chain) p =
      one-Between c p _ (dispatch-answers (interrupt_command c chain) p)
  try_dispatch-Between at_second (metrics_command c chain) p =
      one-Between c p _ (dispatch-answers (metrics_command c chain) p)
  try_dispatch-Between at_second (corrupted_command c) p =
      one-Between c p _ (dispatch-answers (corrupted_command c) p)

  -- A request whose processing does not throw gets exactly one answer: after it, there is one more
  -- answer for its context, in the queue or to be given by a chain. If it throws, there is at most one
  -- more. For all other contexts there are as many as before.
  pub process-answers :
      (thrown : Thrown) (command : Command) (p : Processor Algorithm)
      → (thrown ≡ not_thrown
          → answers_for ctx (process create bind_to descriptors thrown command p)
            ≡ answers_for ctx p + one_if (context command == ctx))
        × (answers_for ctx p
            ≤ answers_for ctx (process create bind_to descriptors thrown command p))
        × (answers_for ctx (process create bind_to descriptors thrown command p)
            ≤ answers_for ctx p + one_if (context command == ctx))
  unfolding process answers_for try_dispatch
  process-answers thrown command p =
      let (low, high) = try_dispatch-Between thrown command p in
      (
        λ e.
            elim thrown
                as (λ t.
                  t ≡ not_thrown
                  → answers_for ctx (process create bind_to descriptors t command p)
                    ≡ answers_for ctx p + one_if (context command == ctx)) [
                      | not_thrown ↦ λ e. dispatch-answers command p
                      | at_first ↦ λ e. cc
                      | at_second ↦ λ e. cc
                    ]
              e,
        low,
        high,
      )

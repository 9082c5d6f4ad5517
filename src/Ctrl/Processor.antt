-- ===== src/Ctrl/Processor.antt =====
-- src/sched-lib/ctrl/processor.{h,cpp}: the choice of the algorithms for a request, and the dispatch of the
-- requests to the chains. A chain's controller is recorded by its algorithms and by the calls that were
-- delegated to it, each with the context of the request that its callback will answer. What the factory
-- creates and whether an algorithm can be bound to the processor are parameters. Pointers are not null.
-- Where the processing of a request throws is an argument.
pub mod Choice
pub mod Answers
mod Tests
use swm_sched.Prelude.{
  ℕ, ◌+◌, String, String_eq, ℕ_eq, Bool, true, false, not, List, [], ◌∷◌, ◌++◌, Option, none, some,
  if◌then◌else◌, ◌==◌, find_if, Assoc, lookup, insert,
}

pub record AlgorithmDesc : Type 0 where
  pub family_id : String
  pub version : String
  pub device_type : ℕ

pub record AlgorithmSpec : Type 0 where
  pub family : String
  pub version : Option String
  pub compute_unit : Option ℕ

pub data AlgorithmsError : Type 0 where
  no_specification : AlgorithmsError
  no_implementation : AlgorithmSpec → AlgorithmsError
  not_created : AlgorithmDesc → AlgorithmsError

pub data Tried {ℓ} (A : Type ℓ) : Type ℓ where
  made : A → Tried A
  failed : AlgorithmsError → Tried A

-- "Predicate for wise selection"
unfoldable pub matches : AlgorithmSpec → AlgorithmDesc → Bool
matches spec desc =
    if not (desc.family_id == spec.family)
    then false
    else if differs_in_version spec.version
    then false
    else if differs_in_unit spec.compute_unit
    then false
    else true
  where
    differs_in_version : Option String → Bool
    differs_in_version none = false
    differs_in_version (some ver) = not (ver == desc.version)

    differs_in_unit : Option ℕ → Bool
    differs_in_unit none = false
    differs_in_unit (some cu) = not (cu == desc.device_type)

-- The first loop of `create_algorithms`.
unfoldable pub select : List AlgorithmDesc → List AlgorithmSpec → Tried (List AlgorithmDesc)
select descriptors [] = made []
select descriptors (spec ∷ specs) =
    let rest = select descriptors specs in
    elim (find_if (matches spec) descriptors) [
      | none ↦ failed (no_implementation spec)
      | some desc ↦ elim rest [ failed e ↦ failed e | made descs ↦ made (desc ∷ descs) ]
    ]

module _ {Algorithm : Type 0} (create : AlgorithmDesc → Option Algorithm)
    (bind_to : Algorithm → Bool) where
  -- Its second loop.
  unfoldable pub instantiate : List AlgorithmDesc → Tried (List Algorithm)
  instantiate [] = made []
  instantiate (desc ∷ descs) =
      let rest = instantiate descs in
      elim (create desc) [
        | none ↦ failed (not_created desc)
        | some alg ↦
            if not (bind_to alg)
            then failed (not_created desc)
            else elim rest [ failed e ↦ failed e | made algs ↦ made (alg ∷ algs) ]
      ]

  unfoldable pub create_algorithms :
      List AlgorithmDesc → List AlgorithmSpec → Tried (List Algorithm)
  create_algorithms descriptors [] = failed no_specification
  create_algorithms descriptors (spec ∷ specs) = elim (select descriptors (spec ∷ specs)) [
    | failed e ↦ failed e
    | made selected ↦ instantiate selected
  ]

-- A request, with the identifier of its context.
pub data Command : Type 0 where
  schedule_command : ℕ → List AlgorithmSpec → Command
  interrupt_command : ℕ → ℕ → Command
  metrics_command : ℕ → ℕ → Command
  exchange_command : ℕ → ℕ → ℕ → Command
  corrupted_command : ℕ → Command

abbrev pub context : Command → ℕ
context (schedule_command ctx specs) = ctx
context (interrupt_command ctx chain) = ctx
context (metrics_command ctx chain) = ctx
context (exchange_command ctx source target) = ctx
context (corrupted_command ctx) = ctx

-- A call that is delegated to a chain. The callback of the second call of an exchange does nothing.
pub data Invocation : Type 0 where
  invoke_interrupt invoke_stats : ℕ → Invocation
  invoke_exchange : ℕ → ℕ → Invocation
  invoke_exchange_silently : ℕ → Invocation

-- Where the processing of a request throws, if it does: in `create_algorithms`, in an `init` or in the
-- first call that is delegated, or in the second one of an exchange.
pub data Thrown : Type 0 where
  not_thrown at_first at_second : Thrown

-- `EmptyResponse(context, succeeded)`
pub record EmptyResponse : Type 0 where
  pub context : ℕ
  pub succeeded : Bool

-- The chain and its controller, whose last callback answers the request that made it.
pub record ChainController (Algorithm : Type 0) : Type 0 where
  pub algorithms : List Algorithm
  pub invoked : List Invocation

pub record Processor (Algorithm : Type 0) : Type 0 where
  pub chains : Assoc ℕ (ChainController Algorithm)
  pub out_queue : List EmptyResponse
  pub requests : ℕ

module _ {Algorithm : Type 0} (create : AlgorithmDesc → Option Algorithm)
    (bind_to : Algorithm → Bool) (descriptors : List AlgorithmDesc) where
  -- `respond_chain_not_found`, `respond_chain_already_exists` and the other answers at once.
  abbrev pub refuse : ℕ → Processor Algorithm → Processor Algorithm
  refuse ctx p = record p {
    out_queue = p.out_queue ++ record { context = ctx; succeeded = false } ∷ [];
  }

  -- A delegated call; nothing is done if there is no such chain.
  abbrev pub invoke : ℕ → Invocation → Processor Algorithm → Processor Algorithm
  invoke chain i p = elim (lookup chain p.chains) [
    | none ↦ p
    | some c ↦ record p {
      chains = insert chain (record c { invoked = c.invoked ++ i ∷ [] }) p.chains;
    }
  ]

  abbrev pub if_found : ℕ → ℕ → Processor Algorithm → Processor Algorithm → Processor Algorithm
  if_found chain ctx p found = elim (lookup chain p.chains) [ none ↦ refuse ctx p | some c ↦ found ]

  -- The `switch` of `worker_thread`.
  unfoldable pub dispatch : Command → Processor Algorithm → Processor Algorithm
  dispatch (schedule_command ctx specs) p = elim (lookup ctx p.chains) [
    | some c ↦ refuse ctx p
    | none ↦ elim (create_algorithms create bind_to descriptors specs) [
      | failed e ↦ refuse ctx p
      | made algs ↦ record p {
        chains = insert ctx (record { algorithms = algs; invoked = [] }) p.chains;
      }
    ]
  ]
  dispatch (interrupt_command ctx chain) p =
      if_found chain ctx p (invoke chain (invoke_interrupt ctx) p)
  dispatch (metrics_command ctx chain) p = if_found chain ctx p (invoke chain (invoke_stats ctx) p)
  dispatch (exchange_command ctx source target) p = if_found source ctx p (
      if_found target ctx p (
        invoke target (invoke_exchange_silently source)
          (invoke source (invoke_exchange ctx target) p)))
  dispatch (corrupted_command ctx) p = refuse ctx p

  -- The `try` block: what is left of the `switch` if it throws, which is only written to the log. Before
  -- a chain is made, or a call is delegated, nothing has changed.
  unfoldable pub try_dispatch : Thrown → Command → Processor Algorithm → Processor Algorithm
  unfolding dispatch
  try_dispatch not_thrown command p = dispatch command p
  try_dispatch at_first (schedule_command ctx specs) p = elim (lookup ctx p.chains) [
    | some c ↦ refuse ctx p
    | none ↦ p
  ]
  try_dispatch at_first (interrupt_command ctx chain) p = if_found chain ctx p p
  try_dispatch at_first (metrics_command ctx chain) p = if_found chain ctx p p
  try_dispatch at_first (exchange_command ctx source target) p =
      if_found source ctx p (if_found target ctx p p)
  try_dispatch at_first (corrupted_command ctx) p = refuse ctx p
  try_dispatch at_second (exchange_command ctx source target) p =
      if_found source ctx p (if_found target ctx p (invoke source (invoke_exchange ctx target) p))
  try_dispatch at_second command p = dispatch command p

  -- One round of the loop of `worker_thread` with a request, and its second half, which removes the
  -- chains whose controllers have finished.
  unfoldable pub process : Thrown → Command → Processor Algorithm → Processor Algorithm
  unfolding try_dispatch
  process thrown command p =
      let q = try_dispatch thrown command p in record q { requests = q.requests + 1 }

  abbrev pub without_finished :
      (ℕ → Bool) → Assoc ℕ (ChainController Algorithm) → Assoc ℕ (ChainController Algorithm)
  without_finished finished [] = []
  without_finished finished ((chain, c) ∷ chains) =
      if finished chain
      then without_finished finished chains
      else (chain, c) ∷ without_finished finished chains

  abbrev pub kill_zombies : (ℕ → Bool) → Processor Algorithm → Processor Algorithm
  kill_zombies finished p = record p { chains = without_finished finished p.chains }

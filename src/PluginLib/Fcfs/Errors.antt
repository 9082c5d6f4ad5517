-- ===== src/PluginLib/Fcfs/Errors.antt =====
-- What src/plugin-lib/fcfs_implementation.cpp writes to its error stream, and what it throws.
use swm_sched.Prelude.{ℕ, String}

pub data Message : Type 0 where
  no_node_request no_nodes_wanted : Message
  no_such_cluster : String → Message
  node_is_owned : Message
  resource_not_found : String → Message
  not_enough_nodes : ℕ → ℕ → Message

-- `std::runtime_error`, by what threw it: a look-up in `ExtendedRH`, or `align_jobs`.
pub data Exception : Type 0 where
  no_such_element unknown_cluster : Exception

-- `interrupted` is `return false` on a forced interruption.
pub data Outcome {ℓ} (A : Type ℓ) : Type ℓ where
  done : A → Outcome A
  interrupted : Outcome A
  threw : Exception → Outcome A

infixl 5 ◌>>=◌
abbrev pub ◌>>=◌ {ℓ κ} : {A : Type ℓ} {B : Type κ} → Outcome A → (A → Outcome B) → Outcome B
done a >>= f = f a
interrupted >>= f = interrupted
threw e >>= f = threw e

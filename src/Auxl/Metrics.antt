-- ===== src/Auxl/Metrics.antt =====
-- src/sched-lib/auxl/metrics.{h,cpp}: the named values of one type (`OneTypeMetrics`) with their
-- handlers, and `Metrics`, which has integers and doubles. What is done under the lock is one step. The
-- value type, its `T()` and its addition are parameters; a handler is a value, and a call of it is
-- an entry of the list that the operation returns.
pub mod Registry
pub mod Telling
mod Tests
use swm_sched.Prelude.{
  ℕ, String, ℕ_eq, Bool, true, false, List, [], ◌∷◌, ◌++◌, map, Option, none, some, if◌then◌else◌,
  ◌==◌, Assoc, lookup, insert,
}

pub record MetricsRecord {ℓ} (T : Type ℓ) (Handler : Type ℓ) : Type ℓ where
  pub value : T
  pub handlers : List Handler

pub record OneTypeMetrics {ℓ} (T : Type ℓ) (Handler : Type ℓ) : Type ℓ where
  pub values : Assoc ℕ (MetricsRecord T Handler)
  pub indices : List (ℕ × String)

-- `handler(old_value, new_value)`
pub record HandlerCall {ℓ} (T : Type ℓ) (Handler : Type ℓ) : Type ℓ where
  pub handler : Handler
  pub old_value : T
  pub new_value : T

module _ {ℓ} {T Handler : Type ℓ} (zero_value : T) (add : T → T → T) where
  abbrev pub no_metrics : OneTypeMetrics T Handler
  no_metrics = record { values = []; indices = [] }

  -- `none` is an exception, which leaves the object as it is.
  unfoldable pub register_value :
      ℕ → String → OneTypeMetrics T Handler → Option (OneTypeMetrics T Handler)
  register_value i name m = elim (lookup i m.values) [
    | some r ↦ none
    | none ↦ some (record {
      values = insert i (record { value = zero_value; handlers = [] }) m.values;
      indices = m.indices ++ (i, name) ∷ [];
    })
  ]

  unfoldable pub lock_and_retrieve : ℕ → OneTypeMetrics T Handler → Option (MetricsRecord T Handler)
  lock_and_retrieve i m = lookup i m.values

  unfoldable pub add_event_handler :
      ℕ → Handler → OneTypeMetrics T Handler → Option (OneTypeMetrics T Handler)
  unfolding lock_and_retrieve
  add_event_handler i handler m = elim (lock_and_retrieve i m) [
    | none ↦ none
    | some r ↦ some (record m {
      values = insert i (record r { handlers = r.handlers ++ handler ∷ [] }) m.values;
    })
  ]

  unfoldable pub value_of : ℕ → OneTypeMetrics T Handler → Option T
  unfolding lock_and_retrieve
  value_of i m = elim (lock_and_retrieve i m) [ none ↦ none | some r ↦ some r.value ]

  abbrev pub export_indices : OneTypeMetrics T Handler → List (ℕ × String)
  export_indices m = m.indices

  abbrev pub calls : T → T → List Handler → List (HandlerCall T Handler)
  calls old new = map (λ h. record { handler = h; old_value = old; new_value = new })

  -- The common part of `update_value` and `reset_value`.
  abbrev pub write :
      ℕ
      → (T → T)
      → OneTypeMetrics T Handler
      → Option (OneTypeMetrics T Handler × (T × List (HandlerCall T Handler)))
  write i f m = elim (lock_and_retrieve i m) [
    | none ↦ none
    | some r ↦ some (
      record m { values = insert i (record r { value = f r.value }) m.values },
      (f r.value, calls r.value (f r.value) r.handlers),
    )
  ]

  -- The new value, and the calls of the handlers.
  unfoldable pub update_value :
      ℕ
      → T
      → OneTypeMetrics T Handler
      → Option (OneTypeMetrics T Handler × (T × List (HandlerCall T Handler)))
  unfolding lock_and_retrieve
  update_value i increment m = write i (λ v. add v increment) m

  unfoldable pub reset_value :
      ℕ
      → OneTypeMetrics T Handler
      → Option (OneTypeMetrics T Handler × (T × List (HandlerCall T Handler)))
  unfolding lock_and_retrieve
  reset_value i m = write i (λ v. zero_value) m

-- ===== src/Auxl/Metrics/Tests.antt =====
-- Runs of src/sched-lib/auxl/metrics.cpp, with counters on the natural numbers and handlers that are
-- named by a text.
use swm_sched.Prelude.{
  ℕ, ◌+◌, ◌≡◌, ◌≢◌, ◌⊎◌, refl, String, List, [], ◌∷◌, ◌++◌, none, some, lookup, ℕ_eq,
}
use swm_sched.Auxl.Metrics.{
  MetricsRecord, OneTypeMetrics, no_metrics, register_value, add_event_handler, update_value,
  value_of, lock_and_retrieve,
}
use swm_sched.Auxl.Metrics.Registry.{
  Operation, registers, adds_handler, updates, apply, apply_all, IsRegistry, apply_all-IsRegistry,
}
use swm_sched.Auxl.Metrics.Telling.{told, update_value_lem}

abbrev plus : ℕ → ℕ → ℕ
plus a b = a + b

abbrev session : List (Operation ℕ String 0 plus)
session =
    registers 1 "requests"
    ∷ adds_handler 1 "log"
    ∷ registers 2 "chains"
    ∷ updates 1 5
    ∷ registers 1 "again"
    ∷ updates 3 1
    ∷ []

abbrev after_session : OneTypeMetrics ℕ String
after_session = apply_all ℕ String 0 plus session (no_metrics 0 plus)

reads_back : value_of 0 plus 1 after_session ≡ some 5
unfolding value_of lock_and_retrieve apply_all apply register_value add_event_handler update_value
reads_back = refl

abbrev counted : OneTypeMetrics ℕ String
counted = record {
  values = (1, record { value = 5; handlers = "log" ∷ [] }) ∷ [];
  indices = (1, "requests") ∷ [];
}

tells_both :
    update_value 0 plus 1 2 counted
    ≡ some (
      record counted { values = (1, record { value = 7; handlers = "log" ∷ [] }) ∷ [] },
      (7, record { handler = "log"; old_value = 5; new_value = 7 } ∷ []),
    )
unfolding update_value lock_and_retrieve
tells_both = refl

apply_all-IsRegistry_example : IsRegistry ℕ String 0 plus after_session
apply_all-IsRegistry_example = apply_all-IsRegistry ℕ String 0 plus session

update_value_lem_example :
    ((lookup 1 counted.values ≡ none) × (update_value 0 plus 1 2 counted ≡ none))
    ⊎ ((r : MetricsRecord ℕ String) × (m : OneTypeMetrics ℕ String) × (lookup 1 counted.values
          ≡ some r)
        × (update_value 0 plus 1 2 counted
            ≡ some (m, (r.value + 2, told ℕ String 0 plus r.value (r.value + 2) r.handlers)))
        × (value_of 0 plus 1 m ≡ some (r.value + 2))
        × (m.indices ≡ counted.indices)
        × ((k : ℕ) → k ≢ 1 → value_of 0 plus k m ≡ value_of 0 plus k counted)
        × ((h : String)
            → (m1 : OneTypeMetrics ℕ String) × (m2 : OneTypeMetrics ℕ String) × (add_event_handler 0
                  plus 1 h counted
                ≡ some m1)
              × (update_value 0 plus 1 2 m1
                  ≡ some (
                    m2,
                    (
                      r.value + 2,
                      told ℕ String 0 plus r.value (r.value + 2) r.handlers
                          ++ record { handler = h; old_value = r.value; new_value = r.value + 2 }
                            ∷ [],
                    ),
                  ))))
update_value_lem_example = update_value_lem ℕ String 0 plus 1 2 counted

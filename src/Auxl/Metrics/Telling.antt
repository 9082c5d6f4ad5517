-- ===== src/Auxl/Metrics/Telling.antt =====
-- The update of a value in src/sched-lib/auxl/metrics.cpp, and which handlers it tells what.
use swm_sched.Prelude.{
  ℕ, ◌≡◌, ◌≢◌, refl, ap, ◌∙◌, ◌⊎◌, inl, inr, ℕ_eq, nat_eq_iff, List, [], ◌∷◌, ◌++◌, Option, none,
  some, arith, ◌==◌, lookup, insert, lookup-insert, lookup-insert_self, Bool-cases, Option-cases,
}
use swm_sched.Auxl.Metrics.{
  MetricsRecord, HandlerCall, OneTypeMetrics, lock_and_retrieve, add_event_handler, value_of, calls,
  update_value,
}

module _ (T Handler : Type 0) (zero_value : T) (add : T → T → T) where
  updates-missing :
      (i : ℕ) (increment : T) (m : OneTypeMetrics T Handler)
      → lookup i m.values ≡ none
      → update_value zero_value add i increment m ≡ none
  unfolding update_value lock_and_retrieve
  updates-missing i increment m missing = ground arith

  updates-found :
      (i : ℕ) (increment : T) (r : MetricsRecord T Handler) (m : OneTypeMetrics T Handler)
      → lookup i m.values ≡ some r
      → update_value zero_value add i increment m
        ≡ some (
          record m { values = insert i (record r { value = add r.value increment }) m.values },
          (add r.value increment, calls zero_value add r.value (add r.value increment) r.handlers),
        )
  unfolding update_value lock_and_retrieve
  updates-found i increment r m found =
      ap
        (λ (o : Option (MetricsRecord T Handler)). elim o [
          | none ↦ none
          | some r ↦ some (
            record m { values = insert i (record r { value = add r.value increment }) m.values },
            (
              add r.value increment,
              calls zero_value add r.value (add r.value increment) r.handlers,
            ),
          )
        ])
        found

  -- What each handler is called with.
  abbrev pub told : T → T → List Handler → List (HandlerCall T Handler)
  told old new [] = []
  told old new (h ∷ hs) = record { handler = h; old_value = old; new_value = new } ∷ told old new hs

  calls-told : (old new : T) (hs : List Handler) → calls zero_value add old new hs ≡ told old new hs
  calls-told old new [] = refl
  calls-told old new (h ∷ hs) =
      ap (◌∷◌ (record { handler = h; old_value = old; new_value = new })) (calls-told old new hs)

  told-snoc :
      (old new : T) (hs : List Handler) (h : Handler)
      → told old new (hs ++ h ∷ [])
        ≡ told old new hs ++ record { handler = h; old_value = old; new_value = new } ∷ []
  told-snoc old new [] h = refl
  told-snoc old new (k ∷ hs) h =
      ap (◌∷◌ (record { handler = k; old_value = old; new_value = new })) (told-snoc old new hs h)

  -- An update of a registered value adds the increment to it, returns the sum, tells each of the
  -- value's handlers the old value and the sum, and is seen by the next read; all other values and the
  -- indices stay. With one more handler added before it, it tells this one behind the others. It throws
  -- if the value is not registered.
  pub update_value_lem :
      (i : ℕ) (increment : T) (m : OneTypeMetrics T Handler)
      → ((lookup i m.values ≡ none) × (update_value zero_value add i increment m ≡ none))
        ⊎ ((r : MetricsRecord T Handler) × (m' : OneTypeMetrics T Handler) × (lookup i m.values
              ≡ some r)
            × (update_value zero_value add i increment m
                ≡ some
                    (m', (add r.value increment, told r.value (add r.value increment) r.handlers)))
            × (value_of zero_value add i m' ≡ some (add r.value increment))
            × (m'.indices ≡ m.indices)
            × ((k : ℕ) → k ≢ i → value_of zero_value add k m' ≡ value_of zero_value add k m)
            × ((h : Handler)
                → (m1 : OneTypeMetrics T Handler) × (m2 : OneTypeMetrics T Handler)
                  × (add_event_handler zero_value add i h m ≡ some m1)
                  × (update_value zero_value add i increment m1
                      ≡ some (
                        m2,
                        (
                          add r.value increment,
                          told r.value (add r.value increment) r.handlers
                              ++ record {
                                handler = h;
                                old_value = r.value;
                                new_value = add r.value increment;
                              }
                                ∷ [],
                        ),
                      ))))
  unfolding update_value value_of lock_and_retrieve add_event_handler
  update_value_lem i increment m = elim (Option-cases (lookup i m.values)) [
    | inl missing ↦ inl (missing, updates-missing i increment m missing)
    | inr (r, found) ↦
        let sum = add r.value increment in
        let s : MetricsRecord T Handler = record r { value = sum } in
        inr (
          r,
          record m { values = insert i s m.values },
          found,
          updates-found i increment r m found
              ∙ ap (λ cs. some (record m { values = insert i s m.values }, (sum, cs)))
                  (calls-told r.value sum r.handlers),
          rw (lookup-insert_self i s m.values, value_of, lock_and_retrieve) refl,
          refl,
          λ k other.
              rw (lookup-insert k i s m.values, value_of, lock_and_retrieve)
                (elim (Bool-cases (k == i)) [
                  | inl hit ↦ absurd (other ((nat_eq_iff k i).0 hit))
                  | inr miss ↦ rw miss refl
                ]),
          λ h.
              let r1 : MetricsRecord T Handler = record r { handlers = r.handlers ++ h ∷ [] } in
              let m1 : OneTypeMetrics T Handler = record m { values = insert i r1 m.values } in
              let s1 : MetricsRecord T Handler = record r1 { value = sum } in
              (
                m1,
                record m1 { values = insert i s1 m1.values },
                rw (found, add_event_handler, lock_and_retrieve) refl,
                updates-found i increment r1 m1 (lookup-insert_self i r1 m.values)
                    ∙ ap (λ cs. some (record m1 { values = insert i s1 m1.values }, (sum, cs)))
                        (calls-told r.value sum (r.handlers ++ h ∷ [])
                          ∙ told-snoc r.value sum r.handlers h),
              ),
        )
  ]

-- ===== src/Auxl/Metrics/Registry.antt =====
-- The values of src/sched-lib/auxl/metrics.cpp: which are registered, and what an operation changes.
use swm_sched.Prelude.{
  ℕ, ◌≡◌, ◌≢◌, refl, sym, ap, ◌∙◌, ◌↔◌, inl, inr, String, ℕ_eq, nat_eq_iff, List, [], ◌∷◌, ◌++◌,
  map, none, some, arith, ◌==◌, lookup, insert, lookup-insert, Elem, Elem-append, Elem-append_left,
  Elem-append_right, Distinct, Bool-cases, Option-cases,
}
use swm_sched.Auxl.Metrics.{
  MetricsRecord, OneTypeMetrics, no_metrics, register_value, lock_and_retrieve, add_event_handler,
  update_value, reset_value,
}

module _ (T Handler : Type 0) (zero_value : T) (add : T → T → T) where
  abbrev pub ids : OneTypeMetrics T Handler → List ℕ
  ids m = map (λ p. p.0) m.indices

  -- The indices are those of the values, each once.
  pub record IsRegistry (m : OneTypeMetrics T Handler) : Type 0 where
    pub listed : (i : ℕ) → (lookup i m.values ≢ none) ↔ Elem i (ids m)
    pub once : Distinct (ids m)

  pub data Operation : Type 0 where
    registers : ℕ → String → Operation
    adds_handler : ℕ → Handler → Operation
    updates : ℕ → T → Operation
    resets : ℕ → Operation

  -- The object after a call; an exception leaves it as it is.
  unfoldable pub apply : Operation → OneTypeMetrics T Handler → OneTypeMetrics T Handler
  apply (registers i name) m = elim (register_value zero_value add i name m) [
    | none ↦ m
    | some m' ↦ m'
  ]
  apply (adds_handler i h) m = elim (add_event_handler zero_value add i h m) [
    | none ↦ m
    | some m' ↦ m'
  ]
  apply (updates i v) m = elim (update_value zero_value add i v m) [ none ↦ m | some (m', r) ↦ m' ]
  apply (resets i) m = elim (reset_value zero_value add i m) [ none ↦ m | some (m', r) ↦ m' ]

  unfoldable pub apply_all : List Operation → OneTypeMetrics T Handler → OneTypeMetrics T Handler
  apply_all [] m = m
  apply_all (o ∷ os) m = apply_all os (apply o m)

  -- A new record for a registered value.
  write-IsRegistry :
      (i : ℕ) (r s : MetricsRecord T Handler) (m : OneTypeMetrics T Handler)
      → lookup i m.values ≡ some r
      → IsRegistry m
      → IsRegistry (record m { values = insert i s m.values })
  write-IsRegistry i r s m found p = record {
    listed = λ k.
        let at = lookup-insert k i s m.values in
        let was = p.listed k in
        let here : k ≡ i → lookup k m.values ≡ some r =
          (λ e. ap (λ j. lookup j m.values) e ∙ found) in
        elim (Bool-cases (k == i)) [
          | inl hit ↦
              let same : k ≡ i = (nat_eq_iff k i).0 hit in
              (λ h. was.0 (λ gone. ground (arith, here same)), λ e. λ gone. ground arith)
          | inr miss ↦ (
            λ h. was.0 (λ gone. h (at ∙ rw miss gone)),
            λ e. λ gone. was.1 e (sym (rw miss at at) ∙ gone),
          )
        ];
    once = p.once;
  }

  Distinct-snoc : (xs : List ℕ) (x : ℕ) → Distinct xs → ¬ Elem x xs → Distinct (xs ++ x ∷ [])
  Distinct-snoc [] x d n = (λ e. e, tt)
  Distinct-snoc (y ∷ ys) x d n = (
    λ e. elim (Elem-append y ys (x ∷ []) e) [
      | inl k ↦ d.0 k
      | inr (inl same) ↦ n (inl (sym same))
      | inr (inr k) ↦ absurd k
    ],
    Distinct-snoc ys x d.1 (λ e. n (inr e)),
  )

  map-snoc :
      (xs : List (ℕ × String)) (x : ℕ × String)
      → map (λ p. p.0) (xs ++ x ∷ []) ≡ map (λ p. p.0) xs ++ x.0 ∷ []
  map-snoc [] x = refl
  map-snoc (y ∷ ys) x = ap (◌∷◌ y.0) (map-snoc ys x)

  register-IsRegistry :
      (i : ℕ) (name : String) (r : MetricsRecord T Handler) (m : OneTypeMetrics T Handler)
      → lookup i m.values ≡ none
      → IsRegistry m
      → IsRegistry (record { values = insert i r m.values; indices = m.indices ++ (i, name) ∷ [] })
  register-IsRegistry i name r m missing p =
      let at = map-snoc m.indices (i, name) in
      record {
        listed = λ k.
            let found = lookup-insert k i r m.values in
            elim (Bool-cases (k == i)) [
              | inl hit ↦ (
                λ h. rw at (Elem-append_right k (ids m) (i ∷ []) (inl ((nat_eq_iff k i).0 hit))),
                λ e. λ gone. ground arith,
              )
              | inr miss ↦ (
                λ h. rw at (
                    Elem-append_left k (ids m) (i ∷ [])
                      ((p.listed k).0 (λ gone. h (found ∙ rw miss gone)))),
                λ e. elim (Elem-append k (ids m) (i ∷ []) (rw at at e)) [
                  | inl old ↦ λ gone. (p.listed k).1 old (sym (rw miss at found) ∙ gone)
                  | inr (inl same) ↦ absurd (ground (arith, nat_eq_iff k i))
                  | inr (inr j) ↦ absurd j
                ],
              )
            ];
        once = rw at (Distinct-snoc (ids m) i p.once (λ e. (p.listed i).1 e missing));
      }

  apply-IsRegistry :
      (o : Operation) (m : OneTypeMetrics T Handler) → IsRegistry m → IsRegistry (apply o m)
  unfolding apply register_value add_event_handler update_value reset_value lock_and_retrieve
  apply-IsRegistry (registers i name) m p = elim (Option-cases (lookup i m.values)) [
    | inl missing ↦ rw (missing, apply, register_value) (register-IsRegistry i name _ m missing p)
    | inr (r, found) ↦ rw (found, apply, register_value) p
  ]
  apply-IsRegistry (adds_handler i h) m p = elim (Option-cases (lookup i m.values)) [
    | inl missing ↦ rw (missing, apply, add_event_handler, lock_and_retrieve) p
    | inr (r, found) ↦
        rw (found, apply, add_event_handler, lock_and_retrieve) (write-IsRegistry i r _ m found p)
  ]
  apply-IsRegistry (updates i v) m p = elim (Option-cases (lookup i m.values)) [
    | inl missing ↦ rw (missing, apply, update_value, lock_and_retrieve) p
    | inr (r, found) ↦
        rw (found, apply, update_value, lock_and_retrieve) (write-IsRegistry i r _ m found p)
  ]
  apply-IsRegistry (resets i) m p = elim (Option-cases (lookup i m.values)) [
    | inl missing ↦ rw (missing, apply, reset_value, lock_and_retrieve) p
    | inr (r, found) ↦
        rw (found, apply, reset_value, lock_and_retrieve) (write-IsRegistry i r _ m found p)
  ]

  apply_all-keeps :
      (os : List Operation) (m : OneTypeMetrics T Handler)
      → IsRegistry m
      → IsRegistry (apply_all os m)
  unfolding apply_all
  apply_all-keeps [] m p = p
  apply_all-keeps (o ∷ os) m p = apply_all-keeps os (apply o m) (apply-IsRegistry o m p)

  -- After any calls on a new object, the exported indices are those of the registered values, each
  -- once.
  pub apply_all-IsRegistry :
      (os : List Operation) → IsRegistry (apply_all os (no_metrics zero_value add))
  apply_all-IsRegistry os =
      apply_all-keeps os (no_metrics zero_value add)
        (record { listed = λ i. (λ h. h refl, λ e. absurd e); once = tt })

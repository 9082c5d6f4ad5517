-- ===== src/Ctrl/Responses/Written.antt =====
-- What src/sched-lib/ctrl/responses.cpp writes for an answer.
use mathlib.Core.List.{append_assoc, reverse, append-nil}
use swm_sched.Prelude.{
  none, ◌≡◌, refl, sym, ap, ◌∙◌, subst, inl, inr, String, ℕ_eq, Bool, true, false, List, [], ◌∷◌,
  ◌++◌, some, length, is_empty, filter_if, arith, Bool-cases,
}
use swm_sched.PluginLib.Entities.{SwmTimetable}
use swm_sched.Ctrl.Responses.{
  EiX, SwmMetric, SwmSchedulerResult, ResponseError, going, Step, ◌>>◌, write, write_silently,
  write_names, write_timetable, write_timetables, write_metrics, write_end, write_result, skip,
  make_buffer, make_timetables_ei_buffer, make_metrics_ei_buffer, make_scheduler_result_ei_buffer,
  timetable_response, metrics_response, empty_response, refresh_timers, serialize,
}
use swm_sched.Ctrl.Responses.Tokens.{
  Token, version, tuple_header, number, atom, text, Writes, spell, spell_all, terms,
}
use swm_sched.Ctrl.Responses.ResultTerms.{
  has_nodes, texts, names_term, timetable_term, metric_term, end_token, timetables_tokens,
  metrics_tokens, last_tokens, result_tokens, length-reverse_aux, names-spell, length-pos,
}

module _ (ei : EiX) (Holds : ei.Buff → List (Token ei.Double) → Type 0) (w : Writes ei Holds) where
  abbrev Tokens : Type 0
  Tokens = List (Token ei.Double)

  abbrev Going : Step ei → ei.Buff → List ResponseError → Tokens → Type 0
  Going p x errors ts = (y : ei.Buff) × (p x errors ≡ going y errors) × Holds y ts

  -- A step adds tokens to what the buffer holds, and does not fail.
  abbrev Adds : Step ei → Tokens → Type 0
  Adds p us =
      (x : ei.Buff) (errors : List ResponseError) (ts : Tokens)
      → Holds x ts
      → Going p x errors (ts ++ us)

  skip-Adds : Adds (skip ei) []
  skip-Adds x errors ts h = (x, refl, subst (Holds x) (sym (append-nil ts)) h)

  >>-Adds : (p q : Step ei) (us vs : Tokens) → Adds p us → Adds q vs → Adds (◌>>◌ ei p q) (us ++ vs)
  >>-Adds p q us vs a b x errors ts h =
      let (y, e, h') = a x errors ts h in
      let (z, e', h'') = b y errors (ts ++ us) h' in
      (z, ground (arith, e, e'), subst (Holds z) (append_assoc ts us vs) h'')

  abbrev Encodes : (ei.Buff → Bool × ei.Buff) → Token ei.Double → Type 0
  Encodes f t =
      (x : ei.Buff) (ts : Tokens)
      → Holds x ts
      → (y : ei.Buff) × (f x ≡ (false, y)) × Holds y (ts ++ t ∷ [])

  write-Adds :
      (f : ei.Buff → Bool × ei.Buff) (e : ResponseError) (t : Token ei.Double)
      → Encodes f t
      → Adds (write ei f e) (t ∷ [])
  write-Adds f e t c x errors ts h = let (y, ok, h') = c x ts h in (y, ground (arith, ok), h')

  append-Adds :
      (y : ei.Buff) (us : Tokens) (e : ResponseError)
      → Holds y us
      → Adds (write ei (ei.append y) e) us
  append-Adds y us e held x errors ts h =
      let (z, ok, h') = w.appends x y ts us h held in (z, ground (arith, ok), h')

  write_silently-Adds :
      (f : ei.Buff → Bool × ei.Buff) (t : Token ei.Double)
      → Encodes f t
      → Adds (write_silently ei f) (t ∷ [])
  write_silently-Adds f t c x errors ts h =
      let (y, ok, h') = c x ts h in (y, ground (arith, ok), h')

  write_names-Adds : (ns : List String) → Adds (write_names ei ns) (spell_all (texts ns))
  unfolding write_names spell_all
  write_names-Adds [] = skip-Adds
  write_names-Adds (n ∷ ns) =
      >>-Adds _ _ (text n ∷ []) _ (write_silently-Adds _ _ (w.writes_string n))
        (write_names-Adds ns)

  write_timetable-Adds :
      (table : SwmTimetable)
      → has_nodes table ≡ true
      → Adds (write_timetable ei table) (spell (timetable_term table))
  unfolding write_timetable spell
  write_timetable-Adds table some_nodes =
      subst (Adds (write_timetable ei table))
        (ap
          (λ ts.
            tuple_header 4 ∷ atom "timetable" ∷ number table.start_time ∷ text table.job_id ∷ ts)
          (names-spell (length table.job_nodes) (reverse table.job_nodes)
              (omega (arith, length-reverse_aux table.job_nodes []))
              (length-pos table.job_nodes some_nodes)
            ∙ sym (append-nil (spell (names_term table.job_nodes)))))
        (>>-Adds _ _ _ _
          (>>-Adds _ _ _ _
            (>>-Adds _ _ _ _
              (>>-Adds _ _ _ _
                (>>-Adds _ _ _ _
                  (>>-Adds _ _ _ _ (write-Adds _ _ _ (w.writes_tuple_header 4))
                    (write-Adds _ _ _ (w.writes_atom "timetable")))
                  (write-Adds _ _ _ (w.writes_ulong table.start_time)))
                (write-Adds _ _ _ (w.writes_string table.job_id)))
              (write-Adds _ _ _ (w.writes_list_header (length table.job_nodes))))
            (write_names-Adds (reverse table.job_nodes)))
          (write-Adds _ _ _ w.writes_empty_list))

  write_timetables-Adds :
      (tables : List SwmTimetable)
      → Adds
          (write_timetables ei tables)
          (spell_all (terms timetable_term (filter_if has_nodes tables)))
  unfolding write_timetables spell_all
  write_timetables-Adds [] = skip-Adds
  write_timetables-Adds (table ∷ tables) = elim (Bool-cases (is_empty table.job_nodes)) [
    | inl none_there ↦ rw none_there (>>-Adds _ _ [] _ skip-Adds (write_timetables-Adds tables))
    | inr some_there ↦ rw some_there (
        >>-Adds _ _ _ _ (write_timetable-Adds table (rw some_there refl))
          (write_timetables-Adds tables))
  ]

  write_metrics-Adds :
      (metrics : List (SwmMetric ei.Double))
      → Adds (write_metrics ei metrics) (spell_all (terms metric_term metrics))
  unfolding write_metrics spell spell_all
  write_metrics-Adds [] = skip-Adds
  write_metrics-Adds (m ∷ metrics) =
      >>-Adds _ _ _ _
        (>>-Adds _ _ _ _
          (>>-Adds _ _ _ _
            (>>-Adds _ _ _ _
              (>>-Adds _ _ _ _ (write-Adds _ _ _ (w.writes_tuple_header 4))
                (write-Adds _ _ _ (w.writes_atom "metric")))
              (write-Adds _ _ _ (w.writes_atom m.name)))
            (write-Adds _ _ _ (w.writes_ulong m.value_integer)))
          (write-Adds _ _ _ (w.writes_double m.value_float64)))
        (write_metrics-Adds metrics)

  write_end-Adds : {A : Type 0} (xs : List A) → Adds (write_end ei xs) (end_token xs)
  write_end-Adds [] = skip-Adds
  write_end-Adds (x ∷ xs) = write-Adds _ _ _ w.writes_empty_list

  -- A buffer that is made without a message holds the tokens.
  abbrev Makes :
      (List ResponseError → ei.Buff × List ResponseError) → List ResponseError → Tokens → Type 0
  Makes m errors ts = (x : ei.Buff) × (m errors ≡ (x, errors)) × Holds x ts

  make_buffer-Makes :
      (body : Step ei) (us : Tokens)
      → Adds body us
      → (errors : List ResponseError) → Makes (make_buffer ei body) errors us
  make_buffer-Makes body us a errors =
      let (x, ok, h) = w.new_buffer in
      let (y, e, h') = a x errors [] h in (y, ground (arith, ok, e), h')

  make_timetables-Makes :
      (tables : List SwmTimetable) (errors : List ResponseError)
      → Makes (make_timetables_ei_buffer ei tables) errors (timetables_tokens tables)
  unfolding make_timetables_ei_buffer
  make_timetables-Makes tables = make_buffer-Makes _ _ (
      >>-Adds _ _ _ _
        (>>-Adds _ _ _ _ (write-Adds _ _ _ (w.writes_list_header (length tables)))
          (write_timetables-Adds tables))
        (write_end-Adds tables))

  make_metrics-Makes :
      (metrics : List (SwmMetric ei.Double)) (errors : List ResponseError)
      → Makes (make_metrics_ei_buffer ei metrics) errors (metrics_tokens metrics)
  unfolding make_metrics_ei_buffer
  make_metrics-Makes metrics = make_buffer-Makes _ _ (
      >>-Adds _ _ _ _
        (>>-Adds _ _ _ _ (write-Adds _ _ _ (w.writes_list_header (length metrics)))
          (write_metrics-Adds metrics))
        (write_end-Adds metrics))

  write_result-Adds :
      (result : SwmSchedulerResult ei.Double) (tb mb : ei.Buff) (ts ms : Tokens)
      → Holds tb ts
      → Holds mb ms
      → Adds
          (write_result ei result tb mb)
          (version ∷ tuple_header 8 ∷ atom "scheduler_result" ∷ (ts ++ (ms ++ last_tokens result)))
  unfolding write_result
  write_result-Adds result tb mb ts ms th mh =
      subst (Adds (write_result ei result tb mb))
        (ap (λ us. version ∷ tuple_header 8 ∷ atom "scheduler_result" ∷ us) (simp append_assoc))
        (>>-Adds _ _ _ _
          (>>-Adds _ _ _ _
            (>>-Adds _ _ _ _
              (>>-Adds _ _ _ _
                (>>-Adds _ _ _ _
                  (>>-Adds _ _ _ _
                    (>>-Adds _ _ _ _
                      (>>-Adds _ _ _ _
                        (>>-Adds _ _ _ _ (write-Adds _ _ _ w.writes_version)
                          (write-Adds _ _ _ (w.writes_tuple_header 8)))
                        (write-Adds _ _ _ (w.writes_atom "scheduler_result")))
                      (append-Adds tb ts _ th))
                    (append-Adds mb ms _ mh))
                  (write-Adds _ _ _ (w.writes_string result.request_id)))
                (write-Adds _ _ _ (w.writes_long result.status)))
              (write-Adds _ _ _ (w.writes_double result.astro_time)))
            (write-Adds _ _ _ (w.writes_double result.idle_time)))
          (write-Adds _ _ _ (w.writes_double result.work_time)))

  make_scheduler_result-Makes :
      (result : SwmSchedulerResult ei.Double) (tables : List SwmTimetable)
      (metrics : List (SwmMetric ei.Double)) (errors : List ResponseError)
      → Makes
          (make_scheduler_result_ei_buffer ei result tables metrics)
          errors
          (result_tokens result tables metrics)
  unfolding make_scheduler_result_ei_buffer
  make_scheduler_result-Makes result tables metrics errors =
      let (tb, te, th) = make_timetables-Makes tables errors in
      let (mb, me, mh) = make_metrics-Makes metrics errors in
      let (x, made, h) =
        make_buffer-Makes (write_result ei result tb mb) _
          (write_result-Adds result tb mb _ _ th mh) errors in
      (x, rw (te, me) made, h)

  -- With enough memory, `serialize` gives true, and leaves the errors as they are. For a response with
  -- timetables it gives the tokens of the result, with the times refreshed; the header of the timetables
  -- counts all of them, and only those with nodes follow, in their order, each with its nodes in
  -- reverse. For an empty response it gives the tokens of the result with no timetables and no metrics,
  -- and for one with metrics no data at all.
  pub serialize-result_tokens :
      (times : ei.Double × ei.Double × ei.Double) (result : SwmSchedulerResult ei.Double)
      (is_succeeded : Bool) (errors : List ResponseError)
      → ((x : ei.Buff) × (serialize ei times (timetable_response result) errors
            ≡ ((true, some x), errors))
          × Holds x
              (result_tokens (refresh_timers ei times result) result.timetable result.metrics))
        × ((x : ei.Buff) × (serialize ei times (empty_response result is_succeeded) errors
              ≡ ((true, some x), errors))
            × Holds x (result_tokens result [] []))
        × (serialize ei times (metrics_response result) errors ≡ ((true, none), errors))
  unfolding serialize refresh_timers
  serialize-result_tokens (astro, idling, working) result is_succeeded errors =
      let timed = refresh_timers ei (astro, idling, working) result in
      let (x, e, h) = make_scheduler_result-Makes timed result.timetable result.metrics errors in
      let (y, e', h') = make_scheduler_result-Makes result [] [] errors in
      (
        (x, ground (arith, e, w.not_null x _ h), h),
        (y, ground (arith, e', w.not_null y _ h'), h'),
        refl,
      )

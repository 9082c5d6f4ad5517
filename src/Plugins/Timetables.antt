-- ===== src/Plugins/Timetables.antt =====
-- The timetables of src/plugins/fcfs and src/plugins/fair-sharing.
use swm_sched.Prelude.{
  ℕ, ◌*◌, ◌<◌, ◌^◌, ◌≡◌, refl, sym, subst, ◌⊎◌, inl, inr, String, String_eq, Bool, true, List, [],
  ◌∷◌, map, some, arith, is_empty, length, Distinct, Bool-cases,
}
use swm_sched.PluginLib.Entities.{EiBuffer, SwmTimetable, SchedulingInfo}
use swm_sched.PluginLib.ExtendedRh.{RhError}
use swm_sched.PluginLib.Fcfs.Single.{Fcfs, Init, ready, refused, failed, init}
use swm_sched.PluginLib.Fcfs.Progress.{job_durations}
use swm_sched.PluginLib.Fcfs.Guarantee.{IsSchedule, schedule-IsSchedule}
use swm_sched.PluginLib.Fcfs.Fresh.{init-IsFresh}
use swm_sched.Plugins.{
  TimetableInfo, copied, filled, constructed, rejected, stopped, throws, construct_timetable,
}

pub copied-same : (t : TimetableInfo) → copied (some t) ≡ t
unfolding copied
copied-same t = go t.tables
  where
    go :
        (tables : List SwmTimetable)
        → copied (some (record { tables = tables })) ≡ record { tables = tables }
    go [] = refl
    go (x ∷ xs) = refl

filled-tables : (tts : List SwmTimetable) → (filled (some tts)).tables ≡ tts
unfolding filled
filled-tables [] = refl
filled-tables (x ∷ xs) = refl

Init-cases :
    (i : Init) → ((f : Fcfs) × (i ≡ ready f)) ⊎ (((e : RhError) × (i ≡ refused e)) ⊎ (i ≡ failed))
Init-cases (ready f) = inl (f, refl)
Init-cases (refused e) = inr (inl (e, refl))
Init-cases failed = inr (inr refl)

module _ (ei_buffer_to_str : EiBuffer → Bool × String) (forced : ℕ → Bool)
    (ignore_priorities : Bool) (info : SchedulingInfo) where
  -- On nodes with different identifiers, and with durations whose double sum fits in 64 bits, what a
  -- plugin constructs is a schedule of the request's jobs: its timetables are those of runs of
  -- different jobs, each on as many suitable nodes as its job's request counts, and a run that shares
  -- a node with a later one of the result has ended when that one starts. Otherwise the resource
  -- hierarchy was refused, the plugin was told to stop and stopped, or `init` threw an exception.
  pub construct_timetable-IsSchedule :
      Distinct (map (λ n. n.value.id) info.nodes)
      → 2 * job_durations info.jobs < 2 ^ 64
      → ((tt : TimetableInfo) × (construct_timetable ei_buffer_to_str forced ignore_priorities info
            ≡ constructed tt)
          × IsSchedule ei_buffer_to_str info.jobs tt.tables)
        ⊎ (((e : RhError) × (construct_timetable ei_buffer_to_str forced ignore_priorities info
                ≡ rejected e)
              × (init info ≡ refused e))
            ⊎ (((construct_timetable ei_buffer_to_str forced ignore_priorities info ≡ stopped)
                  × ((k : ℕ) × (k < length info.jobs) × (forced k ≡ true)))
                ⊎ ((construct_timetable ei_buffer_to_str forced ignore_priorities info ≡ throws)
                    × (init info ≡ failed))))
  unfolding construct_timetable
  construct_timetable-IsSchedule d fits = elim (Bool-cases (is_empty info.jobs)) [
    | inl none_queued ↦ inl (
      record { tables = [] },
      rw none_queued refl,
      record { runs = []; same = refl; ordered = tt; served = tt; once = λ w. omega arith },
    )
    | inr some_queued ↦ elim (Init-cases (init info)) [
      | inr (inl (e, bad)) ↦ inr (inl (e, rw (some_queued, bad) refl, bad))
      | inr (inr thrown) ↦ inr (inr (inr (rw (some_queued, thrown) refl, thrown)))
      | inl (f, begun) ↦
          let (pool, fresh) = init-IsFresh info f d begun in
          elim (schedule-IsSchedule ei_buffer_to_str forced info.jobs [] ignore_priorities f pool
            fresh fits) [
              | inl (halts, why) ↦ inr (inr (inl (rw (some_queued, begun, halts) refl, why)))
              | inr (tts, last, planned, good) ↦ inl (
                filled (some tts),
                rw (some_queued, begun, planned) refl,
                subst (IsSchedule ei_buffer_to_str info.jobs) (sym (filled-tables tts)) good,
              )
            ]
    ]
  ]

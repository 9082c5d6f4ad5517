-- ===== src/Plugins.antt =====
-- src/plugins: the functions that the plugins export, and src/plugin-lib/timetable_info, which their
-- results are wrapped in. A plugin's context holds only a pointer to its metrics and is left out.
pub mod Timetables
mod Tests
use swm_sched.Prelude.{
  ℕ, String, String_eq, ℕ_eq, Bool, true, false, not, List, [], ◌∷◌, ◌++◌, map, Option, none, some,
  if◌then◌else◌, ◌==◌, length, is_empty,
}
use swm_sched.PluginLib.Entities.{EiBuffer, SwmNode, SwmJob, SwmTimetable, Pointer, SchedulingInfo}
use swm_sched.PluginLib.ExtendedRh.{RhError}
use swm_sched.PluginLib.Fcfs.Errors.{Exception, Outcome, done, interrupted, threw}
use swm_sched.PluginLib.Fcfs.Single.{Fcfs, Init, ready, refused, failed}
use swm_sched.PluginLib.Fcfs.Single
use swm_sched.PluginLib.Fcfs.Schedule.{schedule}

-- `TimetableInfo`: its tables. The pointers `tables_refs_` are to these, in their order.
pub record TimetableInfo : Type 0 where
  pub tables : List SwmTimetable

-- The constructors; `none` is a null pointer.
unfoldable pub copied : Option TimetableInfo → TimetableInfo
copied none = record { tables = [] }
copied (some t) = if is_empty t.tables then record { tables = [] } else record { tables = t.tables }

unfoldable pub filled : Option (List SwmTimetable) → TimetableInfo
filled none = record { tables = [] }
filled (some content) =
    if is_empty content then record { tables = [] } else record { tables = content }

-- `constructed` is true with the timetable; false comes with the error of the hierarchy, or from an
-- interruption.
pub data Construction : Type 0 where
  constructed : TimetableInfo → Construction
  rejected : RhError → Construction
  stopped throws : Construction

module _ (ei_buffer_to_str : EiBuffer → Bool × String) (forced : ℕ → Bool) where
  -- `swm_construct_timetable` of fcfs and of fair-sharing: they differ in `ignore_priorities`.
  unfoldable pub construct_timetable : Bool → SchedulingInfo → Construction
  construct_timetable ignore_priorities sched_info =
      if is_empty sched_info.jobs
      then constructed (record { tables = [] })
      else elim (Single.init sched_info) [
        | refused e ↦ rejected e
        | failed ↦ throws
        | ready fcfs ↦
            elim (schedule ei_buffer_to_str forced sched_info.jobs [] ignore_priorities fcfs) [
              | done (tts, last) ↦ constructed (filled (some tts))
              | interrupted ↦ stopped
              | threw e ↦ throws
            ]
      ]

  abbrev pub fcfs_construct_timetable : SchedulingInfo → Construction
  fcfs_construct_timetable = construct_timetable true

  abbrev pub fair_sharing_construct_timetable : SchedulingInfo → Construction
  fair_sharing_construct_timetable = construct_timetable false

-- `swm_improve_timetable` of both: a copy.
abbrev pub improve_timetable : Option TimetableInfo → TimetableInfo
improve_timetable old_tt = copied old_tt

-- `swm_bind_compute_unit` of both: the type of a unit is 0 for a CPU.
abbrev pub bind_compute_unit : ℕ → Bool
bind_compute_unit device_type = if not (device_type == 0) then false else true

-- The dummy: its result, the new timetable, and the timetables that it committed. If the job is
-- called "hold_on" it waits for an interruption and then gives false.
pub record DummyResult : Type 0 where
  pub succeeded : Bool
  pub waited : Bool
  pub tt : Option TimetableInfo
  pub committed : List TimetableInfo

abbrev pub dummy_end : String → TimetableInfo → DummyResult
dummy_end job_id tt = record {
  succeeded = not (job_id == "hold_on");
  waited = job_id == "hold_on";
  tt = some tt;
  committed = tt ∷ [];
}

abbrev pub dummy_failure : DummyResult
dummy_failure = record { succeeded = false; waited = false; tt = none; committed = [] }

unfoldable pub dummy_construct_timetable : SchedulingInfo → DummyResult
unfolding filled
dummy_construct_timetable sched_info = go sched_info.jobs sched_info.nodes
  where
    go : List SwmJob → List (Pointer SwmNode) → DummyResult
    go (job ∷ []) (node ∷ []) = dummy_end job.id (
        filled
          (some (record { job_id = job.id; start_time = 0; job_nodes = node.value.id ∷ [] } ∷ [])))
    go _ _ = dummy_failure

unfoldable pub dummy_improve_timetable : TimetableInfo → DummyResult
unfolding copied
dummy_improve_timetable old_tt = go old_tt.tables
  where
    go : List SwmTimetable → DummyResult
    go (table ∷ []) = dummy_end table.job_id (copied (some old_tt))
    go _ = dummy_failure

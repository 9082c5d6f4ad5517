-- ===== src/Ctrl/Responses.antt =====
-- src/sched-lib/ctrl/responses.{h,cpp}: how an answer is written as a term in Erlang's external format. The
-- functions of the library `ei` that write to an `ei_x_buff` are parameters, which tell whether they
-- fail and what they leave in the buffer; so are doubles. `SwmMetric` and `SwmSchedulerResult` are
-- generated in another repository: the records hold what is set and written.
pub mod Tokens
pub mod ResultTerms
pub mod Written
pub mod WellFormed
mod Tests
use swm_sched.Prelude.{
  ℕ, String, ℕ_eq, Bool, true, false, not, ◌&&◌, List, [], ◌∷◌, ◌++◌, if◌then◌else◌, ◌==◌, length,
  is_empty, Option, none, some,
}
use mathlib.Core.List.{reverse}
use swm_sched.PluginLib.Entities.{SwmTimetable}

pub record EiX : Type 1 where
  pub Buff : Type 0
  pub Double : Type 0
  -- An `ei_x_buff` before `ei_x_new`.
  pub unset : Buff
  pub is_null : Buff → Bool
  pub index : Buff → ℕ
  pub free : Buff → Buff
  -- True if the call fails.
  pub new : Buff → Bool × Buff
  pub encode_version : Buff → Bool × Buff
  pub encode_list_header : ℕ → Buff → Bool × Buff
  pub encode_empty_list : Buff → Bool × Buff
  pub encode_tuple_header : ℕ → Buff → Bool × Buff
  pub encode_atom : String → Buff → Bool × Buff
  pub encode_string : String → Buff → Bool × Buff
  pub encode_ulong : ℕ → Buff → Bool × Buff
  pub encode_long : ℕ → Buff → Bool × Buff
  pub encode_double : Double → Buff → Bool × Buff
  -- The second buffer is appended to the first.
  pub append : Buff → Buff → Bool × Buff

pub data ResponseError : Type 0 where
  no_buffer no_header no_tuple_header no_first_atom no_start_time no_job_id : ResponseError
  no_nodes_header no_nodes_end no_end no_name no_integer no_float64 no_version : ResponseError
  no_timetables no_metrics no_request_id no_status no_time : ResponseError

pub record SwmMetric {ℓ} (Double : Type ℓ) : Type ℓ where
  pub name : String
  pub value_integer : ℕ
  pub value_float64 : Double

pub record SwmSchedulerResult {ℓ} (Double : Type ℓ) : Type ℓ where
  pub timetable : List SwmTimetable
  pub metrics : List (SwmMetric Double)
  pub request_id : String
  pub status : ℕ
  pub astro_time : Double
  pub idle_time : Double
  pub work_time : Double

module _ (ei : EiX) where
  open ei use {
    Buff, Double, unset, is_null, index, free, new, encode_version, encode_list_header,
    encode_empty_list, encode_tuple_header, encode_atom, encode_string, encode_ulong, encode_long,
    encode_double, append,
  }

  -- The buffer and the error stream so far, or those that are returned early.
  pub data Encoding : Type 0 where
    going stopped : Buff → List ResponseError → Encoding

  abbrev pub Step : Type 0
  Step = Buff → List ResponseError → Encoding

  infixl 5 ◌>>◌
  abbrev pub ◌>>◌ : Step → Step → Step
  ◌>>◌ p q x errors = elim (p x errors) [
    | going x' errors' ↦ q x' errors'
    | stopped x' errors' ↦ stopped x' errors'
  ]

  -- "if (...) { *errors << ...; ei_x_free(&x); return x; }"
  abbrev pub write : (Buff → Bool × Buff) → ResponseError → Step
  write f e x errors =
      let (fails, x') = f x in
      if fails then stopped (free x') (errors ++ e ∷ []) else going x' errors

  -- The same with no message.
  abbrev pub write_silently : (Buff → Bool × Buff) → Step
  write_silently f x errors =
      let (fails, x') = f x in if fails then stopped (free x') errors else going x' errors

  abbrev pub skip : Step
  skip x errors = going x errors

  -- What is returned, early or at the end.
  abbrev pub finished : Encoding → Buff × List ResponseError
  finished (going x errors) = (x, errors)
  finished (stopped x errors) = (x, errors)

  -- The body of a function that makes a buffer. One that `ei_x_new` fails on is not freed.
  abbrev pub make_buffer : Step → List ResponseError → Buff × List ResponseError
  make_buffer body errors =
      let (fails, x) = new unset in
      if fails then (x, errors ++ no_buffer ∷ []) else finished (body x errors)

  -- `nodes[nodes_cnt - i - 1]` for each `i`: the names in reverse.
  unfoldable pub write_names : List String → Step
  write_names [] = skip
  write_names (n ∷ ns) = write_silently (encode_string n) >> write_names ns

  -- A timetable that has nodes.
  unfoldable pub write_timetable : SwmTimetable → Step
  unfolding write_names
  write_timetable table =
      write (encode_tuple_header 4) no_tuple_header
      >> write (encode_atom "timetable") no_first_atom
      >> write (encode_ulong table.start_time) no_start_time
      >> write (encode_string table.job_id) no_job_id
      >> write (encode_list_header (length table.job_nodes)) no_nodes_header
      >> write_names (reverse table.job_nodes)
      >> write encode_empty_list no_nodes_end

  -- The loop: a timetable with no nodes is passed over.
  unfoldable pub write_timetables : List SwmTimetable → Step
  unfolding write_timetable
  write_timetables [] = skip
  write_timetables (table ∷ tables) =
      (if is_empty table.job_nodes then skip else write_timetable table) >> write_timetables tables

  -- An empty list ends a list that is not empty itself.
  abbrev pub write_end {ℓ} : {A : Type ℓ} → List A → Step
  write_end [] = skip
  write_end (x ∷ xs) = write encode_empty_list no_end

  unfoldable pub make_timetables_ei_buffer :
      List SwmTimetable → List ResponseError → Buff × List ResponseError
  make_timetables_ei_buffer timetables = make_buffer (
      write (encode_list_header (length timetables)) no_header
      >> write_timetables timetables
      >> write_end timetables)

  unfoldable pub write_metrics : List (SwmMetric Double) → Step
  write_metrics [] = skip
  write_metrics (metric ∷ metrics) =
      write (encode_tuple_header 4) no_tuple_header
      >> write (encode_atom "metric") no_first_atom
      >> write (encode_atom metric.name) no_name
      >> write (encode_ulong metric.value_integer) no_integer
      >> write (encode_double metric.value_float64) no_float64
      >> write_metrics metrics

  unfoldable pub make_metrics_ei_buffer :
      List (SwmMetric Double) → List ResponseError → Buff × List ResponseError
  make_metrics_ei_buffer metrics = make_buffer (
      write (encode_list_header (length metrics)) no_header
      >> write_metrics metrics
      >> write_end metrics)

  -- The parts are appended whether they were made or not.
  unfoldable pub write_result : SwmSchedulerResult Double → Buff → Buff → Step
  write_result result timetables_buff metrics_buff =
      write encode_version no_version
      >> write (encode_tuple_header 8) no_tuple_header
      >> write (encode_atom "scheduler_result") no_first_atom
      >> write (append timetables_buff) no_timetables
      >> write (append metrics_buff) no_metrics
      >> write (encode_string result.request_id) no_request_id
      >> write (encode_long result.status) no_status
      >> write (encode_double result.astro_time) no_time
      >> write (encode_double result.idle_time) no_time
      >> write (encode_double result.work_time) no_time

  unfoldable pub make_scheduler_result_ei_buffer :
      SwmSchedulerResult Double
      → List SwmTimetable
      → List (SwmMetric Double)
      → List ResponseError
      → Buff × List ResponseError
  make_scheduler_result_ei_buffer result timetables metrics errors =
      let (timetables_buff, errors') = make_timetables_ei_buffer timetables errors in
      let (metrics_buff, errors'') = make_metrics_ei_buffer metrics errors' in
      make_buffer (write_result result timetables_buff metrics_buff) errors''

  pub data Response : Type 0 where
    timetable_response metrics_response : SwmSchedulerResult Double → Response
    empty_response : SwmSchedulerResult Double → Bool → Response

  -- The constructor of TimetableResponse, on the result that the default constructor gives.
  unfoldable pub new_timetable_response :
      SwmSchedulerResult Double → String → List SwmTimetable → Response
  new_timetable_response blank id tables =
      timetable_response (record blank { request_id = id; timetable = tables; status = 1 })

  unfoldable pub succeeded : Response → Bool
  succeeded (timetable_response result) = true
  succeeded (metrics_response result) = true
  succeeded (empty_response result is_succeeded) = is_succeeded

  -- The times of the context's counter: astronomical, idle and working.
  unfoldable pub refresh_timers :
      Double × Double × Double → SwmSchedulerResult Double → SwmSchedulerResult Double
  refresh_timers (astro, idling, working) result = record result {
    astro_time = astro;
    idle_time = idling;
    work_time = working;
  }

  -- What `serialize` returns, with the bytes of the buffer up to its index, and the error stream.
  -- `none` is the null pointer, with a size of 0.
  unfoldable pub serialize :
      Double × Double × Double
      → Response
      → List ResponseError
      → (Bool × Option Buff) × List ResponseError
  serialize times (timetable_response result) errors =
      let timed = refresh_timers times result in
      let (x, errors') =
        make_scheduler_result_ei_buffer timed timed.timetable timed.metrics errors in
      ((not (is_null x), some x), errors')
  serialize times (metrics_response result) errors = ((true, none), errors)
  serialize times (empty_response result is_succeeded) errors =
      let (x, errors') = make_scheduler_result_ei_buffer result [] [] errors in
      ((not (is_null x), some x), errors')

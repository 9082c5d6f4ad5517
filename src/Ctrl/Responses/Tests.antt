-- ===== src/Ctrl/Responses/Tests.antt =====
-- A run of src/sched-lib/ctrl/responses.cpp, with a buffer that is the list of its tokens.
use swm_sched.Prelude.{none, ℕ, ◌≡◌, refl, Bool, true, false, List, [], ◌∷◌, ◌++◌, some}
use swm_sched.PluginLib.Entities.{SwmTimetable}
use swm_sched.Ctrl.Responses.{
  EiX, SwmSchedulerResult, timetable_response, metrics_response, empty_response, refresh_timers,
  serialize, make_timetables_ei_buffer, write_timetables,
}
use swm_sched.Ctrl.Responses.Tokens.{
  Token, version, list_end, list_header, tuple_header, number, atom, text, real, Writes,
}
use swm_sched.Ctrl.Responses.ResultTerms.{result_tokens}
use swm_sched.Ctrl.Responses.Written.{serialize-result_tokens}

abbrev Tokens : Type 0
Tokens = List (Token ℕ)

abbrev add : Token ℕ → Tokens → Bool × Tokens
add t x = (false, x ++ t ∷ [])

abbrev on_tokens : EiX
on_tokens = record {
  Buff = Tokens;
  Double = ℕ;
  unset = [];
  is_null = λ x. false;
  index = λ x. 0;
  free = λ x. [];
  new = λ x. (false, []);
  encode_version = add version;
  encode_list_header = λ n. add (list_header n);
  encode_empty_list = add list_end;
  encode_tuple_header = λ n. add (tuple_header n);
  encode_atom = λ s. add (atom s);
  encode_string = λ s. add (text s);
  encode_ulong = λ n. add (number n);
  encode_long = λ n. add (number n);
  encode_double = λ d. add (real d);
  append = λ y x. (false, x ++ y);
}

abbrev Holds : Tokens → Tokens → Type 0
Holds x ts = x ≡ ts

on_tokens-Writes : Writes on_tokens Holds
on_tokens-Writes = record {
  not_null = λ x ts h. refl;
  new_buffer = ([], refl, refl);
  writes_version = λ x ts h. (_, refl, rw h refl);
  writes_list_header = λ n x ts h. (_, refl, rw h refl);
  writes_empty_list = λ x ts h. (_, refl, rw h refl);
  writes_tuple_header = λ n x ts h. (_, refl, rw h refl);
  writes_atom = λ s x ts h. (_, refl, rw h refl);
  writes_string = λ s x ts h. (_, refl, rw h refl);
  writes_ulong = λ n x ts h. (_, refl, rw h refl);
  writes_long = λ n x ts h. (_, refl, rw h refl);
  writes_double = λ d x ts h. (_, refl, rw h refl);
  appends = λ x y ts us h k. (_, refl, rw (h, k) refl);
}

abbrev planned : SwmTimetable
planned = record { job_id = "j"; start_time = 3; job_nodes = "a" ∷ "b" ∷ [] }

abbrev unplanned : SwmTimetable
unplanned = record { job_id = "k"; start_time = 0; job_nodes = [] }

abbrev result_of : List SwmTimetable → SwmSchedulerResult ℕ
result_of tables = record {
  timetable = tables;
  metrics = [];
  request_id = "id";
  status = 1;
  astro_time = 0;
  idle_time = 0;
  work_time = 0;
}

abbrev two : SwmSchedulerResult ℕ
two = result_of (unplanned ∷ planned ∷ [])

serialize-result_tokens_example :
    ((x : Tokens) × (serialize on_tokens (9, 4, 5) (timetable_response two) []
        ≡ ((true, some x), []))
      × Holds x (result_tokens (refresh_timers on_tokens (9, 4, 5) two) two.timetable []))
    × ((x : Tokens) × (serialize on_tokens (9, 4, 5) (empty_response two false) []
          ≡ ((true, some x), []))
        × Holds x (result_tokens two [] []))
    × (serialize on_tokens (9, 4, 5) (metrics_response two) [] ≡ ((true, none), []))
serialize-result_tokens_example =
    serialize-result_tokens on_tokens Holds on_tokens-Writes (9, 4, 5) two false []

-- The header counts two timetables, and one follows.
one_of_two :
    (make_timetables_ei_buffer on_tokens (unplanned ∷ planned ∷ []) []).0
    ≡ list_header 2
      ∷ tuple_header 4
      ∷ atom "timetable"
      ∷ number 3
      ∷ text "j"
      ∷ list_header 2
      ∷ text "b"
      ∷ text "a"
      ∷ list_end
      ∷ list_end
      ∷ []
unfolding make_timetables_ei_buffer write_timetables
one_of_two = refl

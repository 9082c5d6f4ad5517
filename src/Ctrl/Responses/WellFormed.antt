-- ===== src/Ctrl/Responses/WellFormed.antt =====
-- When src/sched-lib/ctrl/responses.cpp writes one term of Erlang's.
use swm_sched.Ctrl.Responses.{SwmSchedulerResult}
use swm_sched.Ctrl.Responses.Tokens.{Term, tuple, list, nil, cons, terms}
use swm_sched.Ctrl.Responses.ResultTerms.{timetable_term, metric_term}

-- The term of a result: `{scheduler_result, Timetables, Metrics, Id, Status, Astro, Idle, Work}`.
abbrev pub result_term : {D : Type 0} → SwmSchedulerResult D → Term D
result_term r = tuple (
    cons (Term.atom "scheduler_result") (
      cons (list (terms timetable_term r.timetable)) (
        cons (list (terms metric_term r.metrics)) (
          cons (Term.text r.request_id) (
            cons (Term.number r.status) (
              cons (Term.real r.astro_time)
                (cons (Term.real r.idle_time) (cons (Term.real r.work_time) nil))))))))

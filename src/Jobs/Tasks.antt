-- ===== src/Jobs/Tasks.antt =====
-- The task of a research job keeps the invariant of one job at a time (src/suiban/research/jobs.py).
use suiban.Prelude.{
  ℕ, ◌≤◌, ◌≡◌, refl, sym, subst, ◌∙◌, true, false, not, List, Option, none, some, String, arith,
  keep, Bool-cases, inl, inr,
}
use suiban.Prelude.Int.{ℤ}
use text.Mathlib.Text.{◌==◌ as str_eq}
use suiban.Jobs.Store.{cancelled, is_terminal, Job, update}
use suiban.Jobs.Manager.{
  is_done, Task, Payload, begun, set_executing, with_progress, with_last, set_over, Manager,
  set_terminal, request_cancel, change_task, cancel_found, start, progress, same_progress,
  clamp_percent, Ending, finish, drop_task,
}
use suiban.Jobs.Rows.{
  QueuedOnly-update, QueuedOnly-update_of_same, all-Calms, QueuedOnly-Calms, active_count-update,
  is_waiting, waiting, undone, waiting-change_task, waiting-change_task_of_same, undone-change_task,
  waiting-keep, undone-keep,
}
use suiban.Jobs.Steps.{
  set_terminal-Settled, record_ending-Settled, tasks-set_terminal, tasks-record_ending,
  active_count-Settled, QueuedOnly-Settled,
}
use suiban.Jobs.Admission.{IsSingle}

request_cancel_stops : (t : Task) → is_waiting (request_cancel t) ≡ false
request_cancel_stops t = ground arith

request_cancel_id : (t : Task) → (request_cancel t).job_id ≡ t.job_id
request_cancel_id t = ground arith

request_cancel_done : (t : Task) → is_done t.phase ≡ true → is_done (request_cancel t).phase ≡ true
request_cancel_done t h = ground arith

pub cancel_found-IsSingle :
    (m : Manager) (id : String) (now : ℕ) (found : Option Job)
    → IsSingle m
    → IsSingle (cancel_found m id now found).0
unfolding cancel_found
cancel_found-IsSingle m id now none s = s
cancel_found-IsSingle m id now (some j) s = elim (Bool-cases (is_terminal j.state)) [
  | inl ended ↦ rw ended s
  | inr active ↦
      let m' = set_terminal m id cancelled none now in
      let settled = set_terminal-Settled m id cancelled none now refl in
      let same : m'.tasks ≡ m.tasks = tasks-set_terminal m id cancelled none now in
      rw active (record {
        one_active = omega (arith, s.one_active, active_count-Settled id m.jobs settled);
        one_task =
            subst (λ ts. undone (change_task id request_cancel ts) ≤ 1) (sym same)
              (omega (
                arith,
                s.one_task,
                undone-change_task id request_cancel m.tasks (λ t. request_cancel_done t),
              ));
        linked = λ other w.
            let (waits, apart) =
              waiting-change_task other id request_cancel m.tasks request_cancel_id
                request_cancel_stops
                (subst (λ ts. waiting other (change_task id request_cancel ts) ≡ true) same w) in
            QueuedOnly-Settled other id m.jobs settled apart (s.linked other waits);
      })
]

set_executing_id : (t : Task) → (set_executing t).job_id ≡ t.job_id
set_executing_id t = ground arith

set_executing_stops : (t : Task) → is_waiting (set_executing t) ≡ false
set_executing_stops t = ground arith

set_executing_done : (t : Task) → is_done t.phase ≡ true → is_done (set_executing t).phase ≡ true
set_executing_done t h = ground arith

pub start-IsSingle :
    (m : Manager) (id : String) (now : ℕ)
    → waiting id m.tasks ≡ true
    → IsSingle m
    → IsSingle (start m id now)
unfolding start
start-IsSingle m id now w s = record {
  one_active = omega (
    arith,
    s.one_active,
    active_count-update id (begun now) m.jobs
        (QueuedOnly-Calms id (begun now) m.jobs (s.linked id w)),
  );
  one_task =
      omega (arith, s.one_task, undone-change_task id set_executing m.tasks set_executing_done);
  linked = λ other w'.
      let (waits, apart) =
        waiting-change_task other id set_executing m.tasks set_executing_id set_executing_stops
          w' in
      QueuedOnly-update other id m.jobs (begun now) (λ j. refl) apart (s.linked other waits);
}

progressed-IsSingle :
    (m : Manager) (t : Task) (stage : String) (p : ℕ) (notes : List (String × Payload))
    → IsSingle m
    → IsSingle (record m {
      jobs = update m.jobs t.job_id (with_progress stage p);
      tasks = change_task t.job_id (with_last stage p) m.tasks;
      notified = notes;
    })
progressed-IsSingle m t stage p notes s = record {
  one_active = omega (
    arith,
    s.one_active,
    active_count-update t.job_id (with_progress stage p) m.jobs
        (all-Calms t.job_id (with_progress stage p) m.jobs (λ j busy. busy)),
  );
  one_task =
      omega (
        arith,
        s.one_task,
        undone-change_task t.job_id (with_last stage p) m.tasks (λ u done. done),
      );
  linked = λ other w.
      QueuedOnly-update_of_same other t.job_id m.jobs (with_progress stage p) (λ j. refl)
        (λ j. refl)
        (s.linked other (
          sym (
            waiting-change_task_of_same other t.job_id (with_last stage p) m.tasks (λ u. refl)
              (λ u. refl))
          ∙ w));
}

pub progress-IsSingle :
    (m : Manager) (t : Task) (stage : String) (percent : ℤ)
    → IsSingle m
    → IsSingle (progress m t stage percent)
unfolding progress
progress-IsSingle m t stage percent s =
    elim (Bool-cases (same_progress t.last stage (clamp_percent percent))) [
      | inl same ↦ rw same s
      | inr new ↦ rw new (progressed-IsSingle m t stage (clamp_percent percent) _ s)
    ]

pub finish-IsSingle :
    (m : Manager) (id : String) (ending : Ending) (now : ℕ)
    → IsSingle m
    → IsSingle (finish m id ending now)
unfolding finish
finish-IsSingle m id ending now s =
    let settled = record_ending-Settled m id ending now in
    let same = tasks-record_ending m id ending now in
    record {
      one_active = omega (arith, s.one_active, active_count-Settled id m.jobs settled);
      one_task =
          subst (λ ts. undone (keep (λ t. not (str_eq t.job_id id)) ts) ≤ 1) (sym same)
            (omega (arith, s.one_task, undone-keep id m.tasks));
      linked = λ other w.
          let (waits, apart) =
            waiting-keep other id m.tasks (
              subst (λ ts. waiting other (keep (λ t. not (str_eq t.job_id id)) ts) ≡ true) same
                w) in
          QueuedOnly-Settled other id m.jobs settled apart (s.linked other waits);
    }

pub drop_task-IsSingle : (m : Manager) (id : String) → IsSingle m → IsSingle (drop_task m id)
unfolding drop_task
drop_task-IsSingle m id s = record {
  one_active = s.one_active;
  one_task = omega (arith, s.one_task, undone-change_task id set_over m.tasks (λ t done. refl));
  linked = λ other w.
      s.linked other (waiting-change_task other id set_over m.tasks (λ t. refl) (λ t. refl) w).0;
}

-- ===== src/Jobs/Single.antt =====
-- One research job at a time (src/suiban/research/jobs.py).
use suiban.Prelude.{ℕ, ◌≤◌, ◌≡◌, refl, false, List, [], ◌∷◌, String, arith}
use suiban.Jobs.Store.{Job, active_count, fail_orphans, fail_orphan}
use suiban.Jobs.Manager.{Task, Manager, startup, cancel, cancel_all, shutdown_begin, shutdown_end}
use suiban.Jobs.Rows.{waiting, undone}
use suiban.Jobs.Steps.{
  Step, submits, cancels, starts, progresses, finishes, drops, shuts_down, shut_down, Reach, here,
  next,
}
use suiban.Jobs.Admission.{IsSingle, submit-IsSingle}
use suiban.Jobs.Tasks.{
  cancel_found-IsSingle, start-IsSingle, progress-IsSingle, finish-IsSingle, drop_task-IsSingle,
}

waiting-cancel_all : (id : String) (tasks : List Task) → waiting id (cancel_all tasks) ≡ false
unfolding cancel_all
waiting-cancel_all id [] = refl
waiting-cancel_all id (t ∷ tasks) = ground (arith, waiting-cancel_all id tasks)

undone-cancel_all : (tasks : List Task) → undone (cancel_all tasks) ≤ undone tasks
unfolding cancel_all
undone-cancel_all [] = omega arith
undone-cancel_all (t ∷ tasks) = ground (arith, undone-cancel_all tasks)

shutdown_begin-IsSingle : (m : Manager) → IsSingle m → IsSingle (shutdown_begin m)
unfolding shutdown_begin
shutdown_begin-IsSingle m s = record {
  one_active = s.one_active;
  one_task = omega (arith, s.one_task, undone-cancel_all m.tasks);
  linked = λ other w. cc (waiting-cancel_all other m.tasks, w);
}

shutdown_end-IsSingle : (m : Manager) → IsSingle m → IsSingle (shutdown_end m)
unfolding shutdown_end
shutdown_end-IsSingle m s = record {
  one_active = s.one_active;
  one_task = omega arith;
  linked = λ other w. cc w;
}

pub Step-IsSingle : {m n : Manager} → Step m n → IsSingle m → IsSingle n
unfolding cancel
Step-IsSingle {m} (submits id query effort now) s = submit-IsSingle m id query effort now s
Step-IsSingle {m} (cancels id now) s = cancel_found-IsSingle m id now _ s
Step-IsSingle {m} (starts id now w) s = start-IsSingle m id now w s
Step-IsSingle {m} (progresses t stage percent mem phase) s = progress-IsSingle m t stage percent s
Step-IsSingle {m} (finishes t ending now mem phase) s = finish-IsSingle m t.job_id ending now s
Step-IsSingle {m} (drops t mem phase asked) s = drop_task-IsSingle m t.job_id s
Step-IsSingle {m} shuts_down s = shutdown_begin-IsSingle m s
Step-IsSingle {m} (shut_down none_left) s = shutdown_end-IsSingle m s

active_count-fail_orphans :
    (rows : List Job) (reason : String) (now : ℕ) → active_count (fail_orphans rows reason now) ≡ 0
unfolding active_count fail_orphans fail_orphan
active_count-fail_orphans [] reason now = refl
active_count-fail_orphans (j ∷ rows) reason now =
    ground (arith, active_count-fail_orphans rows reason now)

startup-IsSingle : (rows : List Job) (now : ℕ) → IsSingle (startup rows now)
unfolding startup
startup-IsSingle rows now = record {
  one_active = omega (arith, active_count-fail_orphans rows _ now);
  one_task = omega arith;
  linked = λ id w. cc w;
}

-- From a start of the program on whatever rows the last one left, at most one research job is active,
-- and at most one task has not ended, at every point of every interleaving of submissions,
-- cancellations, the bodies of the tasks and the shutdown; and a task that has yet to begin has its
-- job queued.
pub Reach-IsSingle :
    (rows : List Job) (now : ℕ) (m : Manager) → Reach (startup rows now) m → IsSingle m
Reach-IsSingle rows now m here = startup-IsSingle rows now
Reach-IsSingle rows now m (next r st) = Step-IsSingle st (Reach-IsSingle rows now _ r)

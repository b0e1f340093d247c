-- ===== src/Jobs/Manager.antt =====
-- `JobManager` (src/suiban/research/jobs.py), one function for each stretch of code between two awaits.
-- A task is cancelled where `cancel` was called on it: asyncio raises in its body at the next await, or,
-- where the body has not begun, ends it there. The queues of subscribers are one log, `notified`.
use suiban.Prelude.{
  ℕ, Bool, true, false, not, ◌&&◌, Option, none, some, List, [], ◌∷◌, ◌++◌, String, any, keep, min,
  ltb, if◌then◌else◌, ◌==◌,
}
use suiban.Prelude.Int.{ℤ, pos, negsuc}
use text.Mathlib.Text.{◌==◌ as str_eq}
use suiban.Jobs.Store.{
  State, queued, running, completed, failed, cancelled, is_terminal, Job, add, get, update,
  active_count, fail_orphans,
}

pub data Phase : Type 0 where
  created executing over : Phase

-- An entry of `_tasks`, with the `last` progress of its body.
pub record Task : Type 0 where
  pub job_id : String
  pub phase : Phase
  pub cancel_requested : Bool
  pub last : Option (String × ℕ)

pub data Payload : Type 0 where
  state_changed : State → Payload
  progressed : (stage : String) → (percent : ℕ) → Payload

pub record Manager : Type 0 where
  pub jobs : List Job
  pub tasks : List Task
  pub notified : List (String × Payload)
  -- The jobs that the listeners were called with, in order.
  pub fired : List Job

abbrev pub is_done : Phase → Bool
is_done over = true
is_done _ = false

-- `startup`
unfoldable pub startup : List Job → ℕ → Manager
startup rows now = record {
  jobs = fail_orphans rows "suiban restarted while this job was in flight" now;
  tasks = [];
  notified = [];
  fired = [];
}

-- The refusals are both 429 `research_job_active`.
pub data Submitted : Type 0 where
  already_active still_shutting_down duplicate_id : Submitted
  accepted : Job → Submitted

abbrev pub new_job : String → String → String → ℕ → Job
new_job id query effort now = record {
  id = id;
  query = query;
  effort = effort;
  state = queued;
  stage = none;
  percent = 0;
  created_at = now;
  started_at = none;
  finished_at = none;
  error = none;
}

abbrev pub new_task : String → Task
new_task id = record { job_id = id; phase = created; cancel_requested = false; last = none }

unfoldable pub admit : Manager → Job → Option (List Job) → Manager × Submitted
admit m j none = (m, duplicate_id)
admit m j (some rows) =
    (record m { jobs = rows; tasks = m.tasks ++ new_task j.id ∷ [] }, accepted j)

abbrev pub unwinding : List Task → Bool
unwinding tasks = any (λ t. not (is_done t.phase)) tasks

unfoldable pub submit : Manager → String → String → String → ℕ → Manager × Submitted
unfolding admit
submit m id query effort now =
    let j = new_job id query effort now in
    if ltb 0 (active_count m.jobs)
    then (m, already_active)
    else if unwinding m.tasks
    then (m, still_shutting_down)
    else admit m j (add m.jobs j)

-- What `_set_terminal` writes.
unfoldable pub with_terminal : State → Option String → ℕ → Job → Job
with_terminal completed error now j = record j {
  state = completed;
  error = error;
  finished_at = some now;
  percent = 100;
  stage = none;
}
with_terminal state error now j = record j { state = state; error = error; finished_at = some now }

unfoldable pub fire : Option Job → List Job → List Job
fire none fired = fired
fire (some j) fired = fired ++ j ∷ []

unfoldable pub terminate : Manager → String → State → Option String → ℕ → Manager
unfolding fire
terminate m id state error now =
    let rows = update m.jobs id (with_terminal state error now) in
    record m {
      jobs = rows;
      notified = m.notified ++ (id, state_changed state) ∷ [];
      fired = fire (get rows id) m.fired;
    }

unfoldable pub set_found : Manager → String → State → Option String → ℕ → Option Job → Manager
set_found m id state error now none = m
set_found m id state error now (some current) =
    if is_terminal current.state then m else terminate m id state error now

-- `_set_terminal`
unfoldable pub set_terminal : Manager → String → State → Option String → ℕ → Manager
unfolding set_found
set_terminal m id state error now = set_found m id state error now (get m.jobs id)

abbrev pub request_cancel : Task → Task
request_cancel t = if is_done t.phase then t else record t { cancel_requested = true }

unfoldable pub change_task : String → (Task → Task) → List Task → List Task
change_task id change [] = []
change_task id change (t ∷ tasks) =
    (if str_eq t.job_id id then change t else t) ∷ change_task id change tasks

pub data Cancelled : Type 0 where
  job_not_found : Cancelled
  shown : Option Job → Cancelled

unfoldable pub cancel_found : Manager → String → ℕ → Option Job → Manager × Cancelled
cancel_found m id now none = (m, job_not_found)
cancel_found m id now (some j) =
    let m' = set_terminal m id cancelled none now in
    if is_terminal j.state
    then (m, shown (some j))
    else (record m' { tasks = change_task id request_cancel m'.tasks }, shown (get m'.jobs id))

-- `cancel`, up to its wait for the task, after which it changes nothing.
unfoldable pub cancel : Manager → String → ℕ → Manager × Cancelled
unfolding cancel_found
cancel m id now = cancel_found m id now (get m.jobs id)

abbrev pub begun : ℕ → Job → Job
begun now j = record j { state = running; started_at = some now }

abbrev pub set_executing : Task → Task
set_executing t = elim t.phase [ created ↦ record t { phase = executing } | _ ↦ t ]

-- The start of `_execute`.
unfoldable pub start : Manager → String → ℕ → Manager
start m id now = record m {
  jobs = update m.jobs id (begun now);
  tasks = change_task id set_executing m.tasks;
  notified = m.notified ++ (id, state_changed running) ∷ [];
}

-- `max(0, min(100, int(percent)))`
abbrev pub clamp_percent : ℤ → ℕ
clamp_percent (pos n) = min 100 n
clamp_percent (negsuc n) = 0

unfoldable pub same_progress : Option (String × ℕ) → String → ℕ → Bool
same_progress none stage percent = false
same_progress (some (s, p)) stage percent = str_eq s stage && p == percent

abbrev pub with_progress : String → ℕ → Job → Job
with_progress stage p j = record j { stage = some stage; percent = p }

abbrev pub with_last : String → ℕ → Task → Task
with_last stage p t = record t { last = some (stage, p) }

-- `progress`, called by the body of the task `t`.
unfoldable pub progress : Manager → Task → String → ℤ → Manager
unfolding same_progress
progress m t stage percent =
    let p = clamp_percent percent in
    let changed = record m {
      jobs = update m.jobs t.job_id (with_progress stage p);
      tasks = change_task t.job_id (with_last stage p) m.tasks;
      notified = m.notified ++ (t.job_id, progressed stage p) ∷ [];
    } in
    if same_progress t.last stage p then m else changed

-- How `run_job`, with the writing of its report, ends.
pub data Ending : Type 0 where
  reported stopped : Ending
  raised : String → Ending

unfoldable pub record_ending : Manager → String → Ending → ℕ → Manager
record_ending m id reported now = set_terminal m id completed none now
record_ending m id stopped now = set_terminal m id cancelled none now
record_ending m id (raised e) now = set_terminal m id failed (some e) now

-- The rest of `_execute`.
unfoldable pub finish : Manager → String → Ending → ℕ → Manager
finish m id ending now =
    let m' = record_ending m id ending now in
    record m' { tasks = keep (λ t. not (str_eq t.job_id id)) m'.tasks }

abbrev pub set_over : Task → Task
set_over t = record t { phase = over }

-- A task that was cancelled before its body began ends, and stays in the dict.
unfoldable pub drop_task : Manager → String → Manager
drop_task m id = record m { tasks = change_task id set_over m.tasks }

unfoldable pub cancel_all : List Task → List Task
cancel_all [] = []
cancel_all (t ∷ tasks) = request_cancel t ∷ cancel_all tasks

-- `shutdown`, up to its first wait, and its end.
unfoldable pub shutdown_begin : Manager → Manager
unfolding cancel_all
shutdown_begin m = record m { tasks = cancel_all m.tasks }

unfoldable pub shutdown_end : Manager → Manager
shutdown_end m = record m { tasks = [] }

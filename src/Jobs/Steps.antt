-- ===== src/Jobs/Steps.antt =====
-- What may happen to the job manager (src/suiban/research/jobs.py), one stretch of code at a time, and
-- what each stretch does to the rows.
use mathlib.Core.List.{Mem}
use suiban.Prelude.{
  ℕ, ◌≤◌, ◌≡◌, refl, true, false, List, Option, none, some, String, arith, Bool-cases, inl, inr,
}
use suiban.Prelude.Int.{ℤ}
use text.Mathlib.Text.{◌==◌ as str_eq}
use suiban.Jobs.Store.{
  State, completed, failed, cancelled, is_active, is_terminal, Job, update, active_count,
}
use suiban.Jobs.Manager.{
  created, executing, Task, Manager, submit, with_terminal, terminate, set_found, set_terminal,
  cancel, start, progress, Ending, reported, stopped, raised, record_ending, finish, drop_task,
  shutdown_begin, shutdown_end,
}
use suiban.Jobs.Rows.{
  QueuedOnly, QueuedOnly-update, all-Calms, active_count-update, waiting, undone,
}

pub data Step (m : Manager) : Manager → Type 0 where
  submits : (id query effort : String) (now : ℕ) → Step m (submit m id query effort now).0
  cancels : (id : String) (now : ℕ) → Step m (cancel m id now).0
  -- The body of a task that was not cancelled begins.
  starts : (id : String) (now : ℕ) → waiting id m.tasks ≡ true → Step m (start m id now)
  progresses :
      (t : Task) (stage : String) (percent : ℤ)
      → Mem t m.tasks
      → t.phase ≡ executing
      → Step m (progress m t stage percent)
  finishes :
      (t : Task) (ending : Ending) (now : ℕ)
      → Mem t m.tasks
      → t.phase ≡ executing
      → Step m (finish m t.job_id ending now)
  drops :
      (t : Task)
      → Mem t m.tasks
      → t.phase ≡ created
      → t.cancel_requested ≡ true
      → Step m (drop_task m t.job_id)
  shuts_down : Step m (shutdown_begin m)
  -- `shutdown` has awaited every task.
  shut_down : undone m.tasks ≡ 0 → Step m (shutdown_end m)

pub data Reach (m : Manager) : Manager → Type 0 where
  here : Reach m m
  next : {n k : Manager} → Reach m n → Step n k → Reach m k

-- The rows that a terminal write for the job `id` leaves: those that were, or with its row written.
pub data Settled (id : String) (rows : List Job) : List Job → Type 0 where
  untouched : Settled id rows rows
  written :
      (state : State) (error : Option String) (now : ℕ)
      → is_terminal state ≡ true
      → Settled id rows (update rows id (with_terminal state error now))

pub id-with_terminal :
    (state : State) (error : Option String) (now : ℕ) (j : Job)
    → (with_terminal state error now j).id ≡ j.id
unfolding with_terminal
id-with_terminal completed error now j = refl
id-with_terminal _ error now j = refl

pub state-with_terminal :
    (state : State) (error : Option String) (now : ℕ) (j : Job)
    → (with_terminal state error now j).state ≡ state
unfolding with_terminal
state-with_terminal completed error now j = refl
state-with_terminal _ error now j = refl

set_found-Settled :
    (m : Manager) (id : String) (state : State) (error : Option String) (now : ℕ)
    (found : Option Job)
    → is_terminal state ≡ true
    → Settled id m.jobs (set_found m id state error now found).jobs
unfolding set_found terminate
set_found-Settled m id state error now none final = untouched
set_found-Settled m id state error now (some j) final = elim (Bool-cases (is_terminal j.state)) [
  | inl ended ↦ rw ended untouched
  | inr active ↦ rw active (written state error now final)
]

pub set_terminal-Settled :
    (m : Manager) (id : String) (state : State) (error : Option String) (now : ℕ)
    → is_terminal state ≡ true
    → Settled id m.jobs (set_terminal m id state error now).jobs
unfolding set_terminal
set_terminal-Settled m id state error now final = set_found-Settled m id state error now _ final

pub record_ending-Settled :
    (m : Manager) (id : String) (ending : Ending) (now : ℕ)
    → Settled id m.jobs (record_ending m id ending now).jobs
unfolding record_ending
record_ending-Settled m id reported now = set_terminal-Settled m id completed none now refl
record_ending-Settled m id stopped now = set_terminal-Settled m id cancelled none now refl
record_ending-Settled m id (raised e) now = set_terminal-Settled m id failed (some e) now refl

tasks-set_found :
    (m : Manager) (id : String) (state : State) (error : Option String) (now : ℕ)
    (found : Option Job)
    → (set_found m id state error now found).tasks ≡ m.tasks
unfolding set_found terminate
tasks-set_found m id state error now none = refl
tasks-set_found m id state error now (some j) = ground arith

pub tasks-set_terminal :
    (m : Manager) (id : String) (state : State) (error : Option String) (now : ℕ)
    → (set_terminal m id state error now).tasks ≡ m.tasks
unfolding set_terminal
tasks-set_terminal m id state error now = tasks-set_found m id state error now _

pub tasks-record_ending :
    (m : Manager) (id : String) (ending : Ending) (now : ℕ)
    → (record_ending m id ending now).tasks ≡ m.tasks
unfolding record_ending
tasks-record_ending m id reported now = tasks-set_terminal m id completed none now
tasks-record_ending m id stopped now = tasks-set_terminal m id cancelled none now
tasks-record_ending m id (raised e) now = tasks-set_terminal m id failed (some e) now

calm_with_terminal :
    (state : State) (error : Option String) (now : ℕ) (j : Job)
    → is_terminal state ≡ true
    → is_active (with_terminal state error now j).state ≡ true
    → is_active j.state ≡ true
calm_with_terminal state error now j final busy =
    ground (arith, state-with_terminal state error now j)

pub active_count-Settled :
    (id : String) (rows : List Job) {rows' : List Job}
    → Settled id rows rows'
    → active_count rows' ≤ active_count rows
active_count-Settled id rows untouched = omega arith
active_count-Settled id rows (written state error now final) = active_count-update id _ rows (
    all-Calms id (with_terminal state error now) rows
      (λ j. calm_with_terminal state error now j final))

pub QueuedOnly-Settled :
    (id other : String) (rows : List Job) {rows' : List Job}
    → Settled other rows rows'
    → str_eq other id ≡ false
    → QueuedOnly id rows
    → QueuedOnly id rows'
QueuedOnly-Settled id other rows untouched apart h = h
QueuedOnly-Settled id other rows (written state error now final) apart h =
    QueuedOnly-update id other rows (with_terminal state error now)
      (id-with_terminal state error now) apart h

-- ===== src/Schedules/Runner.antt =====
-- The scheduler (src/suiban/schedules/runner.py): one function for each stretch of code between two
-- awaits. The n-th launch has the session id `new_session n`.
use suiban.Prelude.{
  ℕ, ◌+◌, ◌*◌, Bool, true, false, not, ◌&&◌, Option, none, some, List, [], ◌∷◌, ◌++◌, String, any,
  keep, leb, if◌then◌else◌,
}
use text.Mathlib.Text.{◌==◌ as str_eq}
use suiban.Schedules.Cadence.{compute_next_run}
use suiban.Schedules.Store.{Schedule, iso_utc, get, list, update}

-- An entry of `_running`. Its task is over some time before the entry goes.
pub record InFlight : Type 0 where
  pub schedule_id : String
  pub session_id : String
  pub over : Bool

-- A call of `notify`: the schedule's name, with the answer or the error.
pub data Notification : Type 0 where
  run_finished run_failed : (name text : String) → Notification

pub record Scheduler : Type 0 where
  pub schedules : List Schedule
  pub running : List InFlight
  pub launches : ℕ
  pub notified : List Notification

abbrev pub started : String → String → InFlight
started schedule_id session_id = record {
  schedule_id = schedule_id;
  session_id = session_id;
  over = false;
}

abbrev pub in_flight : String → List InFlight → Bool
in_flight id running = any (λ r. str_eq r.schedule_id id) running

unfoldable pub is_due : Schedule → ℕ → Bool
is_due s now = s.enabled && (elim s.next_run_at [ none ↦ false | some n ↦ leb (n * 1000000) now ])

pub data RunNow : Type 0 where
  schedule_not_found schedule_run_active : RunNow
  launched : String → RunNow

unfoldable pub fires : Scheduler → Schedule → ℕ → Bool
fires s schedule now = is_due schedule now && not (in_flight schedule.id s.running)

module _ (new_session : ℕ → String) where
  -- `_launch`
  unfoldable pub launch : Scheduler → Schedule → Scheduler
  launch s schedule = record s {
    running = s.running ++ started schedule.id (new_session s.launches) ∷ [];
    launches = s.launches + 1;
  }

  unfoldable pub tick_one : Scheduler → Schedule → ℕ → Scheduler
  tick_one s schedule now = if fires s schedule now then launch s schedule else s

  -- `for schedule in self.store.list()`
  unfoldable pub tick_over : List Schedule → Scheduler → ℕ → Scheduler
  tick_over [] s now = s
  tick_over (schedule ∷ rows) s now = tick_over rows (tick_one s schedule now) now

  unfoldable pub tick : Scheduler → ℕ → Scheduler
  tick s now = tick_over (list s.schedules) s now

  unfoldable pub run_found : Scheduler → Option Schedule → Scheduler × RunNow
  run_found s none = (s, schedule_not_found)
  run_found s (some schedule) =
      if in_flight schedule.id s.running
      then (s, schedule_run_active)
      else (launch s schedule, launched (new_session s.launches))

  unfoldable pub run_now : Scheduler → String → Scheduler × RunNow
  unfolding run_found
  run_now s id = run_found s (get s.schedules id)

unfoldable pub notification : String → String → Option String → Notification
notification name text none = run_finished name text
notification name text (some error) = run_failed name error

-- The row of a run that finished at `finished`, rescheduled for `next`.
unfoldable pub recorded : String → Option String → ℕ → ℕ → Schedule → Schedule
recorded session_id error finished next r = record r {
  last_run_at = some (iso_utc finished);
  last_session_id = some session_id;
  last_error = error;
  next_run_at = some (iso_utc next);
}

unfoldable pub record_next :
    Scheduler → Schedule → String → String → Option String → ℕ → Option ℕ → Scheduler
unfolding recorded notification
record_next s schedule session_id text error finished none = s
record_next s schedule session_id text error finished (some next) = record s {
  schedules = update s.schedules schedule.id (recorded session_id error finished next);
  notified = s.notified ++ notification schedule.name text error ∷ [];
}

module _ (decimal : ℕ → Option ℕ) where
  unfoldable pub record_current :
      Scheduler → Schedule → String → String → Option String → ℕ → Option Schedule → Scheduler
  unfolding record_next
  record_current s schedule session_id text error finished none = s
  record_current s schedule session_id text error finished (some current) =
      record_next s schedule session_id text error finished
        (compute_next_run decimal current.cadence finished)

  -- The no_member of `_execute`, after the run of `schedule` gave `text` or failed with `error`. A row that is
  -- gone is not recorded, nor is anything where the next run is beyond all datetimes, which raises.
  unfoldable pub execute_end :
      Scheduler → Schedule → String → String → Option String → ℕ → Scheduler
  unfolding record_current record_next recorded notification
  execute_end s schedule session_id text error finished =
      record_current s schedule session_id text error finished (get s.schedules schedule.id)

unfoldable pub set_over : String → List InFlight → List InFlight
set_over session_id [] = []
set_over session_id (r ∷ rs) =
    (if str_eq r.session_id session_id then record r { over = true } else r)
    ∷ set_over session_id rs

-- A task ends.
unfoldable pub task_over : Scheduler → String → Scheduler
unfolding set_over
task_over s session_id = record s { running = set_over session_id s.running }

-- The done callback, `self._running.pop(sid, None)`.
unfoldable pub release : Scheduler → String → Scheduler
release s id = record s { running = keep (λ r. not (str_eq r.schedule_id id)) s.running }

-- ===== src/Ultra.antt =====
-- Ultra mode (src/suiban/modes/ultra.py): a request is planned into sub-tasks, contained sub-agents run
-- them, and the orchestrator synthesizes. The data of a run, its caps, and its events.
use suiban.Prelude.{
  ℕ, ◌+◌, Bool, true, false, Option, none, some, List, [], ◌∷◌, String, ltb, length, if◌then◌else◌,
}
use text.Mathlib.Text.{◌==◌ as str_eq}
use suiban.Json.{Value}
use suiban.Effort.{Effort, low, mid, high, xhigh, max}
use suiban.Agent.Types.{Usage}
use suiban.Agent.Structured.{Fault}
use suiban.Slap.Messages.{MessageError}
pub mod Trace
pub mod Plan
pub mod Contained
pub mod Sequential
pub mod Parallel
mod Progress
mod Recorded
mod Undegraded
mod Planned
mod Stream
mod Dialogue
mod Heard
mod Concurrent
mod Fixtures
mod Tests

-- `EFFORT_LEVELS.index`
unfoldable pub level : Effort → ℕ
level low = 0
level mid = 1
level high = 2
level xhigh = 3
level max = 4

abbrev pub sequential_max_subtasks : ℕ
sequential_max_subtasks = 3

abbrev pub sequential_effort_cap : Effort
sequential_effort_cap = mid

unfoldable pub worker_effort : Effort → Bool → Effort
unfolding level
worker_effort request_effort true = request_effort
worker_effort request_effort false =
    if ltb (level sequential_effort_cap) (level request_effort)
    then sequential_effort_cap
    else request_effort

unfoldable pub subtask_timeout_s : Effort → ℕ
subtask_timeout_s low = 240
subtask_timeout_s mid = 240
subtask_timeout_s effort = 480

pub record UltraWorker : Type 0 where
  pub slot_id : String
  pub model : String
  pub ctx : ℕ
  pub family : String
  pub quant : String
  pub backend : String
  -- A number.
  pub workload : Value

pub record WorkerResult : Type 0 where
  pub status : String
  pub summary : String
  pub output : String

pub record Subtask : Type 0 where
  pub title : String
  pub brief : String
  pub agent_id : String
  pub task_id : String
  pub system_prompt : Option String
  pub result : Option WorkerResult

-- What a run is made with. `base_revision` is what `git_base_revision` reads, and `worker_prompt` the
-- text of the static prompt.
pub record UltraRun : Type 0 where
  pub orchestrator : UltraWorker
  pub workers : List UltraWorker
  pub effort : Effort
  pub slap_enabled : Bool
  pub base_revision : Option String
  pub worker_prompt : String

unfoldable pub is_parallel : List UltraWorker → Bool
is_parallel [] = false
is_parallel (w ∷ ws) = true

-- `_worker_effort`, `_subtask_cap` and `_subtask_timeout`
unfoldable pub effort_of : UltraRun → Effort
unfolding worker_effort is_parallel
effort_of run = worker_effort run.effort (is_parallel run.workers)

unfoldable pub subtask_cap : UltraRun → ℕ
unfolding is_parallel
subtask_cap run = if is_parallel run.workers then length run.workers else sequential_max_subtasks

unfoldable pub timeout_of : UltraRun → ℕ
unfolding effort_of subtask_timeout_s
timeout_of run = subtask_timeout_s (effort_of run)

-- A notice, with the values of its text.
pub data Notice : Type 0 where
  plan_truncated : (subtasks cap : ℕ) → Notice
  plan_fallback : Option Fault → Notice
  slap_degraded : (kind : String) → MessageError → Notice
  sequential : Notice
  effort_capped : (capped requested : Effort) → Notice
  subtask_timeout : (title : String) → (budget : ℕ) → Effort → Notice

pub data Event : Type 0 where
  plan : List String → Event
  notice : Notice → Event
  agent_spawn : (agent_id model task : String) → Effort → (task_id : String) → Event
  agent_result : (agent_id status summary task_id : String) → Event
  delta : String → Event
  usage : Usage → Event
  error : String → Event
  done : String → Event

-- The fields that a run changes as it goes.
pub record UltraState : Type 0 where
  pub slap_messages : List Value
  pub message_counter : ℕ
  pub total_usage : Usage

unfoldable pub spawn_event : UltraRun → Subtask → String → Event
unfolding effort_of
spawn_event run s model = agent_spawn s.agent_id model s.title (effort_of run) s.task_id

unfoldable pub result_event : Subtask → WorkerResult → Event
result_event s r = agent_result s.agent_id r.status r.summary s.task_id

abbrev pub optional_notice : Option Notice → List Event
optional_notice none = []
optional_notice (some n) = notice n ∷ []

-- `value or None`
unfoldable pub or_none : String → Option String
or_none t = if str_eq t "" then none else some t

-- `xs or None`
unfoldable pub list_or_none : List String → Option (List String)
list_or_none [] = none
list_or_none (x ∷ xs) = some (x ∷ xs)

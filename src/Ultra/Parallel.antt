-- ===== src/Ultra/Parallel.antt =====
-- Sub-agents on the worker slots of a loadout (`_dispatch_parallel` of src/suiban/modes/ultra.py): one job
-- for each sub-task, a pool of idle workers, and every interleaving of what the jobs do.
use suiban.Prelude.{◌≡◌, ◌⊎◌, Bool, List, [], ◌∷◌, ◌++◌, String, map}
use suiban.Agent.Types.{Usage}
use suiban.Slap.Messages.{MessageError}
use suiban.Ultra.{
  UltraWorker, WorkerResult, Subtask, UltraRun, Event, UltraState, spawn_event, optional_notice,
}
use suiban.Ultra.Trace.{dispatch_assign}
use suiban.Ultra.Plan.{merge_usage, Planning}
use suiban.Ultra.Contained.{Interruption, bounded_result}
use suiban.Memory.Compression
use suiban.Ultra.Sequential.{Finished, Synthesis, conclude, opening, closing}

-- How far `run_one` is with a sub-task: not begun, with its system prompt and waiting for a worker, with
-- the worker that runs it, or over, with the sub-task and its result.
pub data Job : Type 0 where
  created : Subtask → Job
  waiting : Subtask → (system_content : String) → Job
  running : Subtask → (system_content : String) → UltraWorker → Job
  over : Subtask → Job

pub record Dispatch : Type 0 where
  pub pool : List UltraWorker
  pub jobs : List Job
  pub state : UltraState
  -- What the queue was given.
  pub events : List Event

abbrev pub subtask_in : Job → Subtask
subtask_in (created s) = s
subtask_in (waiting s c) = s
subtask_in (running s c w) = s
subtask_in (over s) = s

unfoldable pub dispatch_start : List UltraWorker → UltraState → List Subtask → Dispatch
dispatch_start workers s subtasks = record {
  pool = workers;
  jobs = map created subtasks;
  state = s;
  events = [];
}

module _ (matches : String → String → Bool) (text : MessageError → String) (run : UltraRun) where
  -- A job begins: its `assign` is recorded.
  unfoldable pub begin : Dispatch → List Job → Subtask → List Job → Dispatch
  unfolding dispatch_assign
  begin d before subtask after =
      let (s, (content, refused)) = dispatch_assign matches text run d.state subtask in
      record d {
        jobs = before ++ waiting subtask content ∷ after;
        state = s;
        events = d.events ++ optional_notice refused;
      }

  -- `pool.get()` gives the worker that has been idle longest.
  unfoldable pub take_worker :
      Dispatch → List Job → Subtask → String → List Job → UltraWorker → List UltraWorker → Dispatch
  unfolding spawn_event
  take_worker d before subtask content after worker pool = record d {
    pool = pool;
    jobs = before ++ running subtask content worker ∷ after;
    events = d.events ++ spawn_event run subtask worker.model ∷ [];
  }

  -- A sub-agent came to its result, or was ended before.
  unfoldable pub finish_job :
      Dispatch
      → List Job
      → Subtask
      → List Job
      → UltraWorker
      → WorkerResult ⊎ Interruption
      → Usage
      → Dispatch
  unfolding conclude bounded_result
  finish_job d before subtask after worker outcome tokens =
      let (result, given) = bounded_result run subtask outcome in
      let (s, (subtask', told)) =
        conclude matches text run (merge_usage d.state tokens) subtask result given in
      record {
        pool = d.pool ++ worker ∷ [];
        jobs = before ++ over subtask' ∷ after;
        state = s;
        events = d.events ++ told;
      }

  -- One stretch of a job between two awaits.
  pub data Step (d : Dispatch) : Dispatch → Type 0 where
    begins :
        (before : List Job) (subtask : Subtask) (after : List Job)
        → d.jobs ≡ before ++ created subtask ∷ after
        → Step d (begin d before subtask after)
    takes :
        (before : List Job) (subtask : Subtask) (content : String) (after : List Job)
        (worker : UltraWorker) (pool : List UltraWorker)
        → d.jobs ≡ before ++ waiting subtask content ∷ after
        → d.pool ≡ worker ∷ pool
        → Step d (take_worker d before subtask content after worker pool)
    ends :
        (before : List Job) (subtask : Subtask) (content : String) (after : List Job)
        (worker : UltraWorker) (outcome : WorkerResult ⊎ Interruption) (tokens : Usage)
        → d.jobs ≡ before ++ running subtask content worker ∷ after
        → Step d (finish_job d before subtask after worker outcome tokens)

  pub data Reach (d : Dispatch) : Dispatch → Type 0 where
    here : Reach d d
    next : {e f : Dispatch} → Reach d e → Step e f → Reach d f

module _ {World : Type 0} (matches : String → String → Bool) (text : MessageError → String)
    (synthesize : World → List Compression.Message → Synthesis) (ultra_prompt : String)
    (run : UltraRun) (messages : List Compression.Message) where
  -- The dispatch of `run`, where there are workers.
  unfoldable pub dispatch_of : Planning World → Dispatch
  unfolding dispatch_start opening
  dispatch_of p =
      dispatch_start run.workers (opening matches text synthesize ultra_prompt run messages p).state
        p.subtasks

  -- `run`, where there are workers: its dispatch has come to `d`, and its slot to `w`.
  unfoldable pub run_parallel : Planning World → Dispatch → World → Finished
  unfolding opening closing
  run_parallel p d w =
      let opened = opening matches text synthesize ultra_prompt run messages p in
      closing matches text synthesize ultra_prompt run messages (record {
        subtasks = map subtask_in d.jobs;
        state = d.state;
        events = opened.events ++ d.events;
        world = w;
      })

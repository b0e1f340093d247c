-- ===== src/Ultra/Heard.antt =====
-- What a parallel dispatch tells of each sub-task (src/suiban/modes/ultra.py).
use suiban.Prelude.{
  ℕ, ◌+◌, ◌≤◌, ◌≡◌, refl, ◌∙◌, Bool-cases, inl, inr, Bool, Option, none, some, List, [], ◌∷◌, ◌++◌,
  String, map, sum_of, sum_of-append, arith, if◌then◌else◌,
}
use text.Mathlib.Text.{◌==◌ as str_eq}
use suiban.Slap.Messages.{MessageError}
use suiban.Ultra.{
  UltraWorker, WorkerResult, Subtask, UltraRun, Notice, Event, agent_spawn, agent_result,
  UltraState, spawn_event, result_event, optional_notice,
}
use suiban.Ultra.Trace.{dispatch_assign, record_result}
use suiban.Ultra.Plan.{merge_usage}
use suiban.Ultra.Sequential.{conclude}
use suiban.Ultra.Contained.{bounded_result}
use suiban.Ultra.Parallel.{
  subtask_in, Job, created, waiting, running, over, Dispatch, dispatch_start, begin, take_worker,
  finish_job, Step, begins, takes, ends, Reach, here, next,
}
use suiban.Ultra.Progress.{left, remaining, sum_of_split}

-- Whether something is about the sub-task `t`.
abbrev pub about : String → String → ℕ
about t id = if str_eq id t then 1 else 0

abbrev pub spawn_of : String → Event → ℕ
spawn_of t (agent_spawn agent model task effort id) = about t id
spawn_of t e = 0

abbrev pub result_in : String → Event → ℕ
result_in t (agent_result agent status summary id) = about t id
result_in t e = 0

abbrev pub named : String → Subtask → ℕ
named t s = about t s.task_id

-- Whether a job's sub-agent was spawned, and whether its result was told.
abbrev spawned : String → Job → ℕ
spawned t (running s c w) = named t s
spawned t (over s) = named t s
spawned t j = 0

abbrev answered : String → Job → ℕ
answered t (over s) = named t s
answered t j = 0

optional_spawn :
    (t : String) (given : Option Notice) → sum_of (spawn_of t) (optional_notice given) ≡ 0
optional_spawn t none = refl
optional_spawn t (some n) = refl

optional_result :
    (t : String) (given : Option Notice) → sum_of (result_in t) (optional_notice given) ≡ 0
optional_result t none = refl
optional_result t (some n) = refl

-- One job becomes another.
exchange :
    (g : Job → ℕ) (jobs before : List Job) (j k : Job) (after : List Job)
    → jobs ≡ before ++ j ∷ after
    → sum_of g (before ++ k ∷ after) + g j ≡ sum_of g jobs + g k
exchange g jobs before j k after e =
    omega (arith, sum_of_split g jobs before j after e, sum_of-append g before (k ∷ after))

-- A tally of events keeps up with one of jobs, where a job changes by as much as was told of it.
keeps_up :
    (f : Event → ℕ) (g : Job → ℕ) (events told : List Event) (jobs before : List Job) (j k : Job)
    (after : List Job)
    → jobs ≡ before ++ j ∷ after
    → sum_of f events ≡ sum_of g jobs
    → g k ≡ g j + sum_of f told
    → sum_of f (events ++ told) ≡ sum_of g (before ++ k ∷ after)
keeps_up f g events told jobs before j k after e tally step =
    omega (arith, sum_of-append f events told, exchange g jobs before j k after e)

module _ (matches : String → String → Bool) (text : MessageError → String) (run : UltraRun)
    (t : String) where
  conclude_spawn :
      (s : UltraState) (subtask : Subtask) (r : WorkerResult) (given : Option Notice)
      → sum_of (spawn_of t) (conclude matches text run s subtask r given).1.1 ≡ 0
  unfolding conclude result_event
  conclude_spawn s subtask r given =
      let refused = (record_result matches text run s (record subtask { result = some r })).1 in
      omega (
        arith,
        sum_of-append (spawn_of t) (optional_notice given)
            (optional_notice refused ++ result_event (record subtask { result = some r }) r ∷ []),
        sum_of-append (spawn_of t) (optional_notice refused)
            (result_event (record subtask { result = some r }) r ∷ []),
        optional_spawn t given,
        optional_spawn t refused,
      )

  conclude_result :
      (s : UltraState) (subtask : Subtask) (r : WorkerResult) (given : Option Notice)
      → sum_of (result_in t) (conclude matches text run s subtask r given).1.1 ≡ named t subtask
  unfolding conclude result_event
  conclude_result s subtask r given =
      let refused = (record_result matches text run s (record subtask { result = some r })).1 in
      omega (
        arith,
        sum_of-append (result_in t) (optional_notice given)
            (optional_notice refused ++ result_event (record subtask { result = some r }) r ∷ []),
        sum_of-append (result_in t) (optional_notice refused)
            (result_event (record subtask { result = some r }) r ∷ []),
        optional_result t given,
        optional_result t refused,
      )

  -- What the events say of `t` is what its jobs did.
  abbrev Tallies : Dispatch → Type 0
  Tallies d =
      (sum_of (spawn_of t) d.events ≡ sum_of (spawned t) d.jobs)
      × (sum_of (result_in t) d.events ≡ sum_of (answered t) d.jobs)

  Step-Tallies : {d e : Dispatch} → Step matches text run d e → Tallies d → Tallies e
  unfolding begin take_worker finish_job spawn_event conclude
  Step-Tallies {d} (begins before s after e) h =
      let given = (dispatch_assign matches text run d.state s).1.1 in
      let told = optional_notice given in
      (
        keeps_up (spawn_of t) (spawned t) d.events told d.jobs before _ _ after e h.0
            (omega (arith, optional_spawn t given)),
        keeps_up (result_in t) (answered t) d.events told d.jobs before _ _ after e h.1
            (omega (arith, optional_result t given)),
      )
  Step-Tallies {d} (takes before s c after w pool e p) h =
      let told = spawn_event run s w.model ∷ [] in
      (
        keeps_up (spawn_of t) (spawned t) d.events told d.jobs before _ _ after e h.0 (omega arith),
        keeps_up (result_in t) (answered t) d.events told d.jobs before _ _ after e h.1
            (omega arith),
      )
  Step-Tallies {d} (ends before s c after w outcome tokens e) h =
      let (result, given) = bounded_result run s outcome in
      let merged = merge_usage d.state tokens in
      let told = (conclude matches text run merged s result given).1.1 in
      (
        keeps_up (spawn_of t) (spawned t) d.events told d.jobs before _ _ after e h.0
            (omega (arith, conclude_spawn merged s result given)),
        keeps_up (result_in t) (answered t) d.events told d.jobs before _ _ after e h.1
            (omega (arith, conclude_result merged s result given)),
      )

  -- The sub-tasks of the jobs do not change.
  Step_named :
      {d e : Dispatch}
      → Step matches text run d e
      → sum_of (λ j. named t (subtask_in j)) e.jobs ≡ sum_of (λ j. named t (subtask_in j)) d.jobs
  unfolding begin take_worker finish_job conclude
  Step_named {d} (begins before s after e) = omega (
    arith,
    exchange (λ j. named t (subtask_in j)) d.jobs before (created s)
        (waiting s (dispatch_assign matches text run d.state s).1.0) after e,
  )
  Step_named {d} (takes before s c after w pool e p) = omega (
    arith,
    exchange (λ j. named t (subtask_in j)) d.jobs before (waiting s c) (running s c w) after e,
  )
  Step_named {d} (ends before s c after w outcome tokens e) =
      let s' = record s { result = some (bounded_result run s outcome).0 } in
      omega (
        arith,
        exchange (λ j. named t (subtask_in j)) d.jobs before (running s c w) (over s') after e,
      )

  Reach-Tallies :
      {d e : Dispatch}
      → Reach matches text run d e
      → Tallies d
      → Tallies e
        × (sum_of (λ j. named t (subtask_in j)) e.jobs
            ≡ sum_of (λ j. named t (subtask_in j)) d.jobs)
  Reach-Tallies here h = (h, refl)
  Reach-Tallies (next r st) h =
      let before = Reach-Tallies r h in (Step-Tallies st before.0, Step_named st ∙ before.1)

  about_small : (id : String) → about t id ≤ 1
  about_small id = elim (Bool-cases (str_eq id t)) [
    | inl same ↦ rw same (omega arith)
    | inr other ↦ rw other (omega arith)
  ]

  job_heard :
      (j : Job)
      → (answered t j ≤ spawned t j)
        × (spawned t j ≤ named t (subtask_in j))
        × (named t (subtask_in j) ≤ answered t j + left j)
  job_heard (created s) =
      let small = about_small s.task_id in (omega arith, omega arith, omega arith)
  job_heard (waiting s c) =
      let small = about_small s.task_id in (omega arith, omega arith, omega arith)
  job_heard (running s c w) =
      let small = about_small s.task_id in (omega arith, omega arith, omega arith)
  job_heard (over s) = (omega arith, omega arith, omega arith)

  jobs_heard :
      (jobs : List Job)
      → (sum_of (answered t) jobs ≤ sum_of (spawned t) jobs)
        × (sum_of (spawned t) jobs ≤ sum_of (λ j. named t (subtask_in j)) jobs)
        × (sum_of (λ j. named t (subtask_in j)) jobs ≤ sum_of (answered t) jobs + sum_of left jobs)
  jobs_heard [] = (omega arith, omega arith, omega arith)
  jobs_heard (j ∷ jobs) =
      let one = job_heard j in
      let rest = jobs_heard jobs in
      (omega (arith, one.0, rest.0), omega (arith, one.1, rest.1), omega (arith, one.2, rest.2))

  created_tallies :
      (subtasks : List Subtask)
      → (0 ≡ sum_of (spawned t) (map created subtasks))
        × (0 ≡ sum_of (answered t) (map created subtasks))
        × (sum_of (λ j. named t (subtask_in j)) (map created subtasks) ≡ sum_of (named t) subtasks)
  created_tallies [] = (refl, refl, refl)
  created_tallies (s ∷ subtasks) =
      let rest = created_tallies subtasks in
      (omega (arith, rest.0), omega (arith, rest.1), omega (arith, rest.2))

  -- In every interleaving, the client hears of no more results of a task than of spawns of it, of no more
  -- spawns than sub-tasks have it, and once nothing remains, of a result for each of them.
  pub Reach-heard :
      (workers : List UltraWorker) (s : UltraState) (subtasks : List Subtask) {d : Dispatch}
      → Reach matches text run (dispatch_start workers s subtasks) d
      → (sum_of (result_in t) d.events ≤ sum_of (spawn_of t) d.events)
        × (sum_of (spawn_of t) d.events ≤ sum_of (named t) subtasks)
        × (sum_of (named t) subtasks ≤ sum_of (result_in t) d.events + remaining d)
  unfolding dispatch_start
  Reach-heard workers s subtasks {d} r =
      let start = created_tallies subtasks in
      let now = Reach-Tallies r (start.0, start.1) in
      let heard = jobs_heard d.jobs in
      (
        omega (arith, now.0.0, now.0.1, heard.0),
        omega (arith, now.0.0, now.1, start.2, heard.1),
        omega (arith, now.0.1, now.1, start.2, heard.2),
      )

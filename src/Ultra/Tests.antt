-- ===== src/Ultra/Tests.antt =====
-- Runs of the ultra mode with one slot and with two workers (src/suiban/modes/ultra.py).
use suiban.Prelude.{
  ℕ, suc, ◌+◌, ◌*◌, ◌≤◌, ◌≡◌, ◌⊎◌, inl, refl, ap, true, false, List, [], ◌∷◌, ◌++◌, String, All,
  length, map, sum_of, arith,
}
use suiban.Prelude.Int.{pos}
use suiban.Json.{int}
use suiban.Json.Schema.{is_below, number}
use suiban.Slap.Shapes.{at_least_zero}
use suiban.Ultra.Undegraded.{IsFitWorker}
use suiban.Effort.{low, mid, max}
use suiban.Agent.Calls.{no_usage}
use suiban.Agent.Structured.{Reply, failed, request_structured, attempts, on_reply, finished}
use suiban.Memory.Compression
use suiban.Slap.Accepts.{Accepts}
use suiban.Ultra.{
  WorkerResult, Subtask, is_parallel, subtask_cap, Event, plan, worker_effort, UltraState,
}
use suiban.Ultra.Trace.{dispatch_assign}
use suiban.Ultra.Plan.{said, planned, fallback_subtask, ask_plan, Planning, make_plan}
use suiban.Ultra.Contained.{own_result, is_space, is_line_end}
use suiban.Agent.Text.{first_chars}
use suiban.Ultra.Sequential.{
  new_state, executors, opening, sequential_stage, run_sequential, perform_bounded,
}
use suiban.Ultra.Parallel.{
  created, Dispatch, dispatch_start, begin, take_worker, finish_job, begins, takes, ends, Reach,
  here, next, dispatch_of, run_parallel,
}
use suiban.Ultra.Recorded.{HasNoPrompt, flushed_private}
use suiban.Ultra.Concurrent.{run_parallel_undegraded}
use suiban.Ultra.Planned.{IsAssignable, make_plan_bounded}
use suiban.Ultra.Stream.{IsClean, run_undegraded}
use suiban.Ultra.Dialogue.{told, erased, dialogue, Closes, run_sequential-told}
use suiban.Ultra.Progress.{
  load, remaining, steps, on_slot, CanStep, Reach-progress, Reach-exclusive,
}
use suiban.Ultra.Fixtures.{
  matches_one, error_text, idle, second, alone, together, parse, print, loads_plan, mismatch_text,
  orchestrate, report, slot_env, interrupted, synthesize, perform, both_planned,
}
use suiban.Ultra.Heard.{result_in, spawn_of, named, Reach-heard}

make_plan_bounded_example :
    let subtasks =
      (make_plan orchestrate loads_plan mismatch_text "ultra" alone new_state [] 0).subtasks in
    (1 ≤ length subtasks) × (length subtasks ≤ subtask_cap alone) × All IsAssignable subtasks
make_plan_bounded_example =
    make_plan_bounded orchestrate loads_plan mismatch_text "ultra" alone new_state [] 0

idle-accepted : Accepts matches_one (at_least_zero number) (int (pos 0))
unfolding Accepts is_below
idle-accepted = (tt, (refl, (tt, (tt, ((refl, tt), (tt, tt))))))

alone-fit :
    All (IsFitWorker matches_one) (executors matches_one error_text synthesize "ultra" alone [])
unfolding is_parallel
alone-fit = ((omega arith, idle-accepted), tt)

run_undegraded_example :
    IsClean
      (run_sequential matches_one error_text synthesize "ultra" alone []
        (perform_bounded slot_env report loads_plan mismatch_text alone interrupted)
        (make_plan orchestrate loads_plan mismatch_text "ultra" alone new_state [] 0)).events
run_undegraded_example =
    run_undegraded slot_env report loads_plan mismatch_text alone interrupted matches_one error_text
      synthesize "ultra" orchestrate [] 0 refl alone-fit

run_sequential-told_example :
    let stage =
      sequential_stage matches_one error_text synthesize "ultra" alone [] perform both_planned in
    let end =
      run_sequential matches_one error_text synthesize "ultra" alone [] perform both_planned in
    (map erased stage.subtasks ≡ map erased both_planned.subtasks)
    × ((last : List Event) × ((told end.events
            ≡ plan ("parse" ∷ "print" ∷ []) ∷ (dialogue alone stage.subtasks ++ last))
          × Closes end.finish_reason last))
run_sequential-told_example =
    run_sequential-told matches_one error_text alone synthesize "ultra" [] perform both_planned

-- What the two workers advertised is recorded.
abbrev advertised : UltraState
advertised = (opening matches_one error_text synthesize "ultra" together [] both_planned).state

abbrev dispatched : Dispatch
dispatched = dispatch_start (idle ∷ second ∷ []) advertised (parse ∷ print ∷ [])

-- The first sub-task begins, gets the first worker, and ends.
abbrev begun : Dispatch
begun = begin matches_one error_text together dispatched [] parse (created print ∷ [])

abbrev prompted : String
prompted = (dispatch_assign matches_one error_text together dispatched.state parse).1.0

abbrev taken : Dispatch
taken =
    take_worker matches_one error_text together begun [] parse prompted (created print ∷ []) idle
      (second ∷ [])

abbrev reported_ok : WorkerResult
reported_ok = record { status = "ok"; summary = "done"; output = "a tree" }

abbrev ended : Dispatch
ended =
    finish_job matches_one error_text together taken [] parse (created print ∷ []) idle
      (inl reported_ok) no_usage

first_taken : Reach matches_one error_text together dispatched taken
unfolding dispatch_start begin take_worker
first_taken =
    next (next here (begins [] parse (created print ∷ []) refl))
      (takes [] parse prompted (created print ∷ []) idle (second ∷ []) refl refl)

first_run : Reach matches_one error_text together dispatched ended
unfolding take_worker finish_job
first_run =
    next first_taken
      (ends [] parse prompted (created print ∷ []) idle (inl reported_ok) no_usage refl)

whole_run :
    Reach matches_one error_text together
      (dispatch_of matches_one error_text synthesize "ultra" together [] both_planned)
      ended
unfolding dispatch_of
whole_run = first_run

flushed_private_example :
    All HasNoPrompt
      (run_sequential matches_one error_text synthesize "ultra" together [] perform
        both_planned).flushed
    × All HasNoPrompt
        (run_parallel matches_one error_text synthesize "ultra" together [] both_planned ended
          0).flushed
flushed_private_example =
    flushed_private matches_one error_text together synthesize "ultra" [] perform both_planned ended
      0 tt whole_run

-- The orchestrator is out of reach: the task is one sub-task, which has begun.
abbrev orchestrate_down : ℕ → List Compression.Message → Reply × ℕ
orchestrate_down w messages = (failed "no slot", suc w)

abbrev task : List Compression.Message
task = said "user" "Parse it." ∷ []

abbrev one_planned : Planning ℕ
one_planned = make_plan orchestrate_down loads_plan mismatch_text "ultra" together new_state task 0

abbrev one_dispatched : Dispatch
one_dispatched = dispatch_of matches_one error_text synthesize "ultra" together task one_planned

abbrev whole_task : Subtask
whole_task = fallback_subtask task

one_subtask : one_planned.subtasks ≡ whole_task ∷ []
unfolding make_plan ask_plan request_structured attempts on_reply finished planned
one_subtask = refl

one_begun :
    Reach matches_one error_text together one_dispatched
      (begin matches_one error_text together one_dispatched [] whole_task [])
unfolding dispatch_of dispatch_start
one_begun = next here (begins [] whole_task [] (ap (λ ts. map created ts) one_subtask))

together-fit :
    All
      (IsFitWorker matches_one)
      (executors matches_one error_text synthesize "ultra" together task)
unfolding is_parallel
together-fit = ((omega arith, idle-accepted), ((omega arith, idle-accepted), tt))

run_parallel_undegraded_example :
    IsClean
      (run_parallel matches_one error_text synthesize "ultra" together task one_planned
        (begin matches_one error_text together one_dispatched [] whole_task [])
        0).events
run_parallel_undegraded_example =
    run_parallel_undegraded matches_one error_text synthesize "ultra" together task orchestrate_down
      loads_plan mismatch_text 0 0
      (begin matches_one error_text together one_dispatched [] whole_task []) refl together-fit
      one_begun

Reach-progress_example :
    (steps matches_one error_text together first_run + remaining ended ≡ 3 * 2)
    × ((remaining ended ≡ 0) ⊎ CanStep matches_one error_text together ended)
Reach-progress_example =
    Reach-progress matches_one error_text together (idle ∷ second ∷ []) advertised
      (parse ∷ print ∷ []) first_run (omega arith)

Reach-exclusive_example :
    sum_of (load (on_slot matches_one error_text together "w1")) taken.jobs
    ≤ sum_of (on_slot matches_one error_text together "w1") (idle ∷ second ∷ [])
Reach-exclusive_example =
    Reach-exclusive matches_one error_text together (idle ∷ second ∷ []) advertised
      (parse ∷ print ∷ []) "w1" first_taken

Reach-heard_example :
    (sum_of (result_in "T1") ended.events ≤ sum_of (spawn_of "T1") ended.events)
    × (sum_of (spawn_of "T1") ended.events ≤ sum_of (named "T1") (parse ∷ print ∷ []))
    × (sum_of (named "T1") (parse ∷ print ∷ [])
        ≤ sum_of (result_in "T1") ended.events + remaining ended)
Reach-heard_example =
    Reach-heard matches_one error_text together "T1" (idle ∷ second ∷ []) advertised
      (parse ∷ print ∷ []) first_run

-- A report that is missing: the first line of the answer is the summary.
own_result_reads :
    own_result " Done. \nThe tree."
    ≡ record { status = "ok"; summary = "Done. "; output = " Done. \nThe tree." }
unfolding own_result is_space first_chars is_line_end
own_result_reads = refl

capped :
    (worker_effort max false ≡ mid)
    × ((worker_effort low false ≡ low) × (worker_effort max true ≡ max))
unfolding worker_effort
capped = (refl, (refl, refl))

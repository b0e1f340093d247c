-- ===== src/Ultra/Concurrent.antt =====
-- A run with workers does not degrade, however its sub-agents interleave (src/suiban/modes/ultra.py).
use suiban.Prelude.{◌≡◌, refl, subst, Bool, true, List, [], ◌∷◌, ◌++◌, String, map, All}
use suiban.Agent.Structured.{Decoded, Mismatch, Reply}
use suiban.Memory.Compression
use suiban.Slap.Messages.{MessageError, version}
use suiban.Slap.Shapes.{version_pattern}
use suiban.Ultra.{Subtask, UltraRun, spawn_event}
use suiban.Ultra.Plan.{merge_usage, make_plan, raw_subtasks, ask_plan}
use suiban.Ultra.Contained.{bounded_result}
use suiban.Ultra.Sequential.{Synthesis, conclude, new_state, executors, opening}
use suiban.Ultra.Parallel.{
  Job, created, waiting, running, subtask_in, Dispatch, dispatch_start, begin, take_worker,
  finish_job, Step, begins, takes, ends, Reach, here, next, dispatch_of, run_parallel,
}
use suiban.Ultra.Undegraded.{IsFitWorker}
use suiban.Ultra.Planned.{IsAssignable, make_plan_bounded}
use suiban.Ultra.Stream.{
  IsClean, IsClean-append, bounded_result-IsMild, conclude-IsClean, assigned-IsMild,
  closing-IsClean, opening-IsClean, planned-IsClean,
}

-- A job of a sub-task that can be assigned.
abbrev IsReady : Job → Type 0
IsReady j = IsAssignable (subtask_in j)

-- What holds of all parts of a list, at one of them and at the others.
parts_around {ℓ} :
    {A : Type ℓ} (P : A → Type 0) (before : List A) (x : A) (after : List A)
    → All P (before ++ x ∷ after)
    → P x × ((y : A) → P y → All P (before ++ y ∷ after))
parts_around P [] x after h = (h.0, λ y p. (p, h.1))
parts_around P (b ∷ before) x after h =
    let (mine, rest) = parts_around P before x after h.1 in (mine, λ y p. (h.0, rest y p))

created-IsReady :
    (subtasks : List Subtask) → All IsAssignable subtasks → All IsReady (map created subtasks)
created-IsReady [] h = tt
created-IsReady (s ∷ subtasks) h = (h.0, created-IsReady subtasks h.1)

module _ (matches : String → String → Bool) (text : MessageError → String) (run : UltraRun)
    (speaks : matches version_pattern version ≡ true) where
  abbrev IsUndegraded : Dispatch → Type 0
  IsUndegraded d = IsClean d.events × All IsReady d.jobs

  Step-IsUndegraded : {d e : Dispatch} → Step matches text run d e → IsUndegraded d → IsUndegraded e
  unfolding begin take_worker finish_job spawn_event conclude
  Step-IsUndegraded {d} (begins before s after e) h =
      let (ready, put) =
        parts_around IsReady before (created s) after (subst (All IsReady) e h.1) in
      (
        IsClean-append d.events _ h.0 (assigned-IsMild matches text run speaks d.state s ready),
        put _ ready,
      )
  Step-IsUndegraded {d} (takes before s c after w pool e p) h =
      let (ready, put) =
        parts_around IsReady before (waiting s c) after (subst (All IsReady) e h.1) in
      (IsClean-append d.events _ h.0 refl, put _ ready)
  Step-IsUndegraded {d} (ends before s c after w outcome tokens e) h =
      let (ready, put) =
        parts_around IsReady before (running s c w) after (subst (All IsReady) e h.1) in
      let (result, given) = bounded_result run s outcome in
      (
        IsClean-append d.events _ h.0 (
            conclude-IsClean matches text run speaks (merge_usage d.state tokens) s result given
              ready (bounded_result-IsMild run s outcome)),
        put _ ready,
      )

  Reach-IsUndegraded :
      {d e : Dispatch} → IsUndegraded d → Reach matches text run d e → IsUndegraded e
  Reach-IsUndegraded h here = h
  Reach-IsUndegraded h (next r st) = Step-IsUndegraded st (Reach-IsUndegraded h r)

module _ {World : Type 0} (matches : String → String → Bool) (text : MessageError → String)
    (synthesize : World → List Compression.Message → Synthesis) (ultra_prompt : String)
    (run : UltraRun) (messages : List Compression.Message)
    (orchestrate : World → List Compression.Message → Reply × World) (loads : String → Decoded)
    (mismatch_text : Mismatch → String) where
  -- If the pattern of versions matches the version the program speaks, and the slots that run sub-agents
  -- have a model and a workload of at least zero, a run with workers never degrades: in every interleaving
  -- of its sub-agents, however each of them ends, every message of the run is accepted by the schema of its
  -- operation.
  pub run_parallel_undegraded :
      (w v : World) (d : Dispatch)
      → matches version_pattern version ≡ true
      → All (IsFitWorker matches) (executors matches text synthesize ultra_prompt run messages)
      → Reach matches text run
          (dispatch_of matches text synthesize ultra_prompt run messages
            (make_plan orchestrate loads mismatch_text ultra_prompt run new_state messages w))
          d
      → IsClean
          (run_parallel matches text synthesize ultra_prompt run messages
            (make_plan orchestrate loads mismatch_text ultra_prompt run new_state messages w)
            d
            v).events
  unfolding run_parallel dispatch_of dispatch_start make_plan
  run_parallel_undegraded w v d speaks fit r =
      let asked = ask_plan orchestrate loads mismatch_text ultra_prompt run messages w in
      let p = make_plan orchestrate loads mismatch_text ultra_prompt run new_state messages w in
      let opened = opening matches text synthesize ultra_prompt run messages p in
      let start =
        created-IsReady p.subtasks
          (make_plan_bounded orchestrate loads mismatch_text ultra_prompt run new_state messages
            w).2 in
      closing-IsClean matches text run speaks synthesize ultra_prompt messages
        (record {
          subtasks = map subtask_in d.jobs;
          state = d.state;
          events = opened.events ++ d.events;
          world = v;
        })
        (IsClean-append opened.events d.events
          (opening-IsClean matches text run speaks synthesize ultra_prompt messages p
            (planned-IsClean run messages asked.result.error
              (raw_subtasks asked.result.instance_data))
            fit)
          (Reach-IsUndegraded matches text run speaks (refl, start) r).0)

-- ===== src/Ultra/Stream.antt =====
-- The events of a run (src/suiban/modes/ultra.py): that it does not degrade, and what a reader of its stream
-- sees besides notices.
use suiban.Prelude.{
  ◌≡◌, refl, ap, sym, subst, ◌∙◌, Bool, true, false, ◌||◌, Option, none, some, List, [], ◌∷◌, ◌++◌,
  String, any, any-append, All, ltb, length, if◌then◌else◌, Option-cases, inl, inr, ◌⊎◌,
}
use text.Mathlib.Text.{◌==◌ as str_eq}
use suiban.Agent.Types.{Usage, Message, Environment}
use suiban.Agent.Structured.{Decoded, Mismatch, Reply, Fault}
use suiban.Memory.Compression
use suiban.Json.{Value}
use suiban.Slap.Messages.{MessageError, version}
use suiban.Slap.Shapes.{version_pattern}
use suiban.Ultra.{
  UltraWorker, WorkerResult, Subtask, UltraRun, subtask_cap, effort_of, Notice, plan_truncated,
  slap_degraded, effort_capped, Event, notice, delta, UltraState, spawn_event, result_event,
  optional_notice,
}
use suiban.Ultra.Trace.{dispatch_assign, record_result, record_decide}
use suiban.Ultra.Plan.{merge_usage, planned, Planning, make_plan, raw_subtasks, ask_plan}
use suiban.Ultra.Contained.{Interruption, timed_out, crashed, run_subtask, bounded_result}
use suiban.Ultra.Sequential.{
  Performed, Stage, Synthesis, not_answered, synthesized, is_capped, sequential_notices, conclude,
  dispatch_one, dispatch_sequential, after_synthesis, new_state, notice_events, executors,
  synthesis_request, opening, closing, sequential_stage, run_sequential, perform_bounded,
}
use suiban.Ultra.Recorded.{either_branch}
use suiban.Ultra.Undegraded.{
  IsFitWorker, record_result_valid, record_decide_valid, dispatch_assign_valid,
  advertise_capabilities_valid,
}
use suiban.Ultra.Planned.{IsAssignable, make_plan_bounded}

abbrev pub is_degradation : Notice → Bool
is_degradation (slap_degraded kind e) = true
is_degradation n = false

abbrev pub is_degraded : Event → Bool
is_degraded (notice n) = is_degradation n
is_degraded e = false

-- A stretch of a stream in which no message of the run was refused.
abbrev pub IsClean : List Event → Type 0
IsClean events = any is_degraded events ≡ false

pub IsClean-append : (xs ys : List Event) → IsClean xs → IsClean ys → IsClean (xs ++ ys)
IsClean-append xs ys h k = any-append is_degraded xs ys ∙ ap (λ b. b || any is_degraded ys) h ∙ k

abbrev pub IsMild : Option Notice → Type 0
IsMild given = IsClean (optional_notice given)

none-IsMild : (given : Option Notice) → given ≡ none → IsMild given
none-IsMild given h = rw h refl

abbrev pub MildPerform :
    {World : Type 0} → (UltraWorker → Subtask → String → World → Performed World) → Type 0
MildPerform {World} perform =
    (worker : UltraWorker) (s : Subtask) (content : String) (w : World)
    → IsMild (perform worker s content w).given

pub bounded_result-IsMild :
    (run : UltraRun) (s : Subtask) (r : WorkerResult ⊎ Interruption)
    → IsMild (bounded_result run s r).1
unfolding bounded_result
bounded_result-IsMild run s (inl r) = refl
bounded_result-IsMild run s (inr timed_out) = refl
bounded_result-IsMild run s (inr (crashed e)) = refl

module _ (matches : String → String → Bool) (text : MessageError → String) (run : UltraRun)
    (speaks : matches version_pattern version ≡ true) where
  pub conclude-IsClean :
      (s : UltraState) (subtask : Subtask) (r : WorkerResult) (given : Option Notice)
      → IsAssignable subtask
      → IsMild given
      → IsClean (conclude matches text run s subtask r given).1.1
  unfolding conclude result_event
  conclude-IsClean s subtask r given h mild = IsClean-append (optional_notice given) _ mild (
      IsClean-append
        (optional_notice (record_result matches text run s (record subtask { result = some r })).1)
        _
        (none-IsMild _
          (record_result_valid matches text run speaks s (record subtask { result = some r }) h.1))
        refl)

  pub assigned-IsMild :
      (s : UltraState) (subtask : Subtask)
      → IsAssignable subtask
      → IsMild (dispatch_assign matches text run s subtask).1.1
  assigned-IsMild s subtask h =
      none-IsMild _ (dispatch_assign_valid matches text run speaks s subtask h.0 h.1)

  module _ {World : Type 0} (perform : UltraWorker → Subtask → String → World → Performed World)
      (mild : MildPerform perform) where
    dispatch_one-IsClean :
        (s : UltraState) (w : World) (subtask : Subtask)
        → IsAssignable subtask
        → IsClean (dispatch_one matches text run perform s w subtask).events
    unfolding dispatch_one spawn_event
    dispatch_one-IsClean s w subtask h =
        let sent = dispatch_assign matches text run s subtask in
        let ran = perform run.orchestrator subtask sent.1.0 w in
        IsClean-append (optional_notice sent.1.1) _ (assigned-IsMild s subtask h) (
          conclude-IsClean (merge_usage sent.0 ran.tokens) subtask ran.result ran.given h
            (mild run.orchestrator subtask sent.1.0 w))

    dispatch_sequential-IsClean :
        (s : UltraState) (w : World) (subtasks : List Subtask)
        → All IsAssignable subtasks
        → IsClean (dispatch_sequential matches text run perform s w subtasks).events
    unfolding dispatch_sequential
    dispatch_sequential-IsClean s w [] h = refl
    dispatch_sequential-IsClean s w (subtask ∷ subtasks) h =
        let one = dispatch_one matches text run perform s w subtask in
        IsClean-append one.events _ (dispatch_one-IsClean s w subtask h.0)
          (dispatch_sequential-IsClean one.state one.world subtasks h.1)

  after_synthesis-IsClean : (s : UltraState) (a : Synthesis) → IsClean (after_synthesis s a).events
  unfolding after_synthesis
  after_synthesis-IsClean s (not_answered e) = refl
  after_synthesis-IsClean s (synthesized u content r) =
      IsClean-append (if str_eq content "" then [] else delta content ∷ []) _
        (either_branch IsClean (str_eq content "") [] (delta content ∷ []) refl refl) refl

  sequential_notices-IsClean : IsClean (sequential_notices run)
  unfolding sequential_notices
  sequential_notices-IsClean =
      either_branch IsClean (is_capped run) (notice (effort_capped (effort_of run) run.effort) ∷ [])
        [] refl refl

  module _ {World : Type 0} (synthesize : World → List Compression.Message → Synthesis)
      (ultra_prompt : String) (messages : List Compression.Message) where
    pub closing-IsClean :
        (stage : Stage World)
        → IsClean stage.events
        → IsClean (closing matches text synthesize ultra_prompt run messages stage).events
    unfolding closing
    closing-IsClean stage h = IsClean-append stage.events _ h (
        IsClean-append
          (optional_notice (record_decide matches text run stage.state stage.subtasks).1) _
          (none-IsMild _ (record_decide_valid matches text run speaks stage.state stage.subtasks))
          (after_synthesis-IsClean (record_decide matches text run stage.state stage.subtasks).0 (
            synthesize stage.world (
              synthesis_request matches text synthesize ultra_prompt run messages stage.subtasks))))

    pub opening-IsClean :
        (p : Planning World)
        → IsClean (notice_events p.notices)
        → All (IsFitWorker matches) (executors matches text synthesize ultra_prompt run messages)
        → IsClean (opening matches text synthesize ultra_prompt run messages p).events
    unfolding opening
    opening-IsClean p h fit = IsClean-append (notice_events p.notices) _ h (
        subst (λ ns. IsClean (notice_events ns))
          (sym (
            advertise_capabilities_valid matches text run speaks p.state
              (executors matches text synthesize ultra_prompt run messages) fit))
          refl)

    run_sequential-IsClean :
        (perform : UltraWorker → Subtask → String → World → Performed World) (p : Planning World)
        → MildPerform perform
        → IsClean (notice_events p.notices)
        → All IsAssignable p.subtasks
        → All (IsFitWorker matches) (executors matches text synthesize ultra_prompt run messages)
        → IsClean
            (run_sequential matches text synthesize ultra_prompt run messages perform p).events
    unfolding run_sequential sequential_stage opening
    run_sequential-IsClean perform p mild h assignable fit =
        closing-IsClean
          (sequential_stage matches text synthesize ultra_prompt run messages perform p)
          (IsClean-append (opening matches text synthesize ultra_prompt run messages p).events _
            (opening-IsClean p h fit)
            (IsClean-append (sequential_notices run) _ sequential_notices-IsClean
              (dispatch_sequential-IsClean perform mild _ p.world p.subtasks assignable)))

pub planned-IsClean :
    (run : UltraRun) (messages : List Compression.Message) (e : Option Fault) (vs : List Value)
    → IsClean (notice_events (planned run messages e vs).1)
unfolding planned
planned-IsClean run messages e [] = refl
planned-IsClean run messages e (v ∷ vs) =
    either_branch (λ ns. IsClean (notice_events ns)) (ltb (subtask_cap run) (length (v ∷ vs)))
      (plan_truncated (length (v ∷ vs)) (subtask_cap run) ∷ []) [] refl refl

module _ {World Args : Type 0} (env : UltraWorker → Environment World Args)
    (complete : UltraWorker → World → List (Message Args) → Reply × World)
    (loads : String → Decoded) (mismatch_text : Mismatch → String) (run : UltraRun)
    (interrupted : UltraWorker
      → Subtask
      → String
      → World
      → Option (Interruption × (Usage × World))) where
  perform_bounded-IsMild :
      MildPerform (perform_bounded env complete loads mismatch_text run interrupted)
  unfolding perform_bounded
  perform_bounded-IsMild worker s content w = elim (Option-cases (interrupted worker s content w)) [
    | inl none_here ↦ rw none_here (
        bounded_result-IsMild run s
          (run_subtask env complete loads mismatch_text worker s content w).result)
    | inr (cut, e) ↦ rw e (bounded_result-IsMild run s (inr cut.0))
  ]

  module _ (matches : String → String → Bool) (text : MessageError → String)
      (synthesize : World → List Compression.Message → Synthesis) (ultra_prompt : String)
      (orchestrate : World → List Compression.Message → Reply × World)
      (messages : List Compression.Message) where
    -- If the pattern of versions matches the version the program speaks, and the slots that run sub-agents
    -- have a model and a workload of at least zero, a run without workers never degrades: whatever the
    -- orchestrator plans, however each sub-agent ends, and whatever it reports, every message of the run is
    -- accepted by the schema of its operation.
    pub run_undegraded :
        (w : World)
        → matches version_pattern version ≡ true
        → All (IsFitWorker matches) (executors matches text synthesize ultra_prompt run messages)
        → IsClean
            (run_sequential matches text synthesize ultra_prompt run messages
              (perform_bounded env complete loads mismatch_text run interrupted)
              (make_plan orchestrate loads mismatch_text ultra_prompt run new_state messages
                w)).events
    unfolding make_plan
    run_undegraded w speaks fit =
        let asked = ask_plan orchestrate loads mismatch_text ultra_prompt run messages w in
        run_sequential-IsClean matches text run speaks synthesize ultra_prompt messages
          (perform_bounded env complete loads mismatch_text run interrupted)
          (make_plan orchestrate loads mismatch_text ultra_prompt run new_state messages w)
          perform_bounded-IsMild
          (planned-IsClean run messages asked.result.error
            (raw_subtasks asked.result.instance_data))
          (make_plan_bounded orchestrate loads mismatch_text ultra_prompt run new_state messages
            w).2
          fit

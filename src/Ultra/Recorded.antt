-- ===== src/Ultra/Recorded.antt =====
-- What the trace of a run holds (src/suiban/modes/ultra.py): no system prompt of a sub-agent.
use suiban.Prelude.{
  ◌≡◌, refl, sym, subst, ◌∙◌, Bool, true, false, Option, none, some, List, [], ◌∷◌, ◌++◌, String,
  map, All, All-append, Bool-cases, inl, inr, if◌then◌else◌,
}
use text.Mathlib.Text.{◌==◌ as str_eq}
use suiban.Json.{Value, obj, Members, member, no_member, lookup}
use suiban.Slap.Builders
use suiban.Slap.Builders.{Envelope, set_fields, envelope}
use suiban.Slap.Looks.{lookup-built}
use suiban.Slap.Messages.{MessageError, validate_message}
use suiban.Slap.Operations.{load_schema}
use suiban.Ultra.{UltraWorker, WorkerResult, Subtask, UltraRun, Notice, UltraState}
use suiban.Ultra.Trace.{
  next_message_id, unprompted, redacted, capability_of, assign_of, result_of, decide_of, on_errors,
  record_slap, advertise, advertise_capabilities, more_notices, send_assign, dispatch_assign,
  record_result, record_decide, result_or,
}
use suiban.Ultra.Plan.{merge_usage, Planning}
use suiban.Ultra.Sequential.{
  Performed, Stage, Synthesis, not_answered, synthesized, conclude, dispatch_one,
  dispatch_sequential, after_synthesis, opening, closing, sequential_stage, run_sequential,
}
use suiban.Ultra.Contained.{bounded_result}
use suiban.Ultra.Parallel.{
  Dispatch, begin, take_worker, finish_job, Step, begins, takes, ends, Reach, here, next,
  dispatch_start, dispatch_of, run_parallel, subtask_in,
}
use suiban.Memory.Compression

-- A message that carries no system prompt.
abbrev pub HasNoPrompt : Value → Type 0
HasNoPrompt (obj ms) = lookup "system_prompt" ms ≡ none
HasNoPrompt v = ⊥

abbrev pub IsPrivate : UltraState → Type 0
IsPrivate s = All HasNoPrompt s.slap_messages

unprompted-lookup : (ms : Members) → lookup "system_prompt" (unprompted ms) ≡ none
unfolding unprompted
unprompted-lookup no_member = refl
unprompted-lookup (member k v ms) = elim (Bool-cases (str_eq k "system_prompt")) [
  | inl same ↦ rw same (unprompted-lookup ms)
  | inr other ↦ rw (other, other) (unprompted-lookup ms)
]

capability-HasNoPrompt :
    (e : Envelope) (f : Builders.Capability) → HasNoPrompt (Builders.build_capability e f)
unfolding Builders.build_capability
capability-HasNoPrompt e f =
    lookup-built "capability" e (Builders.capability_fields f) "system_prompt" ∙ refl

result-HasNoPrompt : (e : Envelope) (f : Builders.Result) → HasNoPrompt (Builders.build_result e f)
unfolding Builders.build_result
result-HasNoPrompt e f = lookup-built "result" e (Builders.result_fields f) "system_prompt" ∙ refl

decide-HasNoPrompt : (e : Envelope) (f : Builders.Decide) → HasNoPrompt (Builders.build_decide e f)
unfolding Builders.build_decide
decide-HasNoPrompt e f = lookup-built "decide" e (Builders.decide_fields f) "system_prompt" ∙ refl

assign-HasNoPrompt :
    (e : Envelope) (f : Builders.Assign) → HasNoPrompt (redacted (Builders.build_assign e f))
unfolding Builders.build_assign redacted
assign-HasNoPrompt e f =
    unprompted-lookup (set_fields (envelope "assign" e) (Builders.assign_fields f))

-- What holds of both branches holds of a test.
pub either_branch {ℓ} :
    {A : Type ℓ} (P : A → Type 0) (b : Bool) (x y : A) → P x → P y → P (if b then x else y)
either_branch P true x y p q = p
either_branch P false x y p q = q

module _ (matches : String → String → Bool) (text : MessageError → String) (run : UltraRun) where
  on_errors-IsPrivate :
      (s : UltraState) (kind : String) (message : Value) (es : List MessageError)
      → HasNoPrompt message
      → IsPrivate s
      → IsPrivate (on_errors matches text run s kind message es).0
  unfolding on_errors
  on_errors-IsPrivate s kind message [] h p =
      All-append HasNoPrompt s.slap_messages (message ∷ []) p (h, tt)
  on_errors-IsPrivate s kind message (e ∷ es) h p = p

  record_slap-IsPrivate :
      (s : UltraState) (kind : String) (message recorded : Value)
      → HasNoPrompt recorded
      → IsPrivate s
      → IsPrivate (record_slap matches text run s kind message recorded).0
  unfolding record_slap
  record_slap-IsPrivate s kind message recorded h p =
      either_branch (λ (r : UltraState × Option Notice). IsPrivate r.0) run.slap_enabled _ (s, none)
        (on_errors-IsPrivate s kind recorded (validate_message matches load_schema text message) h
          p)
        p

  more_notices-IsPrivate :
      (given : Option Notice) (rest : UltraState × List Notice)
      → IsPrivate rest.0
      → IsPrivate (more_notices matches text run given rest).0
  more_notices-IsPrivate none rest p = p
  more_notices-IsPrivate (some n) rest p = p

  advertise_capabilities-IsPrivate :
      (s : UltraState) (ws : List UltraWorker)
      → IsPrivate s
      → IsPrivate (advertise_capabilities matches text run s ws).0
  unfolding advertise_capabilities advertise next_message_id
  advertise_capabilities-IsPrivate s [] p = p
  advertise_capabilities-IsPrivate s (w ∷ ws) p =
      more_notices-IsPrivate (advertise matches text run s w).1 _ (
        advertise_capabilities-IsPrivate (advertise matches text run s w).0 ws (
          record_slap-IsPrivate (next_message_id s).1 "capability" _ _
            (capability-HasNoPrompt _ (capability_of w)) p))

  dispatch_assign-IsPrivate :
      (s : UltraState) (subtask : Subtask)
      → IsPrivate s
      → IsPrivate (dispatch_assign matches text run s subtask).0
  unfolding dispatch_assign send_assign next_message_id
  dispatch_assign-IsPrivate s subtask p =
      either_branch (λ (r : UltraState × (String × Option Notice)). IsPrivate r.0) run.slap_enabled
        (send_assign matches text run s subtask) (s, _)
        (record_slap-IsPrivate (next_message_id s).1 "assign" _ _
          (assign-HasNoPrompt _ (assign_of run subtask)) p)
        p

  record_result-IsPrivate :
      (s : UltraState) (subtask : Subtask)
      → IsPrivate s
      → IsPrivate (record_result matches text run s subtask).0
  unfolding record_result next_message_id
  record_result-IsPrivate s subtask p =
      record_slap-IsPrivate _ "result" _ _
        (result-HasNoPrompt _ (result_of subtask (result_or subtask.result))) p

  record_decide-IsPrivate :
      (s : UltraState) (subtasks : List Subtask)
      → IsPrivate s
      → IsPrivate (record_decide matches text run s subtasks).0
  unfolding record_decide next_message_id
  record_decide-IsPrivate s subtasks p =
      record_slap-IsPrivate _ "decide" _ _ (decide-HasNoPrompt _ (decide_of subtasks)) p

  conclude-IsPrivate :
      (s : UltraState) (subtask : Subtask) (r : WorkerResult) (given : Option Notice)
      → IsPrivate s
      → IsPrivate (conclude matches text run s subtask r given).0
  unfolding conclude
  conclude-IsPrivate s subtask r given p =
      record_result-IsPrivate s (record subtask { result = some r }) p

  module _ {World : Type 0}
      (perform : UltraWorker → Subtask → String → World → Performed World) where
    dispatch_one-IsPrivate :
        (s : UltraState) (w : World) (subtask : Subtask)
        → IsPrivate s
        → IsPrivate (dispatch_one matches text run perform s w subtask).state
    unfolding dispatch_one
    dispatch_one-IsPrivate s w subtask p =
        let sent = dispatch_assign matches text run s subtask in
        let ran = perform run.orchestrator subtask sent.1.0 w in
        conclude-IsPrivate (merge_usage sent.0 ran.tokens) subtask ran.result ran.given
          (dispatch_assign-IsPrivate s subtask p)

    dispatch_sequential-IsPrivate :
        (s : UltraState) (w : World) (subtasks : List Subtask)
        → IsPrivate s
        → IsPrivate (dispatch_sequential matches text run perform s w subtasks).state
    unfolding dispatch_sequential
    dispatch_sequential-IsPrivate s w [] p = p
    dispatch_sequential-IsPrivate s w (subtask ∷ subtasks) p =
        let one = dispatch_one matches text run perform s w subtask in
        dispatch_sequential-IsPrivate one.state one.world subtasks
          (dispatch_one-IsPrivate s w subtask p)

  Step-IsPrivate :
      {d e : Dispatch} → Step matches text run d e → IsPrivate d.state → IsPrivate e.state
  unfolding begin take_worker finish_job
  Step-IsPrivate {d} (begins before s after e) p = dispatch_assign-IsPrivate d.state s p
  Step-IsPrivate (takes before s c after w pool e q) p = p
  Step-IsPrivate (ends before s c after w outcome tokens e) p =
      let (result, given) = bounded_result run s outcome in conclude-IsPrivate _ s result given p

  -- In every interleaving of a parallel dispatch no message that is recorded carries a system prompt, if
  -- none did at its start.
  Reach-IsPrivate :
      {d e : Dispatch} → IsPrivate d.state → Reach matches text run d e → IsPrivate e.state
  Reach-IsPrivate p here = p
  Reach-IsPrivate p (next r st) = Step-IsPrivate st (Reach-IsPrivate p r)

  after_synthesis-flushed :
      (s : UltraState) (a : Synthesis) → (after_synthesis s a).flushed ≡ s.slap_messages
  unfolding after_synthesis
  after_synthesis-flushed s (not_answered e) = refl
  after_synthesis-flushed s (synthesized u c r) = refl

  module _ {World : Type 0} (synthesize : World → List Compression.Message → Synthesis)
      (ultra_prompt : String) (messages : List Compression.Message) where
    -- Whatever a dispatch leaves, the trace that is handed on has no system prompt if its messages have none.
    closing-IsPrivate :
        (stage : Stage World)
        → IsPrivate stage.state
        → All HasNoPrompt (closing matches text synthesize ultra_prompt run messages stage).flushed
    unfolding closing
    closing-IsPrivate stage p =
        subst (All HasNoPrompt) (sym (after_synthesis-flushed _ _))
          (record_decide-IsPrivate stage.state stage.subtasks p)

    -- Neither the trace that a run without workers hands on, nor that of a run with workers, however its
    -- sub-agents interleave, carries the system prompt of a sub-agent, if no message does at the start.
    pub flushed_private :
        (perform : UltraWorker → Subtask → String → World → Performed World) (p : Planning World)
        (d : Dispatch) (w : World)
        → IsPrivate p.state
        → Reach matches text run (dispatch_of matches text synthesize ultra_prompt run messages p) d
        → All HasNoPrompt
            (run_sequential matches text synthesize ultra_prompt run messages perform p).flushed
          × All HasNoPrompt
              (run_parallel matches text synthesize ultra_prompt run messages p d w).flushed
    unfolding run_sequential sequential_stage opening dispatch_of run_parallel dispatch_start
    flushed_private perform p d w h r = (
      closing-IsPrivate
          (sequential_stage matches text synthesize ultra_prompt run messages perform p)
          (dispatch_sequential-IsPrivate perform _ p.world p.subtasks
            (advertise_capabilities-IsPrivate p.state _ h)),
      closing-IsPrivate
          (record {
            subtasks = map subtask_in d.jobs;
            state = d.state;
            events =
                (opening matches text synthesize ultra_prompt run messages p).events ++ d.events;
            world = w;
          })
          (Reach-IsPrivate (advertise_capabilities-IsPrivate p.state _ h) r),
    )

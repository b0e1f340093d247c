-- ===== src/Ultra/Trace.antt =====
-- The messages of a run (src/suiban/modes/ultra.py): each is built, validated, and recorded. `matches`
-- stands for `re.search`, and `text` for the text of an error.
use suiban.Prelude.{
  ℕ, ◌+◌, Bool, false, Option, none, some, List, [], ◌∷◌, ◌++◌, String, length, ltb, map, keep, not,
  if◌then◌else◌,
}
use suiban.Prelude.Int.{pos}
use text.Mathlib.Text.{◌==◌ as str_eq}
use suiban.Json.{Value, obj, arr, str, int, float, Members, member, no_member, element, no_element}
use suiban.Effort.{max_tool_iterations}
use suiban.Agent.Text.{str as show_ℕ, concat}
use suiban.Agent.Calls.{or_default}
use suiban.Slap.Builders
use suiban.Slap.Builders.{Envelope}
use suiban.Slap.Messages.{MessageError, validate_message}
use suiban.Slap.Operations.{load_schema}
use suiban.Ultra.{
  UltraWorker, WorkerResult, Subtask, UltraRun, effort_of, timeout_of, Notice, slap_degraded,
  UltraState, or_none, list_or_none,
}

abbrev pub root_task_id : String
root_task_id = "T0"

-- `_next_message_id`
unfoldable pub next_message_id : UltraState → String × UltraState
next_message_id s =
    let n = s.message_counter + 1 in
    (concat ("M" ∷ show_ℕ n ∷ []), record s { message_counter = n })

abbrev pub mail : String → String → Option String → Envelope
mail message_id task_id parent = record {
  message_id = message_id;
  task_id = task_id;
  parent_task = parent;
  depends_on = none;
  created_at = none;
}

-- `{k: v for k, v in assign.items() if k != "system_prompt"}`
unfoldable pub unprompted : Members → Members
unprompted no_member = no_member
unprompted (member k v ms) =
    let rest = unprompted ms in if str_eq k "system_prompt" then rest else member k v rest

unfoldable pub redacted : Value → Value
unfolding unprompted
redacted (obj ms) = obj (unprompted ms)
redacted v = v

unfoldable pub capability_of : UltraWorker → Builders.Capability
unfolding or_none
capability_of w = record {
  model = w.model;
  model_family = or_none w.family;
  parameters = none;
  quantization = or_none w.quant;
  context_limit = some (int (pos w.ctx));
  modalities = none;
  tools = none;
  structured_output_reliability = none;
  latency_ms_estimate = none;
  memory_mb_estimate = none;
  compute_cost_estimate = none;
  task_categories = none;
  max_task_complexity = none;
  current_workload = some w.workload;
  backend = or_none w.backend;
  location = none;
}

abbrev pub limits_of : ℕ → ℕ → Value
limits_of rounds seconds = obj (
    member "maximum_rounds" (int (pos rounds))
      (member "maximum_seconds" (int (pos seconds)) no_member))

unfoldable pub assign_of : UltraRun → Subtask → Builders.Assign
unfolding effort_of timeout_of
assign_of run s = record {
  role = "worker";
  goal = s.title;
  base_revision = run.base_revision;
  scope = none;
  inputs = none;
  expected_artifacts = some ("result" ∷ []);
  checks = none;
  system_prompt = s.system_prompt;
  limits = some (limits_of (max_tool_iterations (effort_of run)) (timeout_of run));
}

abbrev pub never_ran : WorkerResult
never_ran = record { status = "failed"; summary = "never ran"; output = "" }

abbrev pub result_or : Option WorkerResult → WorkerResult
result_or none = never_ran
result_or (some r) = r

-- `f"result:{task_id}"`
unfoldable pub artifact_ref : Subtask → String
artifact_ref s = concat ("result:" ∷ s.task_id ∷ [])

-- 0.8 and 0.1, as floats.
abbrev pub confident : Value
confident = float (pos 3602879701896397) 4503599627370495

abbrev pub doubtful : Value
doubtful = float (pos 3602879701896397) 36028797018963967

abbrev pub is_completed : WorkerResult → Bool
is_completed r = str_eq r.status "ok"

abbrev pub claim_of : String → String → Value
claim_of claim ref =
    obj (
      member "claim" (str claim) (member "evidence" (arr (element (str ref) no_element)) no_member))

unfoldable pub claims_of : Subtask → WorkerResult → Option (List Value)
unfolding artifact_ref
claims_of s r =
    if is_completed r
    then if str_eq r.summary "" then none else some (claim_of r.summary (artifact_ref s) ∷ [])
    else none

unfoldable pub risks_of : Subtask → WorkerResult → Option (List String)
risks_of s r =
    if is_completed r
    then none
    else some (
        concat (
          "sub-task '" ∷ s.title ∷ "' did not complete; synthesis proceeds without this piece" ∷ [])
        ∷ [])

unfoldable pub result_of : Subtask → WorkerResult → Builders.Result
unfolding artifact_ref claims_of risks_of or_none
result_of s r = record {
  status = if is_completed r then "completed" else "failed";
  artifacts = if str_eq r.output "" then none else some (artifact_ref s ∷ []);
  claims = claims_of s r;
  risks = risks_of s r;
  summary = or_none r.summary;
  confidence = some (if is_completed r then confident else doubtful);
}

abbrev pub was_accepted : Option WorkerResult → Bool
was_accepted none = false
was_accepted (some r) = is_completed r

abbrev pub accepted_refs : List Subtask → List String
accepted_refs subtasks = map artifact_ref (keep (λ s. was_accepted s.result) subtasks)

abbrev pub rejected_refs : List Subtask → List String
rejected_refs subtasks = map artifact_ref (keep (λ s. not (was_accepted s.result)) subtasks)

unfoldable pub decide_of : List Subtask → Builders.Decide
unfolding list_or_none
decide_of subtasks =
    let accepted = accepted_refs subtasks in
    record {
      decision = if ltb 0 (length accepted) then "accept" else "escalate";
      accepted_artifacts = list_or_none accepted;
      rejected_artifacts = list_or_none (rejected_refs subtasks);
      next_tasks = none;
      reason = some (
          concat (
            show_ℕ (length accepted)
            ∷ "/"
            ∷ show_ℕ (length subtasks)
            ∷ " sub-task artifact(s) accepted; synthesized the final deliverable from the verified pieces."
            ∷ []));
    }

module _ (matches : String → String → Bool) (text : MessageError → String) (run : UltraRun) where
  unfoldable pub on_errors :
      UltraState → String → Value → List MessageError → UltraState × Option Notice
  on_errors s kind message [] = (record s { slap_messages = s.slap_messages ++ message ∷ [] }, none)
  on_errors s kind message (e ∷ es) = (s, some (slap_degraded kind e))

  -- `_record_slap`, which records `recorded` where it is not `message` itself.
  unfoldable pub record_slap : UltraState → String → Value → Value → UltraState × Option Notice
  unfolding on_errors
  record_slap s kind message recorded =
      if run.slap_enabled
      then on_errors s kind recorded (validate_message matches load_schema text message)
      else (s, none)

  unfoldable pub advertise : UltraState → UltraWorker → UltraState × Option Notice
  unfolding next_message_id capability_of record_slap
  advertise s w =
      let (id, s') = next_message_id s in
      let message = Builders.build_capability (mail id root_task_id none) (capability_of w) in
      record_slap s' "capability" message message

  abbrev pub more_notices : Option Notice → UltraState × List Notice → UltraState × List Notice
  more_notices none rest = rest
  more_notices (some n) (s, notices) = (s, n ∷ notices)

  -- `_advertise_capabilities`
  unfoldable pub advertise_capabilities : UltraState → List UltraWorker → UltraState × List Notice
  unfolding advertise
  advertise_capabilities s [] = (s, [])
  advertise_capabilities s (w ∷ ws) =
      let (s', given) = advertise s w in more_notices given (advertise_capabilities s' ws)

  -- The system prompt of a worker, once its `assign` is recorded or was refused.
  unfoldable pub prompt_of : Subtask → Option Notice → String
  unfolding or_default
  prompt_of subtask none = or_default subtask.system_prompt run.worker_prompt
  prompt_of subtask (some n) = run.worker_prompt

  -- An `assign` is built and recorded.
  unfoldable pub send_assign : UltraState → Subtask → UltraState × (String × Option Notice)
  unfolding next_message_id record_slap prompt_of assign_of redacted
  send_assign s subtask =
      let (id, s') = next_message_id s in
      let message =
        Builders.build_assign (mail id subtask.task_id (some root_task_id))
          (assign_of run subtask) in
      let (s'', given) = record_slap s' "assign" message (redacted message) in
      (s'', (prompt_of subtask given, given))

  -- `_dispatch_assign`
  unfoldable pub dispatch_assign : UltraState → Subtask → UltraState × (String × Option Notice)
  unfolding send_assign or_default
  dispatch_assign s subtask =
      if run.slap_enabled
      then send_assign s subtask
      else (s, (or_default subtask.system_prompt run.worker_prompt, none))

  -- `_record_result`
  unfoldable pub record_result : UltraState → Subtask → UltraState × Option Notice
  unfolding next_message_id result_of record_slap
  record_result s subtask =
      let (id, s') = next_message_id s in
      let message =
        Builders.build_result (mail id subtask.task_id (some root_task_id))
          (result_of subtask (result_or subtask.result)) in
      record_slap s' "result" message message

  -- `_record_decide`
  unfoldable pub record_decide : UltraState → List Subtask → UltraState × Option Notice
  unfolding next_message_id decide_of record_slap
  record_decide s subtasks =
      let (id, s') = next_message_id s in
      let message = Builders.build_decide (mail id root_task_id none) (decide_of subtasks) in
      record_slap s' "decide" message message

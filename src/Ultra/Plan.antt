-- ===== src/Ultra/Plan.antt =====
-- The plan of a run (src/suiban/modes/ultra.py): what the orchestrator is asked for, and the sub-tasks.
use Prim.Native.String.{◌++◌ as append}
use suiban.Prelude.{
  ℕ, ◌+◌, true, not, Option, none, some, List, [], ◌∷◌, ◌++◌, String, length, take, keep, ltb,
  if◌then◌else◌,
}
use text.Mathlib.Text.{◌==◌ as str_eq}
use suiban.Json.{Value, obj, arr, str, Members, Elements, element, no_element, lookup}
use suiban.Json.Schema.{object, Schema, plain, property, no_property}
use suiban.Agent.Types.{Usage}
use suiban.Agent.Text.{str as show_ℕ, concat}
use suiban.Agent.Structured.{
  Decoded, Mismatch, Reply, Fault, Exchange, accumulate, structured_repair_attempts,
  request_structured,
}
use suiban.Memory.Compression.{Message, whole, is_system, message_text}
use suiban.Slap.Shapes.{any_rules, some_text, list_of}
use suiban.Ultra.{Subtask, UltraRun, subtask_cap, Notice, plan_truncated, plan_fallback, UltraState}

abbrev pub subtask_schema : Schema
subtask_schema =
    plain
      (record any_rules {
        expected = some object;
        required = "title" ∷ "brief" ∷ [];
        closed = true;
      })
      (property "title" some_text
        (property "brief" some_text (property "system_prompt" some_text no_property)))

abbrev pub plan_schema : Schema
plan_schema =
    plain (record any_rules { expected = some object; required = "subtasks" ∷ []; closed = true })
      (property "subtasks" (list_of subtask_schema) no_property)

unfoldable pub plan_instruction : ℕ → String
plan_instruction cap = concat (
    "Decompose the task above into 1-"
    ∷ show_ℕ cap
    ∷ " independent sub-tasks for contained worker models. Each sub-task needs a short title, a context-complete brief (every fact, file path, constraint and deliverable format pasted in — the worker sees nothing but its brief), and a crisp task-scoped system_prompt: a few lines that put THIS worker in the right role for THIS sub-task (its expertise, standards, and what 'done' means), written fresh for this task and used only for this one agent. Keep judgment and cross-cutting work for yourself; delegate only self-contained execution."
    ∷ [])

abbrev pub said : String → String → Message
said role content = record { role = some role; content = whole content; tool_calls = [] }

-- `_task_messages`
unfoldable pub task_messages : List Message → List Message
task_messages messages = keep (λ m. not (is_system m.role)) messages

abbrev pub text_in : Option Value → Option String
text_in (some (str t)) = some t
text_in v = none

-- `raw["title"]` of an item that the schema accepted, so that the text is there.
unfoldable pub text_at : String → Value → Option String
text_at key (obj ms) = text_in (lookup key ms)
text_at key v = none

abbrev pub text_or_empty : Option String → String
text_or_empty none = ""
text_or_empty (some t) = t

-- `(result.data or {}).get("subtasks") or []`
unfoldable pub items_of : Elements → List Value
items_of no_element = []
items_of (element v vs) = v ∷ items_of vs

abbrev pub items_at : Option Value → List Value
items_at (some (arr vs)) = items_of vs
items_at _ = []

abbrev pub raw_subtasks : Option Members → List Value
raw_subtasks none = []
raw_subtasks (some ms) = items_at (lookup "subtasks" ms)

unfoldable pub subtask_of : ℕ → Value → Subtask
unfolding text_at
subtask_of i v = record {
  title = text_or_empty (text_at "title" v);
  brief = text_or_empty (text_at "brief" v);
  agent_id = concat ("agent-" ∷ show_ℕ (i + 1) ∷ []);
  task_id = concat ("T" ∷ show_ℕ (i + 1) ∷ []);
  system_prompt = text_at "system_prompt" v;
  result = none;
}

-- `enumerate`
unfoldable pub subtasks_from : ℕ → List Value → List Subtask
unfolding subtask_of
subtasks_from i [] = []
subtasks_from i (v ∷ vs) = subtask_of i v ∷ subtasks_from (i + 1) vs

-- `"\n\n".join(...)` of the texts that are not empty.
unfoldable pub joined : List String → String
joined [] = ""
joined (t ∷ []) = t
joined (t ∷ u ∷ ts) = append t (append "\n\n" (joined (u ∷ ts)))

unfoldable pub texts_of : List Message → List String
texts_of [] = []
texts_of (m ∷ ms) =
    let rest = texts_of ms in
    if str_eq (message_text m.content) "" then rest else message_text m.content ∷ rest

unfoldable pub fallback_subtask : List Message → Subtask
unfolding joined texts_of task_messages
fallback_subtask messages = record {
  title = "complete the task";
  brief = joined (texts_of (task_messages messages));
  agent_id = "agent-1";
  task_id = "T1";
  system_prompt = none;
  result = none;
}

-- What the orchestrator's answer comes to.
unfoldable pub planned :
    UltraRun → List Message → Option Fault → List Value → List Subtask × List Notice
unfolding subtasks_from fallback_subtask subtask_cap
planned run messages error [] = (fallback_subtask messages ∷ [], plan_fallback error ∷ [])
planned run messages error (v ∷ vs) = (
  subtasks_from 0 (take (subtask_cap run) (v ∷ vs)),
  if ltb (subtask_cap run) (length (v ∷ vs))
      then plan_truncated (length (v ∷ vs)) (subtask_cap run) ∷ []
      else [],
)

abbrev pub merge_usage : UltraState → Usage → UltraState
merge_usage s u = record s { total_usage = accumulate s.total_usage u }

pub record Planning (World : Type 0) : Type 0 where
  pub subtasks : List Subtask
  pub notices : List Notice
  pub state : UltraState
  pub world : World

module _ {World : Type 0} (complete : World → List Message → Reply × World)
    (loads : String → Decoded) (mismatch_text : Mismatch → String) (ultra_prompt : String)
    (run : UltraRun) where
  unfoldable pub plan_messages : List Message → List Message
  unfolding task_messages plan_instruction
  plan_messages messages =
      said "system" ultra_prompt
      ∷ (task_messages messages ++ said "user" (plan_instruction (subtask_cap run)) ∷ [])

  unfoldable pub ask_plan : List Message → World → Exchange World Message
  unfolding plan_messages
  ask_plan messages w =
      request_structured complete loads said mismatch_text plan_schema "ultra_plan"
        structured_repair_attempts (plan_messages messages) w

  -- `_plan`, where its completion does not raise: `run` raises with it before any event.
  unfoldable pub make_plan : UltraState → List Message → World → Planning World
  unfolding ask_plan planned
  make_plan s messages w =
      let asked = ask_plan messages w in
      let (subtasks, notices) =
        planned run messages asked.result.error (raw_subtasks asked.result.instance_data) in
      record {
        subtasks = subtasks;
        notices = notices;
        state = merge_usage s asked.result.usage;
        world = asked.world;
      }

-- ===== src/Ultra/Fixtures.antt =====
-- Workers, sub-tasks and scripted slots for runs of the ultra mode (src/suiban/modes/ultra.py).
use suiban.Prelude.{
  ℕ, suc, Bool, true, Option, none, some, List, [], ◌∷◌, String, ◌==◌, if◌then◌else◌,
}
use suiban.Prelude.Int.{pos}
use text.Mathlib.Text.{◌==◌ as str_eq}
use suiban.Json.{obj, arr, str, int, member, no_member, element, no_element}
use suiban.Effort.{max}
use suiban.Agent.Types
use suiban.Agent.Types.{Usage, counted}
use suiban.Agent.Calls.{no_usage}
use suiban.Agent.Structured.{
  Decoded, syntax_error, decoded, Mismatch, content_text, Reply, responded,
}
use suiban.Memory.Compression
use suiban.Slap.Messages.{MessageError}
use suiban.Ultra.{UltraWorker, Subtask, UltraRun}
use suiban.Ultra.Plan.{Planning}
use suiban.Ultra.Contained.{Interruption, timed_out}
use suiban.Ultra.Sequential.{Performed, Synthesis, synthesized, new_state}

abbrev pub matches_one : String → String → Bool
matches_one pattern t = str_eq t "1.0"

abbrev pub error_text : MessageError → String
error_text e = "an error"

abbrev pub idle : UltraWorker
idle = record {
  slot_id = "w1";
  model = "small";
  ctx = 8192;
  family = "";
  quant = "q4";
  backend = "gpu";
  workload = int (pos 0);
}

abbrev pub second : UltraWorker
second = record idle { slot_id = "w2" }

abbrev pub alone : UltraRun
alone = record {
  orchestrator = idle;
  workers = [];
  effort = max;
  slap_enabled = true;
  base_revision = none;
  worker_prompt = "You are a worker.";
}

abbrev pub together : UltraRun
together = record alone { workers = idle ∷ second ∷ [] }

abbrev pub parse : Subtask
parse = record {
  title = "parse";
  brief = "parse the file";
  agent_id = "agent-1";
  task_id = "T1";
  system_prompt = some "You parse.";
  result = none;
}

abbrev pub print : Subtask
print = record parse { title = "print"; agent_id = "agent-2"; task_id = "T2" }

-- A plan of one sub-task, whose text is "plan".
abbrev pub loads_plan : String → Decoded
loads_plan t =
    if str_eq t "plan"
    then decoded (
        obj (
          member "subtasks"
            (arr (
              element
                (obj (member "title" (str "parse") (member "brief" (str "the file") no_member)))
                no_element))
            no_member))
    else syntax_error "no JSON"

abbrev pub mismatch_text : Mismatch → String
mismatch_text m = "wrong"

abbrev pub orchestrate : ℕ → List Compression.Message → Reply × ℕ
orchestrate w messages =
    (responded (record { usage = counted no_usage; content = content_text "plan" }), suc w)

abbrev pub report : UltraWorker → ℕ → List (Types.Message ℕ) → Reply × ℕ
report worker w messages =
    (responded (record { usage = counted no_usage; content = content_text "none" }), suc w)

abbrev pub slot_env : UltraWorker → Types.Environment ℕ ℕ
slot_env worker = record {
  no_args = 0;
  complete = λ w payload. (Types.raised "no slot", suc w);
  loads = λ text. Types.Loaded.invalid text;
  validate_args = λ name args. [];
  run_tool = λ w name args.
      (record { status = Types.ok; content = ""; summary = ""; confirm_token = none }, w);
  plan_steps = λ args. [];
  max_iterations = 2;
  tool_result_max_chars = none;
}

-- The second sub-agent and later ones time out.
abbrev pub interrupted : UltraWorker → Subtask → String → ℕ → Option (Interruption × (Usage × ℕ))
interrupted worker s content w = if w == 1 then none else some (timed_out, (no_usage, w))

abbrev pub synthesize : ℕ → List Compression.Message → Synthesis
synthesize w messages = synthesized no_usage "all done" none

abbrev pub perform : UltraWorker → Subtask → String → ℕ → Performed ℕ
perform worker s content w = record {
  result = record { status = "ok"; summary = "done"; output = content };
  given = none;
  tokens = no_usage;
  world = suc w;
}

abbrev pub both_planned : Planning ℕ
both_planned = record { subtasks = parse ∷ print ∷ []; notices = []; state = new_state; world = 0 }

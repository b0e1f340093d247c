-- ===== src/Ultra/Contained.antt =====
-- One contained sub-agent (src/suiban/modes/ultra.py): a run of the agent loop, its report, and the time
-- that it may take.
use Prim.Native.Char.{code}
use suiban.Prelude.{
  ℕ, ◌⊎◌, inl, inr, Bool, true, ◌||◌, ◌&&◌, Option, none, some, List, [], ◌∷◌, ◌++◌, String, leb,
  ◌==◌, if◌then◌else◌,
}
use text.Mathlib.Text.{◌==◌ as str_eq}
use suiban.Json.{Members, lookup, str}
use suiban.Json.Schema.{object, string, Schema, plain, property, no_property}
use suiban.Agent.Types.{Usage, Message, given, assistant, system, Environment}
use suiban.Agent.Text.{concat, first_chars, str as show_ℕ}
use suiban.Agent.Calls.{no_usage, or_default, Progress}
use suiban.Agent.Loop.{run}
use suiban.Agent.Structured.{
  Exchange, Decoded, Mismatch, Reply, accumulate, structured_repair_attempts, request_structured,
}
use suiban.Slap.Shapes.{any_rules, any_text, some_text}
use suiban.Ultra.{
  UltraWorker, WorkerResult, Subtask, UltraRun, effort_of, timeout_of, Notice, subtask_timeout,
}

abbrev pub worker_result_schema : Schema
worker_result_schema =
    plain
      (record any_rules {
        expected = some object;
        required = "status" ∷ "summary" ∷ "output" ∷ [];
        closed = true;
      })
      (property "status"
        (plain (record any_rules { expected = some string; enum = some ("ok" ∷ "failed" ∷ []) })
          no_property)
        (property "summary" some_text (property "output" any_text no_property)))

abbrev pub result_instruction : String
result_instruction =
    "Report your result for this sub-task now. status is \"ok\" only if the deliverable is complete and you verified it against the brief, otherwise \"failed\". summary is one honest line. output is the full deliverable (or what exists of it). Use only facts from your work above."

-- The code points that `str.strip` drops.
unfoldable pub is_space : ℕ → Bool
is_space c =
    (leb 9 c && leb c 13)
    || (leb 28 c && leb c 32)
    || c == 133
    || c == 160
    || c == 5760
    || (leb 8192 c && leb c 8202)
    || c == 8232
    || c == 8233
    || c == 8239
    || c == 8287
    || c == 12288

-- The code points at which `str.splitlines` ends a line.
unfoldable pub is_line_end : ℕ → Bool
is_line_end c =
    (leb 10 c && leb c 13) || (leb 28 c && leb c 30) || c == 133 || c == 8232 || c == 8233

-- `text.lstrip()`
unfoldable pub lstrip : String → String
lstrip String.[] = String.[]
lstrip (String.◌∷◌ c s) = let rest = lstrip s in if is_space (code c) then rest else String.◌∷◌ c s

unfoldable pub is_blank : String → Bool
is_blank String.[] = true
is_blank (String.◌∷◌ c s) = is_space (code c) && is_blank s

-- `text.rstrip()`
unfoldable pub rstrip : String → String
unfolding is_blank
rstrip String.[] = String.[]
rstrip (String.◌∷◌ c s) =
    let rest = rstrip s in if is_space (code c) && is_blank s then String.[] else String.◌∷◌ c rest

unfoldable pub first_line : String → String
first_line String.[] = String.[]
first_line (String.◌∷◌ c s) =
    let rest = first_line s in if is_line_end (code c) then String.[] else String.◌∷◌ c rest

-- The result that is built from the loop's own answer.
unfoldable pub own_result : String → WorkerResult
unfolding lstrip rstrip first_line is_blank
own_result answer =
    if is_blank answer
    then record { status = "failed"; summary = "no output produced"; output = answer }
    else record {
      status = "ok";
      summary = first_chars 120 (first_line (lstrip (rstrip answer)));
      output = answer;
    }

unfoldable pub text_field : String → Members → String
text_field key ms = elim (lookup key ms) [ some (str t) ↦ t | _ ↦ "" ]

unfoldable pub reported : String → Option Members → WorkerResult
unfolding own_result text_field
reported answer none = own_result answer
reported answer (some ms) = record {
  status = text_field "status" ms;
  summary = text_field "summary" ms;
  output = text_field "output" ms;
}

-- Why a sub-agent is ended before its result: the budget is used up, or something raises.
pub data Interruption : Type 0 where
  timed_out : Interruption
  crashed : String → Interruption

-- What a sub-agent leaves: its result or what it raises, the tokens that are merged of it, and the slot.
pub record Contained (World : Type 0) : Type 0 where
  pub result : WorkerResult ⊎ Interruption
  pub usage : Usage
  pub world : World

-- The tokens of a report are merged where it does not raise.
unfoldable pub contained_report :
    {World M : Type 0} → String → Usage → Exchange World M → Option String → Contained World
unfolding reported accumulate
contained_report answer merged report none = record {
  result = inl (reported answer report.result.instance_data);
  usage = accumulate merged report.result.usage;
  world = report.world;
}
contained_report answer merged report (some exc) = record {
  result = inr (crashed exc);
  usage = merged;
  world = report.world;
}

abbrev pub role_message : {Args : Type 0} → String → String → Message Args
role_message role content = if str_eq role "assistant" then assistant content [] else given content

module _ {World Args : Type 0} (env : UltraWorker → Environment World Args)
    (complete : UltraWorker → World → List (Message Args) → Reply × World)
    (loads : String → Decoded) (mismatch_text : Mismatch → String) where
  unfoldable pub report_of : UltraWorker → Progress World Args → Contained World
  unfolding contained_report
  report_of worker loop =
      let report =
        request_structured (complete worker) loads role_message mismatch_text worker_result_schema
          "ultra_worker_result" structured_repair_attempts
          (loop.state.messages ++ given result_instruction ∷ []) loop.world in
      contained_report loop.state.final_text loop.state.total_usage report report.raises

  -- After the loop, which may raise.
  unfoldable pub after_loop : UltraWorker → Progress World Args → Option String → Contained World
  unfolding report_of or_default
  after_loop worker loop (some exc) = record {
    result = inr (crashed exc);
    usage = no_usage;
    world = loop.world;
  }
  after_loop worker loop none =
      if str_eq loop.state.finish_reason "error"
      then record {
        result = inl (record {
          status = "failed";
          summary = or_default loop.state.error_message "worker backend failed";
          output = "";
        });
        usage = loop.state.total_usage;
        world = loop.world;
      }
      else report_of worker loop

  -- `_run_subtask`
  unfoldable pub run_subtask : UltraWorker → Subtask → String → World → Contained World
  unfolding after_loop
  run_subtask worker subtask system_content w =
      let brief = concat ("Sub-task: " ∷ subtask.title ∷ "\n\n" ∷ subtask.brief ∷ []) in
      let loop = run (env worker) (system system_content ∷ given brief ∷ []) w in
      after_loop worker loop loop.raises

-- `_run_subtask_bounded`, of what `_run_subtask` comes to: a result, or an interruption.
unfoldable pub bounded_result :
    UltraRun → Subtask → WorkerResult ⊎ Interruption → WorkerResult × Option Notice
unfolding effort_of timeout_of
bounded_result run subtask (inl result) = (result, none)
bounded_result run subtask (inr timed_out) = (
  record {
    status = "failed";
    summary = concat ("timed out after " ∷ show_ℕ (timeout_of run) ∷ "s" ∷ []);
    output = "";
  },
  some (subtask_timeout subtask.title (timeout_of run) (effort_of run)),
)
bounded_result run subtask (inr (crashed exc)) = (
  record { status = "failed"; summary = concat ("sub-agent crashed: " ∷ exc ∷ []); output = "" },
  none,
)

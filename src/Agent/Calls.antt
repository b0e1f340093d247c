-- ===== src/Agent/Calls.antt =====
-- The tool calls of `AgentLoop` (src/suiban/agent/loop.py): parsing, repair, execution.
use suiban.Prelude.{
  ℕ, ◌+◌, ◌-◌, Bool, true, false, not, ◌&&◌, Option, none, some, List, [], ◌∷◌, ◌++◌, String, ltb,
  length, keep, any, if◌then◌else◌,
}
use text.Mathlib.Text.{◌==◌ as str_eq}
use suiban.Agent.Text.{str, join, concat, tool_content}
use suiban.Agent.Types.{
  Status, ok, Usage, RawArguments, json, other, Call, Loaded, invalid, not_object, Message, tool,
  Payload, Event, tool_call, tool_result, plan, Environment, ToolStats, LoopState,
}

abbrev pub max_repair_attempts : ℕ
max_repair_attempts = 2

abbrev pub no_usage : Usage
no_usage = record { prompt_tokens = 0; completion_tokens = 0; thinking_tokens = 0 }

abbrev pub no_calls : ToolStats
no_calls = record { tool_calls = 0; malformed_calls = 0; repaired_calls = 0; abandoned_calls = 0 }

abbrev pub contains : String → List String → Bool
contains name names = any (λ n. str_eq name n) names

-- `set.add` and `set.discard`
abbrev pub add : String → List String → List String
add name names = if contains name names then names else name ∷ names

abbrev pub discard : String → List String → List String
discard name names = keep (λ n. not (str_eq name n)) names

unfoldable pub or_default : Option String → String → String
or_default none default = default
or_default (some text) default = if str_eq text "" then default else text

-- What one stretch of `run` leaves. `raises` is an exception that nothing in `run` catches.
pub record Progress (World Args : Type 0) : Type 0 where
  pub state : LoopState Args
  pub world : World
  pub events : List (Event Args)
  pub sent : List (Payload Args)
  pub raises : Option String

module _ {World Args : Type 0} (env : Environment World Args) where
  -- `__init__`
  unfoldable pub fresh : List (Message Args) → LoopState Args
  fresh messages = record {
    messages = messages;
    tool_messages = [];
    final_text = "";
    finish_reason = "stop";
    error_message = none;
    total_usage = no_usage;
    tool_stats = no_calls;
    repair_budget_left = max_repair_attempts;
    pending_repairs = [];
  }

  -- `_accumulate_usage`
  unfoldable pub accumulate_usage : LoopState Args → Usage → LoopState Args
  accumulate_usage s u = record s {
    total_usage = record {
      prompt_tokens = s.total_usage.prompt_tokens + u.prompt_tokens;
      completion_tokens = s.total_usage.completion_tokens + u.completion_tokens;
      thinking_tokens = s.total_usage.thinking_tokens + u.thinking_tokens;
    };
  }

  -- `_usage_event`
  unfoldable pub usage_event : LoopState Args → Event Args
  usage_event s =
      if ltb 0 s.tool_stats.malformed_calls
      then Event.usage s.total_usage (
          some (record {
            malformed_calls = s.tool_stats.malformed_calls;
            repaired_calls = s.tool_stats.repaired_calls;
            abandoned_calls = s.tool_stats.abandoned_calls;
          }))
      else Event.usage s.total_usage none

  wrong_type : String → String
  wrong_type type_name = concat ("arguments must be a JSON object, got " ∷ type_name ∷ [])

  loaded_arguments : Loaded Args → Args × Option String
  unfolding wrong_type
  loaded_arguments (invalid e) =
      (env.no_args, some (concat ("arguments are not valid JSON: " ∷ e ∷ [])))
  loaded_arguments (Loaded.object args) = (args, none)
  loaded_arguments (not_object t) = (env.no_args, some (wrong_type t))

  -- `_parse_arguments`
  unfoldable pub parse_arguments : RawArguments Args → Args × Option String
  unfolding loaded_arguments wrong_type
  parse_arguments (RawArguments.object args) = (args, none)
  parse_arguments (json raw) = loaded_arguments (env.loads (if str_eq raw "" then "{}" else raw))
  parse_arguments (other t) = (env.no_args, some (wrong_type t))

  -- `validation_errors` of a call
  unfoldable pub validation_errors : String → Args → Option String → List String
  validation_errors name arguments (some parse_error) = parse_error ∷ []
  validation_errors name arguments none = env.validate_args name arguments

  unfoldable pub call_id_of : LoopState Args → Option String → String
  unfolding or_default
  call_id_of s id = or_default id (concat ("call_" ∷ str (length s.messages) ∷ []))

  -- `_append_tool_message`
  unfoldable pub append_tool_message : LoopState Args → String → String → String → LoopState Args
  append_tool_message s call_id name content =
      let message = tool call_id name (tool_content env.tool_result_max_chars name content) in
      record s {
        messages = s.messages ++ message ∷ [];
        tool_messages = s.tool_messages ++ message ∷ [];
      }

  -- A malformed call while repairs are left.
  unfoldable pub repair_call :
      LoopState Args → World → String → String → Args → String → Progress World Args
  repair_call s w call_id name arguments detail =
      let left = s.repair_budget_left - 1 in
      let counted = record s {
        tool_stats = record (s.tool_stats) { malformed_calls = s.tool_stats.malformed_calls + 1 };
        repair_budget_left = left;
        pending_repairs = add name s.pending_repairs;
      } in
      record {
        state = append_tool_message counted call_id name (
            concat (
              "Tool call rejected — invalid arguments: "
              ∷ detail
              ∷ ". Repair attempt "
              ∷ str (max_repair_attempts - left)
              ∷ "/2 for this run: re-issue the call with corrected arguments."
              ∷ []));
        world = w;
        events =
            tool_call call_id name arguments
            ∷ tool_result call_id name Status.error
                (concat ("invalid arguments (repairing): " ∷ detail ∷ [])) none
            ∷ [];
        sent = [];
        raises = none;
      }

  -- A malformed call after the last repair.
  unfoldable pub abandon_call :
      LoopState Args → World → String → String → Args → String → Progress World Args
  abandon_call s w call_id name arguments detail =
      let counted = record s {
        tool_stats = record (s.tool_stats) {
          malformed_calls = s.tool_stats.malformed_calls + 1;
          abandoned_calls = s.tool_stats.abandoned_calls + 1;
        };
        pending_repairs = discard name s.pending_repairs;
      } in
      record {
        state = append_tool_message counted call_id name (
            concat (
              "Tool call abandoned — this run's repair budget (2) is exhausted (" ∷ detail
              ∷ "). Continue the task without this call; tell the user what could not be done."
              ∷ []));
        world = w;
        events =
            tool_call call_id name arguments
            ∷ tool_result call_id name Status.error
                (concat ("step failed after 2 repair attempts: " ∷ detail ∷ [])) none
            ∷ [];
        sent = [];
        raises = none;
      }

  unfoldable pub count_repaired : LoopState Args → String → LoopState Args
  count_repaired s name =
      if contains name s.pending_repairs
      then record s {
        tool_stats = record (s.tool_stats) { repaired_calls = s.tool_stats.repaired_calls + 1 };
        pending_repairs = discard name s.pending_repairs;
      }
      else s

  is_ok : Status → Bool
  is_ok ok = true
  is_ok _ = false

  -- A valid call: the tool runs.
  unfoldable pub execute_call :
      LoopState Args → World → String → String → Args → Progress World Args
  unfolding count_repaired is_ok
  execute_call s w call_id name arguments =
      let (result, w') = env.run_tool w name arguments in
      record {
        state = append_tool_message (count_repaired s name) call_id name result.content;
        world = w';
        events =
            tool_call call_id name arguments
            ∷ ((if str_eq name "plan" && is_ok result.status
                  then plan (env.plan_steps arguments) ∷ []
                  else [])
                ++ tool_result call_id name result.status result.summary result.confirm_token ∷ []);
        sent = [];
        raises = none;
      }

  -- The body of `for call in tool_calls`, after parsing and validation.
  unfoldable pub dispatch_call :
      LoopState Args → World → String → String → Args → List String → Progress World Args
  dispatch_call s w call_id name arguments [] = execute_call s w call_id name arguments
  dispatch_call s w call_id name arguments (e ∷ es) =
      if ltb 0 s.repair_budget_left
      then repair_call s w call_id name arguments (join (e ∷ es))
      else abandon_call s w call_id name arguments (join (e ∷ es))

  unfoldable pub count_call : LoopState Args → LoopState Args
  count_call s = record s {
    tool_stats = record (s.tool_stats) { tool_calls = s.tool_stats.tool_calls + 1 };
  }

  unfoldable pub run_call : LoopState Args → World → Call Args → Progress World Args
  run_call s w call =
      let (arguments, parse_error) = parse_arguments call.arguments in
      dispatch_call (count_call s) w (call_id_of s call.id) call.name arguments
        (validation_errors call.name arguments parse_error)

  unfoldable pub run_calls : LoopState Args → World → List (Call Args) → Progress World Args
  run_calls s w [] = record { state = s; world = w; events = []; sent = []; raises = none }
  run_calls s w (call ∷ calls) =
      let first = run_call s w call in
      let rest = run_calls first.state first.world calls in
      record rest { events = first.events ++ rest.events }

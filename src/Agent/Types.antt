-- ===== src/Agent/Types.antt =====
-- The data of src/suiban/agent/loop.py and agent/events.py. What the loop calls (the slot's completion
-- endpoint, JSON parsing, the tool registry) is an `Environment`; `World` is its state, and `Args` the
-- parsed arguments of a call.
use suiban.Prelude.{ℕ, Bool, Option, List, String}

pub data Status : Type 0 where
  ok error denied : Status

pub record ToolResult : Type 0 where
  pub status : Status
  pub content : String
  pub summary : String
  pub confirm_token : Option String

pub record Usage : Type 0 where
  pub prompt_tokens : ℕ
  pub completion_tokens : ℕ
  pub thinking_tokens : ℕ

-- The token counts of a response, as `int` reads them: all of them, or those before one on which it
-- raises, and the exception.
pub data Counted : Type 0 where
  counted : Usage → Counted
  uncountable : Usage → (exc : String) → Counted

-- The counters that a usage event carries after malformed calls.
pub record Malformed : Type 0 where
  pub malformed_calls : ℕ
  pub repaired_calls : ℕ
  pub abandoned_calls : ℕ

-- `function.arguments` of a call: an object, a JSON text, or something else, with its type's name.
pub data RawArguments (Args : Type 0) : Type 0 where
  object : Args → RawArguments Args
  json : String → RawArguments Args
  other : String → RawArguments Args

pub record Call (Args : Type 0) : Type 0 where
  pub id : Option String
  pub name : String
  pub arguments : RawArguments Args

pub record ModelMessage (Args : Type 0) : Type 0 where
  pub content : String
  pub tool_calls : List (Call Args)

-- What reading `choices[0]["message"]` and its fields meets: nothing there; a first choice that is no
-- object, which a round catches and the wrap-up does not; a message that has no fields, as null, which
-- raises; or a message. Its tool calls are objects here.
pub data Choice (Args : Type 0) : Type 0 where
  no_message : Choice Args
  no_choice : (exc : String) → Choice Args
  bad_message : (exc : String) → Choice Args
  chosen : ModelMessage Args → Choice Args

pub record Response (Args : Type 0) : Type 0 where
  pub usage : Counted
  pub message : Choice Args
  pub finish_reason : Option String

pub data Outcome (Args : Type 0) : Type 0 where
  raised : String → Outcome Args
  answered : Response Args → Outcome Args

-- `json.loads`: a syntax error with its text, an object, or another value with its type's name.
pub data Loaded (Args : Type 0) : Type 0 where
  invalid : String → Loaded Args
  object : Args → Loaded Args
  not_object : String → Loaded Args

pub data Message (Args : Type 0) : Type 0 where
  given : String → Message Args
  assistant : String → List (Call Args) → Message Args
  tool : (call_id name content : String) → Message Args
  system : String → Message Args

-- The part of a request that the loop decides.
pub record Payload (Args : Type 0) : Type 0 where
  pub messages : List (Message Args)
  pub allow_tools : Bool

pub data Event (Args : Type 0) : Type 0 where
  delta : String → Event Args
  thinking_status : ℕ → Event Args
  tool_call : (call_id name : String) → Args → Event Args
  tool_result : (call_id name : String) → Status → (summary : String) → Option String → Event Args
  plan : List String → Event Args
  ceiling_notice : ℕ → Event Args
  usage : Usage → Option Malformed → Event Args
  error : String → Event Args
  done : String → Event Args

pub record Environment (World Args : Type 0) : Type 0 where
  pub no_args : Args
  pub complete : World → Payload Args → Outcome Args × World
  pub loads : String → Loaded Args
  pub validate_args : String → Args → List String
  pub run_tool : World → String → Args → ToolResult × World
  pub plan_steps : Args → List String
  pub max_iterations : ℕ
  pub tool_result_max_chars : Option ℕ

pub record ToolStats : Type 0 where
  pub tool_calls : ℕ
  pub malformed_calls : ℕ
  pub repaired_calls : ℕ
  pub abandoned_calls : ℕ

-- The fields of `AgentLoop` that a run changes.
pub record LoopState (Args : Type 0) : Type 0 where
  pub messages : List (Message Args)
  pub tool_messages : List (Message Args)
  pub final_text : String
  pub finish_reason : String
  pub error_message : Option String
  pub total_usage : Usage
  pub tool_stats : ToolStats
  pub repair_budget_left : ℕ
  pub pending_repairs : List String

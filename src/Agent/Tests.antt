-- ===== src/Agent/Tests.antt =====
-- A structured completion whose first output is refused, and a run against a scripted slot: a malformed call, then a web page, and so on until the ceiling.
use suiban.Prelude.{ℕ, suc, ◌≡◌, String, true, none, some, List, [], ◌∷◌, All, ◌==◌, if◌then◌else◌}
use suiban.Agent.Types.{
  counted, chosen, ok, RawArguments, Outcome, answered, Loaded, Message, given, Payload,
  Environment,
}
use suiban.Agent.Calls.{no_usage}
use suiban.Agent.Loop.{run}
use suiban.Agent.Repair.{IsBalanced, run-IsBalanced}
use suiban.Agent.Stream.{Closes, read, budgeted, run-read}
use text.Mathlib.Text.{◌==◌ as str_eq}
use suiban.Json.{obj, str, member, no_member}
use suiban.Json.Schema.{Schema, plain, property, no_property}
use suiban.Slap.Shapes.{any_rules, some_text}
use suiban.Agent.Structured.{
  Decoded, syntax_error, decoded, Mismatch, content_text, Reply, responded,
}
use suiban.Agent.Fence.{IsFenced, run-IsFenced}

-- Arguments are a number, and zero is refused. The world counts the requests.
abbrev slot : ℕ → Payload ℕ → Outcome ℕ × ℕ
slot w payload = (
  answered (record {
    usage = counted no_usage;
    message = chosen (record {
      content = "";
      tool_calls =
          if payload.allow_tools
          then record { id = none; name = "browse_t1"; arguments = RawArguments.object w } ∷ []
          else [];
    });
    finish_reason = none;
  }),
  suc w,
)

abbrev environment : Environment ℕ ℕ
environment = record {
  no_args = 0;
  complete = slot;
  loads = λ text. Loaded.invalid text;
  validate_args = λ name args. if args == 0 then "url is missing" ∷ [] else [];
  run_tool = λ w name args.
      (record { status = ok; content = "a page"; summary = "a page"; confirm_token = none }, w);
  plan_steps = λ args. [];
  max_iterations = 3;
  tool_result_max_chars = some 2000;
}

abbrev prompt : List (Message ℕ)
prompt = given "find the page" ∷ []

run-read_example :
    let p = run environment prompt 0 in
    Closes environment p.raises (read none p.events) p.state.finish_reason
    × (budgeted 3 p.sent ≡ true)
run-read_example = run-read environment prompt 0

run-IsBalanced_example : IsBalanced (run environment prompt 0).state
run-IsBalanced_example = run-IsBalanced environment prompt 0

run-IsFenced_example : All (IsFenced (some 2000)) (run environment prompt 0).state.messages
run-IsFenced_example = run-IsFenced environment prompt 0 (tt, tt)

abbrev loads_one : String → Decoded
loads_one t =
    if str_eq t "good"
    then decoded (obj (member "title" (str "x") no_member))
    else syntax_error "no JSON"

abbrev titled : Schema
titled =
    plain (record any_rules { required = "title" ∷ [] }) (property "title" some_text no_property)

-- The first output is bad, the second good.
abbrev reply_to : ℕ → List String → Reply × ℕ
reply_to w messages = (
  responded (record {
    usage = counted no_usage;
    content = content_text (if w == 0 then "bad" else "good");
  }),
  suc w,
)

abbrev spoken_as : String → String → String
spoken_as role content = content

abbrev mismatch_text : Mismatch → String
mismatch_text m = "wrong"

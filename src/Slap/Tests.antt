-- ===== src/Slap/Tests.antt =====
-- Witnesses and runs of the message protocol's model.
use suiban.Prelude.{◌≡◌, ◌↔◌, refl, Bool, true, none, some, [], ◌∷◌, String, arith, List}
use suiban.Prelude.Int.{pos}
use text.Mathlib.Text.{◌==◌ as str_eq}
use suiban.Json.{Value, obj, str, int, bool, member, no_member}
use suiban.Json.Schema.{Schema, integer, is_below}
use suiban.Tools.Arguments.{validate}
use suiban.Slap.Trace.{get_trace}
use suiban.Slap.Recall.{recent, replay, get_trace-recent}
use suiban.Slap.Validation.{validate_instance}
use suiban.Slap.Accepts.{Accepts, validate_instance-Accepts}
use suiban.Slap.Mirror.{IsBasic, validate_mirrors}
use suiban.Slap.Messages.{
  MessageError, not_slap, unsupported_version, unknown_operation, major, protocol_errors,
  version_errors, validate_message, is_valid,
}
use suiban.Slap.Shapes.{of_kind}
use suiban.Slap.Operations.{load_schema, assign_schema}
use suiban.Slap.Builders
use suiban.Slap.Builders.{Envelope}
use suiban.Slap.Requests.{assign_request, FitsRequest, build, build-is_valid}
use suiban.Slap.Valid.{IsMessage, validate_message-IsMessage}

-- The only pattern of the schemas, on the only version.
abbrev matches_one : String → String → Bool
matches_one pattern t = str_eq t "1.0"

abbrev silent : MessageError → String
silent not_slap = "not SLAP"
silent unsupported_version = "unsupported version"
silent unknown_operation = "unknown operation"
silent e = "another"

abbrev mail : Envelope
mail = record {
  message_id = "m-1";
  task_id = "t-1";
  parent_task = none;
  depends_on = some ("t-0" ∷ []);
  created_at = none;
}

abbrev small_task : Builders.Assign
small_task = record {
  role = "coder";
  goal = "fix the parser";
  base_revision = none;
  scope = some ("src" ∷ []);
  inputs = none;
  expected_artifacts = none;
  checks = none;
  system_prompt = none;
  limits = some (obj (member "maximum_rounds" (int (pos 4)) no_member));
}

abbrev bad_limits : Value
bad_limits = obj (member "maximum_rounds" (bool true) (member "speed" (str "fast") no_member))

abbrev count_schema : Schema
count_schema = of_kind integer

major_test : major "1.0.3" ≡ "1"
unfolding major
major_test = refl

foreign_test :
    validate_message matches_one load_schema silent (obj (member "version" (str "2.0") no_member))
    ≡ not_slap ∷ unsupported_version ∷ unknown_operation ∷ []
unfolding validate_message protocol_errors version_errors major
foreign_test = refl

validate_instance-Accepts_example :
    (validate_instance matches_one (Builders.build_assign mail small_task) assign_schema "$" ≡ [])
    ↔ Accepts matches_one assign_schema (Builders.build_assign mail small_task)
validate_instance-Accepts_example =
    validate_instance-Accepts matches_one (Builders.build_assign mail small_task) assign_schema "$"

validate_mirrors_example :
    (validate (bool true) count_schema "$" ≡ [])
    ↔ (validate_instance matches_one (bool true) count_schema "$" ≡ [])
unfolding IsBasic
validate_mirrors_example =
    validate_mirrors matches_one (bool true) count_schema "$" ((refl, refl, refl), tt)

validate_message-IsMessage_example :
    (validate_message matches_one load_schema silent (Builders.build_assign mail small_task) ≡ [])
    ↔ IsMessage matches_one load_schema silent (Builders.build_assign mail small_task)
validate_message-IsMessage_example =
    validate_message-IsMessage matches_one load_schema silent
      (Builders.build_assign mail small_task)

build-is_valid_example :
    is_valid matches_one load_schema silent (build mail (assign_request small_task)) ≡ true
unfolding FitsRequest Accepts is_below
build-is_valid_example =
    build-is_valid matches_one silent mail (assign_request small_task) refl
      (omega arith, omega arith)
      (
        omega arith,
        (omega arith, tt),
        tt,
        (
          tt,
          (
            refl,
            (
              tt,
              (
                tt,
                (
                  tt,
                  (
                    (
                      tt,
                      (
                        (refl, tt),
                        (tt, ((tt, (refl, (tt, (tt, ((refl, tt), (tt, tt)))))), (tt, (tt, tt)))),
                      ),
                    ),
                    tt,
                  ),
                ),
              ),
            ),
          ),
        ),
      )

abbrev traces : List (String × List Value)
traces =
    ("b", str "third" ∷ [])
    ∷ ("a", str "second" ∷ [])
    ∷ ("a", str "first" ∷ [])
    ∷ ("c", str "zeroth" ∷ [])
    ∷ []

recalled_test : recent [] 2 "a" traces ≡ str "second" ∷ []
unfolding recent
recalled_test = refl

evicted_test : recent [] 2 "c" traces ≡ []
unfolding recent
evicted_test = refl

get_trace-recent_example : get_trace (replay 2 traces) "a" ≡ recent [] 2 "a" traces
get_trace-recent_example = get_trace-recent 2 traces "a"

-- ===== src/Slap/Operations.antt =====
-- The schemas of the nine operations (src/suiban/slap/schemas).
use suiban.Prelude.{true, Option, none, some, List, [], ◌∷◌, String, if◌then◌else◌}
use text.Mathlib.Text.{◌==◌ as str_eq}
use suiban.Slap.Messages.{operations}
use suiban.Json.Schema.{
  object, array, integer, number, boolean, Schema, plain, with_items, Properties, property,
  no_property,
}
use suiban.Slap.Shapes.{
  any_rules, of_kind, any_text, some_text, list_of, at_least_zero, share, one_of, constant_text,
  version_schema, envelope_keys, operation_schema,
}

abbrev pub outcomes : List String
outcomes = "completed" ∷ "partial" ∷ "failed" ∷ []

abbrev pub verdicts : List String
verdicts = "approved" ∷ "changes_required" ∷ "rejected" ∷ []

abbrev pub decisions : List String
decisions = "accept" ∷ "reject" ∷ "retry" ∷ "escalate" ∷ []

abbrev pub task_states : List String
task_states =
    "pending" ∷ "assigned" ∷ "running" ∷ "review" ∷ "accepted" ∷ "rejected" ∷ "cancelled" ∷ "failed"
    ∷ []

abbrev pub limits_schema : Schema
limits_schema =
    plain (record any_rules { expected = some object; closed = true })
      (property "maximum_files" (at_least_zero integer) (
        property "maximum_rounds" (at_least_zero integer) (
          property "maximum_seconds" (at_least_zero number)
            (property "maximum_tokens" (at_least_zero integer) no_property))))

abbrev pub claim_schema : Schema
claim_schema =
    plain
      (record any_rules {
        expected = some object;
        required = "claim" ∷ "evidence" ∷ [];
        closed = true;
      })
      (property "claim" some_text (
        property "evidence"
          (with_items (record any_rules { expected = some array; min_items = some 1 }) no_property
            some_text)
          no_property))

abbrev pub location_schema : Schema
location_schema =
    plain (record any_rules { expected = some object; closed = true })
      (property "file" any_text (property "line" (of_kind integer) no_property))

abbrev pub finding_schema : Schema
finding_schema =
    plain
      (record any_rules {
        expected = some object;
        required = "severity" ∷ "category" ∷ [];
        closed = true;
      })
      (property "severity" (one_of ("low" ∷ "medium" ∷ "high" ∷ "critical" ∷ [])) (
        property "location" location_schema (
          property "category" any_text (
            property "evidence" (list_of some_text)
              (property "recommended_action" any_text no_property)))))

abbrev pub agent_schema : Schema
agent_schema =
    plain (record any_rules { expected = some object; closed = true })
      (property "agent_id" any_text (
        property "model" any_text
          (property "state" any_text (property "workload" (of_kind number) no_property))))

abbrev pub assign_properties : Properties
assign_properties =
    (property "role" any_text (
      property "goal" some_text (
        property "base_revision" any_text (
          property "scope" (list_of some_text) (
            property "inputs" (list_of some_text) (
              property "expected_artifacts" (list_of any_text) (
                property "checks" (list_of any_text) (
                  property "system_prompt" any_text
                    (property "limits" limits_schema no_property)))))))))

abbrev pub assign_keys : List String
assign_keys = "role" ∷ "goal" ∷ []

abbrev pub assign_schema : Schema
assign_schema = operation_schema "assign" assign_keys assign_properties

abbrev pub result_properties : Properties
result_properties =
    (property "status" (one_of outcomes) (
      property "artifacts" (list_of any_text) (
        property "claims" (list_of claim_schema) (
          property "risks" (list_of any_text)
            (property "summary" any_text (property "confidence" share no_property))))))

abbrev pub result_keys : List String
result_keys = "status" ∷ []

abbrev pub result_schema : Schema
result_schema = operation_schema "result" result_keys result_properties

abbrev pub review_properties : Properties
review_properties =
    (property "target" some_text (
      property "status" (one_of verdicts)
        (property "findings" (list_of finding_schema) (property "confidence" share no_property))))

abbrev pub review_keys : List String
review_keys = "target" ∷ "status" ∷ []

abbrev pub review_schema : Schema
review_schema = operation_schema "review" review_keys review_properties

abbrev pub decide_properties : Properties
decide_properties =
    (property "decision" (one_of decisions) (
      property "accepted_artifacts" (list_of any_text) (
        property "rejected_artifacts" (list_of any_text)
          (property "next_tasks" (list_of any_text) (property "reason" any_text no_property)))))

abbrev pub decide_keys : List String
decide_keys = "decision" ∷ []

abbrev pub decide_schema : Schema
decide_schema = operation_schema "decide" decide_keys decide_properties

abbrev pub error_properties : Properties
error_properties =
    (property "code" some_text (
      property "message" any_text (
        property "retriable" (of_kind boolean)
          (property "partial_artifacts" (list_of any_text) no_property))))

abbrev pub error_keys : List String
error_keys = "code" ∷ []

abbrev pub error_schema : Schema
error_schema = operation_schema "error" error_keys error_properties

abbrev pub cancel_properties : Properties
cancel_properties = (property "reason" any_text no_property)

abbrev pub cancel_keys : List String
cancel_keys = []

abbrev pub cancel_schema : Schema
cancel_schema = operation_schema "cancel" cancel_keys cancel_properties

abbrev pub heartbeat_properties : Properties
heartbeat_properties = (property "progress" share (property "note" any_text no_property))

abbrev pub heartbeat_keys : List String
heartbeat_keys = []

abbrev pub heartbeat_schema : Schema
heartbeat_schema = operation_schema "heartbeat" heartbeat_keys heartbeat_properties

abbrev pub capability_properties : Properties
capability_properties =
    (property "model" some_text (
      property "model_family" any_text (
        property "parameters" any_text (
          property "quantization" any_text (
            property "context_limit" (at_least_zero integer) (
              property "modalities" (list_of any_text) (
                property "tools" (list_of any_text) (
                  property "structured_output_reliability" share (
                    property "latency_ms_estimate" (at_least_zero number) (
                      property "memory_mb_estimate" (at_least_zero number) (
                        property "compute_cost_estimate" (at_least_zero number) (
                          property "task_categories" (list_of any_text) (
                            property "max_task_complexity" any_text (
                              property "current_workload" (at_least_zero number) (
                                property "backend" any_text
                                  (property "location" any_text no_property))))))))))))))))

abbrev pub capability_keys : List String
capability_keys = "model" ∷ []

abbrev pub capability_schema : Schema
capability_schema = operation_schema "capability" capability_keys capability_properties

abbrev pub status_properties : Properties
status_properties =
    (property "task_state" (one_of task_states)
      (property "agents" (list_of agent_schema) (property "note" any_text no_property)))

abbrev pub status_keys : List String
status_keys = "task_state" ∷ []

abbrev pub status_schema : Schema
status_schema = operation_schema "status" status_keys status_properties

-- The base of the schemas, which has no operation of its own and is not closed.
abbrev pub envelope_schema : Schema
envelope_schema =
    plain (record any_rules { expected = some object; required = envelope_keys [] })
      (property "protocol" (constant_text "SLAP") (
        property "version" version_schema (
          property "message_id" some_text (
            property "task_id" some_text (
              property "operation" (one_of operations) (
                property "parent_task" any_text (
                  property "depends_on" (list_of any_text)
                    (property "created_at" any_text no_property))))))))

abbrev pub schemas : List (String × Schema)
schemas =
    ("envelope", envelope_schema)
    ∷ ("assign", assign_schema)
    ∷ ("result", result_schema)
    ∷ ("review", review_schema)
    ∷ ("decide", decide_schema)
    ∷ ("error", error_schema)
    ∷ ("cancel", cancel_schema)
    ∷ ("heartbeat", heartbeat_schema)
    ∷ ("capability", capability_schema)
    ∷ ("status", status_schema)
    ∷ []

abbrev pub stored : List (String × Schema) → String → Option Schema
stored [] operation = none
stored ((name, schema) ∷ rest) operation =
    if str_eq name operation then some schema else stored rest operation

-- The schema of an operation, or of the base, and nothing where the source raises.
unfoldable pub load_schema : String → Option Schema
load_schema operation = stored schemas operation

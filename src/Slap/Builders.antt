-- ===== src/Slap/Builders.antt =====
-- The builders of protocol messages (src/suiban/slap/builders.py). Each takes its envelope and the fields
-- of its operation, optional ones as an `Option`; numbers and dicts are given as values.
use suiban.Prelude.{Bool, Option, none, some, List, [], ◌∷◌, String, if◌then◌else◌}
use text.Mathlib.Text.{◌==◌ as str_eq}
use suiban.Json.{
  Value, obj, arr, str, bool, Members, member, no_member, Elements, element, no_element,
}
use suiban.Slap.Messages.{version}

pub record Envelope : Type 0 where
  pub message_id : String
  pub task_id : String
  pub parent_task : Option String
  pub depends_on : Option (List String)
  pub created_at : Option String

unfoldable pub texts : List String → Elements
texts [] = no_element
texts (t ∷ ts) = element (str t) (texts ts)

unfoldable pub listed : List Value → Elements
listed [] = no_element
listed (v ∷ vs) = element v (listed vs)

abbrev pub optional {ℓ} : {A : Type ℓ} → (A → Value) → Option A → Option Value
optional f none = none
optional f (some a) = some (f a)

abbrev pub text_value : Option String → Option Value
text_value t = optional str t

abbrev pub texts_value : Option (List String) → Option Value
texts_value ts = optional (λ ts. arr (texts ts)) ts

abbrev pub list_value : Option (List Value) → Option Value
list_value vs = optional (λ vs. arr (listed vs)) vs

-- `d[key] = value`
unfoldable pub put : String → Value → Members → Members
put k v no_member = member k v no_member
put k v (member j w ms) = if str_eq j k then member j v ms else member j w (put k v ms)

-- A field of `_set`, which drops None.
unfoldable pub put_given : String → Option Value → Members → Members
put_given k none ms = ms
put_given k (some v) ms = put k v ms

-- `_set`
unfoldable pub set_fields : Members → List (String × Option Value) → Members
set_fields ms [] = ms
set_fields ms ((k, v) ∷ fields) = set_fields (put_given k v ms) fields

-- `_envelope`
unfoldable pub envelope : String → Envelope → Members
envelope operation e = put_given "created_at" (text_value e.created_at) (
    put_given "depends_on" (texts_value e.depends_on) (
      put_given "parent_task" (text_value e.parent_task) (
        member "protocol" (str "SLAP") (
          member "version" (str version) (
            member "message_id" (str e.message_id)
              (member "task_id" (str e.task_id) (member "operation" (str operation) no_member)))))))

pub record Assign : Type 0 where
  pub role : String
  pub goal : String
  pub base_revision : Option String
  pub scope : Option (List String)
  pub inputs : Option (List String)
  pub expected_artifacts : Option (List String)
  pub checks : Option (List String)
  pub system_prompt : Option String
  pub limits : Option Value

abbrev pub assign_fields : Assign → List (String × Option Value)
assign_fields f =
    ("role", some (str f.role))
    ∷ ("goal", some (str f.goal))
    ∷ ("base_revision", text_value f.base_revision)
    ∷ ("scope", texts_value f.scope)
    ∷ ("inputs", texts_value f.inputs)
    ∷ ("expected_artifacts", texts_value f.expected_artifacts)
    ∷ ("checks", texts_value f.checks)
    ∷ ("system_prompt", text_value f.system_prompt)
    ∷ ("limits", f.limits)
    ∷ []

unfoldable pub build_assign : Envelope → Assign → Value
build_assign e f = obj (set_fields (envelope "assign" e) (assign_fields f))

pub record Result : Type 0 where
  pub status : String
  pub artifacts : Option (List String)
  pub claims : Option (List Value)
  pub risks : Option (List String)
  pub summary : Option String
  pub confidence : Option Value

abbrev pub result_fields : Result → List (String × Option Value)
result_fields f =
    ("status", some (str f.status))
    ∷ ("artifacts", texts_value f.artifacts)
    ∷ ("claims", list_value f.claims)
    ∷ ("risks", texts_value f.risks)
    ∷ ("summary", text_value f.summary)
    ∷ ("confidence", f.confidence)
    ∷ []

unfoldable pub build_result : Envelope → Result → Value
build_result e f = obj (set_fields (envelope "result" e) (result_fields f))

pub record Review : Type 0 where
  pub target : String
  pub status : String
  pub findings : Option (List Value)
  pub confidence : Option Value

abbrev pub review_fields : Review → List (String × Option Value)
review_fields f =
    ("target", some (str f.target))
    ∷ ("status", some (str f.status))
    ∷ ("findings", list_value f.findings)
    ∷ ("confidence", f.confidence)
    ∷ []

unfoldable pub build_review : Envelope → Review → Value
build_review e f = obj (set_fields (envelope "review" e) (review_fields f))

pub record Decide : Type 0 where
  pub decision : String
  pub accepted_artifacts : Option (List String)
  pub rejected_artifacts : Option (List String)
  pub next_tasks : Option (List String)
  pub reason : Option String

abbrev pub decide_fields : Decide → List (String × Option Value)
decide_fields f =
    ("decision", some (str f.decision))
    ∷ ("accepted_artifacts", texts_value f.accepted_artifacts)
    ∷ ("rejected_artifacts", texts_value f.rejected_artifacts)
    ∷ ("next_tasks", texts_value f.next_tasks)
    ∷ ("reason", text_value f.reason)
    ∷ []

unfoldable pub build_decide : Envelope → Decide → Value
build_decide e f = obj (set_fields (envelope "decide" e) (decide_fields f))

pub record Error : Type 0 where
  pub code : String
  pub message : Option String
  pub retriable : Option Bool
  pub partial_artifacts : Option (List String)

abbrev pub error_fields : Error → List (String × Option Value)
error_fields f =
    ("code", some (str f.code))
    ∷ ("message", text_value f.message)
    ∷ ("retriable", optional bool f.retriable)
    ∷ ("partial_artifacts", texts_value f.partial_artifacts)
    ∷ []

unfoldable pub build_error : Envelope → Error → Value
build_error e f = obj (set_fields (envelope "error" e) (error_fields f))

pub record Cancel : Type 0 where
  pub reason : Option String

abbrev pub cancel_fields : Cancel → List (String × Option Value)
cancel_fields f = ("reason", text_value f.reason) ∷ []

unfoldable pub build_cancel : Envelope → Cancel → Value
build_cancel e f = obj (set_fields (envelope "cancel" e) (cancel_fields f))

pub record Heartbeat : Type 0 where
  pub progress : Option Value
  pub note : Option String

abbrev pub heartbeat_fields : Heartbeat → List (String × Option Value)
heartbeat_fields f = ("progress", f.progress) ∷ ("note", text_value f.note) ∷ []

unfoldable pub build_heartbeat : Envelope → Heartbeat → Value
build_heartbeat e f = obj (set_fields (envelope "heartbeat" e) (heartbeat_fields f))

pub record Capability : Type 0 where
  pub model : String
  pub model_family : Option String
  pub parameters : Option String
  pub quantization : Option String
  pub context_limit : Option Value
  pub modalities : Option (List String)
  pub tools : Option (List String)
  pub structured_output_reliability : Option Value
  pub latency_ms_estimate : Option Value
  pub memory_mb_estimate : Option Value
  pub compute_cost_estimate : Option Value
  pub task_categories : Option (List String)
  pub max_task_complexity : Option String
  pub current_workload : Option Value
  pub backend : Option String
  pub location : Option String

abbrev pub capability_fields : Capability → List (String × Option Value)
capability_fields f =
    ("model", some (str f.model))
    ∷ ("model_family", text_value f.model_family)
    ∷ ("parameters", text_value f.parameters)
    ∷ ("quantization", text_value f.quantization)
    ∷ ("context_limit", f.context_limit)
    ∷ ("modalities", texts_value f.modalities)
    ∷ ("tools", texts_value f.tools)
    ∷ ("structured_output_reliability", f.structured_output_reliability)
    ∷ ("latency_ms_estimate", f.latency_ms_estimate)
    ∷ ("memory_mb_estimate", f.memory_mb_estimate)
    ∷ ("compute_cost_estimate", f.compute_cost_estimate)
    ∷ ("task_categories", texts_value f.task_categories)
    ∷ ("max_task_complexity", text_value f.max_task_complexity)
    ∷ ("current_workload", f.current_workload)
    ∷ ("backend", text_value f.backend)
    ∷ ("location", text_value f.location)
    ∷ []

unfoldable pub build_capability : Envelope → Capability → Value
build_capability e f = obj (set_fields (envelope "capability" e) (capability_fields f))

pub record Status : Type 0 where
  pub task_state : String
  pub agents : Option (List Value)
  pub note : Option String

abbrev pub status_fields : Status → List (String × Option Value)
status_fields f =
    ("task_state", some (str f.task_state))
    ∷ ("agents", list_value f.agents)
    ∷ ("note", text_value f.note)
    ∷ []

unfoldable pub build_status : Envelope → Status → Value
build_status e f = obj (set_fields (envelope "status" e) (status_fields f))

-- ===== src/Slap/Requests.antt =====
-- Messages made by the builders, through the validator of whole messages (src/suiban/slap/builders.py,
-- slap/validation.py, slap/schemas).
use suiban.Prelude.{◌≡◌, refl, ap, sym, ◌∙◌, subst, Bool, true, Option, some, List, [], String}
use suiban.Json.{Value, obj, str, lookup}
use suiban.Json.Schema.{Schema}
use suiban.Slap.Accepts.{Accepts}
use suiban.Slap.Builders
use suiban.Slap.Builders.{Envelope, set_fields, envelope}
use suiban.Slap.Messages.{
  version, MessageError, is_str, schema_of, major, validate_message, is_valid,
}
use suiban.Slap.Shapes.{version_pattern}
use suiban.Slap.Operations.{load_schema}
use suiban.Slap.Looks.{look, lookup-built}
use suiban.Slap.Parts.{IsAddressed}
use suiban.Slap.Built.{
  FitsAssign, FitsResult, FitsReview, FitsDecide, build_assign-Accepts, build_result-Accepts,
  build_review-Accepts, build_decide-Accepts,
}
use suiban.Slap.Signals.{
  FitsError, FitsCancel, FitsHeartbeat, FitsCapability, FitsStatus, build_error-Accepts,
  build_cancel-Accepts, build_heartbeat-Accepts, build_capability-Accepts, build_status-Accepts,
}
use suiban.Slap.Valid.{SpeaksVersion, FitsSchema, IsMessage, validate_message-IsMessage}

-- A call of one of the nine builders, but for its envelope.
pub data Request : Type 0 where
  assign_request : Builders.Assign → Request
  result_request : Builders.Result → Request
  review_request : Builders.Review → Request
  decide_request : Builders.Decide → Request
  error_request : Builders.Error → Request
  cancel_request : Builders.Cancel → Request
  heartbeat_request : Builders.Heartbeat → Request
  capability_request : Builders.Capability → Request
  status_request : Builders.Status → Request

-- What the call returns.
unfoldable pub build : Envelope → Request → Value
build e (assign_request f) = Builders.build_assign e f
build e (result_request f) = Builders.build_result e f
build e (review_request f) = Builders.build_review e f
build e (decide_request f) = Builders.build_decide e f
build e (error_request f) = Builders.build_error e f
build e (cancel_request f) = Builders.build_cancel e f
build e (heartbeat_request f) = Builders.build_heartbeat e f
build e (capability_request f) = Builders.build_capability e f
build e (status_request f) = Builders.build_status e f

module _ (matches : String → String → Bool) where
  -- What the fields of a call must be like.
  unfoldable pub FitsRequest : Request → Type 0
  FitsRequest (assign_request f) = FitsAssign matches f
  FitsRequest (result_request f) = FitsResult matches f
  FitsRequest (review_request f) = FitsReview matches f
  FitsRequest (decide_request f) = FitsDecide matches f
  FitsRequest (error_request f) = FitsError matches f
  FitsRequest (cancel_request f) = FitsCancel matches f
  FitsRequest (heartbeat_request f) = FitsHeartbeat matches f
  FitsRequest (capability_request f) = FitsCapability matches f
  FitsRequest (status_request f) = FitsStatus matches f

  module _ (text : MessageError → String) where
    built-IsMessage :
        (operation : String) (e : Envelope) (fields : List (String × Option Value))
        (schema : Schema)
        → load_schema operation ≡ some schema
        → look operation e fields "protocol" ≡ some (str "SLAP")
        → look operation e fields "version" ≡ some (str version)
        → look operation e fields "operation" ≡ some (str operation)
        → Accepts matches schema (obj (set_fields (envelope operation e) fields))
        → IsMessage matches load_schema text (obj (set_fields (envelope operation e) fields))
    unfolding schema_of major
    built-IsMessage operation e fields schema loaded slap speaks named accepts =
        let ms = set_fields (envelope operation e) fields in
        let see = lookup-built operation e fields in
        let is_slap : is_str "SLAP" (lookup "protocol" ms) ≡ true =
          ap (is_str "SLAP") (see "protocol" ∙ slap) in
        let same_version : SpeaksVersion (lookup "version" ms) =
          subst (SpeaksVersion) (sym (see "version" ∙ speaks)) refl in
        let finds : schema_of load_schema (lookup "operation" ms) ≡ some schema =
          ap (schema_of load_schema) (see "operation" ∙ named) ∙ loaded in
        (
          (is_slap, same_version),
          subst (FitsSchema matches load_schema text ms) (sym finds) accepts,
        )

    build-IsMessage :
        (e : Envelope) (q : Request)
        → matches version_pattern version ≡ true
        → IsAddressed e
        → FitsRequest q
        → IsMessage matches load_schema text (build e q)
    unfolding build FitsRequest load_schema Builders.build_assign Builders.build_result
        Builders.build_review Builders.build_decide Builders.build_error Builders.build_cancel
        Builders.build_heartbeat Builders.build_capability Builders.build_status
    build-IsMessage e (assign_request f) speaks a h =
        built-IsMessage "assign" e (Builders.assign_fields f) _ refl refl refl refl
          (build_assign-Accepts matches e f speaks a h)
    build-IsMessage e (result_request f) speaks a h =
        built-IsMessage "result" e (Builders.result_fields f) _ refl refl refl refl
          (build_result-Accepts matches e f speaks a h)
    build-IsMessage e (review_request f) speaks a h =
        built-IsMessage "review" e (Builders.review_fields f) _ refl refl refl refl
          (build_review-Accepts matches e f speaks a h)
    build-IsMessage e (decide_request f) speaks a h =
        built-IsMessage "decide" e (Builders.decide_fields f) _ refl refl refl refl
          (build_decide-Accepts matches e f speaks a h)
    build-IsMessage e (error_request f) speaks a h =
        built-IsMessage "error" e (Builders.error_fields f) _ refl refl refl refl
          (build_error-Accepts matches e f speaks a h)
    build-IsMessage e (cancel_request f) speaks a h =
        built-IsMessage "cancel" e (Builders.cancel_fields f) _ refl refl refl refl
          (build_cancel-Accepts matches e f speaks a h)
    build-IsMessage e (heartbeat_request f) speaks a h =
        built-IsMessage "heartbeat" e (Builders.heartbeat_fields f) _ refl refl refl refl
          (build_heartbeat-Accepts matches e f speaks a h)
    build-IsMessage e (capability_request f) speaks a h =
        built-IsMessage "capability" e (Builders.capability_fields f) _ refl refl refl refl
          (build_capability-Accepts matches e f speaks a h)
    build-IsMessage e (status_request f) speaks a h =
        built-IsMessage "status" e (Builders.status_fields f) _ refl refl refl refl
          (build_status-Accepts matches e f speaks a h)

    valid-is_valid :
        (message : Value)
        → validate_message matches load_schema text message ≡ []
        → is_valid matches load_schema text message ≡ true
    unfolding is_valid
    valid-is_valid message h = rw (is_valid, h) refl

    pub validate_message-build :
        (e : Envelope) (q : Request)
        → matches version_pattern version ≡ true
        → IsAddressed e
        → FitsRequest q
        → validate_message matches load_schema text (build e q) ≡ []
    validate_message-build e q speaks a h =
        (validate_message-IsMessage matches load_schema text (build e q)).1
          (build-IsMessage e q speaks a h)

    -- If the pattern of versions matches the version the program speaks, the ids of the envelope are not
    -- empty and the fields fit their operation (texts that must not be empty are not, a status is one of
    -- those listed, and nested values are accepted by their part of the schema), then the message that
    -- any of the nine builders makes passes the validator of messages.
    pub build-is_valid :
        (e : Envelope) (q : Request)
        → matches version_pattern version ≡ true
        → IsAddressed e
        → FitsRequest q
        → is_valid matches load_schema text (build e q) ≡ true
    build-is_valid e q speaks a h =
        valid-is_valid (build e q) (validate_message-build e q speaks a h)

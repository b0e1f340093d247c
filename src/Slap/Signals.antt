-- ===== src/Slap/Signals.antt =====
-- The messages that tell how things stand are accepted by their schemas (src/suiban/slap/builders.py).
use Prim.Native.String.{count}
use suiban.Prelude.{◌≤◌, ◌≡◌, refl, Bool, true, String, any}
use text.Mathlib.Text.{◌==◌ as str_eq}
use suiban.Json.Schema.{integer, number}
use suiban.Json.Accepts.{Given}
use suiban.Slap.Accepts.{Accepts}
use suiban.Slap.Builders
use suiban.Slap.Builders.{Envelope, list_value}
use suiban.Slap.Messages.{version}
use suiban.Slap.Shapes.{list_of, at_least_zero, share, version_pattern}
use suiban.Slap.Operations.{
  agent_schema, task_states, error_keys, error_properties, cancel_keys, cancel_properties,
  heartbeat_keys, heartbeat_properties, capability_keys, capability_properties, status_keys,
  status_properties, error_schema, cancel_schema, heartbeat_schema, capability_schema,
  status_schema,
}
use suiban.Slap.Parts.{
  IsAddressed, LeavesEnvelope, text_given, texts_given, some_text_accepts, bool_given, value_given,
  list_given, one_of_accepts, message-Accepts,
}

module _ (matches : String → String → Bool) where
  -- What the fields of `build_error` must be like.
  abbrev pub FitsError : Builders.Error → Type 0
  FitsError f = (1 ≤ count f.code)

  error-LeavesEnvelope : (f : Builders.Error) → LeavesEnvelope (Builders.error_fields f)
  error-LeavesEnvelope f = (
    (λ d. refl),
    (
      (λ d. refl),
      ((λ d. refl), ((λ d. refl), ((λ d. refl), ((λ d. refl), ((λ d. refl), ((λ d. refl), tt)))))),
    ),
  )

  pub build_error-Accepts :
      (e : Envelope) (f : Builders.Error)
      → matches version_pattern version ≡ true
      → IsAddressed e
      → FitsError f
      → Accepts matches error_schema (Builders.build_error e f)
  unfolding Builders.build_error
  build_error-Accepts e f speaks a h =
      message-Accepts matches "error" e (Builders.error_fields f) error_keys error_properties refl
        speaks a (error-LeavesEnvelope f) (tt, tt) (refl, (refl, (refl, (refl, tt))))
        (
          some_text_accepts matches f.code h,
          (
            text_given matches f.message,
            (bool_given matches f.retriable, (texts_given matches f.partial_artifacts, tt)),
          ),
        )

  -- What the fields of `build_cancel` must be like.
  abbrev pub FitsCancel : Builders.Cancel → Type 0
  FitsCancel f = Unit

  cancel-LeavesEnvelope : (f : Builders.Cancel) → LeavesEnvelope (Builders.cancel_fields f)
  cancel-LeavesEnvelope f = (
    (λ d. refl),
    (
      (λ d. refl),
      ((λ d. refl), ((λ d. refl), ((λ d. refl), ((λ d. refl), ((λ d. refl), ((λ d. refl), tt)))))),
    ),
  )

  pub build_cancel-Accepts :
      (e : Envelope) (f : Builders.Cancel)
      → matches version_pattern version ≡ true
      → IsAddressed e
      → FitsCancel f
      → Accepts matches cancel_schema (Builders.build_cancel e f)
  unfolding Builders.build_cancel
  build_cancel-Accepts e f speaks a h =
      message-Accepts matches "cancel" e (Builders.cancel_fields f) cancel_keys cancel_properties
        refl speaks a (cancel-LeavesEnvelope f) tt (refl, tt) (text_given matches f.reason, tt)

  -- What the fields of `build_heartbeat` must be like.
  abbrev pub FitsHeartbeat : Builders.Heartbeat → Type 0
  FitsHeartbeat f = (Given f.progress (Accepts matches share))

  heartbeat-LeavesEnvelope : (f : Builders.Heartbeat) → LeavesEnvelope (Builders.heartbeat_fields f)
  heartbeat-LeavesEnvelope f = (
    (λ d. refl),
    (
      (λ d. refl),
      ((λ d. refl), ((λ d. refl), ((λ d. refl), ((λ d. refl), ((λ d. refl), ((λ d. refl), tt)))))),
    ),
  )

  pub build_heartbeat-Accepts :
      (e : Envelope) (f : Builders.Heartbeat)
      → matches version_pattern version ≡ true
      → IsAddressed e
      → FitsHeartbeat f
      → Accepts matches heartbeat_schema (Builders.build_heartbeat e f)
  unfolding Builders.build_heartbeat
  build_heartbeat-Accepts e f speaks a h =
      message-Accepts matches "heartbeat" e (Builders.heartbeat_fields f) heartbeat_keys
        heartbeat_properties refl speaks a (heartbeat-LeavesEnvelope f) tt (refl, (refl, tt))
        (value_given matches share f.progress h, (text_given matches f.note, tt))

  -- What the fields of `build_capability` must be like.
  abbrev pub FitsCapability : Builders.Capability → Type 0
  FitsCapability f =
      (1 ≤ count f.model)
      × (Given f.context_limit (Accepts matches (at_least_zero integer)))
      × (Given f.structured_output_reliability (Accepts matches share))
      × (Given f.latency_ms_estimate (Accepts matches (at_least_zero number)))
      × (Given f.memory_mb_estimate (Accepts matches (at_least_zero number)))
      × (Given f.compute_cost_estimate (Accepts matches (at_least_zero number)))
      × (Given f.current_workload (Accepts matches (at_least_zero number)))

  capability-LeavesEnvelope :
      (f : Builders.Capability) → LeavesEnvelope (Builders.capability_fields f)
  capability-LeavesEnvelope f = (
    (λ d. refl),
    (
      (λ d. refl),
      ((λ d. refl), ((λ d. refl), ((λ d. refl), ((λ d. refl), ((λ d. refl), ((λ d. refl), tt)))))),
    ),
  )

  pub build_capability-Accepts :
      (e : Envelope) (f : Builders.Capability)
      → matches version_pattern version ≡ true
      → IsAddressed e
      → FitsCapability f
      → Accepts matches capability_schema (Builders.build_capability e f)
  unfolding Builders.build_capability
  build_capability-Accepts e f speaks a h =
      message-Accepts matches "capability" e (Builders.capability_fields f) capability_keys
        capability_properties refl speaks a (capability-LeavesEnvelope f) (tt, tt)
        (
          refl,
          (
            refl,
            (
              refl,
              (
                refl,
                (
                  refl,
                  (
                    refl,
                    (
                      refl,
                      (refl, (refl, (refl, (refl, (refl, (refl, (refl, (refl, (refl, tt))))))))),
                    ),
                  ),
                ),
              ),
            ),
          ),
        )
        (
          some_text_accepts matches f.model h.0,
          (
            text_given matches f.model_family,
            (
              text_given matches f.parameters,
              (
                text_given matches f.quantization,
                (
                  value_given matches (at_least_zero integer) f.context_limit h.1,
                  (
                    texts_given matches f.modalities,
                    (
                      texts_given matches f.tools,
                      (
                        value_given matches share f.structured_output_reliability h.2,
                        (
                          value_given matches (at_least_zero number) f.latency_ms_estimate h.3,
                          (
                            value_given matches (at_least_zero number) f.memory_mb_estimate h.4,
                            (
                              value_given matches (at_least_zero number) f.compute_cost_estimate
                                  h.5,
                              (
                                texts_given matches f.task_categories,
                                (
                                  text_given matches f.max_task_complexity,
                                  (
                                    value_given matches (at_least_zero number) f.current_workload
                                        h.6,
                                    (
                                      text_given matches f.backend,
                                      (text_given matches f.location, tt),
                                    ),
                                  ),
                                ),
                              ),
                            ),
                          ),
                        ),
                      ),
                    ),
                  ),
                ),
              ),
            ),
          ),
        )

  -- What the fields of `build_status` must be like.
  abbrev pub FitsStatus : Builders.Status → Type 0
  FitsStatus f =
      (any (λ t. str_eq f.task_state t) task_states ≡ true)
      × (Given (list_value f.agents) (Accepts matches (list_of agent_schema)))

  status-LeavesEnvelope : (f : Builders.Status) → LeavesEnvelope (Builders.status_fields f)
  status-LeavesEnvelope f = (
    (λ d. refl),
    (
      (λ d. refl),
      ((λ d. refl), ((λ d. refl), ((λ d. refl), ((λ d. refl), ((λ d. refl), ((λ d. refl), tt)))))),
    ),
  )

  pub build_status-Accepts :
      (e : Envelope) (f : Builders.Status)
      → matches version_pattern version ≡ true
      → IsAddressed e
      → FitsStatus f
      → Accepts matches status_schema (Builders.build_status e f)
  unfolding Builders.build_status
  build_status-Accepts e f speaks a h =
      message-Accepts matches "status" e (Builders.status_fields f) status_keys status_properties
        refl speaks a (status-LeavesEnvelope f) (tt, tt) (refl, (refl, (refl, tt)))
        (
          one_of_accepts matches task_states f.task_state h.0,
          (list_given matches (list_of agent_schema) f.agents h.1, (text_given matches f.note, tt)),
        )

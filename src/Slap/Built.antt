-- ===== src/Slap/Built.antt =====
-- The messages that give and settle work are accepted by their schemas (src/suiban/slap/builders.py).
use Prim.Native.String.{count}
use suiban.Prelude.{◌≤◌, ◌≡◌, refl, Bool, true, String, any}
use text.Mathlib.Text.{◌==◌ as str_eq}
use suiban.Json.Accepts.{Given}
use suiban.Slap.Accepts.{Accepts}
use suiban.Slap.Builders
use suiban.Slap.Builders.{Envelope, list_value}
use suiban.Slap.Messages.{version}
use suiban.Slap.Shapes.{list_of, share, version_pattern}
use suiban.Slap.Operations.{
  limits_schema, claim_schema, finding_schema, outcomes, verdicts, decisions, assign_keys,
  assign_properties, result_keys, result_properties, review_keys, review_properties, decide_keys,
  decide_properties, assign_schema, result_schema, review_schema, decide_schema,
}
use suiban.Slap.Parts.{
  AreSome, IsAddressed, LeavesEnvelope, text_given, texts_given, some_texts_given, any_text_accepts,
  some_text_accepts, value_given, list_given, one_of_accepts, message-Accepts,
}

module _ (matches : String → String → Bool) where
  -- What the fields of `build_assign` must be like.
  abbrev pub FitsAssign : Builders.Assign → Type 0
  FitsAssign f =
      (1 ≤ count f.goal)
      × (Given f.scope AreSome)
      × (Given f.inputs AreSome)
      × (Given f.limits (Accepts matches limits_schema))

  assign-LeavesEnvelope : (f : Builders.Assign) → LeavesEnvelope (Builders.assign_fields f)
  assign-LeavesEnvelope f = (
    (λ d. refl),
    (
      (λ d. refl),
      ((λ d. refl), ((λ d. refl), ((λ d. refl), ((λ d. refl), ((λ d. refl), ((λ d. refl), tt)))))),
    ),
  )

  pub build_assign-Accepts :
      (e : Envelope) (f : Builders.Assign)
      → matches version_pattern version ≡ true
      → IsAddressed e
      → FitsAssign f
      → Accepts matches assign_schema (Builders.build_assign e f)
  unfolding Builders.build_assign
  build_assign-Accepts e f speaks a h =
      message-Accepts matches "assign" e (Builders.assign_fields f) assign_keys assign_properties
        refl speaks a (assign-LeavesEnvelope f) (tt, (tt, tt))
        (refl, (refl, (refl, (refl, (refl, (refl, (refl, (refl, (refl, tt)))))))))
        (
          any_text_accepts matches f.role,
          (
            some_text_accepts matches f.goal h.0,
            (
              text_given matches f.base_revision,
              (
                some_texts_given matches f.scope h.1,
                (
                  some_texts_given matches f.inputs h.2,
                  (
                    texts_given matches f.expected_artifacts,
                    (
                      texts_given matches f.checks,
                      (
                        text_given matches f.system_prompt,
                        (value_given matches limits_schema f.limits h.3, tt),
                      ),
                    ),
                  ),
                ),
              ),
            ),
          ),
        )

  -- What the fields of `build_result` must be like.
  abbrev pub FitsResult : Builders.Result → Type 0
  FitsResult f =
      (any (λ t. str_eq f.status t) outcomes ≡ true)
      × (Given (list_value f.claims) (Accepts matches (list_of claim_schema)))
      × (Given f.confidence (Accepts matches share))

  result-LeavesEnvelope : (f : Builders.Result) → LeavesEnvelope (Builders.result_fields f)
  result-LeavesEnvelope f = (
    (λ d. refl),
    (
      (λ d. refl),
      ((λ d. refl), ((λ d. refl), ((λ d. refl), ((λ d. refl), ((λ d. refl), ((λ d. refl), tt)))))),
    ),
  )

  pub build_result-Accepts :
      (e : Envelope) (f : Builders.Result)
      → matches version_pattern version ≡ true
      → IsAddressed e
      → FitsResult f
      → Accepts matches result_schema (Builders.build_result e f)
  unfolding Builders.build_result
  build_result-Accepts e f speaks a h =
      message-Accepts matches "result" e (Builders.result_fields f) result_keys result_properties
        refl speaks a (result-LeavesEnvelope f) (tt, tt)
        (refl, (refl, (refl, (refl, (refl, (refl, tt))))))
        (
          one_of_accepts matches outcomes f.status h.0,
          (
            texts_given matches f.artifacts,
            (
              list_given matches (list_of claim_schema) f.claims h.1,
              (
                texts_given matches f.risks,
                (text_given matches f.summary, (value_given matches share f.confidence h.2, tt)),
              ),
            ),
          ),
        )

  -- What the fields of `build_review` must be like.
  abbrev pub FitsReview : Builders.Review → Type 0
  FitsReview f =
      (1 ≤ count f.target)
      × (any (λ t. str_eq f.status t) verdicts ≡ true)
      × (Given (list_value f.findings) (Accepts matches (list_of finding_schema)))
      × (Given f.confidence (Accepts matches share))

  review-LeavesEnvelope : (f : Builders.Review) → LeavesEnvelope (Builders.review_fields f)
  review-LeavesEnvelope f = (
    (λ d. refl),
    (
      (λ d. refl),
      ((λ d. refl), ((λ d. refl), ((λ d. refl), ((λ d. refl), ((λ d. refl), ((λ d. refl), tt)))))),
    ),
  )

  pub build_review-Accepts :
      (e : Envelope) (f : Builders.Review)
      → matches version_pattern version ≡ true
      → IsAddressed e
      → FitsReview f
      → Accepts matches review_schema (Builders.build_review e f)
  unfolding Builders.build_review
  build_review-Accepts e f speaks a h =
      message-Accepts matches "review" e (Builders.review_fields f) review_keys review_properties
        refl speaks a (review-LeavesEnvelope f) (tt, (tt, tt)) (refl, (refl, (refl, (refl, tt))))
        (
          some_text_accepts matches f.target h.0,
          (
            one_of_accepts matches verdicts f.status h.1,
            (
              list_given matches (list_of finding_schema) f.findings h.2,
              (value_given matches share f.confidence h.3, tt),
            ),
          ),
        )

  -- What the fields of `build_decide` must be like.
  abbrev pub FitsDecide : Builders.Decide → Type 0
  FitsDecide f = (any (λ t. str_eq f.decision t) decisions ≡ true)

  decide-LeavesEnvelope : (f : Builders.Decide) → LeavesEnvelope (Builders.decide_fields f)
  decide-LeavesEnvelope f = (
    (λ d. refl),
    (
      (λ d. refl),
      ((λ d. refl), ((λ d. refl), ((λ d. refl), ((λ d. refl), ((λ d. refl), ((λ d. refl), tt)))))),
    ),
  )

  pub build_decide-Accepts :
      (e : Envelope) (f : Builders.Decide)
      → matches version_pattern version ≡ true
      → IsAddressed e
      → FitsDecide f
      → Accepts matches decide_schema (Builders.build_decide e f)
  unfolding Builders.build_decide
  build_decide-Accepts e f speaks a h =
      message-Accepts matches "decide" e (Builders.decide_fields f) decide_keys decide_properties
        refl speaks a (decide-LeavesEnvelope f) (tt, tt) (refl, (refl, (refl, (refl, (refl, tt)))))
        (
          one_of_accepts matches decisions f.decision h,
          (
            texts_given matches f.accepted_artifacts,
            (
              texts_given matches f.rejected_artifacts,
              (texts_given matches f.next_tasks, (text_given matches f.reason, tt)),
            ),
          ),
        )

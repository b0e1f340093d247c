-- ===== src/Ultra/Undegraded.antt =====
-- A run's own messages are accepted by their schemas (src/suiban/modes/ultra.py, slap), so that it does not
-- degrade.
use Prim.Native.String.{count}
use suiban.Prelude.{
  ℕ, ◌+◌, ◌≤◌, ◌≡◌, refl, Bool, true, false, Option, none, some, List, [], ◌∷◌, String, any, All,
  Bool-cases, inl, inr, arith, if◌then◌else◌, ltb, length,
}
use suiban.Prelude.Int.{pos}
use text.Mathlib.Text.{◌==◌ as str_eq}
use text.Mathlib.TextLemmas.{length-append, length-cons}
use suiban.Json.{Value, int}
use suiban.Json.Schema.{is_below, is_above, integer, number}
use suiban.Json.Accepts.{Given}
use suiban.Agent.Text.{concat}
use suiban.Slap.Accepts.{Accepts}
use suiban.Slap.Builders.{list_value, listed}
use suiban.Slap.Messages.{MessageError, version, validate_message}
use suiban.Slap.Shapes.{version_pattern, at_least_zero, list_of, share}
use suiban.Slap.Operations.{load_schema, claim_schema, decisions, outcomes, limits_schema}
use suiban.Slap.Parts.{some_text_accepts}
use suiban.Slap.Built.{FitsAssign, FitsResult, FitsDecide}
use suiban.Slap.Signals.{FitsCapability}
use suiban.Slap.Requests.{
  assign_request, result_request, decide_request, capability_request, build, FitsRequest,
  validate_message-build,
}
use suiban.Ultra.{UltraWorker, WorkerResult, Subtask, UltraRun, Notice, UltraState}
use suiban.Ultra.Recorded.{either_branch}
use suiban.Ultra.Trace.{
  next_message_id, capability_of, assign_of, result_of, decide_of, claims_of, artifact_ref,
  limits_of, claim_of, confident, doubtful, is_completed, accepted_refs, on_errors, record_slap,
  record_result, record_decide, send_assign, dispatch_assign, advertise, advertise_capabilities,
  result_or, mail, root_task_id,
}

pub count-concat :
    (t : String) (ts : List String) → count (concat (t ∷ ts)) ≡ count t + count (concat ts)
unfolding concat
count-concat t ts = length-append t (concat ts)

id_addressed : (s : UltraState) → 1 ≤ count (next_message_id s).0
unfolding next_message_id
id_addressed s = omega (arith, count-concat "M" _)

some_text_count : (t : String) → str_eq t "" ≡ false → 1 ≤ count t
some_text_count String.[] h = cc
some_text_count (String.◌∷◌ c s) h = omega (arith, length-cons c s)

module _ (matches : String → String → Bool) where
  abbrev pub IsFitWorker : UltraWorker → Type 0
  IsFitWorker w = (1 ≤ count w.model) × Accepts matches (at_least_zero number) w.workload

  natural-Accepts : (n : ℕ) → Accepts matches (at_least_zero integer) (int (pos n))
  unfolding Accepts is_below
  natural-Accepts n = (tt, (refl, (tt, (tt, ((ground arith, tt), (tt, tt))))))

  capability-Fits : (w : UltraWorker) → IsFitWorker w → FitsCapability matches (capability_of w)
  unfolding capability_of
  capability-Fits w h = (h.0, natural-Accepts w.ctx, tt, tt, tt, tt, h.1)

  limits-Accepts : (r t : ℕ) → Accepts matches limits_schema (limits_of r t)
  unfolding Accepts
  limits-Accepts r t = (
    tt,
    (
      refl,
      (
        tt,
        (
          tt,
          (
            tt,
            (
              (tt, ((refl, (refl, tt)), (tt, (natural-Accepts r, (natural-Accepts t, (tt, tt)))))),
              tt,
            ),
          ),
        ),
      ),
    ),
  )

  assign-Fits :
      (run : UltraRun) (s : Subtask) → 1 ≤ count s.title → FitsAssign matches (assign_of run s)
  unfolding assign_of
  assign-Fits run s h = (h, tt, tt, limits-Accepts _ _)

  confidence-Accepts : (b : Bool) → Accepts matches share (if b then confident else doubtful)
  unfolding Accepts is_below is_above
  confidence-Accepts true = (tt, (refl, (tt, (tt, ((refl, refl), (tt, tt))))))
  confidence-Accepts false = (tt, (refl, (tt, (tt, ((refl, refl), (tt, tt))))))

  claim-Accepts :
      (claim ref : String)
      → 1 ≤ count claim
      → 1 ≤ count ref
      → Accepts matches claim_schema (claim_of claim ref)
  unfolding Accepts
  claim-Accepts claim ref h k =
      let named = some_text_accepts matches claim h in
      let item = some_text_accepts matches ref k in
      (
        tt,
        (
          refl,
          (
            tt,
            (
              tt,
              (
                tt,
                (
                  (
                    (refl, (refl, tt)),
                    (
                      (refl, (refl, tt)),
                      (
                        named,
                        ((tt, (refl, (tt, (tt, (tt, (tt, (omega arith, (item, tt)))))))), tt),
                      ),
                    ),
                  ),
                  tt,
                ),
              ),
            ),
          ),
        ),
      )

  claim_list-Accepts :
      (claim ref : String)
      → 1 ≤ count claim
      → 1 ≤ count ref
      → Given (list_value (some (claim_of claim ref ∷ []))) (Accepts matches (list_of claim_schema))
  unfolding Accepts listed
  claim_list-Accepts claim ref h k =
      (tt, (refl, (tt, (tt, (tt, (tt, (tt, (claim-Accepts claim ref h k, tt))))))))

  claims-Fit :
      (s : Subtask) (r : WorkerResult)
      → Given (list_value (claims_of s r)) (Accepts matches (list_of claim_schema))
  unfolding claims_of artifact_ref
  claims-Fit s r = elim (Bool-cases (is_completed r)) [
    | inl completed ↦ elim (Bool-cases (str_eq r.summary "")) [
      | inl empty ↦ rw (completed, empty) tt
      | inr summary ↦
          rw (completed, summary)
            (claim_list-Accepts r.summary (artifact_ref s) (some_text_count r.summary summary)
              (omega (arith, count-concat "result:" (s.task_id ∷ []))))
    ]
    | inr open_task ↦ rw open_task tt
  ]

  status_listed :
      (b : Bool) → any (λ t. str_eq (if b then "completed" else "failed") t) outcomes ≡ true
  status_listed true = refl
  status_listed false = refl

  result-Fits : (s : Subtask) (r : WorkerResult) → FitsResult matches (result_of s r)
  unfolding result_of
  result-Fits s r =
      (status_listed (is_completed r), claims-Fit s r, confidence-Accepts (is_completed r))

  decision_listed :
      (b : Bool) → any (λ t. str_eq (if b then "accept" else "escalate") t) decisions ≡ true
  decision_listed true = refl
  decision_listed false = refl

  decide-Fits : (subtasks : List Subtask) → FitsDecide matches (decide_of subtasks)
  unfolding decide_of
  decide-Fits subtasks = decision_listed (ltb 0 (length (accepted_refs subtasks)))

module _ (matches : String → String → Bool) (text : MessageError → String) (run : UltraRun)
    (speaks : matches version_pattern version ≡ true) where
  record_slap_valid :
      (s : UltraState) (kind : String) (message recorded : Value)
      → validate_message matches load_schema text message ≡ []
      → (record_slap matches text run s kind message recorded).1 ≡ none
  unfolding record_slap on_errors
  record_slap_valid s kind message recorded valid =
      either_branch (λ (r : UltraState × Option Notice). r.1 ≡ none) run.slap_enabled _ (s, none)
        (rw valid refl) refl

  pub record_result_valid :
      (s : UltraState) (subtask : Subtask)
      → 1 ≤ count subtask.task_id
      → (record_result matches text run s subtask).1 ≡ none
  unfolding record_result build FitsRequest
  record_result_valid s subtask h = record_slap_valid (next_message_id s).1 "result" _ _ (
      validate_message-build matches text
        (mail (next_message_id s).0 subtask.task_id (some root_task_id))
        (result_request (result_of subtask (result_or subtask.result))) speaks (id_addressed s, h)
        (result-Fits matches subtask (result_or subtask.result)))

  pub record_decide_valid :
      (s : UltraState) (subtasks : List Subtask)
      → (record_decide matches text run s subtasks).1 ≡ none
  unfolding record_decide build FitsRequest
  record_decide_valid s subtasks = record_slap_valid (next_message_id s).1 "decide" _ _ (
      validate_message-build matches text (mail (next_message_id s).0 root_task_id none)
        (decide_request (decide_of subtasks)) speaks (id_addressed s, omega arith)
        (decide-Fits matches subtasks))

  send_assign_valid :
      (s : UltraState) (subtask : Subtask)
      → 1 ≤ count subtask.title
      → 1 ≤ count subtask.task_id
      → (send_assign matches text run s subtask).1.1 ≡ none
  unfolding send_assign build FitsRequest
  send_assign_valid s subtask title h = record_slap_valid (next_message_id s).1 "assign" _ _ (
      validate_message-build matches text
        (mail (next_message_id s).0 subtask.task_id (some root_task_id))
        (assign_request (assign_of run subtask)) speaks (id_addressed s, h)
        (assign-Fits matches run subtask title))

  pub dispatch_assign_valid :
      (s : UltraState) (subtask : Subtask)
      → 1 ≤ count subtask.title
      → 1 ≤ count subtask.task_id
      → (dispatch_assign matches text run s subtask).1.1 ≡ none
  unfolding dispatch_assign
  dispatch_assign_valid s subtask title h =
      either_branch (λ (r : UltraState × (String × Option Notice)). r.1.1 ≡ none) run.slap_enabled
        (send_assign matches text run s subtask) (s, _) (send_assign_valid s subtask title h) refl

  advertise_valid :
      (s : UltraState) (w : UltraWorker)
      → IsFitWorker matches w
      → (advertise matches text run s w).1 ≡ none
  unfolding advertise build FitsRequest
  advertise_valid s w h = record_slap_valid (next_message_id s).1 "capability" _ _ (
      validate_message-build matches text (mail (next_message_id s).0 root_task_id none)
        (capability_request (capability_of w)) speaks (id_addressed s, omega arith)
        (capability-Fits matches w h))

  pub advertise_capabilities_valid :
      (s : UltraState) (ws : List UltraWorker)
      → All (IsFitWorker matches) ws
      → (advertise_capabilities matches text run s ws).1 ≡ []
  unfolding advertise_capabilities
  advertise_capabilities_valid s [] h = refl
  advertise_capabilities_valid s (w ∷ ws) h =
      rw (advertise_valid s w h.0)
        (advertise_capabilities_valid (advertise matches text run s w).0 ws h.1)

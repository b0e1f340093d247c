-- ===== src/Ultra/Planned.antt =====
-- What a plan consists of (src/suiban/modes/ultra.py): between one sub-task and the cap, each with a title.
use Prim.Native.String.{count}
use suiban.Prelude.{
  ℕ, zero, suc, ◌+◌, ◌≤◌, ◌≡◌, refl, ap, Bool, true, false, Option, none, some, List, [], ◌∷◌,
  String, All, arith, length, take, length-take, if◌then◌else◌, Bool-cases, inl, inr, is_some,
}
use suiban.Json.{
  Value, obj, arr, str, Members, Elements, element, no_element, lookup, keys, member, no_member,
}
use suiban.Json.Accepts.{Given, HasKey}
use suiban.Tools.Arguments.{validate}
use suiban.Agent.Structured.{Decoded, Mismatch, Reply, Fault, structured_repair_attempts}
use suiban.Agent.Settles.{IsValid, request_structured-IsValid}
use suiban.Memory.Compression.{Message}
use text.Mathlib.Text.{◌==◌ as str_eq}
use suiban.Slap.Shapes.{some_text, list_of}
use suiban.Ultra.Undegraded.{count-concat}
use suiban.Slap.Accepts.{Accepts, Elementwise, validate_instance-Accepts}
use suiban.Slap.Mirror.{IsBasic, validate_mirrors}
use suiban.Ultra.{
  UltraWorker, Subtask, UltraRun, is_parallel, sequential_max_subtasks, subtask_cap, UltraState,
}
use suiban.Ultra.Plan.{
  subtask_schema, plan_schema, text_at, text_in, raw_subtasks, items_at, items_of, subtask_of,
  subtasks_from, planned, fallback_subtask, said, ask_plan, plan_messages, make_plan, text_or_empty,
}

-- A sub-task that can be assigned.
abbrev pub IsAssignable : Subtask → Type 0
IsAssignable s = (1 ≤ count s.title) × (1 ≤ count s.task_id)

-- No expression is looked for: no schema here has a pattern.
abbrev never_matches : String → String → Bool
never_matches pattern t = false

abbrev IsItem : Value → Type 0
IsItem v = Accepts never_matches subtask_schema v

plan_schema-IsBasic : IsBasic plan_schema
unfolding IsBasic
plan_schema-IsBasic = (
  (refl, refl, refl),
  (
    (
      (refl, refl, refl),
      (
        tt,
        (
          (refl, refl, refl),
          (((refl, refl, refl), tt), (((refl, refl, refl), tt), (((refl, refl, refl), tt), tt))),
        ),
      ),
    ),
    tt,
  ),
)

HasKey-lookup : (k : String) (ms : Members) → HasKey (keys ms) k → is_some (lookup k ms) ≡ true
HasKey-lookup k no_member h = cc
HasKey-lookup k (member j v ms) h = elim (Bool-cases (str_eq j k)) [
  | inl same ↦ rw same refl
  | inr other ↦ rw other (HasKey-lookup k ms (rw other at h))
]

some_text_in :
    (o : Option Value)
    → is_some o ≡ true
    → Given o (Accepts never_matches some_text)
    → 1 ≤ count (text_or_empty (text_in o))
unfolding Accepts
some_text_in none h a = cc
some_text_in (some (str t)) h a = a.1.1.1.0.0.0
some_text_in (some _) h a = cc (a.1.0)

item_title : (i : ℕ) (v : Value) → IsItem v → 1 ≤ count (subtask_of i v).title
unfolding Accepts subtask_of text_at
item_title i (obj ms) h =
    let whole = h.1.1.1.1.1.0 in
    some_text_in (lookup "title" ms) (HasKey-lookup "title" ms whole.0.0) whole.1.1.0
item_title i _ h = cc (h.1.0)

item-IsAssignable : (i : ℕ) (v : Value) → IsItem v → IsAssignable (subtask_of i v)
unfolding subtask_of
item-IsAssignable i v h = (item_title i v h, omega (arith, count-concat "T" _))

taken-IsAssignable :
    (n i : ℕ) (vs : List Value) → All IsItem vs → All IsAssignable (subtasks_from i (take n vs))
unfolding subtasks_from
taken-IsAssignable zero i vs h = tt
taken-IsAssignable (suc n) i [] h = tt
taken-IsAssignable (suc n) i (v ∷ vs) h =
    (item-IsAssignable i v h.0, taken-IsAssignable n (i + 1) vs h.1)

items-All : (es : Elements) → Elementwise IsItem es → All IsItem (items_of es)
unfolding items_of
items-All no_element h = tt
items-All (element v es) h = (h.0, items-All es h.1)

array_items :
    (o : Option Value)
    → Given o (Accepts never_matches (list_of subtask_schema))
    → All IsItem (items_at o)
unfolding Accepts
array_items (some (arr es)) h = items-All es h.1.1.1.1.1.1.1
array_items _ h = tt

raw-IsItem :
    (ms : Members) → validate (obj ms) plan_schema "$" ≡ [] → All IsItem (raw_subtasks (some ms))
unfolding Accepts
raw-IsItem ms valid =
    let message =
      (validate_mirrors never_matches (obj ms) plan_schema "$" plan_schema-IsBasic).0 valid in
    let accepts = (validate_instance-Accepts never_matches (obj ms) plan_schema "$").0 message in
    array_items (lookup "subtasks" ms) accepts.1.1.1.1.1.0.1.1.0

data-IsItem : (d : Option Members) → IsValid plan_schema d → All IsItem (raw_subtasks d)
data-IsItem none v = tt
data-IsItem (some ms) v = raw-IsItem ms v

planned-IsAssignable :
    (run : UltraRun) (messages : List Message) (e : Option Fault) (vs : List Value)
    → All IsItem vs
    → All IsAssignable (planned run messages e vs).0
unfolding planned fallback_subtask
planned-IsAssignable run messages e [] h = ((omega arith, omega arith), tt)
planned-IsAssignable run messages e (v ∷ vs) h = taken-IsAssignable (subtask_cap run) 0 (v ∷ vs) h

length-subtasks_from : (i : ℕ) (vs : List Value) → length (subtasks_from i vs) ≡ length vs
unfolding subtasks_from
length-subtasks_from i [] = refl
length-subtasks_from i (v ∷ vs) = ap suc (length-subtasks_from (i + 1) vs)

cap_pos : (run : UltraRun) → 1 ≤ subtask_cap run
unfolding subtask_cap is_parallel
cap_pos run = go run.workers
  where
    go :
        (ws : List UltraWorker)
        → 1 ≤ (if is_parallel ws then length ws else sequential_max_subtasks)
    go [] = omega arith
    go (w ∷ ws) = omega arith

planned_bounded :
    (run : UltraRun) (messages : List Message) (e : Option Fault) (vs : List Value)
    → (1 ≤ length (planned run messages e vs).0)
      × (length (planned run messages e vs).0 ≤ subtask_cap run)
unfolding planned
planned_bounded run messages e [] = (omega arith, omega (arith, cap_pos run))
planned_bounded run messages e (v ∷ vs) = omega (
  arith,
  cap_pos run,
  length-subtasks_from 0 (take (subtask_cap run) (v ∷ vs)),
  length-take (subtask_cap run) (v ∷ vs),
)

-- A plan, whatever the orchestrator answers, has between one sub-task and the cap of the loadout, and each
-- of them has a title and a task id that are not empty.
pub make_plan_bounded :
    {World : Type 0} (complete : World → List Message → Reply × World) (loads : String → Decoded)
    (mismatch_text : Mismatch → String) (ultra_prompt : String) (run : UltraRun) (s : UltraState)
    (messages : List Message) (w : World)
    → let subtasks =
        (make_plan complete loads mismatch_text ultra_prompt run s messages w).subtasks in
      (1 ≤ length subtasks) × (length subtasks ≤ subtask_cap run) × All IsAssignable subtasks
unfolding make_plan ask_plan
make_plan_bounded complete loads mismatch_text ultra_prompt run s messages w =
    let asked = ask_plan complete loads mismatch_text ultra_prompt run messages w in
    let ended =
      request_structured-IsValid complete loads said mismatch_text plan_schema "ultra_plan"
        structured_repair_attempts
        (plan_messages complete loads mismatch_text ultra_prompt run messages) w in
    let vs = raw_subtasks asked.result.instance_data in
    let within = planned_bounded run messages asked.result.error vs in
    (
      within.0,
      within.1,
      planned-IsAssignable run messages asked.result.error vs
          (data-IsItem asked.result.instance_data ended),
    )

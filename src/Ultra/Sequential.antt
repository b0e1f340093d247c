-- ===== src/Ultra/Sequential.antt =====
-- A run from its plan to its synthesis (src/suiban/modes/ultra.py), with the sub-agents one at a time on the
-- orchestrator's slot. `perform` runs one sub-agent within its budget.
use Prim.Native.String.{◌++◌ as append}
use suiban.Prelude.{
  ℕ, ◌+◌, inr, Bool, not, Option, none, some, List, [], ◌∷◌, ◌++◌, String, map, ◌==◌, if◌then◌else◌,
}
use text.Mathlib.Text.{◌==◌ as str_eq}
use suiban.Agent.Types.{Usage, Message, Environment}
use suiban.Agent.Text.{str, concat}
use suiban.Agent.Calls.{or_default, no_usage}
use suiban.Agent.Structured.{Decoded, Mismatch, Reply}
use suiban.Memory.Compression
use suiban.Json
use suiban.Slap.Messages.{MessageError}
use suiban.Ultra.{
  level, UltraWorker, WorkerResult, Subtask, UltraRun, effort_of, is_parallel, Notice, sequential,
  effort_capped, Event, plan, notice, delta, usage, error, done, UltraState, spawn_event,
  result_event, optional_notice,
}
use suiban.Ultra.Trace.{
  result_or, dispatch_assign, record_result, record_decide, advertise_capabilities,
}
use suiban.Ultra.Plan.{said, task_messages, joined, merge_usage, Planning}
use suiban.Ultra.Contained.{Contained, Interruption, run_subtask, bounded_result}

-- What a sub-agent leaves within its budget.
pub record Performed (World : Type 0) : Type 0 where
  pub result : WorkerResult
  pub given : Option Notice
  pub tokens : Usage
  pub world : World

-- What a stretch of a run leaves.
pub record Stage (World : Type 0) : Type 0 where
  pub subtasks : List Subtask
  pub state : UltraState
  pub events : List Event
  pub world : World

unfoldable pub is_capped : UltraRun → Bool
unfolding effort_of
is_capped run = not (level (effort_of run) == level run.effort)

-- The notices of a run without workers.
unfoldable pub sequential_notices : UltraRun → List Event
unfolding is_capped
sequential_notices run =
    notice sequential
    ∷ (if is_capped run then notice (effort_capped (effort_of run) run.effort) ∷ [] else [])

module _ (matches : String → String → Bool) (text : MessageError → String) (run : UltraRun) where
  -- The part of a sub-task after its sub-agent: the result is recorded and told.
  unfoldable pub conclude :
      UltraState → Subtask → WorkerResult → Option Notice → UltraState × (Subtask × List Event)
  unfolding record_result result_event
  conclude s subtask result given =
      let subtask' = record subtask { result = some result } in
      let (s', refused) = record_result matches text run s subtask' in
      (
        s',
        (
          subtask',
          optional_notice given ++ (optional_notice refused ++ result_event subtask' result ∷ []),
        ),
      )

module _ {World : Type 0} (matches : String → String → Bool) (text : MessageError → String)
    (run : UltraRun) where
  unfoldable pub dispatch_one :
      (UltraWorker → Subtask → String → World → Performed World)
      → UltraState
      → World
      → Subtask
      → Stage World
  unfolding dispatch_assign conclude spawn_event
  dispatch_one perform s w subtask =
      let (s1, (content, refused)) = dispatch_assign matches text run s subtask in
      let ran = perform run.orchestrator subtask content w in
      let (s2, (subtask', told)) =
        conclude matches text run (merge_usage s1 ran.tokens) subtask ran.result ran.given in
      record {
        subtasks = subtask' ∷ [];
        state = s2;
        events = optional_notice refused ++ spawn_event run subtask run.orchestrator.model ∷ told;
        world = ran.world;
      }

  -- `_dispatch_sequential`
  unfoldable pub dispatch_sequential :
      (UltraWorker → Subtask → String → World → Performed World)
      → UltraState
      → World
      → List Subtask
      → Stage World
  unfolding dispatch_one
  dispatch_sequential perform s w [] = record { subtasks = []; state = s; events = []; world = w }
  dispatch_sequential perform s w (subtask ∷ subtasks) =
      let one = dispatch_one perform s w subtask in
      let rest = dispatch_sequential perform one.state one.world subtasks in
      record {
        subtasks = one.subtasks ++ rest.subtasks;
        state = rest.state;
        events = one.events ++ rest.events;
        world = rest.world;
      }

-- The answer to the synthesis: an exception that is caught, or the parts that are read of it. An
-- answer without fields, which ends the stream with an exception that is not caught, is left out.
pub data Synthesis : Type 0 where
  not_answered : String → Synthesis
  synthesized : Usage → (content : String) → (finish_reason : Option String) → Synthesis

unfoldable pub section_of : ℕ → Subtask → String
section_of i s =
    let r = result_or s.result in
    concat (
      "### Sub-task "
      ∷ str i
      ∷ ": "
      ∷ s.title
      ∷ "\nBrief: "
      ∷ s.brief
      ∷ "\nStatus: "
      ∷ r.status
      ∷ "\nWorker summary: "
      ∷ r.summary
      ∷ "\nWorker output:\n"
      ∷ (if str_eq r.output "" then "(none)" else r.output)
      ∷ [])

unfoldable pub sections_from : ℕ → List Subtask → List String
unfolding section_of
sections_from i [] = []
sections_from i (s ∷ subtasks) = section_of i s ∷ sections_from (i + 1) subtasks

-- `_synthesis_message`
unfoldable pub synthesis_message : List Subtask → Compression.Message
unfolding sections_from joined
synthesis_message subtasks = said "user" (
    append
      "All sub-tasks have run; the worker results follow. Verify each against its brief, then produce the final deliverable in a single voice. Treat worker output as a junior's draft — fix or redo what is wrong, and state honestly anything that failed or remains unverified.\n\n"
      (joined (sections_from 1 subtasks)))

-- What a run leaves: its state, the trace that it hands on, and its events.
pub record Finished : Type 0 where
  pub state : UltraState
  pub flushed : List (Json.Value)
  pub final_text : String
  pub finish_reason : String
  pub events : List Event

unfoldable pub after_synthesis : UltraState → Synthesis → Finished
unfolding or_default
after_synthesis s (not_answered exc) = record {
  state = s;
  flushed = s.slap_messages;
  final_text = "";
  finish_reason = "error";
  events = error (concat ("synthesis failed: " ∷ exc ∷ [])) ∷ done "error" ∷ [];
}
after_synthesis s (synthesized tokens content finish_reason) =
    let s' = merge_usage s tokens in
    let reason = or_default finish_reason "stop" in
    record {
      state = s';
      flushed = s.slap_messages;
      final_text = content;
      finish_reason = reason;
      events =
          (if str_eq content "" then [] else delta content ∷ [])
          ++ usage s'.total_usage ∷ done reason ∷ [];
    }

abbrev pub new_state : UltraState
new_state = record { slap_messages = []; message_counter = 0; total_usage = no_usage }

abbrev pub notice_events : List Notice → List Event
notice_events notices = map notice notices

module _ {World : Type 0} (matches : String → String → Bool) (text : MessageError → String)
    (synthesize : World → List Compression.Message → Synthesis) (ultra_prompt : String)
    (run : UltraRun) (messages : List Compression.Message) where
  abbrev pub executors : List UltraWorker
  executors = if is_parallel run.workers then run.workers else run.orchestrator ∷ []

  -- A run up to its dispatch.
  unfoldable pub opening : Planning World → Stage World
  unfolding advertise_capabilities
  opening p =
      let (s, refused) = advertise_capabilities matches text run p.state executors in
      record {
        subtasks = p.subtasks;
        state = s;
        events =
            plan (map (λ (t : Subtask). t.title) p.subtasks)
            ∷ (notice_events p.notices ++ notice_events refused);
        world = p.world;
      }

  unfoldable pub synthesis_request : List Subtask → List Compression.Message
  unfolding task_messages synthesis_message
  synthesis_request subtasks =
      said "system" ultra_prompt ∷ (task_messages messages ++ synthesis_message subtasks ∷ [])

  -- A run from its last sub-task on.
  unfoldable pub closing : Stage World → Finished
  unfolding record_decide after_synthesis synthesis_request
  closing stage =
      let (s, refused) = record_decide matches text run stage.state stage.subtasks in
      let end = after_synthesis s (synthesize stage.world (synthesis_request stage.subtasks)) in
      record end { events = stage.events ++ (optional_notice refused ++ end.events) }

  -- A run without workers up to its synthesis.
  unfoldable pub sequential_stage :
      (UltraWorker → Subtask → String → World → Performed World) → Planning World → Stage World
  unfolding opening sequential_notices dispatch_sequential
  sequential_stage perform p =
      let opened = opening p in
      let ran =
        dispatch_sequential matches text run perform opened.state opened.world opened.subtasks in
      record ran { events = opened.events ++ (sequential_notices run ++ ran.events) }

  -- `run`, where there are no workers.
  unfoldable pub run_sequential :
      (UltraWorker → Subtask → String → World → Performed World) → Planning World → Finished
  unfolding sequential_stage closing
  run_sequential perform p = closing (sequential_stage perform p)

module _ {World Args : Type 0} (env : UltraWorker → Environment World Args)
    (complete : UltraWorker → World → List (Message Args) → Reply × World)
    (loads : String → Decoded) (mismatch_text : Mismatch → String) (run : UltraRun) where
  -- A sub-agent that `interrupted` ends, with the tokens merged until then, or that comes to its result.
  unfoldable pub perform_bounded :
      (UltraWorker → Subtask → String → World → Option (Interruption × (Usage × World)))
      → UltraWorker
      → Subtask
      → String
      → World
      → Performed World
  unfolding bounded_result run_subtask
  perform_bounded interrupted worker subtask content w =
      bounded_by subtask (run_subtask env complete loads mismatch_text worker subtask content w)
        (interrupted worker subtask content w)
    where
      bounded_by :
          Subtask → Contained World → Option (Interruption × (Usage × World)) → Performed World
      bounded_by subtask c none =
          let (result, given) = bounded_result run subtask c.result in
          record { result = result; given = given; tokens = c.usage; world = c.world }
      bounded_by subtask c (some (why, (tokens, w))) =
          let (result, given) = bounded_result run subtask (inr why) in
          record { result = result; given = given; tokens = tokens; world = w }

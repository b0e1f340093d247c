-- ===== src/Ultra/Dialogue.antt =====
-- What a run tells its reader besides notices (src/suiban/modes/ultra.py).
use suiban.Prelude.{
  ◌≡◌, refl, ap, sym, ◌∙◌, Bool, true, false, not, Option, none, some, List, [], ◌∷◌, ◌++◌, String,
  any, keep, map, Bool-cases, inl, inr,
}
use text.Mathlib.Text.{◌==◌ as str_eq}
use suiban.Agent.Text.{concat}
use suiban.Memory.Compression
use suiban.Slap.Messages.{MessageError}
use suiban.Ultra.{
  UltraWorker, WorkerResult, Subtask, UltraRun, Notice, Event, plan, notice, delta, usage, error,
  done, UltraState, spawn_event, result_event, optional_notice,
}
use suiban.Ultra.Trace.{
  dispatch_assign, record_result, record_decide, advertise_capabilities, result_or,
}
use suiban.Ultra.Plan.{merge_usage, Planning}
use suiban.Ultra.Sequential.{
  Performed, Synthesis, not_answered, synthesized, is_capped, sequential_notices, conclude,
  dispatch_one, dispatch_sequential, after_synthesis, notice_events, executors, synthesis_request,
  opening, closing, sequential_stage, run_sequential,
}

abbrev pub is_notice : Event → Bool
is_notice (notice n) = true
is_notice e = false

-- A stream without its notices.
abbrev pub told : List Event → List Event
told events = keep (λ e. not (is_notice e)) events

told-append : (xs ys : List Event) → told (xs ++ ys) ≡ told xs ++ told ys
told-append [] ys = refl
told-append (x ∷ xs) ys = elim (Bool-cases (is_notice x)) [
  | inl silent ↦ rw silent (told-append xs ys)
  | inr heard ↦ rw heard (ap (λ es. x ∷ es) (told-append xs ys))
]

told_both :
    (xs ys : List Event) {a b : List Event} → told xs ≡ a → told ys ≡ b → told (xs ++ ys) ≡ a ++ b
told_both xs ys {a} e f = told-append xs ys ∙ ap (λ es. es ++ told ys) e ∙ ap (λ es. a ++ es) f

told-optional : (given : Option Notice) → told (optional_notice given) ≡ []
told-optional none = refl
told-optional (some n) = refl

told-notices : (notices : List Notice) → told (notice_events notices) ≡ []
told-notices [] = refl
told-notices (n ∷ notices) = told-notices notices

-- Each sub-task in turn: its sub-agent is spawned, and its result told.
abbrev pub dialogue : UltraRun → List Subtask → List Event
dialogue run [] = []
dialogue run (s ∷ subtasks) =
    spawn_event run s run.orchestrator.model
    ∷ result_event s (result_or s.result)
    ∷ dialogue run subtasks

dialogue-append :
    (run : UltraRun) (xs ys : List Subtask)
    → dialogue run (xs ++ ys) ≡ dialogue run xs ++ dialogue run ys
dialogue-append run [] ys = refl
dialogue-append run (x ∷ xs) ys =
    ap (λ es. spawn_event run x run.orchestrator.model ∷ result_event x (result_or x.result) ∷ es)
      (dialogue-append run xs ys)

module _ (matches : String → String → Bool) (text : MessageError → String) (run : UltraRun) where
  told-conclude :
      (s : UltraState) (subtask : Subtask) (r : WorkerResult) (given : Option Notice)
      → told (conclude matches text run s subtask r given).1.1
        ≡ result_event (record subtask { result = some r }) r ∷ []
  unfolding conclude result_event
  told-conclude s subtask r given =
      told-append (optional_notice given) _
      ∙ rw (told-optional given) (
          told-append
            (optional_notice
              (record_result matches text run s (record subtask { result = some r })).1)
            _
          ∙ rw
              (told-optional
                (record_result matches text run s (record subtask { result = some r })).1)
              refl)

  module _ {World : Type 0}
      (perform : UltraWorker → Subtask → String → World → Performed World) where
    told-dispatch_one :
        (s : UltraState) (w : World) (subtask : Subtask)
        → told (dispatch_one matches text run perform s w subtask).events
          ≡ dialogue run (dispatch_one matches text run perform s w subtask).subtasks
    unfolding dispatch_one conclude spawn_event result_event
    told-dispatch_one s w subtask =
        let sent = dispatch_assign matches text run s subtask in
        let ran = perform run.orchestrator subtask sent.1.0 w in
        told-append (optional_notice sent.1.1) _
        ∙ rw (told-optional sent.1.1) (
            ap (λ es. spawn_event run subtask run.orchestrator.model ∷ es)
              (told-conclude (merge_usage sent.0 ran.tokens) subtask ran.result ran.given))

    told-dispatch_sequential :
        (s : UltraState) (w : World) (subtasks : List Subtask)
        → told (dispatch_sequential matches text run perform s w subtasks).events
          ≡ dialogue run (dispatch_sequential matches text run perform s w subtasks).subtasks
    unfolding dispatch_sequential
    told-dispatch_sequential s w [] = refl
    told-dispatch_sequential s w (subtask ∷ subtasks) =
        let one = dispatch_one matches text run perform s w subtask in
        let rest = dispatch_sequential matches text run perform one.state one.world subtasks in
        told-append one.events rest.events
        ∙ rw (told-dispatch_one s w subtask, told-dispatch_sequential one.state one.world subtasks)
            (sym (dialogue-append run one.subtasks rest.subtasks))

-- A sub-task without its result.
abbrev pub erased : Subtask → Subtask
erased s = record s { result = none }

module _ (matches : String → String → Bool) (text : MessageError → String) (run : UltraRun)
    {World : Type 0} (perform : UltraWorker → Subtask → String → World → Performed World) where
  dispatch_sequential-erased :
      (s : UltraState) (w : World) (subtasks : List Subtask)
      → map erased (dispatch_sequential matches text run perform s w subtasks).subtasks
        ≡ map erased subtasks
  unfolding dispatch_sequential dispatch_one conclude
  dispatch_sequential-erased s w [] = refl
  dispatch_sequential-erased s w (subtask ∷ subtasks) =
      let one = dispatch_one matches text run perform s w subtask in
      ap (λ ts. erased subtask ∷ ts) (dispatch_sequential-erased one.state one.world subtasks)

abbrev pub is_done : Event → Bool
is_done (done reason) = true
is_done e = false

-- The end of a stream: its one `done` comes last, with the reason, and no notice is in it.
abbrev pub Closes : String → List Event → Type 0
Closes reason events =
    (body : List Event) × ((events ≡ body ++ done reason ∷ [])
      × ((any is_done body ≡ false) × (told events ≡ events)))

after_synthesis-Closes :
    (s : UltraState) (a : Synthesis)
    → Closes (after_synthesis s a).finish_reason (after_synthesis s a).events
unfolding after_synthesis
after_synthesis-Closes s (not_answered e) =
    (error (concat ("synthesis failed: " ∷ e ∷ [])) ∷ [], (refl, (refl, refl)))
after_synthesis-Closes s (synthesized u content r) = elim (Bool-cases (str_eq content "")) [
  | inl silent ↦ rw silent (usage _ ∷ [], (refl, (refl, refl)))
  | inr spoken ↦ rw spoken (delta content ∷ usage _ ∷ [], (refl, (refl, refl)))
]

told-sequential_notices : (run : UltraRun) → told (sequential_notices run) ≡ []
unfolding sequential_notices
told-sequential_notices run = elim (Bool-cases (is_capped run)) [
  | inl capped ↦ rw capped refl
  | inr same ↦ rw same refl
]

module _ (matches : String → String → Bool) (text : MessageError → String) (run : UltraRun)
    {World : Type 0} (synthesize : World → List Compression.Message → Synthesis)
    (ultra_prompt : String) (messages : List Compression.Message)
    (perform : UltraWorker → Subtask → String → World → Performed World) (p : Planning World) where
  told-opening :
      told (opening matches text synthesize ultra_prompt run messages p).events
      ≡ plan (map (λ (t : Subtask). t.title) p.subtasks) ∷ []
  unfolding opening
  told-opening =
      ap (λ es. plan (map (λ (t : Subtask). t.title) p.subtasks) ∷ es)
        (told-append (notice_events p.notices) _
          ∙ rw (told-notices p.notices) (
              told-notices
                (advertise_capabilities matches text run p.state
                  (executors matches text synthesize ultra_prompt run messages)).1))

  told-sequential_stage :
      told (sequential_stage matches text synthesize ultra_prompt run messages perform p).events
      ≡ plan (map (λ (t : Subtask). t.title) p.subtasks)
        ∷ dialogue run
            (sequential_stage matches text synthesize ultra_prompt run messages perform p).subtasks
  unfolding sequential_stage
  told-sequential_stage =
      let opened = opening matches text synthesize ultra_prompt run messages p in
      told_both opened.events _ told-opening (
        told_both (sequential_notices run) _ (told-sequential_notices run) (
          told-dispatch_sequential matches text run perform opened.state opened.world
            opened.subtasks))

  -- But for notices, the stream of a run without workers, whose plan and synthesis can be read, is its plan,
  -- then for each planned sub-task in turn the spawn of its sub-agent and its result, then the end: it has
  -- one `done`, which comes last and carries the finish reason of the run.
  pub run_sequential-told :
      let stage = sequential_stage matches text synthesize ultra_prompt run messages perform p in
      let end = run_sequential matches text synthesize ultra_prompt run messages perform p in
      (map erased stage.subtasks ≡ map erased p.subtasks)
      × ((last : List Event) × ((told end.events
              ≡ plan (map (λ (t : Subtask). t.title) p.subtasks)
                ∷ (dialogue run stage.subtasks ++ last))
            × Closes end.finish_reason last))
  unfolding run_sequential closing sequential_stage opening
  run_sequential-told =
      let stage = sequential_stage matches text synthesize ultra_prompt run messages perform p in
      let decided = record_decide matches text run stage.state stage.subtasks in
      let end = after_synthesis decided.0 (
        synthesize stage.world
          (synthesis_request matches text synthesize ultra_prompt run messages stage.subtasks)) in
      let closes = after_synthesis-Closes decided.0 (
        synthesize stage.world
          (synthesis_request matches text synthesize ultra_prompt run messages stage.subtasks)) in
      let opened = opening matches text synthesize ultra_prompt run messages p in
      (
        dispatch_sequential-erased matches text run perform opened.state opened.world p.subtasks,
        (
          end.events,
          (
            told_both stage.events _ told-sequential_stage (
                told_both (optional_notice decided.1) end.events (told-optional decided.1)
                  closes.1.1.1),
            closes,
          ),
        ),
      )

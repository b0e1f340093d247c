-- ===== src/Agent/Loop.antt =====
-- `AgentLoop.run` of src/suiban/agent/loop.py. It yields its events one by one; here they are returned,
-- with the requests that it sent, in order. A consumer that stops reading early is not modelled.
use suiban.Prelude.{
  ℕ, zero, suc, true, false, Option, none, some, List, [], ◌∷◌, ◌++◌, String, ltb, if◌then◌else◌,
}
use text.Mathlib.Text.{◌==◌ as str_eq}
use suiban.Agent.Text.{concat}
use suiban.Agent.Types.{
  Usage, Call, ModelMessage, Outcome, raised, answered, Counted, counted, uncountable, Choice,
  no_message, no_choice, bad_message, chosen, Message, assistant, system, Payload, Event, delta,
  thinking_status, ceiling_notice, done, Environment, LoopState,
}
use suiban.Agent.Calls.{Progress, or_default, fresh, accumulate_usage, usage_event, run_calls}

module _ {World Args : Type 0} (env : Environment World Args) where
  -- `_abort`
  unfoldable pub abort : LoopState Args → World → String → Progress World Args
  abort s w message = record {
    state = record s { error_message = some message; finish_reason = "error" };
    world = w;
    events = Event.error message ∷ done "error" ∷ [];
    sent = [];
    raises = none;
  }

  -- An exception that `run` does not catch.
  unfoldable pub crash : LoopState Args → World → String → Progress World Args
  crash s w exc = record { state = s; world = w; events = []; sent = []; raises = some exc }

  -- The answer without tool calls.
  unfoldable pub answer : LoopState Args → World → String → Option String → Progress World Args
  unfolding or_default
  answer s w content finish_reason =
      let reason = or_default finish_reason "stop" in
      record {
        state = record s { final_text = content; finish_reason = reason };
        world = w;
        events = usage_event env s ∷ done reason ∷ [];
        sent = [];
        raises = none;
      }

  unfoldable pub before : List (Event Args) → Progress World Args → Progress World Args
  before events p = record p { events = events ++ p.events }

  unfoldable pub delta_of : String → List (Event Args)
  delta_of content = if str_eq content "" then [] else delta content ∷ []

  -- The tool calls of one completion, and the rest of the run.
  unfoldable pub after_calls :
      (LoopState Args → World → Progress World Args) → Progress World Args → Progress World Args
  after_calls continue calls =
      let rest = continue calls.state calls.world in
      record rest { events = calls.events ++ rest.events }

  -- One completion's message; `continue` is the next round.
  unfoldable pub on_message :
      (LoopState Args → World → Progress World Args)
      → LoopState Args
      → World
      → Option String
      → ModelMessage Args
      → List (Call Args)
      → Progress World Args
  unfolding before
  on_message continue s w finish_reason message [] =
      before (delta_of message.content) (answer s w message.content finish_reason)
  on_message continue s w finish_reason message (call ∷ calls) = before (delta_of message.content) (
      after_calls continue (
        run_calls env
          (record s { messages = s.messages ++ assistant message.content (call ∷ calls) ∷ [] }) w
          (call ∷ calls)))

  unfoldable pub on_choice :
      (LoopState Args → World → Progress World Args)
      → LoopState Args
      → World
      → Option String
      → Choice Args
      → Progress World Args
  on_choice continue s w finish_reason no_message =
      abort s w "backend returned a malformed completion"
  on_choice continue s w finish_reason (no_choice exc) =
      abort s w "backend returned a malformed completion"
  on_choice continue s w finish_reason (bad_message exc) = crash s w exc
  on_choice continue s w finish_reason (chosen message) =
      on_message continue s w finish_reason message message.tool_calls

  unfoldable pub thinking_of : LoopState Args → Usage → List (Event Args)
  thinking_of s u =
      if ltb 0 u.thinking_tokens then thinking_status s.total_usage.thinking_tokens ∷ [] else []

  unfoldable pub on_counted :
      (LoopState Args → World → Progress World Args)
      → LoopState Args
      → World
      → Option String
      → Choice Args
      → Counted
      → Progress World Args
  unfolding before on_choice
  on_counted continue s w finish_reason choice (counted u) =
      let s' = accumulate_usage env s u in
      before (thinking_of s' u) (on_choice continue s' w finish_reason choice)
  on_counted continue s w finish_reason choice (uncountable u exc) =
      crash (accumulate_usage env s u) w exc

  unfoldable pub on_outcome :
      (LoopState Args → World → Progress World Args)
      → LoopState Args
      → World
      → Outcome Args
      → Progress World Args
  unfolding on_counted
  on_outcome continue s w (raised e) = abort s w (concat ("backend request failed: " ∷ e ∷ []))
  on_outcome continue s w (answered response) =
      on_counted continue s w response.finish_reason response.message response.usage

  unfoldable pub sending : Payload Args → Progress World Args → Progress World Args
  sending payload p = record p { sent = payload ∷ p.sent }

  -- The last answer of a run at the ceiling.
  unfoldable pub last_answer : LoopState Args → World → String → Progress World Args
  last_answer s w final = record {
    state = record s { final_text = final; finish_reason = "length" };
    world = w;
    events = delta_of final ++ usage_event env s ∷ done "length" ∷ [];
    sent = [];
    raises = none;
  }

  unfoldable pub wrap_up_choice : LoopState Args → World → Choice Args → Progress World Args
  unfolding last_answer
  wrap_up_choice s w no_message = last_answer s w ""
  wrap_up_choice s w (no_choice exc) = crash s w exc
  wrap_up_choice s w (bad_message exc) = crash s w exc
  wrap_up_choice s w (chosen message) = last_answer s w message.content

  unfoldable pub wrap_up_counted :
      LoopState Args → World → Choice Args → Counted → Progress World Args
  unfolding wrap_up_choice
  wrap_up_counted s w choice (counted u) = wrap_up_choice (accumulate_usage env s u) w choice
  wrap_up_counted s w choice (uncountable u exc) = crash (accumulate_usage env s u) w exc

  -- After the forced completion at the iteration ceiling.
  unfoldable pub wrap_up : LoopState Args → World → Outcome Args → Progress World Args
  unfolding wrap_up_counted
  wrap_up s w (raised e) = abort s w (concat ("backend request failed: " ∷ e ∷ []))
  wrap_up s w (answered response) = wrap_up_counted s w response.message response.usage

  unfoldable pub ceiling : LoopState Args → World → Progress World Args
  unfolding before sending
  ceiling s w =
      let s' = record s {
        messages =
            s.messages
            ++ system
                "Tool budget exhausted. Give your best final answer now from what you have; state clearly what remains unverified."
              ∷ [];
      } in
      let payload : Payload Args = record { messages = s'.messages; allow_tools = false } in
      let (outcome, w') = env.complete w payload in
      before (ceiling_notice env.max_iterations ∷ []) (sending payload (wrap_up s' w' outcome))

  -- `for _iteration in range(...)`, by the rounds left.
  unfoldable pub rounds : ℕ → LoopState Args → World → Progress World Args
  unfolding sending
  rounds zero s w = ceiling s w
  rounds (suc n) s w =
      let payload : Payload Args = record { messages = s.messages; allow_tools = true } in
      let (outcome, w') = env.complete w payload in
      sending payload (on_outcome (λ s w. rounds n s w) s w' outcome)

  unfoldable pub run : List (Message Args) → World → Progress World Args
  run messages w = rounds env.max_iterations (fresh env messages) w

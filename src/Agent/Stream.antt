-- ===== src/Agent/Stream.antt =====
-- The event stream and the requests of a whole run (src/suiban/agent/loop.py).
use suiban.Prelude.{
  ℕ, zero, suc, ◌≡◌, refl, sym, subst, ◌∙◌, Bool, true, false, not, ◌&&◌, Option, none, some, List,
  [], ◌∷◌, ◌++◌, String, arith, if◌then◌else◌,
}
use mathlib.Core.List.{append_assoc}
use text.Mathlib.Text.{◌==◌ as str_eq}
use text.Mathlib.TextPositions.{eq_refl}
use suiban.Agent.Types.{
  Usage, Call, ModelMessage, Outcome, raised, answered, Counted, counted, uncountable, Choice,
  no_message, no_choice, bad_message, chosen, Message, Payload, Event, tool_call, tool_result, plan,
  done, Environment, LoopState,
}
use suiban.Agent.Calls.{
  Progress, accumulate_usage, usage_event, run_call, run_calls, dispatch_call, repair_call,
  abandon_call, execute_call,
}
use suiban.Agent.Loop.{
  abort, answer, after_calls, on_message, on_choice, on_outcome, wrap_up, ceiling, rounds, before,
  sending, delta_of, thinking_of, run, crash, on_counted, last_answer, wrap_up_choice,
  wrap_up_counted,
}

-- Reads a stream to its end: the call whose result is awaited, if any. The result is the finish reason
-- of its one `done`, where that comes last and every tool call has, next but for a plan, the one
-- result with its id and name.
abbrev pub read : {Args : Type 0} → Option (String × String) → List (Event Args) → Option String
read awaited [] = none
read none (done reason ∷ []) = some reason
read none (done reason ∷ e ∷ es) = none
read none (tool_call id name args ∷ es) = read (some (id, name)) es
read none (tool_result id name status summary token ∷ es) = none
read none (plan steps ∷ es) = none
read none (e ∷ es) = read none es
read (some (id, name)) (plan steps ∷ es) = read (some (id, name)) es
read (some (id, name)) (tool_result id' name' status summary token ∷ es) =
    let rest = read none es in if str_eq id id' && str_eq name name' then rest else none
read (some call) (e ∷ es) = none

module _ {World Args : Type 0} (env : Environment World Args) where
  read-dispatch_call :
      (s : LoopState Args) (w : World) (id name : String) (args : Args) (errors : List String)
      (rest : List (Event Args))
      → read none ((dispatch_call env s w id name args errors).events ++ rest) ≡ read none rest
  unfolding dispatch_call execute_call repair_call abandon_call
  read-dispatch_call s w id name args [] rest = ground (arith, eq_refl id, eq_refl name)
  read-dispatch_call s w id name args (e ∷ errors) rest = ground (arith, eq_refl id, eq_refl name)

  read-run_calls :
      (calls : List (Call Args)) (s : LoopState Args) (w : World) (rest : List (Event Args))
      → read none ((run_calls env s w calls).events ++ rest) ≡ read none rest
  unfolding run_calls run_call
  read-run_calls [] s w rest = refl
  read-run_calls (c ∷ calls) s w rest = rw append_assoc (
      read-dispatch_call _ w _ c.name _ _ _
      ∙ read-run_calls calls (run_call env s w c).state (run_call env s w c).world rest)

  read-delta_of :
      (content : String) (rest : List (Event Args))
      → read none (delta_of env content ++ rest) ≡ read none rest
  unfolding delta_of
  read-delta_of content rest = ground arith

  read-thinking_of :
      (s : LoopState Args) (u : Usage) (rest : List (Event Args))
      → read none (thinking_of env s u ++ rest) ≡ read none rest
  unfolding thinking_of
  read-thinking_of s u rest = ground arith

  read-usage_event :
      (s : LoopState Args) (reason : String)
      → read none (usage_event env s ∷ done reason ∷ []) ≡ some reason
  unfolding usage_event
  read-usage_event s reason = ground arith

-- At most `n` requests with tools, and after exactly `n` of them at most one without.
abbrev pub budgeted : {Args : Type 0} → ℕ → List (Payload Args) → Bool
budgeted n [] = true
budgeted zero (p ∷ []) = not p.allow_tools
budgeted zero (p ∷ q ∷ ps) = false
budgeted (suc n) (p ∷ ps) = let rest = budgeted n ps in p.allow_tools && rest

-- An answer on which reading it raises `exc`, which nothing catches.
abbrev pub ChoiceRaises : {Args : Type 0} → String → Choice Args → Type 0
ChoiceRaises exc no_message = ⊥
ChoiceRaises exc (no_choice e) = e ≡ exc
ChoiceRaises exc (bad_message e) = e ≡ exc
ChoiceRaises exc (chosen m) = ⊥

abbrev pub CountedRaises : {Args : Type 0} → String → Choice Args → Counted → Type 0
CountedRaises exc c (counted u) = ChoiceRaises exc c
CountedRaises exc c (uncountable u e) = e ≡ exc

abbrev pub Raises : {Args : Type 0} → String → Outcome Args → Type 0
Raises exc (raised e) = ⊥
Raises exc (answered r) = CountedRaises exc r.message r.usage

module _ {World Args : Type 0} (env : Environment World Args) where
  -- What a reader of a stream got from it, `got`, is the finish reason, or nothing, where an answer of the
  -- slot makes the run raise.
  abbrev pub Closes : Option String → (got : Option String) → String → Type 0
  Closes none got reason = got ≡ some reason
  Closes (some exc) got reason =
      (got ≡ none) × ((w : World) × ((p : Payload Args) × Raises exc (env.complete w p).0))

  Closes-same :
      (raises got got' : Option String) (reason : String)
      → got ≡ got'
      → Closes raises got' reason
      → Closes raises got reason
  Closes-same raises got got' reason e h = subst (λ g. Closes raises g reason) (sym e) h

  -- A stretch of a run that ends it, with `n` rounds left at its start.
  abbrev IsComplete : ℕ → Progress World Args → Type 0
  IsComplete n p =
      Closes p.raises (read none p.events) p.state.finish_reason × (budgeted n p.sent ≡ true)

  module _ (n : ℕ) (continue : LoopState Args → World → Progress World Args)
      (goes_on : (s : LoopState Args) (w : World) → IsComplete n (continue s w)) where
    message-IsComplete :
        (s : LoopState Args) (w : World) (reason : Option String) (m : ModelMessage Args)
        (calls : List (Call Args))
        → IsComplete n (on_message env continue s w reason m calls)
    unfolding on_message answer after_calls before
    message-IsComplete s w reason m [] =
        (read-delta_of env m.content _ ∙ read-usage_event env _ _, refl)
    message-IsComplete s w reason m (c ∷ calls) = (
      Closes-same _ _ _ _ (read-delta_of env m.content _ ∙ read-run_calls env (c ∷ calls) _ w _)
          (goes_on _ _).0,
      (goes_on _ _).1,
    )

    choice-IsComplete :
        (s : LoopState Args) (w : World) (reason : Option String) (m : Choice Args)
        → ((exc : String)
            → ChoiceRaises exc m
            → (v : World) × ((p : Payload Args) × Raises exc (env.complete v p).0))
        → IsComplete n (on_choice env continue s w reason m)
    unfolding on_choice abort crash
    choice-IsComplete s w reason no_message cause = (refl, refl)
    choice-IsComplete s w reason (no_choice exc) cause = (refl, refl)
    choice-IsComplete s w reason (bad_message exc) cause = ((refl, cause exc refl), refl)
    choice-IsComplete s w reason (chosen m) cause = message-IsComplete s w reason m m.tool_calls

    counted-IsComplete :
        (s : LoopState Args) (w : World) (reason : Option String) (m : Choice Args) (u : Counted)
        → ((exc : String)
            → CountedRaises exc m u
            → (v : World) × ((p : Payload Args) × Raises exc (env.complete v p).0))
        → IsComplete n (on_counted env continue s w reason m u)
    unfolding on_counted before crash
    counted-IsComplete s w reason m (counted u) cause =
        let rest = choice-IsComplete (accumulate_usage env s u) w reason m cause in
        (Closes-same _ _ _ _ (read-thinking_of env _ u _) rest.0, rest.1)
    counted-IsComplete s w reason m (uncountable u exc) cause = ((refl, cause exc refl), refl)

    outcome-IsComplete :
        (s : LoopState Args) (w : World) (o : Outcome Args) (v : World) (p : Payload Args)
        → (env.complete v p).0 ≡ o
        → IsComplete n (on_outcome env continue s w o)
    unfolding on_outcome abort
    outcome-IsComplete s w (raised e) v p said = (refl, refl)
    outcome-IsComplete s w (answered r) v p said =
        counted-IsComplete s w r.finish_reason r.message r.usage
          (λ exc h. (v, (p, subst (λ o. Raises exc o) (sym said) h)))

  abbrev Ends : Progress World Args → Type 0
  Ends p = Closes p.raises (read none p.events) p.state.finish_reason × (p.sent ≡ [])

  last_answer-Ends :
      (s : LoopState Args) (w : World) (final : String) → Ends (last_answer env s w final)
  unfolding last_answer
  last_answer-Ends s w final = (read-delta_of env _ _ ∙ read-usage_event env _ _, refl)

  choice-Ends :
      (s : LoopState Args) (w : World) (m : Choice Args)
      → ((exc : String)
          → ChoiceRaises exc m
          → (v : World) × ((p : Payload Args) × Raises exc (env.complete v p).0))
      → Ends (wrap_up_choice env s w m)
  unfolding wrap_up_choice crash
  choice-Ends s w no_message cause = last_answer-Ends s w ""
  choice-Ends s w (no_choice exc) cause = ((refl, cause exc refl), refl)
  choice-Ends s w (bad_message exc) cause = ((refl, cause exc refl), refl)
  choice-Ends s w (chosen m) cause = last_answer-Ends s w m.content

  counted-Ends :
      (s : LoopState Args) (w : World) (m : Choice Args) (u : Counted)
      → ((exc : String)
          → CountedRaises exc m u
          → (v : World) × ((p : Payload Args) × Raises exc (env.complete v p).0))
      → Ends (wrap_up_counted env s w m u)
  unfolding wrap_up_counted crash
  counted-Ends s w m (counted u) cause = choice-Ends (accumulate_usage env s u) w m cause
  counted-Ends s w m (uncountable u exc) cause = ((refl, cause exc refl), refl)

  wrap_up-Ends :
      (s : LoopState Args) (w : World) (o : Outcome Args) (v : World) (p : Payload Args)
      → (env.complete v p).0 ≡ o
      → Ends (wrap_up env s w o)
  unfolding wrap_up abort
  wrap_up-Ends s w (raised e) v p said = (refl, refl)
  wrap_up-Ends s w (answered r) v p said =
      counted-Ends s w r.message r.usage (λ exc h. (v, (p, subst (λ o. Raises exc o) (sym said) h)))

  rounds-IsComplete : (n : ℕ) (s : LoopState Args) (w : World) → IsComplete n (rounds env n s w)
  unfolding rounds ceiling sending before
  rounds-IsComplete zero s w = let ends = wrap_up-Ends _ _ _ _ _ refl in (ends.0, rw ends.1 refl)
  rounds-IsComplete (suc n) s w =
      outcome-IsComplete n (λ s w. rounds env n s w) (rounds-IsComplete n) s _ _ _ _ refl

-- A run ends. Its stream has exactly one `done`, which comes last and carries the run's finish reason, and
-- in it every tool call is followed, but for a plan, by its one result; or the run raises an exception that
-- reading an answer of the slot gives (a count that is no number, a message or, at the ceiling, a choice
-- without fields), and its stream has no `done` that is its end. It sends at most `max_iterations` requests
-- with tools, and after exactly so many at most one without.
pub run-read :
    {World Args : Type 0} (env : Environment World Args) (messages : List (Message Args))
    (w : World)
    → let p = run env messages w in
      Closes env p.raises (read none p.events) p.state.finish_reason
      × (budgeted env.max_iterations p.sent ≡ true)
unfolding run
run-read env messages w = rounds-IsComplete env env.max_iterations _ w
